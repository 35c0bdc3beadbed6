-- ===== src/Jit/Relo/Image.antt =====
-- The branches of the image go where the relocation says, and its other words are those of the
-- program (src/bpf/jit.c).
use nfp_drv_kmods.Base.{
  ℕ, ◌+◌, ◌*◌, ◌/◌, ◌-◌, ◌^◌, ◌%◌, ◌<◌, ◌≡◌, ◌≢◌, refl, ◌∙◌, ap, ap₂, ◌==◌, ==_iff, Bool-cases, inl,
  inr, Option, none, some, List, [], ◌∷◌, bit_and, bit_or, ◌<<<◌, u16, u64, Result, ok, cut,
  bit_and_split, bit_and_mask, bit_and-zero, bit_or_split, bit_or-zero, mod-pow-lt, arith,
}
use nfp_drv_kmods.Asm.Fields.{
  complement, br_get_offset, br_set_offset, br_add_offset, immed_add_value, check_valid_no_ecc,
  calc_ecc, ecc_from, ecc_polynomials,
}
use nfp_drv_kmods.Asm.Branch.{br_get_offset-value, br_get_offset-br_set_offset}
use nfp_drv_kmods.Jit.Relo.{
  Relo, relo_none, br_rel, br_go_out, br_go_abort, br_go_call_push_regs, br_go_call_pop_regs,
  br_next_pkt, br_helper, immed_rel, unknown, Load, helper_address, to_helper, to_known, relocate,
  relo_mask, relocated, kind, also, relocate_all, with_ecc, ustore_calc, calc_after, relo_for_vnic,
}

-- Where the branch of a word goes in the image, for the words that are branches.
abbrev pub target : Load → ℕ → Relo → Option ℕ
target l x br_rel = some (br_get_offset x + l.start_off)
target l x br_go_out = some (l.tgt_out + l.start_off)
target l x br_go_abort = some (l.tgt_abort + l.start_off)
target l x br_go_call_push_regs = some (l.tgt_call_push_regs + l.start_off)
target l x br_go_call_pop_regs = some (l.tgt_call_pop_regs + l.start_off)
target l x br_next_pkt = some l.tgt_done
target l x br_helper = helper_address l (br_get_offset x)
target l x relo_none = none
target l x immed_rel = none
target l x unknown = none

-- What a word needs besides: the targets of the registers are set, the helper is known, and an
-- immediate stays an instruction.
abbrev pub Known : Load → ℕ → Relo → Type 0
Known l x br_go_call_push_regs = l.tgt_call_push_regs ≢ 0
Known l x br_go_call_pop_regs = l.tgt_call_pop_regs ≢ 0
Known l x br_helper = (off : ℕ) × (helper_address l (br_get_offset x) ≡ some off)
Known l x immed_rel = immed_add_value x (u16 l.start_off) % 2 ^ 56 < 2 ^ 46
Known l x other = 0 < 1

abbrev pub Reachable : Option ℕ → Type 0
Reachable (some off) = off < 2 ^ 14
Reachable none = 0 < 1

-- A word of 64 bits, an instruction below the type of its relocation, that can be relocated.
pub record Loadable (l : Load) (x : ℕ) (k : Relo) : Type 0 where
  pub fits : x < 2 ^ 64
  pub plain : x % 2 ^ 56 < 2 ^ 46
  pub known : Known l x k
  pub near : Reachable (target l x k)

-- The instruction of a word that is no branch: an immediate of RELO_IMMED_REL has the offset of the
-- vNIC added, and every other word stays.
abbrev pub plain_word : Load → ℕ → Relo → ℕ
plain_word l x immed_rel = immed_add_value x (u16 l.start_off)
plain_word l x other = x

-- The word `y` stands for `x`. A branch has the address `off`, and the other bits below the ECC are
-- as they were: those below the address, the five above its low part, and the four above its high
-- bit. A word that is no branch is `w` below the ECC.
abbrev pub Branches : ℕ → ℕ → ℕ → Option ℕ → Type 0
Branches x w y (some off) =
    (br_get_offset y ≡ off)
    × (y % 2 ^ 22 ≡ x % 2 ^ 22)
    × (y / 2 ^ 35 % 2 ^ 5 ≡ x / 2 ^ 35 % 2 ^ 5)
    × (y / 2 ^ 41 % 2 ^ 4 ≡ x / 2 ^ 41 % 2 ^ 4)
Branches x w y none = y % 2 ^ 45 ≡ w % 2 ^ 45

clear_relo : (z : ℕ) → bit_and z (complement relo_mask) ≡ z % 2 ^ 56
clear_relo z = bit_and_mask 56 z

valid : (z : ℕ) → z < 2 ^ 46 → check_valid_no_ecc z ≡ none
unfolding check_valid_no_ecc
valid z h =
    let whole : z ≡ 0 * 2 ^ 46 + z = omega arith in
    let none_above : bit_and z (complement (2 ^ 46 - 1)) ≡ 0 =
      ap (λ (t : ℕ). bit_and t (complement (2 ^ 46 - 1))) whole
      ∙ bit_and_split 46 0 z (2 ^ 18 - 1) 0 h (omega arith)
      ∙ ap (λ (t : ℕ). 0 + t) (bit_and-zero z) in
    rw ((==_iff _ _).1 none_above) refl

-- The ECC leaves the 45 low bits.
ecc_low : (z : ℕ) → calc_ecc z % 2 ^ 45 ≡ z % 2 ^ 45
unfolding calc_ecc
ecc_low z =
    let e = ecc_from ecc_polynomials 0 z in
    let cut_ecc : u64 (e <<< 45) ≡ (e % 2 ^ 19) * 2 ^ 45 + 0 = omega arith in
    let both =
      ap₂ bit_or (cut 45 z) cut_ecc
      ∙ bit_or_split 45 (z / 2 ^ 45) (z % 2 ^ 45) (e % 2 ^ 19) 0 (mod-pow-lt 45 z) (omega arith)
      ∙ ap (λ (t : ℕ). bit_or (z / 2 ^ 45) (e % 2 ^ 19) * 2 ^ 45 + t) (bit_or-zero (z % 2 ^ 45)) in
    omega (arith, both)

-- What is read of a branch is below the bit 45.
same_low :
    (y z : ℕ)
    → y % 2 ^ 45 ≡ z % 2 ^ 45
    → (br_get_offset y ≡ br_get_offset z)
      × (y % 2 ^ 22 ≡ z % 2 ^ 22)
      × (y / 2 ^ 35 % 2 ^ 5 ≡ z / 2 ^ 35 % 2 ^ 5)
      × (y / 2 ^ 41 % 2 ^ 4 ≡ z / 2 ^ 41 % 2 ^ 4)
same_low y z h = (
  omega (arith, br_get_offset-value y, br_get_offset-value z),
  omega arith,
  omega arith,
  omega arith,
)

-- A word that was relocated, cleared of its type, as the image has it.
Made : ℕ → ℕ → Option ℕ → Result ℕ → Type 0
Made x w goal r = (z : ℕ) × (relocated r ≡ ok z) × (z < 2 ^ 46) × Branches x w (calc_ecc z) goal

branch-Made :
    (x w off : ℕ)
    → x < 2 ^ 64
    → x % 2 ^ 56 < 2 ^ 46
    → off < 2 ^ 14
    → Made x w (some off) (ok (br_set_offset x (u16 off)))
unfolding Made relocated
branch-Made x w off fits plain near =
    let word = br_set_offset x (u16 off) in
    let (got, low, middle, high) = br_get_offset-br_set_offset x (u16 off) fits (omega arith) in
    let (reads, same, between, above) =
      same_low (calc_ecc (word % 2 ^ 56)) word (omega (arith, ecc_low (word % 2 ^ 56))) in
    (
      word % 2 ^ 56,
      ap ok (clear_relo word),
      omega arith,
      (reads ∙ got ∙ omega arith, same ∙ low, between ∙ middle, omega (arith, above, high)),
    )

plain-Made : (x w : ℕ) → w % 2 ^ 56 < 2 ^ 46 → Made x w none (ok w)
unfolding Made relocated
plain-Made x w plain =
    (w % 2 ^ 56, ap ok (clear_relo w), plain, omega (arith, ecc_low (w % 2 ^ 56)))

known-Made :
    (x w tgt start : ℕ)
    → x < 2 ^ 64
    → x % 2 ^ 56 < 2 ^ 46
    → tgt ≢ 0
    → tgt + start < 2 ^ 14
    → Made x w (some (tgt + start)) (to_known x tgt start)
unfolding to_known
known-Made x w tgt start fits plain set near = elim (Bool-cases (tgt == 0)) [
  | inl e ↦ absurd (set ((==_iff tgt 0).0 e))
  | inr e ↦ rw e (branch-Made x w (tgt + start) fits plain near)
]

add-Made :
    (x w start : ℕ)
    → x < 2 ^ 64
    → x % 2 ^ 56 < 2 ^ 46
    → br_get_offset x + start < 2 ^ 14
    → Made x w (some (br_get_offset x + start)) (ok (br_add_offset x (u16 start)))
unfolding br_add_offset
add-Made x w start fits plain near =
    let e : u16 (br_get_offset x + u16 start) ≡ u16 (br_get_offset x + start) = omega arith in
    rw e (branch-Made x w (br_get_offset x + start) fits plain near)

helper-Made :
    (x w : ℕ) (o : Option ℕ)
    → x < 2 ^ 64
    → x % 2 ^ 56 < 2 ^ 46
    → (off : ℕ) × (o ≡ some off)
    → Reachable o
    → Made x w o (to_helper x o)
unfolding to_helper
helper-Made x w (some off) fits plain known near = branch-Made x w off fits plain near
helper-Made x w none fits plain (off, e) near = absurd (cc)

word-Made :
    (l : Load) (x : ℕ) (k : Relo)
    → Loadable l x k
    → Made x (plain_word l x k) (target l x k) (relocate l x k)
unfolding relocate
word-Made l x relo_none h = plain-Made x x h.plain
word-Made l x br_rel h = add-Made x _ l.start_off h.fits h.plain h.near
word-Made l x br_go_out h = branch-Made x _ _ h.fits h.plain h.near
word-Made l x br_go_abort h = branch-Made x _ _ h.fits h.plain h.near
word-Made l x br_go_call_push_regs h = known-Made x _ _ _ h.fits h.plain h.known h.near
word-Made l x br_go_call_pop_regs h = known-Made x _ _ _ h.fits h.plain h.known h.near
word-Made l x br_next_pkt h = branch-Made x _ _ h.fits h.plain h.near
word-Made l x br_helper h = helper-Made x _ _ h.fits h.plain h.known h.near
word-Made l x immed_rel h = plain-Made x _ h.known
word-Made l x unknown h = plain-Made x x h.plain

-- The image, word for word.
abbrev pub Each : Load → List ℕ → List ℕ → Type 0
Each l [] [] = 0 < 1
Each l (x ∷ prog) (y ∷ image) =
    Branches x (plain_word l x (kind x)) y (target l x (kind x)) × Each l prog image
Each l [] (y ∷ image) = ⊥
Each l (x ∷ prog) [] = ⊥

abbrev pub AllLoadable : Load → List ℕ → Type 0
AllLoadable l [] = 0 < 1
AllLoadable l (x ∷ prog) = Loadable l x (kind x) × AllLoadable l prog

-- The two loops.
loops-Each :
    (l : Load) (prog : List ℕ)
    → AllLoadable l prog
    → (words : List ℕ) × (relocate_all l prog ≡ ok words)
      × (image : List ℕ) × (ustore_calc words ≡ ok image)
      × Each l prog image
unfolding relocate_all also ustore_calc with_ecc Made
loops-Each l [] h = ([], refl, [], refl, omega arith)
loops-Each l (x ∷ prog) (here, there) =
    let (z, made, small, branches) = word-Made l x (kind x) here in
    let (words, e, image, f, each) = loops-Each l prog there in
    (z ∷ words, rw (made, e) refl, calc_ecc z ∷ image, rw (valid z small, f) refl, (branches, each))

-- Where each word can be relocated, nfp_bpf_relo_for_vnic gives an image with a word for each: a
-- branch goes to its target in the store, with the offset of the vNIC added unless the target is a
-- fixed address, and its bits below 45 that are not of the address are as they were; and every other
-- word has, below the bit 45, the bits it had, or with RELO_IMMED_REL those that immed_add_value
-- gives for the offset of the vNIC.
pub relo_for_vnic-Each :
    (l : Load) (prog : List ℕ)
    → AllLoadable l prog
    → (image : List ℕ) × (relo_for_vnic l prog ≡ ok image) × Each l prog image
unfolding relo_for_vnic calc_after
relo_for_vnic-Each l prog h =
    let (words, e, image, f, each) = loops-Each l prog h in (image, rw (e, f) refl, each)
