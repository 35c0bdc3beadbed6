-- ===== src/Jit/Wrap/Pack.antt =====
-- When one `immed` instruction is enough (`pack_immed` of src/bpf/jit.c).
use nfp_drv_kmods.Base.{
  ℕ, zero, suc, ◌+◌, ◌*◌, ◌/◌, ◌-◌, ◌^◌, ◌%◌, ◌<◌, ◌≤◌, ◌≡◌, ◌≢◌, ◌∙◌, ap, ap₂, false, ◌==◌, ==_iff,
  Bool-cases, inl, inr, Option, none, some, bit_and, cut, bit_and_split, bit_and_mask, bit_and-zero,
  bit_and-ones, mod-pow-lt, arith, differ,
}
use nfp_drv_kmods.Jit.Wrap.{pack_immed}

-- The masks by division.
high_half : (x : ℕ) → x < 2 ^ 32 → bit_and x 0xffff0000 ≡ x / 2 ^ 16 * 2 ^ 16
high_half x h =
    ap (λ (t : ℕ). bit_and t 0xffff0000) (cut 16 x)
    ∙ bit_and_split 16 (x / 2 ^ 16) (x % 2 ^ 16) (2 ^ 16 - 1) 0 (mod-pow-lt 16 x) (omega arith)
    ∙ ap₂ (λ (t u : ℕ). t * 2 ^ 16 + u) (bit_and-ones 16 (x / 2 ^ 16) (omega arith))
        (bit_and-zero (x % 2 ^ 16))
    ∙ omega arith

low_half : (x : ℕ) → bit_and x 0x0000ffff ≡ x % 2 ^ 16
low_half x = bit_and_mask 16 x

outer : (x : ℕ) → x < 2 ^ 32 → bit_and x 0xff0000ff ≡ x / 2 ^ 24 * 2 ^ 24 + x % 2 ^ 8
outer x h =
    ap (λ (t : ℕ). bit_and t 0xff0000ff) (cut 24 x)
    ∙ bit_and_split 24 (x / 2 ^ 24) (x % 2 ^ 24) (2 ^ 8 - 1) (2 ^ 8 - 1) (mod-pow-lt 24 x)
        (omega arith)
    ∙ ap₂ (λ (t u : ℕ). t * 2 ^ 24 + u) (bit_and-ones 8 (x / 2 ^ 24) (omega arith))
        (bit_and_mask 8 (x % 2 ^ 24))
    ∙ omega arith

-- No shift of a 16-bit value passes one of the three tests.
none_fits :
    (imm val shift : ℕ)
    → imm < 2 ^ 32
    → (bit_and imm 0xffff0000 == 0) ≡ false
    → (bit_and imm 0xff0000ff == 0) ≡ false
    → (bit_and imm 0x0000ffff == 0) ≡ false
    → val < 2 ^ 16
    → shift ≤ 2
    → imm ≢ val * 2 ^ (8 * shift)
none_fits imm val zero h a b c small few is = differ _ _ a (omega (arith, high_half imm h))
none_fits imm val (suc zero) h a b c small few is = differ _ _ b (omega (arith, outer imm h))
none_fits imm val (suc (suc zero)) h a b c small few is = differ _ _ c (omega (arith, low_half imm))
none_fits imm val (suc (suc (suc n))) h a b c small few is = absurd (omega arith)

-- What a packed immediate is.
abbrev pub Packed : ℕ → Option (ℕ × ℕ) → Type 0
Packed imm (some (val, shift)) = (val < 2 ^ 16) × (shift ≤ 2) × (imm ≡ val * 2 ^ (8 * shift))
Packed imm none = (val shift : ℕ) → val < 2 ^ 16 → shift ≤ 2 → imm ≢ val * 2 ^ (8 * shift)

-- For a 32-bit immediate, pack_immed gives a 16-bit value and a shift of at most two bytes with the
-- immediate as the value shifted, and gives nothing exactly when there are none.
pub pack_immed-Packed : (imm : ℕ) → imm < 2 ^ 32 → Packed imm (pack_immed imm)
unfolding pack_immed
pack_immed-Packed imm h = elim (Bool-cases (bit_and imm 0xffff0000 == 0)) [
  | inl a ↦ rw a (omega arith, omega arith, omega (arith, (==_iff _ _).0 a, high_half imm h))
  | inr a ↦ rw a (elim (Bool-cases (bit_and imm 0xff0000ff == 0)) [
    | inl b ↦ rw b (omega arith, omega arith, omega (arith, (==_iff _ _).0 b, outer imm h))
    | inr b ↦ rw b (elim (Bool-cases (bit_and imm 0x0000ffff == 0)) [
      | inl c ↦ rw c (omega arith, omega arith, omega (arith, (==_iff _ _).0 c, low_half imm))
      | inr c ↦ rw c (λ val shift small few. none_fits imm val shift h a b c small few)
    ])
  ])
]
