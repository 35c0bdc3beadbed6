-- ===== src/Abm/Cls/Map.antt =====
-- The words that `nfp_abm_update_band_map` (src/abm/cls.c) makes hold the band of each priority.
use native.Mathlib.Decide.{dec_lt}
use native.Mathlib.Nat.{
  mod-lt, div-add-mod, div-mul-le_self, le-div_iff_mul-le, mul-le-mul_right, add-mul, one-mul,
  two-pow-succ,
}
use mathlib.Core.Path.{subst}
use nfp_drv_kmods.Base.{
  ℕ, zero, suc, ◌+◌, ◌-◌, ◌*◌, ◌/◌, ◌%◌, ◌^◌, ◌<◌, ◌≤◌, ◌≡◌, refl, sym, ap, ◌∙◌, ◌==◌, ==-yes, inl,
  inr, Bool-cases, ==_iff, update, u8, u32, bit, bit-le, bit-bit_or, bit-bit_and, bit-shift_low,
  bit-shift_high, bit-ones, bit-inverse, bit-mod_pow, bit_and, arith, mod-pow-lt,
}
use nfp_drv_kmods.Abm.Cls.{
  Abm, Link, find_band, inv32, set_band, bits_per_prio, base_shift, fill_map, update_band_map,
}

-- A bit of the mask of a word without a field.
inv32-bit : (k y : ℕ) → k < 32 → bit k (inv32 y) ≡ 1 - bit k y
inv32-bit k y l =
    bit-inverse 32 k (y % 2 ^ 32) (mod-pow-lt 32 y) l ∙ ap (λ (t : ℕ). 1 - t) (bit-mod_pow 32 k y l)

-- In the field stand the bits of the band.
set_band-inside :
    (bits offset word band j : ℕ)
    → j < bits
    → offset + bits ≤ 32
    → bit (offset + j) (set_band bits offset word band) ≡ bit j band
unfolding set_band
set_band-inside bits offset word band j l room =
    let k = offset + j in
    let mask = (2 ^ bits - 1) * 2 ^ offset in
    omega (
      arith,
      bit-bit_or (offset + j) (bit_and word (inv32 mask)) (u32 (band * 2 ^ offset)),
      bit-mod_pow 32 (offset + j) (band * 2 ^ offset) (omega arith),
      bit-bit_and (offset + j) word (inv32 mask),
      inv32-bit (offset + j) mask (omega arith),
      bit-shift_high (offset + j) offset j (2 ^ bits - 1) refl,
      bit-ones bits j l,
      bit-shift_high (offset + j) offset j band refl,
    )

-- The bits below it stay.
set_band-below :
    (bits offset word band k : ℕ)
    → k < offset
    → offset ≤ 32
    → bit k (set_band bits offset word band) ≡ bit k word
unfolding set_band
set_band-below bits offset word band k l room =
    let mask = (2 ^ bits - 1) * 2 ^ offset in
    omega (
      arith,
      bit-bit_or k (bit_and word (inv32 mask)) (u32 (band * 2 ^ offset)),
      bit-mod_pow 32 k (band * 2 ^ offset) (omega arith),
      bit-bit_and k word (inv32 mask),
      inv32-bit k mask (omega arith),
      bit-shift_low k offset (2 ^ bits - 1) l,
      bit-shift_low k offset band l,
      bit-le k word,
    )

-- A field of `bits` ends in its word, and before the next field.
field-room : (bits i per : ℕ) → 0 < per → per * bits ≤ 32 → i % per * bits + bits ≤ 32
field-room bits i per pos room =
    let below : i % per + 1 ≤ per = omega (arith, mod-lt i pos) in
    omega (arith, mul-le-mul_right bits below, add-mul (i % per) 1 bits, one-mul bits)

fields-order :
    (bits per p i k : ℕ)
    → 0 < per
    → p < i
    → p / per ≡ i / per
    → k < bits
    → p % per * bits + k < i % per * bits
fields-order bits per p i k pos l same small =
    let word : per * (p / per) ≡ per * (i / per) = ap (λ (t : ℕ). per * t) same in
    let below : p % per + 1 ≤ i % per = omega (arith, div-add-mod p per, div-add-mod i per, word) in
    omega (arith, mul-le-mul_right bits below, add-mul (p % per) 1 bits, one-mul bits)

per_word-pos : (bits : ℕ) → 0 < bits → bits ≤ 32 → 0 < 32 / bits
per_word-pos bits pos room =
    let one_fits : 1 ≤ 32 / bits = (le-div_iff_mul-le pos).1 (omega (arith, one-mul bits)) in
    omega (arith, one_fits)

module _ (order_base_2 roundup_pow_of_two : ℕ → ℕ) (abm : Abm) (alink : Link)
    (pos : 0 < bits_per_prio order_base_2 roundup_pow_of_two abm)
    (room : bits_per_prio order_base_2 roundup_pow_of_two abm ≤ 32) where
  abbrev bits : ℕ
  bits = bits_per_prio order_base_2 roundup_pow_of_two abm

  abbrev per_word : ℕ
  per_word = 32 / bits

  -- The band that the source computes for a priority.
  abbrev pub band_of : ℕ → ℕ
  band_of i = u8 (
      find_band alink.dscp_map alink.def_band
        (u32 (i * 2 ^ base_shift order_base_2 roundup_pow_of_two abm)))

  -- The words after the step for `i`.
  abbrev stepped : ℕ → (ℕ → ℕ) → ℕ → ℕ
  stepped i prio_map =
      update prio_map (i / per_word)
        (set_band bits (i % per_word * bits) (prio_map (i / per_word)) (band_of i))

  word-room : (i : ℕ) → i % per_word * bits + bits ≤ 32
  word-room i = field-room bits i per_word (per_word-pos bits pos room) (div-mul-le_self 32 bits)

  -- A step leaves the fields of the priorities before it.
  stepped-before :
      (i p k : ℕ) (prio_map : ℕ → ℕ)
      → p < i
      → k < bits
      → bit (p % per_word * bits + k) (stepped i prio_map (p / per_word))
        ≡ bit (p % per_word * bits + k) (prio_map (p / per_word))
  stepped-before i p k prio_map l small = elim (Bool-cases (i / per_word == p / per_word)) [
    | inr other ↦ rw other refl
    | inl is ↦
        let same : i / per_word ≡ p / per_word = (==_iff (i / per_word) (p / per_word)).0 is in
        let below =
          fields-order bits per_word p i k (per_word-pos bits pos room) l (sym same) small in
        let fits = word-room i in
        rw is (
          set_band-below bits (i % per_word * bits) (prio_map (i / per_word)) (band_of i)
            (p % per_word * bits + k) below (omega (arith, fits))
          ∙ ap (λ (t : ℕ). bit (p % per_word * bits + k) (prio_map t)) same)
  ]

  stepped-field :
      (i k : ℕ) (prio_map : ℕ → ℕ)
      → k < bits
      → bit (i % per_word * bits + k) (stepped i prio_map (i / per_word)) ≡ bit k (band_of i)
  stepped-field i k prio_map small = rw (==-yes (i / per_word) (i / per_word) refl) (
      set_band-inside bits (i % per_word * bits) (prio_map (i / per_word)) (band_of i) k small
        (word-room i))

  fill-before :
      (cnt i p k : ℕ) (prio_map : ℕ → ℕ)
      → p < i
      → k < bits
      → bit
          (p % per_word * bits + k)
          (fill_map order_base_2 roundup_pow_of_two abm alink i cnt prio_map (p / per_word))
        ≡ bit (p % per_word * bits + k) (prio_map (p / per_word))
  unfolding fill_map
  fill-before zero i p k prio_map l small = refl
  fill-before (suc cnt) i p k prio_map l small =
      fill-before cnt (i + 1) p k (stepped i prio_map) (omega arith) small
      ∙ stepped-before i p k prio_map l small

  fill-field :
      (cnt i p k : ℕ) (prio_map : ℕ → ℕ)
      → i ≤ p
      → p < i + cnt
      → k < bits
      → bit
          (p % per_word * bits + k)
          (fill_map order_base_2 roundup_pow_of_two abm alink i cnt prio_map (p / per_word))
        ≡ bit k (band_of p)
  unfolding fill_map
  fill-field zero i p k prio_map low high small = let no : ⊥ = omega arith in absurd no
  fill-field (suc cnt) i p k prio_map low high small = elim (dec_lt i p) [
    | yes l ↦ fill-field cnt (i + 1) p k (stepped i prio_map) (omega arith) (omega arith) small
    | no l ↦
        let same : p ≡ i = omega arith in
        fill-before cnt (i + 1) p k (stepped i prio_map) (omega arith) small
        ∙ subst
            (λ (t : ℕ).
              bit (t % per_word * bits + k) (stepped i prio_map (t / per_word)) ≡ bit k (band_of t))
            (sym same) (stepped-field i k prio_map small)
  ]

plus_zero : (n : ℕ) → n ≡ 0 + n
plus_zero n = omega arith

two_pow : (m n : ℕ) → 2 ^ m * 2 ^ n ≡ 2 ^ (m + n)
two_pow zero n =
    let one : 2 ^ 0 * 2 ^ n ≡ 2 ^ n = one-mul (2 ^ n) in one ∙ ap (λ (t : ℕ). 2 ^ t) (plus_zero n)
two_pow (suc m) n =
    let next : suc m + n ≡ suc (m + n) = omega arith in
    let left : 2 ^ suc m ≡ 2 ^ m + 2 ^ m = two-pow-succ m in
    let right : 2 ^ suc (m + n) ≡ 2 ^ (m + n) + 2 ^ (m + n) = two-pow-succ (m + n) in
    let twice : (2 ^ m + 2 ^ m) * 2 ^ n ≡ 2 ^ (m + n) + 2 ^ (m + n) =
      omega (arith, add-mul (2 ^ m) (2 ^ m) (2 ^ n), two_pow m n) in
    ap (λ (t : ℕ). t * 2 ^ n) left ∙ twice ∙ sym right ∙ ap (λ (t : ℕ). 2 ^ t) (sym next)

-- The priorities are shifted to the top of a byte.
base_shift-top :
    (order_base_2 roundup_pow_of_two : ℕ → ℕ) (abm : Abm) (p : ℕ)
    → order_base_2 abm.num_prios ≤ 8
    → abm.num_prios ≤ 2 ^ order_base_2 abm.num_prios
    → p < abm.num_prios
    → u32 (p * 2 ^ base_shift order_base_2 roundup_pow_of_two abm)
      ≡ p * 2 ^ (8 - order_base_2 abm.num_prios)
base_shift-top order_base_2 roundup_pow_of_two abm p few covers l =
    let order = order_base_2 abm.num_prios in
    let shift : base_shift order_base_2 roundup_pow_of_two abm ≡ 8 - order = omega arith in
    let total : order + (8 - order) ≡ 8 = omega arith in
    let whole : 2 ^ order * 2 ^ (8 - order) ≡ 2 ^ 8 =
      two_pow order (8 - order) ∙ ap (λ (t : ℕ). 2 ^ t) total in
    let low : p ≤ 2 ^ order = omega arith in
    let small : p * 2 ^ (8 - order) ≤ 2 ^ 8 =
      omega (arith, mul-le-mul_right (2 ^ (8 - order)) (low), whole) in
    ap (λ (t : ℕ). u32 (p * 2 ^ t)) shift ∙ omega (arith, small)

-- Where a field has at least one bit and at most 16, `order_base_2` is at most 8 for the number of
-- priorities, and 2 to it is at least that number, each bit of the field of each priority below
-- `num_prios` is, after `nfp_abm_update_band_map`, that of the band that
-- `nfp_abm_find_band_for_prio` gives, as a byte, for the priority at the top bits of a byte.
pub update_band_map-field :
    (order_base_2 roundup_pow_of_two : ℕ → ℕ) (abm : Abm) (alink : Link) (p k : ℕ)
    → 0 < bits_per_prio order_base_2 roundup_pow_of_two abm
    → bits_per_prio order_base_2 roundup_pow_of_two abm ≤ 16
    → order_base_2 abm.num_prios ≤ 8
    → abm.num_prios ≤ 2 ^ order_base_2 abm.num_prios
    → p < abm.num_prios
    → k < bits_per_prio order_base_2 roundup_pow_of_two abm
    → let bits = bits_per_prio order_base_2 roundup_pow_of_two abm in
      bit
        (p % (32 / bits) * bits + k)
        ((update_band_map order_base_2 roundup_pow_of_two abm alink).prio_map (p / (32 / bits)))
      ≡ bit k
          (u8 (find_band alink.dscp_map alink.def_band (p * 2 ^ (8 - order_base_2 abm.num_prios))))
unfolding update_band_map
update_band_map-field order_base_2 roundup_pow_of_two abm alink p k pos room few covers l small =
    fill-field order_base_2 roundup_pow_of_two abm alink pos (omega arith) abm.num_prios 0 p k
      alink.prio_map (omega arith) (omega arith) small
    ∙ ap (λ (t : ℕ). bit k (u8 (find_band alink.dscp_map alink.def_band t)))
        (base_shift-top order_base_2 roundup_pow_of_two abm p few covers l)
