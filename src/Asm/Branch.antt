-- ===== src/Asm/Branch.antt =====
-- The offset of a branch that src/nfp_asm.c writes is the one that it reads back.
use nfp_drv_kmods.Base.{
  differ, ℕ, ◌+◌, ◌*◌, ◌/◌, ◌%◌, ◌^◌, ◌-◌, ◌<◌, ◌≡◌, ◌∙◌, sym, ap, ap₂, refl, ◌==◌, if◌then◌else◌,
  Bool-cases, ==_iff, inl, inr, bit_and, bit_or, ◌>>>◌, u16, cut, bit_and_split, bit_or_split,
  bit_and_mask, clear_field, fill_field, test_bit, bit_or_below, bit_or-zero, bit_and-ones,
  bit_and-zero, mod-pow-lt, arith,
}
use nfp_drv_kmods.Asm.Fields.{
  field_get, field_prep, complement, op_br_addr_lo, op_br_addr_hi, br_get_offset, br_set_offset,
}

get_lo : (y : ℕ) → field_get op_br_addr_lo 22 y ≡ y / 2 ^ 22 % 2 ^ 13
get_lo y =
    let e : bit_and y 0x007ffc00000 ≡ y / 2 ^ 22 % 2 ^ 13 * 2 ^ 22 + 0 =
      ap (λ (t : ℕ). bit_and t 0x007ffc00000) (cut 22 y)
      ∙ bit_and_split 22 (y / 2 ^ 22) (y % 2 ^ 22) (2 ^ 13 - 1) 0 (mod-pow-lt 22 y) (omega arith)
      ∙ ap₂ (λ (t u : ℕ). t * 2 ^ 22 + u) (bit_and_mask 13 (y / 2 ^ 22))
          (bit_and-zero (y % 2 ^ 22)) in
    omega arith

get_hi : (y : ℕ) → field_get op_br_addr_hi 40 y ≡ y / 2 ^ 40 % 2
get_hi y = omega (arith, test_bit 40 y)

prep_lo : (v : ℕ) → v < 2 ^ 13 → field_prep op_br_addr_lo 22 v ≡ v * 2 ^ 22
prep_lo v h =
    let e : bit_and (v * 2 ^ 22 + 0) ((2 ^ 13 - 1) * 2 ^ 22 + 0) ≡ v * 2 ^ 22 + 0 =
      bit_and_split 22 v 0 (2 ^ 13 - 1) 0 (omega arith) (omega arith)
      ∙ ap₂ (λ (t u : ℕ). t * 2 ^ 22 + u) (bit_and-ones 13 v h) refl in
    let z : v * 2 ^ 22 ≡ v * 2 ^ 22 + 0 = omega arith in
    ap (λ (t : ℕ). bit_and t op_br_addr_lo) z ∙ e ∙ sym z

prep_hi : (v : ℕ) → v < 2 → field_prep op_br_addr_hi 40 v ≡ v * 2 ^ 40
prep_hi v h = omega (arith, test_bit 40 (v * 2 ^ 40))

-- Both fields are cleared.
clear_lem :
    (x : ℕ)
    → x < 2 ^ 64
    → bit_and x (complement (bit_or op_br_addr_hi op_br_addr_lo))
      ≡ x / 2 ^ 40 / 2 * 2 * 2 ^ 40
        + ((x % 2 ^ 40 / 2 ^ 22 / 2 ^ 13 * 2 ^ 13 + 0) * 2 ^ 22 + x % 2 ^ 40 % 2 ^ 22)
clear_lem x fits =
    ap (λ (t : ℕ). bit_and t (complement (bit_or op_br_addr_hi op_br_addr_lo))) (cut 40 x)
    ∙ bit_and_split 40 (x / 2 ^ 40) (x % 2 ^ 40) ((2 ^ 23 - 1) * 2)
        (((2 ^ 5 - 1) * 2 ^ 13 + 0) * 2 ^ 22 + (2 ^ 22 - 1)) (mod-pow-lt 40 x) (omega arith)
    ∙ ap₂ (λ (t u : ℕ). t * 2 ^ 40 + u) upper (clear_field 22 13 5 (x % 2 ^ 40) (omega arith))
  where
    upper : bit_and (x / 2 ^ 40) ((2 ^ 23 - 1) * 2) ≡ x / 2 ^ 40 / 2 * 2
    upper =
        ap (λ (t : ℕ). bit_and t ((2 ^ 23 - 1) * 2)) (cut 1 (x / 2 ^ 40))
        ∙ bit_and_split 1 (x / 2 ^ 40 / 2) (x / 2 ^ 40 % 2) (2 ^ 23 - 1) 0 (omega arith)
            (omega arith)
        ∙ ap₂ (λ (t u : ℕ). t * 2 + u) (bit_and-ones 23 (x / 2 ^ 40 / 2) (omega arith))
            (bit_and-zero (x / 2 ^ 40 % 2))
        ∙ omega arith

-- A number below the bit 40, with bits above it and a field added.
or_above :
    (q hi t : ℕ)
    → t < 2 ^ 40
    → hi < 2
    → bit_or (q * 2 * 2 ^ 40 + t) (hi * 2 ^ 40) ≡ (q * 2 + hi) * 2 ^ 40 + t
or_above q hi t ht hh =
    let e : hi * 2 ^ 40 ≡ hi * 2 ^ 40 + 0 = omega arith in
    ap (bit_or (q * 2 * 2 ^ 40 + t)) e
    ∙ bit_or_split 40 (q * 2) t hi 0 ht (omega arith)
    ∙ ap₂ (λ (a u : ℕ). a * 2 ^ 40 + u) (bit_or_below 1 q (q * 2) hi refl hh) (bit_or-zero t)

or_below :
    (q t v : ℕ) → t < 2 ^ 40 → v < 2 ^ 40 → bit_or (q * 2 ^ 40 + t) v ≡ q * 2 ^ 40 + bit_or t v
or_below q t v ht hv =
    let e : v ≡ 0 * 2 ^ 40 + v = omega arith in
    ap (bit_or (q * 2 ^ 40 + t)) e
    ∙ bit_or_split 40 q t 0 v ht hv
    ∙ ap (λ (a : ℕ). a * 2 ^ 40 + bit_or t v) (bit_or-zero q)

-- Both fields are filled.
fill_lem :
    (q s hi lo : ℕ)
    → s < 2 ^ 40
    → hi < 2
    → lo < 2 ^ 13
    → bit_or
        (bit_or
          (q * 2 * 2 ^ 40 + ((s / 2 ^ 22 / 2 ^ 13 * 2 ^ 13 + 0) * 2 ^ 22 + s % 2 ^ 22))
          (hi * 2 ^ 40))
        (lo * 2 ^ 22)
      ≡ (q * 2 + hi) * 2 ^ 40 + ((s / 2 ^ 22 / 2 ^ 13 * 2 ^ 13 + lo) * 2 ^ 22 + s % 2 ^ 22)
fill_lem q s hi lo hs hh hl =
    ap (λ (t : ℕ). bit_or t (lo * 2 ^ 22)) (or_above q hi _ (omega arith) hh)
    ∙ or_below (q * 2 + hi) _ (lo * 2 ^ 22) (omega arith) (omega arith)
    ∙ ap (λ (t : ℕ). (q * 2 + hi) * 2 ^ 40 + t)
        (fill_field 22 13 (s / 2 ^ 22 / 2 ^ 13) (s % 2 ^ 22) lo (omega arith) hl)

br_set_offset-value :
    (x offset hi : ℕ)
    → x < 2 ^ 64
    → hi < 2
    → (if offset == offset % 2 ^ 13 then 0 else 1) ≡ hi
    → br_set_offset x offset
      ≡ (x / 2 ^ 40 / 2 * 2 + hi) * 2 ^ 40
        + ((x % 2 ^ 40 / 2 ^ 22 / 2 ^ 13 * 2 ^ 13 + offset % 2 ^ 13) * 2 ^ 22 + x % 2 ^ 40 % 2 ^ 22)
unfolding br_set_offset
br_set_offset-value x offset hi fits bit is =
    let low : bit_and offset (op_br_addr_lo >>> 22) ≡ offset % 2 ^ 13 = bit_and_mask 13 offset in
    rw (low, is, clear_lem x fits, prep_hi hi bit, prep_lo (offset % 2 ^ 13) (omega arith))
      (fill_lem (x / 2 ^ 40 / 2) (x % 2 ^ 40) hi (offset % 2 ^ 13) (omega arith) bit (omega arith))

pub br_get_offset-value : (y : ℕ) → br_get_offset y ≡ y / 2 ^ 40 % 2 * 2 ^ 13 + y / 2 ^ 22 % 2 ^ 13
unfolding br_get_offset
br_get_offset-value y =
    let e : bit_or (y / 2 ^ 40 % 2 * 2 ^ 13) (y / 2 ^ 22 % 2 ^ 13)
        ≡ y / 2 ^ 40 % 2 * 2 ^ 13 + y / 2 ^ 22 % 2 ^ 13 =
      bit_or_below 13 (y / 2 ^ 40 % 2) _ _ refl (omega arith) in
    rw (get_lo y, get_hi y) (ap u16 e ∙ omega arith)

-- What the fields of a number with both fields filled are.
fields :
    (x y hi lo : ℕ)
    → hi < 2
    → lo < 2 ^ 13
    → y
      ≡ (x / 2 ^ 40 / 2 * 2 + hi) * 2 ^ 40
        + ((x % 2 ^ 40 / 2 ^ 22 / 2 ^ 13 * 2 ^ 13 + lo) * 2 ^ 22 + x % 2 ^ 40 % 2 ^ 22)
    → (y / 2 ^ 40 % 2 * 2 ^ 13 + y / 2 ^ 22 % 2 ^ 13 ≡ hi * 2 ^ 13 + lo)
      × (y % 2 ^ 22 ≡ x % 2 ^ 22)
      × (y / 2 ^ 35 % 2 ^ 5 ≡ x / 2 ^ 35 % 2 ^ 5)
      × (y / 2 ^ 41 ≡ x / 2 ^ 41)
fields x y hi lo hh hl e = (omega arith, omega arith, omega arith, omega arith)

high_bit :
    (offset : ℕ)
    → offset < 2 ^ 14
    → (hi : ℕ) × (hi < 2)
      × ((if offset == offset % 2 ^ 13 then 0 else 1) ≡ hi)
      × (hi * 2 ^ 13 + offset % 2 ^ 13 ≡ offset)
high_bit offset room = elim (Bool-cases (offset == offset % 2 ^ 13)) [
  | inl e ↦
      let d = (==_iff offset (offset % 2 ^ 13)).0 e in (0, omega arith, rw e refl, omega arith)
  | inr e ↦ let d = differ offset (offset % 2 ^ 13) e in (1, omega arith, rw e refl, omega arith)
]

-- In an instruction of 64 bits, an offset below 2 ^ 14 that `br_set_offset` writes is the one that
-- `br_get_offset` reads, and the other bits, the 22 low ones, the five between the fields and those
-- above the bit 40, stay.
pub br_get_offset-br_set_offset :
    (instr offset : ℕ)
    → instr < 2 ^ 64
    → offset < 2 ^ 14
    → (br_get_offset (br_set_offset instr offset) ≡ offset)
      × (br_set_offset instr offset % 2 ^ 22 ≡ instr % 2 ^ 22)
      × (br_set_offset instr offset / 2 ^ 35 % 2 ^ 5 ≡ instr / 2 ^ 35 % 2 ^ 5)
      × (br_set_offset instr offset / 2 ^ 41 ≡ instr / 2 ^ 41)
br_get_offset-br_set_offset instr offset fits room =
    let (hi, bit, is, whole) = high_bit offset room in
    let (value, low, middle, high) =
      fields instr (br_set_offset instr offset) hi (offset % 2 ^ 13) bit (omega arith)
        (br_set_offset-value instr offset hi fits bit is) in
    (br_get_offset-value (br_set_offset instr offset) ∙ value ∙ whole, low, middle, high)
