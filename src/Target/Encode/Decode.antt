-- ===== src/Target/Encode/Decode.antt =====
-- What the bit operations of src/nfpcore/nfp_target.c do to an address, as arithmetic.
use nfp_drv_kmods.Base.{
  ℕ, suc, ◌+◌, ◌-◌, ◌*◌, ◌/◌, ◌%◌, ◌^◌, ◌<◌, ◌≡◌, ◌∙◌, ap, ap₂, refl, true, false, bit_and, bit_or,
  ==-yes, ==-no, clear_field, fill_field, replace_field, bit_and_mask, test_bit, set_bit,
  bit_and_split, bit_and-ones, bit_and-zero, mod-pow-lt, pow-pos, arith,
}
use native.Mathlib.Nat.{pow-suc, mod-eq_of_lt}
use nfp_drv_kmods.Target.Encode.{genmask, not64, has_bit, put_island, place, decode_indexed, not32}

-- An address with the bits from `lo` on replaced: `n` bits that hold `v`, below the old upper part.
abbrev pub replaced : ℕ → ℕ → ℕ → ℕ → ℕ
replaced addr lo n v = (addr / 2 ^ lo / 2 ^ n * 2 ^ n + v) * 2 ^ lo + addr % 2 ^ lo

island_value : (lo v : ℕ) → v < 64 → bit_and (v * 2 ^ lo) (63 * 2 ^ lo) ≡ v * 2 ^ lo
island_value lo v h =
    let x : v * 2 ^ lo ≡ v * 2 ^ lo + 0 = omega arith in
    let y : 63 * 2 ^ lo ≡ 63 * 2 ^ lo + 0 = omega arith in
    ap₂ bit_and x y
    ∙ bit_and_split lo v 0 63 0 (pow-pos lo) (pow-pos lo)
    ∙ ap₂ (λ (t u : ℕ). t * 2 ^ lo + u) (bit_and-ones 6 v h) (bit_and-zero 0)
    ∙ omega arith

module _ (addr dest : ℕ) (wide : addr < 2 ^ 64) (small : dest < 64) where
  put_island_with :
      (lo w : ℕ)
      → not64 (genmask (lo + 5) lo) ≡ ((2 ^ w - 1) * 2 ^ 6 + 0) * 2 ^ lo + (2 ^ lo - 1)
      → genmask (lo + 5) lo ≡ 63 * 2 ^ lo
      → dest * 2 ^ lo < 2 ^ 64
      → addr / 2 ^ lo / 2 ^ 6 < 2 ^ w
      → put_island addr lo dest ≡ replaced addr lo 6 dest
  put_island_with lo w mask ones fits above =
      ap₂ (λ (m v : ℕ). bit_or (bit_and addr m) v) mask
        (ap₂ bit_and (mod-eq_of_lt fits) ones ∙ island_value lo dest small)
      ∙ replace_field lo 6 w addr dest above small

  pub put_island-34 : put_island addr 34 dest ≡ replaced addr 34 6 dest
  put_island-34 = put_island_with 34 24 refl refl (omega arith) (omega arith)

  pub put_island-26 : put_island addr 26 dest ≡ replaced addr 26 6 dest
  put_island-26 = put_island_with 26 32 refl refl (omega arith) (omega arith)

  pub put_island-32 : put_island addr 32 dest ≡ replaced addr 32 6 dest
  put_island-32 = put_island_with 32 26 refl refl (omega arith) (omega arith)

  pub put_island-24 : put_island addr 24 dest ≡ replaced addr 24 6 dest
  put_island-24 = put_island_with 24 34 refl refl (omega arith) (omega arith)

-- The Index bit `i` and the low bits `v` of the island, in one field.
placed :
    (lo s w addr i v : ℕ)
    → i < 2
    → v < 2 ^ s
    → addr / 2 ^ lo / 2 ^ suc s < 2 ^ w
    → bit_or
        (bit_or
          (bit_and addr (((2 ^ w - 1) * 2 ^ suc s + 0) * 2 ^ lo + (2 ^ lo - 1)))
          (i * 2 ^ s * 2 ^ lo))
        (v * 2 ^ lo)
      ≡ replaced addr lo (suc s) (i * 2 ^ s + v)
placed lo s w addr i v hi hv above =
    let upper = addr / 2 ^ lo / 2 ^ suc s in
    let low = addr % 2 ^ lo in
    let two : 2 ^ suc s ≡ 2 * 2 ^ s = omega (arith, pow-suc 2 s) in
    let index : i * 2 ^ s < 2 ^ suc s = grind arith in
    ap (λ (t : ℕ). bit_or t (v * 2 ^ lo))
      (replace_field lo (suc s) w addr (i * 2 ^ s) above index
        ∙ ap (λ (t : ℕ). t * 2 ^ lo + low) (regroup upper))
    ∙ fill_field lo s (upper * 2 + i) low v (mod-pow-lt lo addr) hv
    ∙ ap (λ (t : ℕ). t * 2 ^ lo + low) (regroup_v upper)
  where
    regroup : (u : ℕ) → u * 2 ^ suc s + i * 2 ^ s ≡ (u * 2 + i) * 2 ^ s + 0
    regroup u = omega (arith, ap (λ (t : ℕ). u * t) (pow-suc 2 s))

    regroup_v : (u : ℕ) → (u * 2 + i) * 2 ^ s + v ≡ u * 2 ^ suc s + (i * 2 ^ s + v)
    regroup_v u = omega (arith, ap (λ (t : ℕ). u * t) (pow-suc 2 s))

module _ (addr v : ℕ) (wide : addr < 2 ^ 64) where
  place_with :
      (lo idx s w i : ℕ)
      → not64 (genmask idx lo) ≡ ((2 ^ w - 1) * 2 ^ suc s + 0) * 2 ^ lo + (2 ^ lo - 1)
      → i * 2 ^ idx ≡ i * 2 ^ s * 2 ^ lo
      → i < 2
      → v < 2 ^ s
      → addr / 2 ^ lo / 2 ^ suc s < 2 ^ w
      → place addr lo idx i v ≡ replaced addr lo (suc s) (i * 2 ^ s + v)
  place_with lo idx s w i mask index hi hv above =
      ap₂ (λ (m j : ℕ). bit_or (bit_or (bit_and addr m) j) (v * 2 ^ lo)) mask index
      ∙ placed lo s w addr i v hi hv above

  pub place-38 :
      v < 2
      → (place addr 38 39 0 v ≡ replaced addr 38 2 (0 + v))
        × (place addr 38 39 1 v ≡ replaced addr 38 2 (2 + v))
  place-38 h = (
    place_with 38 39 1 24 0 refl refl (omega arith) h (omega arith),
    place_with 38 39 1 24 1 refl refl (omega arith) h (omega arith),
  )

  pub place-30 :
      v < 2
      → (place addr 30 31 0 v ≡ replaced addr 30 2 (0 + v))
        × (place addr 30 31 1 v ≡ replaced addr 30 2 (2 + v))
  place-30 h = (
    place_with 30 31 1 32 0 refl refl (omega arith) h (omega arith),
    place_with 30 31 1 32 1 refl refl (omega arith) h (omega arith),
  )

  pub place-37 :
      v < 4
      → (place addr 37 39 0 v ≡ replaced addr 37 3 (0 + v))
        × (place addr 37 39 1 v ≡ replaced addr 37 3 (4 + v))
  place-37 h = (
    place_with 37 39 2 24 0 refl refl (omega arith) h (omega arith),
    place_with 37 39 2 24 1 refl refl (omega arith) h (omega arith),
  )

  pub place-29 :
      v < 4
      → (place addr 29 31 0 v ≡ replaced addr 29 3 (0 + v))
        × (place addr 29 31 1 v ≡ replaced addr 29 3 (4 + v))
  place-29 h = (
    place_with 29 31 2 32 0 refl refl (omega arith) h (omega arith),
    place_with 29 31 2 32 1 refl refl (omega arith) h (omega arith),
  )

-- The Index bit alone.
pub clear_index-39 :
    (addr : ℕ) → addr < 2 ^ 64 → bit_and addr (not64 (2 ^ 39)) ≡ replaced addr 39 1 0
clear_index-39 addr wide = clear_field 39 1 24 addr (omega arith)

pub clear_index-31 :
    (addr : ℕ) → addr < 2 ^ 64 → bit_and addr (not64 (2 ^ 31)) ≡ replaced addr 31 1 0
clear_index-31 addr wide = clear_field 31 1 32 addr (omega arith)

pub set_index : (idx addr : ℕ) → bit_or addr (2 ^ idx) ≡ replaced addr idx 1 1
set_index idx addr = set_bit idx addr

-- Reading the Index bit back.
pub has_bit-true : (addr idx : ℕ) → addr / 2 ^ idx % 2 ≡ 1 → has_bit addr idx ≡ true
has_bit-true addr idx h =
    rw (test_bit idx addr, h, ==-no (1 * 2 ^ idx) 0 (omega (arith, pow-pos idx)))

pub has_bit-false : (addr idx : ℕ) → addr / 2 ^ idx % 2 ≡ 0 → has_bit addr idx ≡ false
has_bit-false addr idx h = rw (test_bit idx addr, h, ==-yes (0 * 2 ^ idx) 0 (omega arith))

-- What the modes 2 and 3 decode from an Index bit and low bits.
pub decode_indexed-low :
    (a idx lo s v isld1 isld0 : ℕ)
    → a / 2 ^ idx % 2 ≡ 0
    → a / 2 ^ lo % 2 ^ s ≡ v
    → decode_indexed a idx lo (2 ^ s - 1) isld1 isld0 ≡ bit_or (bit_and isld0 (not32 (2 ^ s - 1))) v
unfolding decode_indexed
decode_indexed-low a idx lo s v isld1 isld0 h e =
    rw (has_bit-false a idx h, bit_and_mask s (a / 2 ^ lo), e)

pub decode_indexed-high :
    (a idx lo s v isld1 isld0 : ℕ)
    → a / 2 ^ idx % 2 ≡ 1
    → a / 2 ^ lo % 2 ^ s ≡ v
    → decode_indexed a idx lo (2 ^ s - 1) isld1 isld0 ≡ bit_or (bit_and isld1 (not32 (2 ^ s - 1))) v
unfolding decode_indexed
decode_indexed-high a idx lo s v isld1 isld0 h e =
    rw (has_bit-true a idx h, bit_and_mask s (a / 2 ^ lo), e)
