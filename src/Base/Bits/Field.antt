-- ===== src/Base/Bits/Field.antt =====
-- The bits of a field of a word: of a shifted value, of a mask, and of a word with a field replaced.
use Prim.Native.Nat.{ℕ, zero, suc, ◌+◌, ◌-◌, ◌*◌, ◌/◌, ◌%◌, ◌^◌, ◌<◌, ◌≤◌}
use mathlib.Core.Path.{◌≡◌, sym, ap, ◌∙◌}
use native.Mathlib.Nat.{pow-suc, one-le-pow, div-add-mod, mod-lt, mul_comm}
use native.Mathlib.Omega.{arith}
use nfp_drv_kmods.Base.Bits.Single.{bit, bit-zero}

-- A power of two, and a number shifted by one bit more.
pow_suc : (k : ℕ) → 2 ^ suc k ≡ 2 * 2 ^ k
pow_suc k = omega (arith, pow-suc 2 k)

shift_suc : (x k : ℕ) → x * 2 ^ suc k ≡ 2 * (x * 2 ^ k)
shift_suc x k = omega (arith, ap (λ (t : ℕ). x * t) (pow-suc 2 k))

pub bit-le : (k x : ℕ) → bit k x ≤ 1
unfolding bit
bit-le zero x = omega arith
bit-le (suc k) x = bit-le k (x / 2)

-- Below the shift there is nothing.
pub bit-shift_low : (k lo x : ℕ) → k < lo → bit k (x * 2 ^ lo) ≡ 0
unfolding bit
bit-shift_low k zero x h = let no : ⊥ = omega arith in absurd no
bit-shift_low zero (suc lo) x h = omega (arith, shift_suc x lo)
bit-shift_low (suc k) (suc lo) x h =
    let half : x * 2 ^ suc lo / 2 ≡ x * 2 ^ lo = omega (arith, shift_suc x lo) in
    ap (bit k) half ∙ bit-shift_low k lo x (omega arith)

-- From the shift on there is the number.
pub bit-shift_high : (k lo j x : ℕ) → k ≡ lo + j → bit k (x * 2 ^ lo) ≡ bit j x
unfolding bit
bit-shift_high k zero j x h =
    let one : x * 2 ^ 0 ≡ x = omega arith in
    let same : k ≡ j = omega arith in ap (bit k) one ∙ ap (λ (t : ℕ). bit t x) same
bit-shift_high zero (suc lo) j x h = let no : ⊥ = omega arith in absurd no
bit-shift_high (suc k) (suc lo) j x h =
    let half : x * 2 ^ suc lo / 2 ≡ x * 2 ^ lo = omega (arith, shift_suc x lo) in
    ap (bit k) half ∙ bit-shift_high k lo j x (omega arith)

pub bit-above : (n k x : ℕ) → x < 2 ^ n → n ≤ k → bit k x ≡ 0
unfolding bit
bit-above zero k x h l = let none : x ≡ 0 = omega arith in ap (bit k) none ∙ bit-zero k
bit-above (suc n) zero x h l = let no : ⊥ = omega arith in absurd no
bit-above (suc n) (suc k) x h l = bit-above n k (x / 2) (omega (arith, pow_suc n)) (omega arith)

pub bit-ones : (n k : ℕ) → k < n → bit k (2 ^ n - 1) ≡ 1
unfolding bit
bit-ones zero k h = let no : ⊥ = omega arith in absurd no
bit-ones (suc n) zero h = omega (arith, pow_suc n, one-le-pow n 2)
bit-ones (suc n) (suc k) h =
    let half : (2 ^ suc n - 1) / 2 ≡ 2 ^ n - 1 = omega (arith, pow_suc n, one-le-pow n 2) in
    ap (bit k) half ∙ bit-ones n k (omega arith)

pub bit-inverse : (w k x : ℕ) → x < 2 ^ w → k < w → bit k (2 ^ w - 1 - x) ≡ 1 - bit k x
unfolding bit
bit-inverse zero k x h l = let no : ⊥ = omega arith in absurd no
bit-inverse (suc w) zero x h l = omega (arith, pow_suc w)
bit-inverse (suc w) (suc k) x h l =
    let half : (2 ^ suc w - 1 - x) / 2 ≡ 2 ^ w - 1 - x / 2 = omega (arith, pow_suc w) in
    ap (bit k) half ∙ bit-inverse w k (x / 2) (omega (arith, pow_suc w)) (omega arith)

-- What is cut off above changes no bit below.
bit-below_sum : (w k q r : ℕ) → r < 2 ^ w → k < w → bit k (q * 2 ^ w + r) ≡ bit k r
unfolding bit
bit-below_sum zero k q r h l = let no : ⊥ = omega arith in absurd no
bit-below_sum (suc w) zero q r h l = omega (arith, shift_suc q w)
bit-below_sum (suc w) (suc k) q r h l =
    let half : (q * 2 ^ suc w + r) / 2 ≡ q * 2 ^ w + r / 2 = omega (arith, shift_suc q w) in
    ap (bit k) half ∙ bit-below_sum w k q (r / 2) (omega (arith, pow_suc w)) (omega arith)

pub bit-mod_pow : (w k x : ℕ) → k < w → bit k (x % 2 ^ w) ≡ bit k x
bit-mod_pow w k x l =
    let whole : x ≡ x / 2 ^ w * 2 ^ w + x % 2 ^ w =
      omega (arith, div-add-mod x (2 ^ w), mul_comm (x / 2 ^ w) (2 ^ w)) in
    let small : x % 2 ^ w < 2 ^ w = mod-lt x (omega (arith, one-le-pow w 2)) in
    sym (ap (bit k) whole ∙ bit-below_sum w k (x / 2 ^ w) (x % 2 ^ w) small l)
