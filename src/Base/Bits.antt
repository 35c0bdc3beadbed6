-- ===== src/Base/Bits.antt =====
-- `&` and `|` on numbers cut in two at a bit position, and the masks and fields that follow.
mod Step
mod Single
mod Field
pub use Single.*
pub use Field.*
pub use Step.{bit_or_step, bit_and_step}
use Prim.Native.Nat.{ℕ, zero, suc, ◌+◌, ◌-◌, ◌*◌, ◌/◌, ◌%◌, ◌^◌, ◌<◌, ◌≤◌, bit_and, bit_or}
use mathlib.Core.Path.{◌≡◌, refl, ap, ap₂, ◌∙◌}
use native.Mathlib.Nat.{pow-suc, one-le-pow, div-add-mod, mod-lt, mul_comm}
use native.Mathlib.Omega.{arith}

-- Each of these halves its argument, so it recurs on a bound.
or_zero : (bound x : ℕ) → x ≤ bound → bit_or x 0 ≡ x
or_zero bound zero h = refl
or_zero zero (suc x) h = absurd (omega arith)
or_zero (suc bound) (suc x) h =
    omega (arith, bit_or_step (suc x) 0, or_zero bound (suc x / 2) (omega arith))

and_zero : (bound x : ℕ) → x ≤ bound → bit_and x 0 ≡ 0
and_zero bound zero h = refl
and_zero zero (suc x) h = absurd (omega arith)
and_zero (suc bound) (suc x) h =
    omega (arith, bit_and_step (suc x) 0, and_zero bound (suc x / 2) (omega arith))

pub bit_or-zero : (x : ℕ) → bit_or x 0 ≡ x
bit_or-zero x = or_zero x x (omega arith)

pub zero-bit_or : (x : ℕ) → bit_or 0 x ≡ x
zero-bit_or x = zero_or x x (omega arith)
  where
    zero_or : (bound y : ℕ) → y ≤ bound → bit_or 0 y ≡ y
    zero_or bound zero h = refl
    zero_or zero (suc y) h = absurd (omega arith)
    zero_or (suc bound) (suc y) h =
        omega (arith, bit_or_step 0 (suc y), zero_or bound (suc y / 2) (omega arith))

pub bit_and-zero : (x : ℕ) → bit_and x 0 ≡ 0
bit_and-zero x = and_zero x x (omega arith)

-- Twice a number that is cut at `k` is cut at `suc k`.
cut_suc : (q k : ℕ) → q * 2 ^ suc k ≡ 2 * (q * 2 ^ k)
cut_suc q k = omega (arith, ap (λ (t : ℕ). q * t) (pow-suc 2 k))

-- The high and the low parts do not mix.
pub bit_or_split :
    (k q r p s : ℕ)
    → r < 2 ^ k
    → s < 2 ^ k
    → bit_or (q * 2 ^ k + r) (p * 2 ^ k + s) ≡ bit_or q p * 2 ^ k + bit_or r s
bit_or_split zero q r p s hr hs =
    let a : r ≡ 0 = omega arith in
    let b : s ≡ 0 = omega arith in
    let c : q * 2 ^ 0 + 0 ≡ q = omega arith in
    let d : p * 2 ^ 0 + 0 ≡ p = omega arith in rw (a, b, c, d) (omega (arith, bit_or-zero 0))
bit_or_split (suc k) q r p s hr hs = omega (
  arith,
  bit_or_step (q * 2 ^ suc k + r) (p * 2 ^ suc k + s),
  halves (q * 2 ^ suc k + r) (q * 2 ^ k + r / 2) (p * 2 ^ suc k + s) (p * 2 ^ k + s / 2)
      (omega (arith, cut_suc q k)) (omega (arith, cut_suc p k)),
  bit_or_step r s,
  cut_suc q k,
  cut_suc p k,
  cut_suc (bit_or q p) k,
  bit_or_split k q (r / 2) p (s / 2) (omega (arith, pow-suc 2 k)) (omega (arith, pow-suc 2 k)),
)
  where
    halves : (x x' y y' : ℕ) → x / 2 ≡ x' → y / 2 ≡ y' → bit_or (x / 2) (y / 2) ≡ bit_or x' y'
    halves x x' y y' e f = rw (e, f) refl

pub bit_and_split :
    (k q r p s : ℕ)
    → r < 2 ^ k
    → s < 2 ^ k
    → bit_and (q * 2 ^ k + r) (p * 2 ^ k + s) ≡ bit_and q p * 2 ^ k + bit_and r s
bit_and_split zero q r p s hr hs =
    let a : r ≡ 0 = omega arith in
    let b : s ≡ 0 = omega arith in
    let c : q * 2 ^ 0 + 0 ≡ q = omega arith in
    let d : p * 2 ^ 0 + 0 ≡ p = omega arith in rw (a, b, c, d) (omega (arith, bit_and-zero 0))
bit_and_split (suc k) q r p s hr hs = omega (
  arith,
  bit_and_step (q * 2 ^ suc k + r) (p * 2 ^ suc k + s),
  halves (q * 2 ^ suc k + r) (q * 2 ^ k + r / 2) (p * 2 ^ suc k + s) (p * 2 ^ k + s / 2)
      (omega (arith, cut_suc q k)) (omega (arith, cut_suc p k)),
  bit_and_step r s,
  cut_suc q k,
  cut_suc p k,
  cut_suc (bit_and q p) k,
  bit_and_split k q (r / 2) p (s / 2) (omega (arith, pow-suc 2 k)) (omega (arith, pow-suc 2 k)),
)
  where
    halves : (x x' y y' : ℕ) → x / 2 ≡ x' → y / 2 ≡ y' → bit_and (x / 2) (y / 2) ≡ bit_and x' y'
    halves x x' y y' e f = rw (e, f) refl

-- `k` ones keep a number of `k` bits.
pub bit_and-ones : (k r : ℕ) → r < 2 ^ k → bit_and r (2 ^ k - 1) ≡ r
bit_and-ones zero r h = let e : r ≡ 0 = omega arith in rw e refl
bit_and-ones (suc k) r h =
    let half : (2 ^ suc k - 1) / 2 ≡ 2 ^ k - 1 = omega (arith, pow-suc 2 k) in
    omega (
      arith,
      bit_and_step r (2 ^ suc k - 1),
      ap (λ (t : ℕ). bit_and (r / 2) t) half,
      pow-suc 2 k,
      one-le-pow k 2,
      bit_and-ones k (r / 2) (omega (arith, pow-suc 2 k)),
    )

pub cut : (k x : ℕ) → x ≡ x / 2 ^ k * 2 ^ k + x % 2 ^ k
cut k x = omega (arith, div-add-mod x (2 ^ k), mul_comm (2 ^ k) (x / 2 ^ k))

pub mod-pow-lt : (k x : ℕ) → x % 2 ^ k < 2 ^ k
mod-pow-lt k x = mod-lt x (omega (arith, one-le-pow k 2))

low_part : (k q r : ℕ) → r < 2 ^ k → bit_and (q * 2 ^ k + r) (2 ^ k - 1) ≡ r
low_part k q r low =
    let room : 0 < 2 ^ k = omega (arith, one-le-pow k 2) in
    let mask : 2 ^ k - 1 ≡ 0 * 2 ^ k + (2 ^ k - 1) = omega arith in
    ap (bit_and (q * 2 ^ k + r)) mask
    ∙ bit_and_split k q r 0 (2 ^ k - 1) low (omega arith)
    ∙ ap₂ (λ (t u : ℕ). t * 2 ^ k + u) (bit_and-zero q) (bit_and-ones k r low)
    ∙ omega arith

-- A mask of `k` low bits is the remainder by `2 ^ k`.
pub bit_and_mask : (k x : ℕ) → bit_and x (2 ^ k - 1) ≡ x % 2 ^ k
bit_and_mask k x =
    ap (λ (t : ℕ). bit_and t (2 ^ k - 1)) (cut k x)
    ∙ low_part k (x / 2 ^ k) (x % 2 ^ k) (mod-pow-lt k x)

-- `x & ~GENMASK(lo + n - 1, lo)` where the part above the field has at most `w` bits.
pub clear_field :
    (lo n w x : ℕ)
    → x / 2 ^ lo / 2 ^ n < 2 ^ w
    → bit_and x (((2 ^ w - 1) * 2 ^ n + 0) * 2 ^ lo + (2 ^ lo - 1))
      ≡ (x / 2 ^ lo / 2 ^ n * 2 ^ n + 0) * 2 ^ lo + x % 2 ^ lo
clear_field lo n w x fits =
    let room : 0 < 2 ^ lo = omega (arith, one-le-pow lo 2) in
    ap (λ (t : ℕ). bit_and t (((2 ^ w - 1) * 2 ^ n + 0) * 2 ^ lo + (2 ^ lo - 1))) (cut lo x)
    ∙ bit_and_split lo (x / 2 ^ lo) (x % 2 ^ lo) ((2 ^ w - 1) * 2 ^ n + 0) (2 ^ lo - 1)
        (mod-pow-lt lo x) (omega arith)
    ∙ ap₂ (λ (t u : ℕ). t * 2 ^ lo + u) upper (bit_and-ones lo (x % 2 ^ lo) (mod-pow-lt lo x))
  where
    upper : bit_and (x / 2 ^ lo) ((2 ^ w - 1) * 2 ^ n + 0) ≡ x / 2 ^ lo / 2 ^ n * 2 ^ n + 0
    upper =
        ap (λ (t : ℕ). bit_and t ((2 ^ w - 1) * 2 ^ n + 0)) (cut n (x / 2 ^ lo))
        ∙ bit_and_split n (x / 2 ^ lo / 2 ^ n) (x / 2 ^ lo % 2 ^ n) (2 ^ w - 1) 0
            (mod-pow-lt n (x / 2 ^ lo)) (omega (arith, one-le-pow n 2))
        ∙ ap₂ (λ (t u : ℕ). t * 2 ^ n + u) (bit_and-ones w (x / 2 ^ lo / 2 ^ n) fits)
            (bit_and-zero (x / 2 ^ lo % 2 ^ n))

-- `x | (v << lo)` where the field is clear.
pub fill_field :
    (lo n h l v : ℕ)
    → l < 2 ^ lo
    → v < 2 ^ n
    → bit_or ((h * 2 ^ n + 0) * 2 ^ lo + l) (v * 2 ^ lo) ≡ (h * 2 ^ n + v) * 2 ^ lo + l
fill_field lo n h l v low fits =
    let value : v * 2 ^ lo ≡ v * 2 ^ lo + 0 = omega arith in
    ap (bit_or ((h * 2 ^ n + 0) * 2 ^ lo + l)) value
    ∙ bit_or_split lo (h * 2 ^ n + 0) l v 0 low (omega (arith, one-le-pow lo 2))
    ∙ ap₂ (λ (t u : ℕ). t * 2 ^ lo + u) upper (bit_or-zero l)
  where
    upper : bit_or (h * 2 ^ n + 0) v ≡ h * 2 ^ n + v
    upper =
        let field : v ≡ 0 * 2 ^ n + v = omega arith in
        ap (bit_or (h * 2 ^ n + 0)) field
        ∙ bit_or_split n h 0 0 v (omega (arith, one-le-pow n 2)) fits
        ∙ ap₂ (λ (t u : ℕ). t * 2 ^ n + u) (bit_or-zero h) (zero-bit_or v)

-- Clearing a field and then filling it replaces its bits and keeps all others.
pub replace_field :
    (lo n w x v : ℕ)
    → x / 2 ^ lo / 2 ^ n < 2 ^ w
    → v < 2 ^ n
    → bit_or (bit_and x (((2 ^ w - 1) * 2 ^ n + 0) * 2 ^ lo + (2 ^ lo - 1))) (v * 2 ^ lo)
      ≡ (x / 2 ^ lo / 2 ^ n * 2 ^ n + v) * 2 ^ lo + x % 2 ^ lo
replace_field lo n w x v above fits =
    ap (λ (t : ℕ). bit_or t (v * 2 ^ lo)) (clear_field lo n w x above)
    ∙ fill_field lo n (x / 2 ^ lo / 2 ^ n) (x % 2 ^ lo) v (mod-pow-lt lo x) fits

-- `x | BIT(k)` and `x & BIT(k)`.
pub set_bit : (k x : ℕ) → bit_or x (2 ^ k) ≡ (x / 2 ^ k / 2 * 2 + 1) * 2 ^ k + x % 2 ^ k
set_bit k x =
    let bit : 2 ^ k ≡ 1 * 2 ^ k + 0 = omega arith in
    ap (bit_or x) bit
    ∙ ap (λ (t : ℕ). bit_or t (1 * 2 ^ k + 0)) (cut k x)
    ∙ bit_or_split k (x / 2 ^ k) (x % 2 ^ k) 1 0 (mod-pow-lt k x) (omega (arith, one-le-pow k 2))
    ∙ ap₂ (λ (t u : ℕ). t * 2 ^ k + u) upper (bit_or-zero (x % 2 ^ k))
  where
    upper : bit_or (x / 2 ^ k) 1 ≡ x / 2 ^ k / 2 * 2 + 1
    upper = omega (arith, bit_or_step (x / 2 ^ k) 1, bit_or-zero (x / 2 ^ k / 2))

pub test_bit : (k x : ℕ) → bit_and x (2 ^ k) ≡ x / 2 ^ k % 2 * 2 ^ k
test_bit k x =
    let bit : 2 ^ k ≡ 1 * 2 ^ k + 0 = omega arith in
    ap (bit_and x) bit
    ∙ ap (λ (t : ℕ). bit_and t (1 * 2 ^ k + 0)) (cut k x)
    ∙ bit_and_split k (x / 2 ^ k) (x % 2 ^ k) 1 0 (mod-pow-lt k x) (omega (arith, one-le-pow k 2))
    ∙ ap₂ (λ (t u : ℕ). t * 2 ^ k + u) (bit_and_mask 1 (x / 2 ^ k)) (bit_and-zero (x % 2 ^ k))
    ∙ omega arith

-- `|` with a number below the lowest bit is a sum.
pub bit_or_below : (k q x s : ℕ) → x ≡ q * 2 ^ k → s < 2 ^ k → bit_or x s ≡ x + s
bit_or_below k q x s e h =
    let high : x ≡ q * 2 ^ k + 0 = omega arith in
    let low : s ≡ 0 * 2 ^ k + s = omega arith in
    ap₂ bit_or high low
    ∙ bit_or_split k q 0 0 s (omega (arith, one-le-pow k 2)) h
    ∙ ap₂ (λ (t u : ℕ). t * 2 ^ k + u) (bit_or-zero q) (zero-bit_or s)
    ∙ omega arith

pub pow-pos : (k : ℕ) → 0 < 2 ^ k
pow-pos k = omega (arith, one-le-pow k 2)

pub bit_or-odd : (x q : ℕ) → bit_or x (2 * q + 1) % 2 ≡ 1
bit_or-odd x q = omega (arith, bit_or_step x (2 * q + 1))
