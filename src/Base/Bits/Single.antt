-- ===== src/Base/Bits/Single.antt =====
-- A number by its single bits.
use Prim.Native.Nat.{ℕ, zero, suc, ◌+◌, ◌/◌, ◌%◌, ◌≤◌, bit_and, bit_or, min, max}
use mathlib.Core.Path.{◌≡◌, refl}
use native.Mathlib.Omega.{arith}
use nfp_drv_kmods.Base.Bits.Step.{bit_or_step, bit_and_step}

unfoldable pub bit : ℕ → ℕ → ℕ
bit zero x = x % 2
bit (suc k) x = bit k (x / 2)

pub bit-zero : (k : ℕ) → bit k 0 ≡ 0
unfolding bit
bit-zero zero = refl
bit-zero (suc k) = bit-zero k

pub bit-bit_or : (k x y : ℕ) → bit k (bit_or x y) ≡ max (bit k x) (bit k y)
unfolding bit
bit-bit_or zero x y = omega (arith, bit_or_step x y)
bit-bit_or (suc k) x y =
    let half : bit_or x y / 2 ≡ bit_or (x / 2) (y / 2) = omega (arith, bit_or_step x y) in
    rw half (bit-bit_or k (x / 2) (y / 2))

pub bit-bit_and : (k x y : ℕ) → bit k (bit_and x y) ≡ min (bit k x) (bit k y)
unfolding bit
bit-bit_and zero x y = omega (arith, bit_and_step x y)
bit-bit_and (suc k) x y =
    let half : bit_and x y / 2 ≡ bit_and (x / 2) (y / 2) = omega (arith, bit_and_step x y) in
    rw half (bit-bit_and k (x / 2) (y / 2))

-- Halving both leaves the bits behind the lowest.
same_to : (bound x y : ℕ) → x ≤ bound → y ≤ bound → ((k : ℕ) → bit k x ≡ bit k y) → x ≡ y
unfolding bit
same_to zero x y hx hy same = omega arith
same_to (suc bound) x y hx hy same =
    let half = same_to bound (x / 2) (y / 2) (omega arith) (omega arith) (λ k. same (suc k)) in
    omega (arith, half, same 0)

pub same_bits : (x y : ℕ) → ((k : ℕ) → bit k x ≡ bit k y) → x ≡ y
same_bits x y same = same_to (x + y) x y (omega arith) (omega arith) same

-- Where two masks of a number are known, they agree on what both masks keep.
pub masks_agree :
    (x m n : ℕ) → bit_and (bit_and x m) (bit_and m n) ≡ bit_and (bit_and x n) (bit_and m n)
masks_agree x m n = same_bits _ _ (λ k. omega (
  arith,
  bit-bit_and k (bit_and x m) (bit_and m n),
  bit-bit_and k (bit_and x n) (bit_and m n),
  bit-bit_and k x m,
  bit-bit_and k x n,
  bit-bit_and k m n,
))

pub bit_and_comm : (x y : ℕ) → bit_and x y ≡ bit_and y x
bit_and_comm x y = same_bits _ _ (λ k. omega (arith, bit-bit_and k x y, bit-bit_and k y x))
