-- ===== src/Base/Bits/Step.antt =====
-- The native bit operations by their lowest digit. The library defines them by `digits`, which
-- has fuel: more of it than the first number changes nothing.
use Prim.Native.Nat.{
  ℕ, zero, suc, ◌+◌, ◌-◌, ◌*◌, ◌/◌, ◌%◌, ◌≤◌, min, max, bit_and, bit_or, digits, bitwise,
  bit_and-bitwise, bit_or-bitwise,
}
use mathlib.Core.Path.{◌≡◌, refl, ◌∙◌}
use native.Mathlib.Omega.{arith}

module _ (rest : ℕ → ℕ) (op : ℕ → ℕ → ℕ) where
  fuel_one_more :
      (fuel x y : ℕ) → x ≤ fuel → digits rest op (suc fuel) x y ≡ digits rest op fuel x y
  fuel_one_more zero zero y h = refl
  fuel_one_more zero (suc x) y h = absurd (omega arith)
  fuel_one_more (suc fuel) zero y h = refl
  fuel_one_more (suc fuel) (suc x) y h =
      rw (fuel_one_more fuel (suc x / 2) (y / 2) (omega arith)) refl

  fuel_enough :
      (spare fuel x y : ℕ) → fuel ≡ spare + x → digits rest op fuel x y ≡ digits rest op x x y
  fuel_enough zero fuel x y e = let same : fuel ≡ x = omega arith in rw same refl
  fuel_enough (suc spare) fuel x y e =
      let more : fuel ≡ suc (spare + x) = omega arith in
      rw more (fuel_one_more (spare + x) x y (omega arith) ∙ fuel_enough spare (spare + x) x y refl)

  low_digit :
      (x y : ℕ)
      → bitwise rest op (suc x) y ≡ bitwise rest op (suc x / 2) (y / 2) * 2 + op (suc x % 2) (y % 2)
  low_digit x y = omega (arith, fuel_enough (x - suc x / 2) x (suc x / 2) (y / 2) (omega arith))

pub bit_or_step : (x y : ℕ) → bit_or x y ≡ bit_or (x / 2) (y / 2) * 2 + max (x % 2) (y % 2)
bit_or_step zero y = simp bit_or-bitwise (omega arith)
bit_or_step (suc x) y = simp bit_or-bitwise (low_digit (λ b. b) max x y)

pub bit_and_step : (x y : ℕ) → bit_and x y ≡ bit_and (x / 2) (y / 2) * 2 + min (x % 2) (y % 2)
bit_and_step zero y = simp bit_and-bitwise (omega arith)
bit_and_step (suc x) y = simp bit_and-bitwise (low_digit (λ b. 0) min x y)
