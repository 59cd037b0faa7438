-- ===== src/Prelude/Bits/Step.antt =====
-- The native bit operations by one equation each, for the lowest digit.
use Prim.Native.Nat.{ℕ, zero, suc, ◌+◌, ◌*◌, ◌/◌, ◌%◌, ◌≤◌, min, max}
use Prim.Native.Nat.{bit_and, bit_or, digits, bitwise, bit_and-bitwise, bit_or-bitwise}
use mathlib.Core.Path.{◌≡◌, refl, ap, ◌∙◌}
use native.Mathlib.Decide.{dec_le}
use native.Mathlib.Omega.{arith}

module _ (z : ℕ → ℕ) (f : ℕ → ℕ → ℕ) where
  -- Fuel past the first operand changes nothing.
  spare_fuel : (n a b : ℕ) → a ≤ n → digits z f (suc n) a b ≡ digits z f n a b
  spare_fuel n zero b p = elim n as (λ m. digits z f (suc m) 0 b ≡ digits z f m 0 b) [
    | zero ↦ refl
    | suc m ↦ refl
  ]
  spare_fuel zero (suc a) b p = absurd (omega arith)
  spare_fuel (suc n) (suc a) b p =
      ap (λ (t : ℕ). t * 2 + f (suc a % 2) (b % 2)) (spare_fuel n (suc a / 2) (b / 2) (omega arith))

  least_fuel : (n a b : ℕ) → a ≤ n → digits z f n a b ≡ digits z f a a b
  least_fuel zero a b p = let e : a ≡ 0 = omega arith in rw e
  least_fuel (suc n) a b p = elim (dec_le a n) [
    | yes q ↦ spare_fuel n a b q ∙ least_fuel n a b q
    | no q ↦ let e : a ≡ suc n = omega arith in rw e
  ]

  bitwise_step :
      (a b : ℕ)
      → bitwise z f (suc a) b ≡ bitwise z f (suc a / 2) (b / 2) * 2 + f (suc a % 2) (b % 2)
  bitwise_step a b =
      ap (λ (t : ℕ). t * 2 + f (suc a % 2) (b % 2)) (least_fuel a (suc a / 2) (b / 2) (omega arith))

-- The lowest digit, and twice the rest.
pub bit_or_step : (m n : ℕ) → bit_or m n ≡ max (m % 2) (n % 2) + 2 * bit_or (m / 2) (n / 2)
bit_or_step zero n = simp bit_or-bitwise (omega arith)
bit_or_step (suc m) n =
    let step = bitwise_step (λ y. y) max m n in simp bit_or-bitwise (omega (arith, step))

pub bit_and_step : (m n : ℕ) → bit_and m n ≡ min (m % 2) (n % 2) + 2 * bit_and (m / 2) (n / 2)
bit_and_step zero n = simp bit_and-bitwise (omega arith)
bit_and_step (suc m) n =
    let step = bitwise_step (λ _. 0) min m n in simp bit_and-bitwise (omega (arith, step))
