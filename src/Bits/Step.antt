-- ===== src/Bits/Step.antt =====
-- One equation for the lowest binary digit of each native operation.
use Prim.Native.Nat.{max, digits, bitwise, differ, bit_and-bitwise, bit_or-bitwise, bit_xor-bitwise}
use can_from_scratch.Prelude.{
  ℕ, zero, suc, ◌+◌, ◌*◌, ◌/◌, ◌%◌, ◌≤◌, ◌<◌, ◌≡◌, refl, ap, min, bit_and, bit_or, bit_xor, arith,
}

module _ (z : ℕ → ℕ) (f : ℕ → ℕ → ℕ) where
  -- Any count of digits that is large enough gives the same result.
  digits_enough : (n x m y : ℕ) → x ≤ n → x ≤ m → digits z f m x y ≡ digits z f n x y
  digits_enough zero zero zero y few more = refl
  digits_enough zero zero (suc m) y few more = refl
  digits_enough zero (suc x) m y few more = absurd (omega arith)
  digits_enough (suc n) zero zero y few more = refl
  digits_enough (suc n) zero (suc m) y few more = refl
  digits_enough (suc n) (suc x) zero y few more = absurd (omega arith)
  digits_enough (suc n) (suc x) (suc m) y few more =
      ap (λ t. t * 2 + f (suc x % 2) (y % 2))
        (digits_enough n (suc x / 2) m (y / 2) (omega arith) (omega arith))

  bitwise_lowest :
      (x y : ℕ)
      → bitwise z f (suc x) y ≡ bitwise z f (suc x / 2) (y / 2) * 2 + f (suc x % 2) (y % 2)
  bitwise_lowest x y =
      omega (arith, digits_enough (suc x / 2) (suc x / 2) x (y / 2) (omega arith) (omega arith))

pub bit_or_lowest : (x y : ℕ) → bit_or x y ≡ 2 * bit_or (x / 2) (y / 2) + max (x % 2) (y % 2)
bit_or_lowest zero y = omega (arith, bit_or-bitwise 0 y, bit_or-bitwise 0 (y / 2))
bit_or_lowest (suc x) y = omega (
  arith,
  bitwise_lowest (λ d. d) max x y,
  bit_or-bitwise (suc x) y,
  bit_or-bitwise (suc x / 2) (y / 2),
)

pub bit_and_lowest : (x y : ℕ) → bit_and x y ≡ 2 * bit_and (x / 2) (y / 2) + min (x % 2) (y % 2)
bit_and_lowest zero y = omega (arith, bit_and-bitwise 0 y, bit_and-bitwise 0 (y / 2))
bit_and_lowest (suc x) y = omega (
  arith,
  bitwise_lowest (λ d. 0) min x y,
  bit_and-bitwise (suc x) y,
  bit_and-bitwise (suc x / 2) (y / 2),
)

-- The lowest digit of an exclusive or is the sum of the two digits, modulo 2.
differ-eq-mod : (x y : ℕ) → x < 2 → y < 2 → differ x y ≡ (x + y) % 2
differ-eq-mod zero y h k = omega arith
differ-eq-mod (suc zero) zero h k = refl
differ-eq-mod (suc zero) (suc zero) h k = refl
differ-eq-mod (suc zero) (suc (suc y)) h k = absurd (omega arith)
differ-eq-mod (suc (suc x)) y h k = absurd (omega arith)

pub bit_xor_lowest : (a b : ℕ) → bit_xor a b ≡ bit_xor (a / 2) (b / 2) * 2 + (a + b) % 2
bit_xor_lowest zero b = simp bit_xor-bitwise (omega arith)
bit_xor_lowest (suc a) b = omega (
  arith,
  bit_xor-bitwise (suc a) b,
  bit_xor-bitwise (suc a / 2) (b / 2),
  bitwise_lowest (λ y. y) differ a b,
  differ-eq-mod (suc a % 2) (b % 2) (omega arith) (omega arith),
)
