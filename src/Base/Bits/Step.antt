-- ===== src/Base/Bits/Step.antt =====
-- The native operators stand for a recursion on binary digits that carries fuel. One equation
-- for the lowest digit of each, with the fuel gone.
use Prim.Native.Nat.{ℕ, zero, suc, ◌+◌, ◌*◌, ◌/◌, ◌%◌, ◌≤◌, ◌<◌, min, max, bit_and, bit_or, bit_xor}
use Prim.Native.Nat.{digits, bitwise, differ, bit_and-bitwise, bit_or-bitwise, bit_xor-bitwise}
use mathlib.Core.Path.{◌≡◌, refl}
use native.Mathlib.Omega.{arith}

module _ (rest : ℕ → ℕ) (op : ℕ → ℕ → ℕ) where
  -- More fuel than the number needs changes nothing.
  digits_enough : (n m a b : ℕ) → a ≤ n → a ≤ m → digits rest op n a b ≡ digits rest op m a b
  digits_enough n m zero b p q = at_zero n m
    where
      at_zero : (n m : ℕ) → digits rest op n zero b ≡ digits rest op m zero b
      at_zero zero zero = refl
      at_zero zero (suc m) = refl
      at_zero (suc n) zero = refl
      at_zero (suc n) (suc m) = refl
  digits_enough zero m (suc a) b p q = absurd (omega arith)
  digits_enough (suc n) zero (suc a) b p q = absurd (omega arith)
  digits_enough (suc n) (suc m) (suc a) b p q =
      omega (arith, digits_enough n m (suc a / 2) (b / 2) (omega arith) (omega arith))

  -- The lowest digit of the result comes from the lowest digits of the operands.
  bitwise_step :
      (b a : ℕ)
      → op (suc a % 2) (b % 2) + 2 * bitwise rest op (suc a / 2) (b / 2) ≡ bitwise rest op (suc a) b
  bitwise_step b a =
      let half : ℕ = suc a / 2 in
      omega (arith, digits_enough a half half (b / 2) (omega arith) (omega arith))

pub bit_and_step : (x y : ℕ) → bit_and x y ≡ bit_and (x / 2) (y / 2) * 2 + min (x % 2) (y % 2)
bit_and_step zero y = simp bit_and-bitwise (omega arith)
bit_and_step (suc x) y =
    let lowest = bitwise_step (λ _. 0) min y x in simp bit_and-bitwise (omega (arith, lowest))

pub bit_or_step : (x y : ℕ) → bit_or x y ≡ bit_or (x / 2) (y / 2) * 2 + max (x % 2) (y % 2)
bit_or_step zero y = simp bit_or-bitwise (omega arith)
bit_or_step (suc x) y =
    let lowest = bitwise_step (λ z. z) max y x in simp bit_or-bitwise (omega (arith, lowest))

differ_digits : (x y : ℕ) → x < 2 → y < 2 → differ x y ≡ (x + y) % 2
differ_digits zero y p q = omega arith
differ_digits (suc zero) zero p q = refl
differ_digits (suc zero) (suc zero) p q = refl
differ_digits (suc zero) (suc (suc y)) p q = absurd (omega arith)
differ_digits (suc (suc x)) y p q = absurd (omega arith)

xor_suc :
    (a b : ℕ)
    → bitwise (λ y. y) differ (suc a) b
      ≡ bitwise (λ y. y) differ (suc a / 2) (b / 2) * 2 + (suc a + b) % 2
xor_suc a b = omega (
  arith,
  bitwise_step (λ y. y) differ b a,
  differ_digits (suc a % 2) (b % 2) (omega arith) (omega arith),
)

-- The lowest digit of an exclusive or is the sum of the digits without its carry.
pub bit_xor_step : (a b : ℕ) → bit_xor a b ≡ bit_xor (a / 2) (b / 2) * 2 + (a + b) % 2
bit_xor_step zero b = simp bit_xor-bitwise (omega arith)
bit_xor_step (suc a) b = simp bit_xor-bitwise (xor_suc a b)
