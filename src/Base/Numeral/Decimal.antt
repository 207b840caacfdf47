-- ===== src/Base/Numeral/Decimal.antt =====
-- Decimal text: the shortest one, most significant digit first.
use Prim.Native.Nat.{ℕ, zero, suc, ◌+◌, ◌-◌, ◌*◌, ◌/◌, ◌%◌, ◌^◌, ◌≤◌, ◌<◌}
use mathlib.Core.Path.{◌≡◌, refl}
use mathlib.Core.Logic.{inl, inr}
use mathlib.Core.List.{[], ◌∷◌, ◌++◌}
use native.Mathlib.Nat.{pow-suc}
use native.Mathlib.Omega.{arith}
use picorv.Base.Tests.{ltb, if◌then◌else◌, Bool-cases, ltb→lt}
use picorv.Base.Lists.{All, All-append, length, length-append}
use picorv.Base.Text.{Bytes}

abbrev pub IsDigit : ℕ → Type 0
IsDigit c = (b'0' ≤ c) × (c ≤ b'9')

-- The number that a text of digits spells behind `n`.
abbrev pub value : ℕ → Bytes → ℕ
value n [] = n
value n (c ∷ s) = value (n * 10 + (c - b'0')) s

value-append : (s : Bytes) (n c : ℕ) → value n (s ++ c ∷ []) ≡ value n s * 10 + (c - b'0')
value-append [] n c = refl
value-append (d ∷ s) n c = value-append s (n * 10 + (d - b'0')) c

-- The text is not empty, and its first digit is no zero unless it is the only one.
abbrev pub LeadsWell : Bytes → Type 0
LeadsWell [] = ⊥
LeadsWell (c ∷ []) = Unit
LeadsWell (c ∷ d ∷ s) = b'1' ≤ c

LeadsWell-append :
    (s : Bytes) (c : ℕ) → All IsDigit s → LeadsWell s → 0 < value 0 s → LeadsWell (s ++ c ∷ [])
LeadsWell-append [] c ds h pos = elim h [ ]
LeadsWell-append (a ∷ []) c ds h pos = omega arith
LeadsWell-append (a ∷ b ∷ s) c ds h pos = h

-- `s` is the decimal text of `n`.
pub record IsDecimal (n : ℕ) (s : Bytes) : Type 0 where
  pub digits : All IsDigit s
  pub spells : value 0 s ≡ n
  pub leads : LeadsWell s

decimal_upto : ℕ → ℕ → Bytes
decimal_upto zero n = []
decimal_upto (suc f) n =
    let high = decimal_upto f (n / 10) ++ (b'0' + n % 10) ∷ [] in
    if ltb n 10 then (b'0' + n) ∷ [] else high

unfoldable pub decimal : ℕ → Bytes
unfolding decimal_upto
decimal n = decimal_upto (suc n) n

upto_enough : (f g n : ℕ) → n < f → n < g → decimal_upto f n ≡ decimal_upto g n
unfolding decimal_upto
upto_enough zero g n p q = absurd (omega arith)
upto_enough (suc f) zero n p q = absurd (omega arith)
upto_enough (suc f) (suc g) n p q = ground (arith, upto_enough f g (n / 10))

pub decimal_small : (n : ℕ) → n < 10 → decimal n ≡ (b'0' + n) ∷ []
unfolding decimal
decimal_small n h = ground arith

pub decimal_step : (n : ℕ) → 10 ≤ n → decimal n ≡ decimal (n / 10) ++ (b'0' + n % 10) ∷ []
unfolding decimal
decimal_step n h = ground (arith, upto_enough n (suc (n / 10)) (n / 10))

value-upto : (f n : ℕ) → n < f → value 0 (decimal_upto f n) ≡ n
unfolding decimal_upto
value-upto zero n h = absurd (omega arith)
value-upto (suc f) n h =
    ground (arith, value-append (decimal_upto f (n / 10)) 0 (b'0' + n % 10), value-upto f (n / 10))

-- Reading the text back gives the number.
pub value-decimal : (n : ℕ) → value 0 (decimal n) ≡ n
unfolding decimal
value-decimal n = value-upto (suc n) n (omega arith)

upto-digits : (f n : ℕ) → All IsDigit (decimal_upto f n)
unfolding decimal_upto
upto-digits zero n = tt
upto-digits (suc f) n = elim (Bool-cases (ltb n 10)) [
  | inl small ↦ rw small (omega (arith, ltb→lt n 10 small))
  | inr large ↦
      rw large
        (All-append IsDigit (decimal_upto f (n / 10)) _ (upto-digits f (n / 10)) (omega arith))
]

upto-leads : (f n : ℕ) → n < f → LeadsWell (decimal_upto f n)
unfolding decimal_upto
upto-leads zero n h = absurd (omega arith)
upto-leads (suc f) n h = elim (Bool-cases (ltb n 10)) [
  | inl small ↦ rw small tt
  | inr large ↦ rw large (
      LeadsWell-append (decimal_upto f (n / 10)) _ (upto-digits f (n / 10))
        (upto-leads f (n / 10) (ground arith))
        (rw (value-upto f (n / 10) (ground arith)) (ground arith)))
]

pub decimal-IsDecimal : (n : ℕ) → IsDecimal n (decimal n)
unfolding decimal
decimal-IsDecimal n = record {
  digits = upto-digits (suc n) n;
  spells = value-decimal n;
  leads = upto-leads (suc n) n (omega arith);
}

-- A number below ten to the `k` has at most `k` digits.
pub length-decimal-le : (k n : ℕ) → n < 10 ^ suc k → length (decimal n) ≤ suc k
length-decimal-le zero n h = rw (decimal_small n (omega arith)) (omega arith)
length-decimal-le (suc k) n h = elim (Bool-cases (ltb n 10)) [
  | inl small ↦ rw (decimal_small n (ltb→lt n 10 small)) (omega arith)
  | inr large ↦
      rw (decimal_step n (ground arith), length-append (decimal (n / 10)) _)
        (omega (arith, length-decimal-le k (n / 10) (omega (arith, pow-suc 10 (suc k)))))
]
