-- ===== src/Pcpi/Div/Laws.antt =====
-- The divider refines the C arithmetic of firmware/multest.c.
use picorv.Base.{ℕ, ◌/◌, ◌%◌, ◌^◌, ◌≤◌, ◌<◌, ◌≡◌, ◌≢◌, refl, ap, ◌∙◌, arith}
use picorv.Base.{Bool, true, false, ◌&&◌, ◌||◌, ◌==◌, if◌then◌else◌, inl, inr, ◌⊎◌}
use picorv.Base.{==-false, zero-cases, some, none}
use picorv.Firmware.Multest.{extend, magnitude, negative, signed}
use picorv.Firmware.Multest.{soft_div, soft_divu, soft_rem, soft_remu}
use picorv.Pcpi.{Request, Requests}
use picorv.Pcpi.Div.{Divider, answer, sign_bit, negate, differ}
use picorv.Pcpi.Div.Rounds.{quotient_of}
use native.Mathlib.Nat.{mod-zero, mod-le, div-le_self}
use picorv.Pcpi.Div.Clocks.{
  IsIdle, given, operand, operand-lt, result_sign, and-false, answer-given,
}

-- What the M extension asks for.
abbrev pub division : ℕ → ℕ → ℕ → ℕ
division f a b =
    if f == 4
    then soft_div a b
    else if f == 5
    then soft_divu a b
    else if f == 6
    then soft_rem a b
    else soft_remu a b

magnitude-extend : (x : ℕ) → x < 2 ^ 32 → magnitude (extend x) ≡ operand 4 x
magnitude-extend x h = ground arith

negative-extend : (x : ℕ) → x < 2 ^ 32 → negative (extend x) ≡ sign_bit x
negative-extend x h = ground arith

signed-low :
    (sign : Bool) (n : ℕ) → n < 2 ^ 32 → signed sign n % 2 ^ 32 ≡ (if sign then negate 32 n else n)
signed-low true n h = omega arith
signed-low false n h = omega arith

operand-pos : (f x : ℕ) → x < 2 ^ 32 → x ≢ 0 → (operand f x == 0) ≡ false
operand-pos f x h ne = ground arith

and-true : (b : Bool) → (b && true) ≡ b
and-true true = refl
and-true false = refl

or-false : (b : Bool) → (b || false) ≡ b
or-false true = refl
or-false false = refl

module _ (a b : ℕ) (la : a < 2 ^ 32) (lb : b < 2 ^ 32) where
  given_div :
      given 4
        (result_sign 4 a b)
        (quotient_of (operand 4 a) (operand 4 b))
        (operand 4 a % operand 4 b)
      ≡ soft_div a b
  unfolding soft_div
  given_div = elim (zero-cases b) [
    | inl z ↦ rw (z, and-false (differ (sign_bit a) (sign_bit 0))) refl
    | inr ne ↦
        let small : operand 4 a / operand 4 b < 2 ^ 32 =
          omega (arith, div-le_self (operand 4 a) (operand 4 b), operand-lt 4 a la) in
        rw
          (
            ==-false b 0 ne,
            operand-pos 4 b lb ne,
            magnitude-extend a la,
            magnitude-extend b lb,
            negative-extend a la,
            negative-extend b lb,
            and-true (differ (sign_bit a) (sign_bit b)),
            or-false (differ (sign_bit a) (sign_bit b)),
            signed-low (differ (sign_bit a) (sign_bit b)) _ small,
          )
          refl
  ]

  given_divu :
      given 5
        (result_sign 5 a b)
        (quotient_of (operand 5 a) (operand 5 b))
        (operand 5 a % operand 5 b)
      ≡ soft_divu a b
  unfolding soft_divu
  given_divu = refl

  given_rem :
      given 6
        (result_sign 6 a b)
        (quotient_of (operand 6 a) (operand 6 b))
        (operand 6 a % operand 6 b)
      ≡ soft_rem a b
  unfolding soft_rem
  given_rem = elim (zero-cases b) [
    | inl z ↦ rw (z, mod-zero) (ground arith)
    | inr ne ↦
        let small : operand 4 a % operand 4 b < 2 ^ 32 =
          omega (arith, mod-le (operand 4 a) (operand 4 b), operand-lt 4 a la) in
        rw
          (
            ==-false b 0 ne,
            magnitude-extend a la,
            magnitude-extend b lb,
            negative-extend a la,
            signed-low (sign_bit a) _ small,
          )
          refl
  ]

  given_remu :
      given 7
        (result_sign 7 a b)
        (quotient_of (operand 7 a) (operand 7 b))
        (operand 7 a % operand 7 b)
      ≡ soft_remu a b
  unfolding soft_remu
  given_remu = elim (zero-cases b) [
    | inl z ↦ rw (z, mod-zero) refl
    | inr ne ↦ rw (==-false b 0 ne) refl
  ]

given-division :
    (f a b : ℕ)
    → 4 ≤ f
    → f < 8
    → a < 2 ^ 32
    → b < 2 ^ 32
    → given f
        (result_sign f a b)
        (quotient_of (operand f a) (operand f b))
        (operand f a % operand f b)
      ≡ division f a b
given-division f a b low high la lb = elim (four f low high) [
  | inl (inl e) ↦ rw e (given_div a b la lb)
  | inl (inr e) ↦ rw e (given_divu a b la lb)
  | inr (inl e) ↦ rw e (given_rem a b la lb)
  | inr (inr e) ↦ rw e (given_remu a b la lb)
]
  where
    four : (f : ℕ) → 4 ≤ f → f < 8 → ((f ≡ 4) ⊎ (f ≡ 5)) ⊎ ((f ≡ 6) ⊎ (f ≡ 7))
    four f low high = ground arith

-- For a request that the core holds, out of reset, for `div`, `divu`, `rem` or `remu` (the values
-- 4 to 7 of funct3) on 32-bit operands, the divider, started with idle registers, answers in its
-- 36th clock, and not before, with the quotient or remainder that the C code of firmware/multest.c computes, for
-- a divisor of zero and the overflow of -2 ^ 31 by -1 too.
pub divider-divides :
    {i : Request} {f : ℕ} (s : Divider)
    → Requests i f
    → 4 ≤ f
    → f < 8
    → i.rs1 < 2 ^ 32
    → i.rs2 < 2 ^ 32
    → IsIdle s
    → (answer 35 i s ≡ none) × (answer 36 i s ≡ some (division f i.rs1 i.rs2))
divider-divides {i} {f} s r low high la lb idle =
    let (early, exact) = answer-given s r low high la lb idle in
    (early, exact ∙ ap some (given-division f i.rs1 i.rs2 low high la lb))
