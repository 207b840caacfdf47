-- ===== src/Picosoc/Text/Decimal.antt =====
-- `print_dec` of picosoc/firmware.c.
use picorv.Base.{ℕ, ◌+◌, ◌*◌, ◌/◌, ◌%◌, ◌≤◌, ◌<◌, ◌≡◌, ◌≢◌, refl, arith}
use picorv.Base.{true, false, [], ◌∷◌, ◌++◌, ltb, leb, ◌==◌}
use picorv.Base.{Bool-cases, inl, inr, ◌⊎◌, if◌then◌else◌, Option, none, some, ltb→lt}
use picorv.Base.Text.{Bytes, codes}
use picorv.Base.Numeral.{decimal, decimal_small, decimal_step}
use picorv.Picosoc.Soc.{Prints}
use picorv.Picosoc.Text.{putchar, print_dec, chain, put_digit, put_last}
use picorv.Picosoc.Text.Laws.{putchar-Prints, Prints-then, Prints-nothing, print-Prints, crlf}

abbrev digit_of : ℕ → ℕ → Option ℕ
digit_of unit v = if ltb v unit then none else some (b'0' + v / unit)

chain_hundreds : (v : ℕ) → v < 1000 → chain 100 9 v ≡ (digit_of 100 v, v % 100)
unfolding chain
chain_hundreds v h = ground arith

chain_tens : (v : ℕ) → v < 100 → chain 10 9 v ≡ (digit_of 10 v, v % 10)
unfolding chain
chain_tens v h = ground arith

chain_ones : (v : ℕ) → v < 10 → chain 1 9 v ≡ (digit_of 1 v, 0)
unfolding chain
chain_ones v h = ground arith

-- What `putchar` sends for a digit that is shown or not.
abbrev maybe : Option ℕ → Bytes
maybe none = []
maybe (some c) = c ∷ []

digit-Prints : (d : ℕ) → Prints (putchar (b'0' + d)) ((b'0' + d) ∷ [])
digit-Prints d =
    let other : ((b'0' + d) == b'\n') ≡ false = ground arith in
    rw other at (putchar-Prints (b'0' + d))

put_digit-Prints : (unit v : ℕ) → Prints (put_digit (digit_of unit v)) (maybe (digit_of unit v))
unfolding put_digit
put_digit-Prints unit v = elim (Bool-cases (ltb v unit)) [
  | inl small ↦ rw small Prints-nothing
  | inr large ↦ rw large (digit-Prints (v / unit))
]

put_last-Prints : (v : ℕ) → v < 10 → Prints (put_last (digit_of 1 v)) ((b'0' + v) ∷ [])
unfolding put_last
put_last-Prints v h = elim (Bool-cases (ltb v 1)) [
  | inl small ↦ let z : v ≡ 0 = ground arith in rw (small, z) (digit-Prints 0)
  | inr large ↦ let same : v / 1 ≡ v = omega arith in rw (large, same) (digit-Prints v)
]

-- The text for a number below 1000: a tens digit of zero is left out.
abbrev pub shown_below_1000 : ℕ → Bytes
shown_below_1000 v = maybe (digit_of 100 v) ++ maybe (digit_of 10 (v % 100)) ++ (b'0' + v % 10) ∷ []

below_1000-Prints : (v : ℕ) → v < 1000 → Prints (print_dec v) (shown_below_1000 v)
unfolding print_dec
below_1000-Prints v h =
    let large : leb 1000 v ≡ false = ground arith in
    let tens : v % 100 % 10 ≡ v % 10 = omega arith in
    rw
      (
        large,
        chain_hundreds v h,
        chain_tens (v % 100) (omega arith),
        chain_ones (v % 100 % 10) (omega arith),
      )
      (Prints-then (Prints-then (put_digit-Prints 100 v) (put_digit-Prints 10 (v % 100)))
        (rw tens (put_last-Prints (v % 10) (omega arith))))

two_digits : (v : ℕ) → 10 ≤ v → v < 100 → decimal v ≡ (b'0' + v / 10) ∷ (b'0' + v % 10) ∷ []
two_digits v low high = rw (decimal_step v low, decimal_small (v / 10) (omega arith)) refl

three_digits :
    (v : ℕ)
    → 100 ≤ v
    → v < 1000
    → decimal v ≡ (b'0' + v / 100) ∷ (b'0' + v / 10 % 10) ∷ (b'0' + v % 10) ∷ []
three_digits v low high =
    let e : v / 10 / 10 ≡ v / 100 = omega arith in
    rw (decimal_step v (omega arith), two_digits (v / 10) (omega arith) (omega arith), e) refl

shown-decimal : (v : ℕ) → v < 1000 → (v < 100) ⊎ (10 ≤ v % 100) → shown_below_1000 v ≡ decimal v
shown-decimal v h no_gap = elim (Bool-cases (ltb v 10)) [
  | inl one ↦ rw (decimal_small v (ground arith)) (ground arith)
  | inr more ↦ elim (Bool-cases (ltb v 100)) [
    | inl two ↦ rw (two_digits v (ground arith) (ground arith)) (ground arith)
    | inr three ↦ rw (three_digits v (ground arith) h) (ground arith)
  ]
]

-- `print_dec` prints a number below 1000 in decimal, unless the number has three digits with a zero
-- in the middle, and prints `>=1000` for every number from 1000 on.
pub print_dec-Prints :
    (v : ℕ)
    → ((v < 100) ⊎ (10 ≤ v % 100)) ⊎ (1000 ≤ v)
    → Prints (print_dec v) (if ltb v 1000 then decimal v else codes ">=1000")
print_dec-Prints v no_gap = elim (Bool-cases (ltb v 1000)) [
  | inl small ↦
      let below = ltb→lt v 1000 small in
      rw (small, ← shown-decimal v below (narrow below no_gap)) (below_1000-Prints v below)
  | inr large ↦ rw large (overflow (ground arith))
]
  where
    narrow : v < 1000 → ((v < 100) ⊎ (10 ≤ v % 100)) ⊎ (1000 ≤ v) → (v < 100) ⊎ (10 ≤ v % 100)
    narrow below (inl either) = either
    narrow below (inr above) = absurd (omega arith)

    overflow : 1000 ≤ v → Prints (print_dec v) (codes ">=1000")
    overflow h =
        unfold print_dec crlf in
        let e : leb 1000 v ≡ true = ground arith in
        rw e (print-Prints (codes ">=1000") (omega arith))

-- A number from 100 to 999 whose tens digit is zero is printed without that digit, as the decimal
-- text of another number.
pub print_dec_drops_zero :
    (v : ℕ)
    → 100 ≤ v
    → v < 1000
    → v % 100 < 10
    → Prints (print_dec v) (decimal (v / 100 * 10 + v % 10)) × (v / 100 * 10 + v % 10 ≢ v)
print_dec_drops_zero v low high gap = (rw (← same) (below_1000-Prints v high), omega arith)
  where
    same : shown_below_1000 v ≡ decimal (v / 100 * 10 + v % 10)
    same = rw (two_digits (v / 100 * 10 + v % 10) (omega arith) (omega arith)) (ground arith)
