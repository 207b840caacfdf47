-- ===== src/Base/Numeral/Hexadecimal.antt =====
-- Hexadecimal text of a fixed width, over an alphabet of sixteen digits.
use Prim.Native.Nat.{ℕ, zero, suc, ◌+◌, ◌-◌, ◌*◌, ◌/◌, ◌%◌, ◌^◌, ◌<◌}
use mathlib.Core.Path.{◌≡◌, refl, ap, sym, ◌∙◌}
use mathlib.Core.List.{[], ◌∷◌}
use mathlib.Core.Bool.{Bool, true, ◌&&◌}
use mathlib.Core.Logic.{inl, inr}
use native.Mathlib.Nat.{pow-suc, div-add-mod', div-div-eq-div-mul}
use native.Mathlib.Omega.{arith}
use picorv.Base.Tests.{ltb, ◌==◌, ==_iff, Bool-cases, and-left, and-right, if◌then◌else◌}
use picorv.Base.Lists.{get_or, length}
use picorv.Base.Text.{Bytes, codes}

-- "0123456789ABCDEF" and "0123456789abcdef".
abbrev pub upper_digits : Bytes
upper_digits = codes "0123456789ABCDEF"

abbrev pub lower_digits : Bytes
lower_digits = codes "0123456789abcdef"

-- The `k` lowest hexadecimal digits of `n`, the highest of them first.
abbrev pub hexadecimal : Bytes → ℕ → ℕ → Bytes
hexadecimal digits zero n = []
hexadecimal digits (suc k) n = get_or digits (n / 16 ^ k % 16) 0 ∷ hexadecimal digits k n

pub length-hexadecimal : (digits : Bytes) (k n : ℕ) → length (hexadecimal digits k n) ≡ k
length-hexadecimal digits zero n = refl
length-hexadecimal digits (suc k) n = λ i. suc (length-hexadecimal digits k n i)

-- The value of a digit, in either case of letters.
abbrev pub hex_digit_value : ℕ → ℕ
hex_digit_value c = if ltb c b'A' then c - b'0' else if ltb c b'a' then c - 55 else c - 87

abbrev pub hex_value : ℕ → Bytes → ℕ
hex_value n [] = n
hex_value n (c ∷ s) = hex_value (n * 16 + hex_digit_value c) s

-- One more digit in front of the `k` lowest.
mod_split : (n p : ℕ) → n % (p * 16) ≡ n / p % 16 * p + n % p
mod_split n p =
    let digits : n / p ≡ n / (p * 16) * 16 + n / p % 16 =
      omega (arith, div-div-eq-div-mul n p 16) in
    omega (arith, div-add-mod' n p, div-add-mod' n (p * 16), ap (λ (t : ℕ). t * p) digits)

abbrev reads_back : Bytes → ℕ → Bool
reads_back digits zero = true
reads_back digits (suc d) = hex_digit_value (get_or digits d 0) == d && reads_back digits d

reads_back_lem :
    (digits : Bytes) (n d : ℕ)
    → reads_back digits n ≡ true
    → d < n
    → hex_digit_value (get_or digits d 0) ≡ d
reads_back_lem digits zero d ok h = absurd (omega arith)
reads_back_lem digits (suc n) d ok h = elim (Bool-cases (d == n)) [
  | inl e ↦ rw ((==_iff d n).0 e) ((==_iff _ n).0 (and-left _ _ ok))
  | inr ne ↦ reads_back_lem digits n d (and-right _ _ ok) (ground arith)
]

-- An alphabet of sixteen digits with their values in order.
abbrev pub IsHexAlphabet : Bytes → Type 0
IsHexAlphabet digits = reads_back digits 16 ≡ true

hex_value-behind :
    (digits : Bytes) (k n m : ℕ)
    → IsHexAlphabet digits
    → hex_value m (hexadecimal digits k n) ≡ m * 16 ^ k + n % 16 ^ k
hex_value-behind digits zero n m ok = omega arith
hex_value-behind digits (suc k) n m ok =
    let d : ℕ = n / 16 ^ k % 16 in
    let e : hex_digit_value (get_or digits d 0) ≡ d = reads_back_lem digits 16 d ok (omega arith) in
    rw (hex_value-behind digits k n _ ok, e)
      (omega (arith, pow-suc 16 k, ap (λ (t : ℕ). m * t) (pow-suc 16 k), split))
  where
    split : n % 16 ^ suc k ≡ n / 16 ^ k % 16 * 16 ^ k + n % 16 ^ k
    split = rw pow-suc (mod_split n (16 ^ k))

-- Reading a text of width `k` back gives the `k` lowest digits of the number.
pub hex_value-hexadecimal :
    (digits : Bytes) (k n : ℕ)
    → IsHexAlphabet digits
    → hex_value 0 (hexadecimal digits k n) ≡ n % 16 ^ k
hex_value-hexadecimal digits k n ok = omega (arith, hex_value-behind digits k n 0 ok)

-- A shift by four bits a digit.
pub pow_sixteen : (j : ℕ) → 2 ^ (4 * j) ≡ 16 ^ j
pow_sixteen zero = refl
pow_sixteen (suc j) =
    let e : 4 * suc j ≡ suc (suc (suc (suc (4 * j)))) = omega arith in
    rw e (
      omega (
        arith,
        pow_sixteen j,
        pow-suc 16 j,
        pow-suc 2 (4 * j),
        pow-suc 2 (suc (4 * j)),
        pow-suc 2 (suc (suc (4 * j))),
        pow-suc 2 (suc (suc (suc (4 * j)))),
      ))

-- The digit for zero is the only '0'.
pub hex_digit-zero : (d : ℕ) → d < 16 → get_or lower_digits d 0 ≡ b'0' → d ≡ 0
hex_digit-zero d h e = sym (reads_back_lem lower_digits 16 d refl h) ∙ ap hex_digit_value e
