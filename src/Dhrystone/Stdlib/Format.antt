-- ===== src/Dhrystone/Stdlib/Format.antt =====
-- The text that a format stands for, and that `printf` of dhrystone/stdlib.c writes it.
use picorv.Base.{ℕ, ◌^◌, ◌≡◌, refl, sym, ap, ◌∙◌, arith, inl, inr}
use picorv.Base.{Bool, true, false, not, ◌&&◌, ltb, leb, ltb→lt, ◌==◌, if◌then◌else◌, Bool-cases}
use picorv.Base.{Option, none, some, List, [], ◌∷◌, ◌++◌, append_assoc, append-nil}
use picorv.Base.{and-left, and-right}
use mathlib.Core.Option.{some-injective, none-ne-some}
use picorv.Base.Text.{Bytes}
use picorv.Console.{done, Writes}
use picorv.Dhrystone.Stdlib.{
  SignMagnitude, nonneg, minus, Arg, char, text, int, printf, printf_s, printf_c, printf_d, scan,
  convert, is_conversion,
}
use picorv.Dhrystone.Stdlib.Laws.{int_text, printf_d-Writes}

-- A C string in full: no NUL is inside.
abbrev is_c_string : Bytes → Bool
is_c_string [] = true
is_c_string (c ∷ s) = not (c == 0) && is_c_string s

-- An `int` that has a negative.
abbrev pub is_printable : SignMagnitude → Bool
is_printable (nonneg n) = ltb n (2 ^ 31)
is_printable (minus n) = leb 1 n && ltb n (2 ^ 31)

-- An argument by the letter of its conversion.
unfoldable pub rendered : ℕ → Arg → Option Bytes
rendered k (char c) = if k == b'c' then some (c ∷ []) else none
rendered k (text s) = if k == b's' && is_c_string s then some s else none
rendered k (int v) = if k == b'd' && is_printable v then some (int_text v) else none

abbrev pub join : Option Bytes → Option Bytes → Option Bytes
join (some s) (some t) = some (s ++ t)
join (some s) none = none
join none t = none

-- The text of a format with its arguments, each conversion a '%' and a letter; none where they do
-- not fit each other. It is true behind a '%'.
unfoldable pub expand : Bool → Bytes → List Arg → Option Bytes
unfolding rendered
expand false [] args = some []
expand true [] args = none
expand false (c ∷ format) args =
    let conversion = expand true format args in
    let plain = join (some (c ∷ [])) (expand false format args) in
    if c == b'%' then conversion else plain
expand true (k ∷ format) [] = none
expand true (k ∷ format) (a ∷ args) = join (rendered k a) (expand false format args)

unfoldable pub formatted : Bytes → List Arg → Option Bytes
unfolding expand
formatted format args = expand false format args

if_some {ℓ} :
    {A : Type ℓ} (b : Bool) {x y : A} → (if b then some x else none) ≡ some y → (b ≡ true) × (x ≡ y)
if_some true {x} {y} h = (refl, some-injective x y h)
if_some false {x} {y} h = absurd (none-ne-some y h)

pub join-some :
    (s t : Option Bytes) (r : Bytes)
    → join s t ≡ some r
    → (a : Bytes) × (b : Bytes) × (s ≡ some a) × (t ≡ some b) × (a ++ b ≡ r)
join-some (some a) (some b) r h = (a, b, refl, refl, some-injective (a ++ b) r h)
join-some (some a) none r h = absurd (none-ne-some r h)
join-some none t r h = absurd (none-ne-some r h)

printf_s-Writes : (s : Bytes) → is_c_string s ≡ true → Writes (printf_s s) s
unfolding printf_s
printf_s-Writes [] h out = ap (done tt) (sym (append-nil out))
printf_s-Writes (c ∷ s) h out =
    let other : (c == 0) ≡ false = ground (arith, and-left (not (c == 0)) (is_c_string s) h) in
    rw other (
      printf_s-Writes s (and-right (not (c == 0)) (is_c_string s) h) (out ++ c ∷ [])
      ∙ ap (done tt) (append_assoc out (c ∷ []) s))

printable_lem : (v : SignMagnitude) → is_printable v ≡ true → Writes (printf_d v) (int_text v)
printable_lem (nonneg n) h = printf_d-Writes (nonneg n) (ltb→lt n (2 ^ 31) h) cc
printable_lem (minus n) h =
    let some_magnitude = and-left (leb 1 n) (ltb n (2 ^ 31)) h in
    let below = ltb→lt n (2 ^ 31) (and-right (leb 1 n) (ltb n (2 ^ 31)) h) in
    printf_d-Writes (minus n) (ground arith, omega arith) (λ e. ground arith)

convert_lem :
    (k : ℕ) (a : Arg) (args : List Arg) (t out : Bytes)
    → rendered k a ≡ some t
    → convert k (a ∷ args) out ≡ done args (out ++ t)
unfolding convert rendered printf_c
convert_lem k (char c) args t out h = let r = if_some (k == b'c') h in rw (r.0, sym r.1)
convert_lem k (text s) args t out h =
    let r = if_some (k == b's' && is_c_string s) h in
    let letter = and-left (k == b's') (is_c_string s) r.0 in
    rw (letter, sym r.1, printf_s-Writes s (and-right (k == b's') (is_c_string s) r.0) out)
convert_lem k (int v) args t out h =
    let r = if_some (k == b'd' && is_printable v) h in
    let letter = and-left (k == b'd') (is_printable v) r.0 in
    rw (letter, sym r.1, printable_lem v (and-right (k == b'd') (is_printable v) r.0) out)

rendered-is_conversion :
    (k : ℕ) (a : Arg) (t : Bytes) → rendered k a ≡ some t → is_conversion k ≡ true
unfolding rendered
rendered-is_conversion k (char c) t h = rw ((if_some (k == b'c') h).0)
rendered-is_conversion k (text s) t h =
    let letter = and-left (k == b's') (is_c_string s) (if_some (k == b's' && is_c_string s) h).0 in
    ground (arith, letter)
rendered-is_conversion k (int v) t h =
    let letter =
      and-left (k == b'd') (is_printable v) (if_some (k == b'd' && is_printable v) h).0 in
    ground (arith, letter)

expand_conversion :
    (c : ℕ) (format : Bytes) (args : List Arg)
    → (c == b'%') ≡ true
    → expand false (c ∷ format) args ≡ expand true format args
unfolding expand
expand_conversion c format args p = rw p

expand_plain :
    (c : ℕ) (format : Bytes) (args : List Arg)
    → (c == b'%') ≡ false
    → expand false (c ∷ format) args ≡ join (some (c ∷ [])) (expand false format args)
unfolding expand
expand_plain c format args p = rw p

expand_lem :
    (behind : Bool) (format : Bytes) (args : List Arg) (t out : Bytes)
    → expand behind format args ≡ some t
    → scan behind format args out ≡ done tt (out ++ t)
unfolding expand scan
expand_lem false [] args t out h =
    rw (sym (some-injective [] t h)) (ap (done tt) (sym (append-nil out)))
expand_lem true [] args t out h = absurd (none-ne-some t h)
expand_lem true (k ∷ format) [] t out h = absurd (none-ne-some t h)
expand_lem false (c ∷ format) args t out h = elim (Bool-cases (c == b'%')) [
  | inl percent ↦
      rw percent
        (expand_lem true format args t out (sym (expand_conversion c format args percent) ∙ h))
  | inr other ↦
      let (a, b, e, tail, whole) =
        join-some (some (c ∷ [])) (expand false format args) t
          (sym (expand_plain c format args other) ∙ h) in
      rw (other, sym whole, sym (some-injective (c ∷ []) a e))
        (unfold printf_c in
          (expand_lem false format args b (out ++ c ∷ []) tail
            ∙ ap (done tt) (append_assoc out (c ∷ []) b)))
]
expand_lem true (k ∷ format) (a ∷ args) t out h =
    let (s, b, e, tail, whole) = join-some (rendered k a) (expand false format args) t h in
    rw (rendered-is_conversion k a s e, convert_lem k a args s out e, sym whole)
      (expand_lem false format args b (out ++ s) tail ∙ ap (done tt) (append_assoc out s b))

-- A format whose conversions are a '%' and the letter of the argument's type, with the C strings
-- free of NUL and no `int` the least one, is printed with each argument in place of its conversion.
pub printf_lem :
    (format : Bytes) (args : List Arg) (t : Bytes)
    → formatted format args ≡ some t
    → Writes (printf format args) t
unfolding formatted printf
printf_lem format args t h out = expand_lem false format args t out h
