-- ===== src/Picosoc/Text/Laws.antt =====
-- What the printing routines of picosoc/firmware.c send.
use picorv.Base.{ℕ, zero, suc, ◌-◌, ◌/◌, ◌%◌, ◌^◌, ◌≤◌, ◌<◌, ◌≡◌, refl, ◌&&◌, arith, sym, ap, ◌∙◌}
use picorv.Base.{true, false, [], ◌∷◌, ◌++◌, append_assoc, append-nil, ltb, leb, ◌==◌, ==_iff}
use picorv.Base.{Bool-cases, inl, inr, ◌⊎◌, if◌then◌else◌, get_or, ltb→lt}
use picorv.Base.{All-get_or}
use picorv.Base.Bits.{bit_and_mask}
use picorv.Base.Text.{Bytes}
use picorv.Base.Numeral.{hexadecimal, lower_digits, pow_sixteen, hex_digit-zero}
use picorv.Console.{IsText}
use picorv.Picosoc.Soc.{Soc, M, ret, bind, ◌>>◌, pure, send, Prints}
use picorv.Picosoc.Text.{putchar, print, print_hex, hex_rounds}
use native.Mathlib.Nat.{pow-suc, one-le-pow, div-lt_iff_lt-mul, div-eq_of_lt, le-div_iff_mul-le}

-- A text with a carriage return in front of every newline.
unfoldable pub crlf : Bytes → Bytes
crlf [] = []
crlf (c ∷ s) = (if c == b'\n' then b'\r' ∷ b'\n' ∷ [] else c ∷ []) ++ crlf s

pub send-send : (a b : Bytes) (s : Soc) → send b (send a s) ≡ send (a ++ b) s
send-send a b s = λ i. record s { sent = append_assoc s.sent a b i }

send-nil : (s : Soc) → send [] s ≡ s
send-nil s = λ i. record s { sent = append-nil s.sent i }

pub putchar-Prints :
    (c : ℕ) → Prints (putchar c) (if c == b'\n' then b'\r' ∷ b'\n' ∷ [] else c ∷ [])
unfolding putchar
putchar-Prints c s = elim (Bool-cases (c == b'\n')) [
  | inl newline ↦
      let e = (==_iff c b'\n').0 newline in
      rw (newline, e) (ap (ret tt) (send-send (b'\r' ∷ []) (b'\n' ∷ []) s))
  | inr other ↦ rw other
]

-- One after the other.
pub Prints-then :
    {m k : M (Unit {0})} {a b : Bytes} → Prints m a → Prints k b → Prints (m >> k) (a ++ b)
Prints-then {k} {a} {b} p q s =
    ap (λ r. bind r (λ _. k)) (p s) ∙ q (send a s) ∙ ap (ret tt) (send-send a b s)

pub Prints-nothing : Prints (pure tt) []
Prints-nothing s = ap (ret tt) (sym (send-nil s))

-- `print` sends a text without NUL bytes, each newline in it behind a carriage return.
pub print-Prints : (s : Bytes) → IsText s → Prints (print s) (crlf s)
unfolding print crlf
print-Prints [] h = Prints-nothing
print-Prints (c ∷ s) (nz, h) = elim (Bool-cases (c == 0)) [
  | inl end ↦ absurd (nz ((==_iff c 0).0 end))
  | inr more ↦ rw more (Prints-then (putchar-Prints c) (print-Prints s h))
]

abbrev hex_digit : ℕ → ℕ → ℕ
hex_digit i v = get_or lower_digits (v / 16 ^ i % 16) 0

digit-ne-newline : (d : ℕ) → d < 16 → (get_or lower_digits d 0 == b'\n') ≡ false
digit-ne-newline d h =
    let low = All-get_or (λ c. b'0' ≤ c) lower_digits d 0 (omega arith) h in ground arith

hex_round :
    (i v digits : ℕ)
    → hex_rounds (suc i) v digits ≡ (
        if hex_digit i v == b'0' && leb digits i
        then hex_rounds i v digits
        else putchar (hex_digit i v) >> hex_rounds i v i)
unfolding hex_rounds
hex_round i v digits = rw (pow_sixteen, bit_and_mask 4 (v / 16 ^ i))

show-Prints :
    (i v : ℕ) {rest : M (Unit {0})} {text : Bytes}
    → Prints rest text
    → Prints (putchar (hex_digit i v) >> rest) (hex_digit i v ∷ text)
show-Prints i v p =
    let q = Prints-then (putchar-Prints (hex_digit i v)) p in
    rw (digit-ne-newline (v / 16 ^ i % 16) (omega arith)) at q

-- Below the width every digit is shown.
all_digits-Prints :
    (i v digits : ℕ) → i ≤ digits → Prints (hex_rounds i v digits) (hexadecimal lower_digits i v)
all_digits-Prints zero v digits h = unfold hex_rounds in Prints-nothing
all_digits-Prints (suc i) v digits h =
    rw (hex_round i v digits, shown) (show-Prints i v (all_digits-Prints i v i (omega arith)))
  where
    shown : (hex_digit i v == b'0' && leb digits i) ≡ false
    shown = ground arith

-- How many digits `print_hex` shows: no fewer than asked for, and no zero in front of more.
pub record IsWidth (v digits k : ℕ) : Type 0 where
  pub enough : digits ≤ k
  pub fits : v < 16 ^ k
  pub tight : (k ≡ digits) ⊎ (16 ^ (k - 1) ≤ v)

-- The top digit of a number of `suc i` digits is '0' exactly if `i` digits do.
top_digit :
    (i v : ℕ)
    → v < 16 ^ suc i
    → ((hex_digit i v == b'0') ≡ true × (v < 16 ^ i))
      ⊎ ((hex_digit i v == b'0') ≡ false × (16 ^ i ≤ v))
top_digit i v fits = elim (Bool-cases (ltb v (16 ^ i))) [
  | inl small ↦ inl (rw (div-eq_of_lt (ltb→lt v (16 ^ i) small)) refl, ltb→lt v (16 ^ i) small)
  | inr large ↦ inr (shown (ground arith), ground arith)
]
  where
    shown : 16 ^ i ≤ v → (hex_digit i v == b'0') ≡ false
    shown le =
        let pos : 1 ≤ v / 16 ^ i =
          (le-div_iff_mul-le (one-le-pow i 16 (omega arith))).1 (omega arith) in
        let top : v / 16 ^ i < 16 =
          (div-lt_iff_lt-mul (one-le-pow i 16 (omega arith))).1 (omega (arith, pow-suc 16 i)) in
        ground (arith, hex_digit-zero (v / 16 ^ i % 16) (omega arith))

hex_rounds-Prints :
    (i v digits : ℕ)
    → v < 16 ^ i
    → digits ≤ i
    → (k : ℕ) × (k ≤ i)
      × IsWidth v digits k
      × Prints (hex_rounds i v digits) (hexadecimal lower_digits k v)
hex_rounds-Prints zero v digits fits le = (
  0,
  omega arith,
  record { enough = le; fits = fits; tight = inl (omega arith) },
  unfold hex_rounds in Prints-nothing,
)
hex_rounds-Prints (suc i) v digits fits le =
    elim (Bool-cases (hex_digit i v == b'0' && leb digits i)) [
      | inl zero_digit ↦
          let below : v < 16 ^ i = hidden zero_digit (top_digit i v fits) in
          let (k, k_le, width, prints) = hex_rounds-Prints i v digits below (ground arith) in
          (k, omega arith, width, rw (hex_round i v digits, zero_digit) prints)
      | inr shown ↦ (
        suc i,
        omega arith,
        record { enough = le; fits = fits; tight = first shown (top_digit i v fits) },
        rw (hex_round i v digits, shown) (show-Prints i v (all_digits-Prints i v i (omega arith))),
      )
    ]
  where
    hidden :
        (hex_digit i v == b'0' && leb digits i) ≡ true
        → ((hex_digit i v == b'0') ≡ true × (v < 16 ^ i))
          ⊎ ((hex_digit i v == b'0') ≡ false × (16 ^ i ≤ v))
        → v < 16 ^ i
    hidden h (inl (e, lt)) = lt
    hidden h (inr (e, ge)) = absurd (ground arith)

    first :
        (hex_digit i v == b'0' && leb digits i) ≡ false
        → ((hex_digit i v == b'0') ≡ true × (v < 16 ^ i))
          ⊎ ((hex_digit i v == b'0') ≡ false × (16 ^ i ≤ v))
        → (suc i ≡ digits) ⊎ (16 ^ (suc i - 1) ≤ v)
    first h (inl (e, lt)) = inl (ground arith)
    first h (inr (e, ge)) = inr (let same : suc i - 1 ≡ i = omega arith in rw same ge)

-- `print_hex` shows a 32-bit number with as many hexadecimal digits as it needs, but at least
-- `digits` of them.
pub print_hex-Prints :
    (v digits : ℕ)
    → v < 2 ^ 32
    → digits ≤ 8
    → (k : ℕ) × (k ≤ 8)
      × IsWidth v digits k
      × Prints (print_hex v digits) (hexadecimal lower_digits k v)
unfolding print_hex
print_hex-Prints v digits fits le = hex_rounds-Prints 8 v digits fits le
