-- ===== src/Firmware/Stats/Laws.antt =====
-- What stats_print_dec of firmware/stats.c prints.
use picorv.Base.{
  ℕ, zero, suc, ◌+◌, ◌-◌, ◌/◌, ◌%◌, ◌^◌, ◌≤◌, ◌<◌, ◌≡◌, ◌≢◌, refl, sym, ap, ◌∙◌, arith, Bool, true,
  false, ltb, ◌==◌, if◌then◌else◌, Bool-cases, inl, inr, ltb→lt, ==-false, [], ◌∷◌, ◌++◌,
  append_assoc, append-nil, All, length, length-append,
}
use picorv.Base.Text.{Bytes}
use picorv.Base.Numeral.{
  decimal, decimal_small, decimal_step, IsDigit, decimal-IsDecimal, LeadsWell,
}
use picorv.Console.{done, Writes}
use picorv.Firmware.Print.{print_chr}
use picorv.Firmware.Stats.{store_padded, write_dotted, stats_print_dec}
use native.Mathlib.Nat.{pow-suc}

-- A text behind `n` copies of a character.
abbrev pub fill : ℕ → ℕ → Bytes → Bytes
fill c zero s = s
fill c (suc n) s = c ∷ fill c n s

fill-cons : (c n : ℕ) (s : Bytes) → fill c n (c ∷ s) ≡ fill c (suc n) s
fill-cons c zero s = refl
fill-cons c (suc n) s = ap (λ t. c ∷ t) (fill-cons c n s)

abbrev pad : Bool → ℕ
pad zero_pad = if zero_pad then b'0' else b' '

store_padded_zero :
    (room digits : ℕ) (zero_pad : Bool) (buffer out : Bytes)
    → digits ≤ room
    → store_padded room 0 digits zero_pad buffer out ≡ done (fill (pad zero_pad) digits buffer) out
unfolding store_padded
store_padded_zero zero zero zp buffer out h = refl
store_padded_zero zero (suc d) zp buffer out h = absurd (omega arith)
store_padded_zero (suc room) zero zp buffer out h = refl
store_padded_zero (suc room) (suc d) zp buffer out h =
    let left : suc d - 1 ≡ d = omega arith in
    let more : ltb 0 (suc d) ≡ true = ground arith in
    rw (more, left)
      (store_padded_zero room d zp (pad zp ∷ buffer) out (omega arith)
        ∙ ap (λ s. done s out) (fill-cons (pad zp) d buffer))

store_padded_lem :
    (room val digits : ℕ) (zero_pad : Bool) (buffer out : Bytes)
    → 0 < val
    → val < 10 ^ room
    → digits ≤ room
    → store_padded room val digits zero_pad buffer out
      ≡ done (fill (pad zero_pad) (digits - length (decimal val)) (decimal val ++ buffer)) out
unfolding store_padded
store_padded_lem zero val digits zp buffer out pos fits h = absurd (omega arith)
store_padded_lem (suc room) val digits zp buffer out pos fits h =
    let some_left : (val == 0) ≡ false = ground arith in
    elim (Bool-cases (ltb val 10)) [
      | inl small ↦
          let lt = ltb→lt val 10 small in
          let z : val / 10 ≡ 0 = omega arith in
          let m : val % 10 ≡ val = omega arith in
          rw (some_left, z, m, decimal_small val lt)
            (store_padded_zero room (digits - 1) zp ((b'0' + val) ∷ buffer) out (omega arith))
      | inr large ↦
          let high = decimal (val / 10) in
          let fewer : digits - (length high + 1) ≡ digits - 1 - length high = omega arith in
          rw
            (
              some_left,
              decimal_step val (ground arith),
              length-append high ((b'0' + val % 10) ∷ []),
              fewer,
              append_assoc high ((b'0' + val % 10) ∷ []) buffer,
            )
            (store_padded_lem room (val / 10) (digits - 1) zp ((b'0' + val % 10) ∷ buffer) out
              (ground arith) (omega (arith, pow-suc 10 room)) (omega arith))
    ]

abbrev LacksBlank : Bytes → Type 0
LacksBlank = All (λ c. c ≢ b' ')

write_dotted_plain : (s : Bytes) → LacksBlank s → Writes (write_dotted s) s
unfolding write_dotted print_chr
write_dotted_plain [] h out = ap (done tt) (sym (append-nil out))
write_dotted_plain (c ∷ []) h out = rw (==-false c b' ' h.0)
write_dotted_plain (c ∷ d ∷ s) h out = rw (==-false c b' ' h.0) (
    write_dotted_plain (d ∷ s) h.1 (out ++ c ∷ [])
    ∙ ap (done tt) (append_assoc out (c ∷ []) (d ∷ s)))

write_dotted_blanks :
    (k c : ℕ) (s : Bytes)
    → LacksBlank (c ∷ s)
    → Writes (write_dotted (fill b' ' (suc k) (c ∷ s))) (fill b'.' k (b' ' ∷ c ∷ s))
unfolding write_dotted print_chr
write_dotted_blanks zero c s h out = rw (==-false c b' ' h.0) (
    write_dotted_plain (c ∷ s) h (out ++ b' ' ∷ [])
    ∙ ap (done tt) (append_assoc out (b' ' ∷ []) (c ∷ s)))
write_dotted_blanks (suc k) c s h out =
    write_dotted_blanks k c s h (out ++ b'.' ∷ [])
    ∙ ap (done tt) (append_assoc out (b'.' ∷ []) (fill b'.' k (b' ' ∷ c ∷ s)))

-- Zeroes, or dots and a blank, in front of a number.
abbrev pub leaders : Bool → ℕ → Bytes → Bytes
leaders true n s = fill b'0' n s
leaders false zero s = s
leaders false (suc n) s = fill b'.' n (b' ' ∷ s)

LacksBlank-fill : (n : ℕ) (s : Bytes) → LacksBlank s → LacksBlank (fill b'0' n s)
LacksBlank-fill zero s h = h
LacksBlank-fill (suc n) s h = (ground arith, LacksBlank-fill n s h)

LacksBlank-digits : (s : Bytes) → All IsDigit s → LacksBlank s
LacksBlank-digits [] h = tt
LacksBlank-digits (c ∷ s) h = (λ e. omega (arith, h.0), LacksBlank-digits s h.1)

write_dotted_lem :
    (zero_pad : Bool) (n : ℕ) (s : Bytes)
    → All IsDigit s
    → LeadsWell s
    → Writes (write_dotted (fill (pad zero_pad) n s)) (leaders zero_pad n s)
write_dotted_lem true n s ds leads =
    write_dotted_plain (fill b'0' n s) (LacksBlank-fill n s (LacksBlank-digits s ds))
write_dotted_lem false zero s ds leads = write_dotted_plain s (LacksBlank-digits s ds)
write_dotted_lem false (suc n) [] ds leads = absurd leads
write_dotted_lem false (suc n) (c ∷ s) ds leads =
    write_dotted_blanks n c s (LacksBlank-digits (c ∷ s) ds)

-- stats_print_dec prints a positive 32-bit value in decimal, with zeroes in front of it, or dots and
-- a blank, up to the number of digits, which is at most 32.
pub stats_print_dec-Writes :
    (val digits : ℕ) (zero_pad : Bool)
    → 0 < val
    → val < 2 ^ 32
    → digits ≤ 32
    → Writes
        (stats_print_dec val digits zero_pad)
        (leaders zero_pad (digits - length (decimal val)) (decimal val))
unfolding stats_print_dec
stats_print_dec-Writes val digits zp pos h hd out =
    rw (store_padded_lem 32 val digits zp [] out pos (omega arith) hd, append-nil)
      (write_dotted_lem zp (digits - length (decimal val)) (decimal val)
        (decimal-IsDecimal val).digits (decimal-IsDecimal val).leads out)
