-- ===== src/Firmware/Print/Laws.antt =====
-- What the routines of firmware/print.c write.
use picorv.Base.{ℕ, zero, suc, ◌+◌, ◌*◌, ◌/◌, ◌%◌, ◌^◌, ◌≤◌, ◌<◌, ◌≡◌, refl, ap, sym, arith, ◌∙◌}
use picorv.Base.{[], ◌∷◌, ◌++◌, append_assoc, append-nil, map, ltb, ◌==◌, inl, inr}
use picorv.Base.{get_or, Bool-cases, ltb→lt, lt→ltb}
use picorv.Base.Text.{Bytes}
use picorv.Base.Numeral.{
  decimal, decimal_small, decimal_step, hexadecimal, upper_digits, pow_sixteen,
}
use picorv.Console.{done, pure, Writes, IsText}
use picorv.Firmware.Print.{print_str, print_dec, print_hex}
use picorv.Firmware.Print.{store_digits, write_digits, hex_rounds}
use native.Mathlib.Nat.{pow-suc}

pub print_str-Writes : (s : Bytes) → IsText s → Writes (print_str s) s
unfolding print_str
print_str-Writes [] h out = ap (done tt) (sym (append-nil out))
print_str-Writes (c ∷ s) (nz, h) out =
    ground (arith, print_str-Writes s h (out ++ c ∷ []), append_assoc out (c ∷ []) s)

pub shown : Bytes → Bytes
shown = map (λ d. b'0' + d)

write_digits-Writes : (ds : Bytes) → Writes (write_digits ds) (shown ds)
unfolding write_digits shown
write_digits-Writes [] out = ap (done tt) (sym (append-nil out))
write_digits-Writes (d ∷ ds) out =
    write_digits-Writes ds (out ++ (b'0' + d) ∷ [])
    ∙ ap (done tt) (append_assoc out ((b'0' + d) ∷ []) (shown ds))

store_digits_round :
    (room val : ℕ) (buffer : Bytes)
    → 0 < val
    → store_digits (suc room) val buffer ≡ store_digits room (val / 10) (val % 10 ∷ buffer)
unfolding store_digits
store_digits_round room val buffer pos = elim (Bool-cases (val == 0)) [
  | inl none_left ↦ absurd (ground arith)
  | inr some_left ↦ rw some_left
]

store_digits_end :
    (room d : ℕ) (buffer : Bytes) → store_digits room 0 (d ∷ buffer) ≡ pure (d ∷ buffer)
unfolding store_digits
store_digits_end zero d buffer = refl
store_digits_end (suc room) d buffer = refl

-- With room for its digits the loop puts the digits of `val` in front of what is stored.
store_digits_lem :
    (room val : ℕ) (buffer out : Bytes)
    → 0 < val
    → val < 10 ^ room
    → (ds : Bytes) × (store_digits room val buffer out ≡ done ds out)
      × (shown ds ≡ decimal val ++ shown buffer)
store_digits_lem zero val buffer out pos fits = absurd (omega arith)
store_digits_lem (suc room) val buffer out pos fits = elim (Bool-cases (ltb val 10)) [
  | inl small ↦ (
    val % 10 ∷ buffer,
    rw (store_digits_round room val buffer pos, last (ltb→lt val 10 small))
        (ap (λ m. m out) (store_digits_end room (val % 10) buffer)),
    rw (decimal_small val (ltb→lt val 10 small)) (one_digit (ltb→lt val 10 small)),
  )
  | inr large ↦
      let tens =
        store_digits_lem room (val / 10) (val % 10 ∷ buffer) out (ground arith)
          (omega (arith, pow-suc 10 room)) in
      (
        tens.0,
        rw (store_digits_round room val buffer pos) tens.1,
        tens.2 ∙ sym (regroup (ground arith)),
      )
]
  where
    last : val < 10 → val / 10 ≡ 0
    last h = omega arith

    one_digit : val < 10 → shown (val % 10 ∷ buffer) ≡ (b'0' + val) ∷ shown buffer
    one_digit h = unfold shown in ap (λ d. (b'0' + d) ∷ map (λ e. b'0' + e) buffer) (omega arith)

    regroup :
        10 ≤ val → decimal val ++ shown buffer ≡ decimal (val / 10) ++ shown (val % 10 ∷ buffer)
    regroup h = unfold shown in rw (decimal_step val h, append_assoc)

-- For every `unsigned int`, `print_dec` returns, having written its decimal text; in particular
-- its ten-byte buffer is never overrun.
pub print_dec-Writes : (val : ℕ) → val < 2 ^ 32 → Writes (print_dec val) (decimal val)
print_dec-Writes zero h out = unfold print_dec decimal in refl
print_dec-Writes (suc n) h out =
    let stored = store_digits_lem 10 (suc n) [] out (omega arith) (omega arith) in
    unfold print_dec shown in
    rw (stored.1) (
      write_digits-Writes stored.0 out
      ∙ ap (λ s. done tt (out ++ s)) (stored.2 ∙ append-nil (decimal (suc n))))

-- `print_hex` writes the lowest `digits` hexadecimal digits, for a width of at most eight.
pub print_hex-Writes :
    (val digits : ℕ)
    → digits ≤ 8
    → Writes (print_hex val digits) (hexadecimal upper_digits digits val)
unfolding print_hex
print_hex-Writes val zero h out = unfold hex_rounds in ap (done tt) (sym (append-nil out))
print_hex-Writes val (suc j) h out =
    let c : ℕ = get_or upper_digits (val / 16 ^ j % 16) 0 in
    unfold hex_rounds in
    rw (lt→ltb (4 * j) 32 (omega arith), pow_sixteen j)
      (print_hex-Writes val j (omega arith) (out ++ c ∷ [])
        ∙ ap (done tt) (append_assoc out (c ∷ []) (hexadecimal upper_digits j val)))
