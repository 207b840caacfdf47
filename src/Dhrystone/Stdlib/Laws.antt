-- ===== src/Dhrystone/Stdlib/Laws.antt =====
-- What the routines of dhrystone/stdlib.c do.
use picorv.Base.{ℕ, zero, suc, ◌+◌, ◌/◌, ◌%◌, ◌^◌, ◌≤◌, ◌<◌, ◌≡◌, ◌≢◌, refl, arith, sym, ap, ◌∙◌}
use picorv.Base.{
  List, [], ◌∷◌, ◌++◌, append-nil, append_assoc, All, ltb, ltb→lt, leb, false, true, ==_iff, ◌==◌,
  Bool-cases, inl, inr, ◌⊎◌,
}
use picorv.Base.Text.{Bytes}
use picorv.Base.Numeral.{decimal, decimal_small, decimal_step}
use picorv.Console.{done, undefined, pure, Writes}
use picorv.Dhrystone.Stdlib.{
  malloc, SignMagnitude, nonneg, minus, IsInt32, printf_c, printf_d, store_digits, write_back,
}
use picorv.Dhrystone.Stdlib.{Arg, int, printf, scan, convert, Memory, store, memcpy}
use native.Mathlib.Nat.{pow-suc}

-- Two requests in a row that fit the heap of 1024 bytes together are both served without an
-- `ebreak`: the second block begins where the first ends. Nothing is written.
pub malloc-malloc :
    (used a b : ℕ) (out : Bytes)
    → used + a + b ≤ 1024
    → (malloc used a out ≡ done (record { p = used; used = used + a }) out)
      × (malloc (used + a) b out ≡ done (record { p = used + a; used = used + a + b }) out)
unfolding malloc
malloc-malloc used a b out h = (ground arith, ground arith)

memcpy_outside : (n a b c : ℕ) (mem : Memory) → (c < a) ⊎ (a + n ≤ c) → memcpy n a b mem c ≡ mem c
unfolding memcpy
memcpy_outside zero a b c mem h = refl
memcpy_outside (suc n) a b c mem h =
    memcpy_outside n (a + 1) (b + 1) c (store mem a (mem b)) (omega arith) ∙ ground arith

memcpy_inside :
    (n a b i : ℕ) (mem : Memory)
    → (a ≤ b) ⊎ (b + n ≤ a)
    → i < n
    → memcpy n a b mem (a + i) ≡ mem (b + i)
unfolding memcpy
memcpy_inside zero a b i mem apart h = absurd (omega arith)
memcpy_inside (suc n) a b zero mem apart h =
    let at : a + 0 ≡ a = omega arith in
    let from : b + 0 ≡ b = omega arith in
    rw (at, from)
      (memcpy_outside n (a + 1) (b + 1) a (store mem a (mem b)) (omega arith) ∙ ground arith)
memcpy_inside (suc n) a b (suc i) mem apart h =
    let at : a + suc i ≡ a + 1 + i = omega arith in
    let from : b + suc i ≡ b + 1 + i = omega arith in
    rw (at, from)
      (memcpy_inside n (a + 1) (b + 1) i (store mem a (mem b)) (omega arith) (omega arith)
        ∙ ground arith)

-- `memcpy` leaves in its target what the source held before, and changes nothing else, for a
-- target that does not begin inside the source.
pub memcpy-copies :
    (n a b : ℕ) (mem : Memory)
    → (a ≤ b) ⊎ (b + n ≤ a)
    → ((i : ℕ) → i < n → memcpy n a b mem (a + i) ≡ mem (b + i))
      × ((c : ℕ) → (c < a) ⊎ (a + n ≤ c) → memcpy n a b mem c ≡ mem c)
memcpy-copies n a b mem apart =
    (λ i h. memcpy_inside n a b i mem apart h, λ c h. memcpy_outside n a b c mem h)

write_back-Writes : (ds : Bytes) → Writes (write_back ds) ds
unfolding write_back printf_c
write_back-Writes [] out = ap (done tt) (sym (append-nil out))
write_back-Writes (d ∷ ds) out =
    write_back-Writes ds (out ++ d ∷ []) ∙ ap (done tt) (append_assoc out (d ∷ []) ds)

store_digits_round :
    (room val : ℕ) (buffer : Bytes)
    → 0 < val
    → store_digits (suc room) val buffer ≡ store_digits room (val / 10) ((b'0' + val % 10) ∷ buffer)
unfolding store_digits
store_digits_round room val buffer pos = elim (Bool-cases (val == 0)) [
  | inl none_left ↦ absurd (ground arith)
  | inr some_left ↦ rw some_left
]

store_digits_end :
    (room d : ℕ) (buffer : Bytes) → store_digits room 0 (d ∷ buffer) ≡ pure (d ∷ buffer)
unfolding store_digits
store_digits_end zero d buffer = refl
store_digits_end (suc room) d buffer = refl

store_digits_lem :
    (room val : ℕ) (buffer out : Bytes)
    → 0 < val
    → val < 10 ^ room
    → store_digits room val buffer out ≡ done (decimal val ++ buffer) out
store_digits_lem zero val buffer out pos fits = absurd (omega arith)
store_digits_lem (suc room) val buffer out pos fits = elim (Bool-cases (ltb val 10)) [
  | inl small ↦
      let lt = ltb→lt val 10 small in
      let z : val / 10 ≡ 0 = omega arith in
      let m : val % 10 ≡ val = omega arith in
      rw (store_digits_round room val buffer pos, z, m, decimal_small val lt)
        (ap (λ m. m out) (store_digits_end room (b'0' + val) buffer))
  | inr large ↦ rw (store_digits_round room val buffer pos) (
      store_digits_lem room (val / 10) ((b'0' + val % 10) ∷ buffer) out (ground arith)
        (omega (arith, pow-suc 10 room))
      ∙ rw (decimal_step val (ground arith), append_assoc) refl)
]

-- The decimal text of an `int`.
abbrev pub int_text : SignMagnitude → Bytes
int_text (nonneg n) = decimal n
int_text (minus n) = b'-' ∷ decimal n

printf_d-nonneg : (n : ℕ) → n < 2 ^ 31 → Writes (printf_d (nonneg n)) (decimal n)
unfolding printf_d
printf_d-nonneg zero h out = unfold store_digits write_back printf_c decimal in refl
printf_d-nonneg (suc n) h out =
    rw (store_digits_lem 32 (suc n) [] out (omega arith) (omega arith), append-nil)
      (write_back-Writes (decimal (suc n)) out)

printf_d-minus : (n : ℕ) → 1 ≤ n → n < 2 ^ 31 → Writes (printf_d (minus n)) (b'-' ∷ decimal n)
unfolding printf_d printf_c
printf_d-minus n pos h out =
    let below : leb (2 ^ 31) n ≡ false = ground arith in
    rw (below, store_digits_lem 32 n [] (out ++ b'-' ∷ []) pos (omega arith), append-nil)
      (write_back-Writes (decimal n) (out ++ b'-' ∷ [])
        ∙ ap (done tt) (append_assoc out (b'-' ∷ []) (decimal n)))

-- `%d` prints every `int` but the least in decimal.
pub printf_d-Writes :
    (v : SignMagnitude) → IsInt32 v → v ≢ minus (2 ^ 31) → Writes (printf_d v) (int_text v)
printf_d-Writes (nonneg n) h ne out = printf_d-nonneg n h out
printf_d-Writes (minus n) h ne out = printf_d-minus n h.0 (below (Bool-cases (n == 2 ^ 31))) out
  where
    below : ((n == 2 ^ 31) ≡ true) ⊎ ((n == 2 ^ 31) ≡ false) → n < 2 ^ 31
    below (inl least) = absurd (ne (ap minus ((==_iff n (2 ^ 31)).0 least)))
    below (inr other) = ground arith

abbrev pub LacksPercent : Bytes → Type 0
LacksPercent = All (λ c. c ≢ b'%')

scan_plain :
    (pre format : Bytes) (args : List Arg) (out : Bytes)
    → LacksPercent pre
    → scan false (pre ++ format) args out ≡ scan false format args (out ++ pre)
unfolding scan printf_c
scan_plain [] format args out h = ap (scan false format args) (sym (append-nil out))
scan_plain (c ∷ pre) format args out (ne, h) =
    let other : (c == b'%') ≡ false = ground arith in
    rw other (
      scan_plain pre format args (out ++ c ∷ []) h
      ∙ ap (scan false format args) (append_assoc out (c ∷ []) pre))

-- A text, `%d`, and a text, each without a further '%', print the value between the two; `printf`
-- takes one argument for it.
pub printf-int :
    (pre post : Bytes) (v : SignMagnitude) (out : Bytes)
    → LacksPercent pre
    → LacksPercent post
    → IsInt32 v
    → v ≢ minus (2 ^ 31)
    → printf (pre ++ b'%' ∷ b'd' ∷ post) (int v ∷ []) out
      ≡ done tt (out ++ pre ++ int_text v ++ post)
printf-int pre post v out h1 h2 hv ne =
    unfold printf in (scan_plain pre (b'%' ∷ b'd' ∷ post) (int v ∷ []) out h1 ∙ converted)
  where
    tail :
        scan false post [] (out ++ pre ++ int_text v) ≡ done tt (out ++ pre ++ int_text v ++ post)
    tail =
        ap (λ f. scan false f [] (out ++ pre ++ int_text v)) (sym (append-nil post))
        ∙ scan_plain post [] [] (out ++ pre ++ int_text v) h2
        ∙ unfold scan in refl

    converted :
        scan false (b'%' ∷ b'd' ∷ post) (int v ∷ []) (out ++ pre)
        ≡ done tt (out ++ pre ++ int_text v ++ post)
    converted = unfold scan convert in rw (printf_d-Writes v hv ne (out ++ pre)) tail

-- The least `int` has no negative: printing it is undefined, by an overflow.
pub printf_d_least : (out : Bytes) → printf_d (minus (2 ^ 31)) out ≡ undefined
unfolding printf_d printf_c
printf_d_least out = refl
