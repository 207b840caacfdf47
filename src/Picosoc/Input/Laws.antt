-- ===== src/Picosoc/Input/Laws.antt =====
-- What reading the UART and the echo command do with the input.
use picorv.Base.{ℕ, zero, suc, ◌-◌, ◌%◌, ◌+◌, ◌<◌, ◌^◌, ◌≡◌, refl, sym, ap, ◌∙◌, arith}
use picorv.Base.{ltb, ◌==◌, Bool-cases, inl, inr, if◌then◌else◌, Option, none, some}
use picorv.Base.{List, [], ◌∷◌, ◌++◌, length, append_assoc, append-nil}
use mathlib.Core.Path.{subst}
use mathlib.Core.Option.{some-injective}
use picorv.Base.Text.{Bytes, codes}
use picorv.Picosoc.Soc.{Soc, M, Result, ret, waiting, bind, send}
use picorv.Picosoc.Text.Laws.{crlf, putchar-Prints, print-Prints}
use picorv.Picosoc.Input.{
  no_char, blink, took, poll, getchar_prompt, getchar, echo_rounds, cmd_echo,
}

-- The first value that is a character, and what comes behind it.
abbrev pub next_char : List ℕ → Option (ℕ × List ℕ)
next_char [] = none
next_char (c ∷ rest) = let later = next_char rest in if c == no_char then later else some (c, rest)

-- A routine gives `value` of the character, with the input behind it left, or waits with all input
-- taken; it prints nothing.
abbrev pub Reads : (ℕ → ℕ) → Bytes → Option (ℕ × List ℕ) → Result ℕ → Type 0
Reads value sent none r = (t : Soc) × (r ≡ waiting t) × (t.sent ≡ sent) × (t.rx ≡ [])
Reads value sent (some (c, rest)) r =
    (t : Soc) × (r ≡ ret (value c) t) × (t.sent ≡ sent) × (t.rx ≡ rest)

-- Without a prompt the loop only blinks.
blink-quiet :
    (cycles_begin : ℕ) (s : Soc)
    → (b : ℕ) × (t : Soc) × (blink none cycles_begin s ≡ ret b t) × (t.sent ≡ s.sent)
unfolding blink
blink-quiet cycles_begin s =
    elim (Bool-cases (ltb 12000000 ((s.rdcycle s.ticks + 2 ^ 32 - cycles_begin) % 2 ^ 32))) [
      | inl e ↦ rw e (_, _, refl, refl)
      | inr e ↦ rw e (_, _, refl, refl)
    ]

poll-Reads :
    (rx : List ℕ) (cycles_begin : ℕ) (s : Soc)
    → s.rx ≡ rx
    → Reads (λ c. c) s.sent (next_char rx) (poll rx none cycles_begin s)
unfolding poll took
poll-Reads [] cycles_begin s e = (s, refl, refl, e)
poll-Reads (c ∷ rest) cycles_begin s e =
    let (b, t, blinks, quiet) = blink-quiet cycles_begin s in
    elim (Bool-cases (c == no_char)) [
      | inl none_yet ↦
          rw (none_yet, poll, blinks)
            (subst
              (λ sent.
                Reads (λ c. c) sent (next_char rest) (poll rest none b (record t { rx = rest })))
              quiet (poll-Reads rest b (record t { rx = rest }) refl))
      | inr char ↦ rw (char, poll, blinks) (record t { rx = rest }, refl, quiet, refl)
    ]

-- The end of `getchar_prompt`.
abbrev end_read : ℕ → ℕ → M ℕ
end_read leds c t = ret (c % 2 ^ 8) (record t { leds = leds })

Reads-bind :
    (sent : Bytes) (next : Option (ℕ × List ℕ)) (r : Result ℕ) (leds : ℕ)
    → Reads (λ c. c) sent next r
    → Reads (λ c. c % 2 ^ 8) sent next (bind r (end_read leds))
Reads-bind sent none r leds (t, e, quiet, empty) =
    (t, ap (λ r. bind r (end_read leds)) e, quiet, empty)
Reads-bind sent (some (c, rest)) r leds (t, e, quiet, left) =
    (record t { leds = leds }, ap (λ r. bind r (end_read leds)) e, quiet, left)

-- `getchar` gives the first character that the UART receives, as a byte, and leaves the input behind
-- it; if none comes, it waits with all input taken. It prints nothing.
pub getchar-Reads : (s : Soc) → Reads (λ c. c % 2 ^ 8) s.sent (next_char s.rx) (getchar s)
unfolding getchar getchar_prompt
getchar-Reads s = Reads-bind s.sent (next_char s.rx) _ 0 (
    poll-Reads s.rx (s.rdcycle s.ticks) (record s { ticks = s.ticks + 1; leds = 2 ^ 32 - 1 - 0 })
      refl)

-- What is echoed of an input, and the input behind the first '!', if there is one.
abbrev pub echoed : List ℕ → Bytes
echoed [] = []
echoed (c ∷ rest) =
    let more = echoed rest in
    if c == no_char then more else if c % 2 ^ 8 == b'!' then [] else (c % 2 ^ 8) ∷ more

abbrev pub behind_mark : List ℕ → Option (List ℕ)
behind_mark [] = none
behind_mark (c ∷ rest) =
    let more = behind_mark rest in
    if c == no_char then more else if c % 2 ^ 8 == b'!' then some rest else more

-- A routine has printed a text, and returns with the given input left, or waits with none left.
abbrev pub Echoes : Bytes → Option (List ℕ) → Result (Unit {0}) → Type 0
Echoes sent none r = (t : Soc) × (r ≡ waiting t) × (t.sent ≡ sent) × (t.rx ≡ [])
Echoes sent (some rest) r = (t : Soc) × (r ≡ ret tt t) × (t.sent ≡ sent) × (t.rx ≡ rest)

-- The two functions take the input a character at a time.
none_left : (rx : List ℕ) → next_char rx ≡ none → (echoed rx ≡ []) × (behind_mark rx ≡ none)
none_left [] e = (refl, refl)
none_left (c ∷ rest) e = elim (Bool-cases (c == no_char)) [
  | inl skip ↦ let (a, b) = none_left rest (rw skip at e) in (rw skip a, rw skip b)
  | inr char ↦ cc (rw char at e)
]

one_taken :
    (rx : List ℕ) (c : ℕ) (rest : List ℕ)
    → next_char rx ≡ some (c, rest)
    → (echoed rx ≡ (if c % 2 ^ 8 == b'!' then [] else (c % 2 ^ 8) ∷ echoed rest))
      × (behind_mark rx ≡ (if c % 2 ^ 8 == b'!' then some rest else behind_mark rest))
      × (length rest < length rx)
one_taken [] c rest e = cc
one_taken (d ∷ rx) c rest e = elim (Bool-cases (d == no_char)) [
  | inl skip ↦
      let (a, b, shorter) = one_taken rx c rest (rw skip at e) in
      (rw skip a, rw skip b, omega arith)
  | inr char ↦
      let p = some-injective _ _ (rw char at e) in
      let ec : d ≡ c = ap (λ q. q.0) p in
      let er : rx ≡ rest = ap (λ q. q.1) p in rw (char, ec, er) (refl, refl, omega arith)
]

-- What a round of the echo does with the character it has read.
echo_round :
    (fuel : ℕ) (s : Soc) (next : Option (ℕ × List ℕ))
    → next_char s.rx ≡ next
    → Reads (λ c. c % 2 ^ 8) s.sent next (getchar s)
    → ((t : Soc)
        → length t.rx < length s.rx
        → Echoes (t.sent ++ crlf (echoed t.rx)) (behind_mark t.rx) (echo_rounds fuel t))
    → Echoes (s.sent ++ crlf (echoed s.rx)) (behind_mark s.rx) (echo_rounds (suc fuel) s)
unfolding echo_rounds crlf
echo_round fuel s none e (t, reads, quiet, empty) ih =
    let (a, b) = none_left s.rx e in
    rw (a, b, reads) (t, refl, quiet ∙ sym (append-nil s.sent), empty)
echo_round fuel s (some (c, rest)) e (t, reads, quiet, left) ih =
    let (a, b, shorter) = one_taken s.rx c rest e in
    elim (Bool-cases (c % 2 ^ 8 == b'!')) [
      | inl mark ↦ rw (a, b, reads, mark) (t, refl, quiet ∙ sym (append-nil s.sent), left)
      | inr other ↦
          let c8 : ℕ = c % 2 ^ 8 in
          let shown : Bytes = if c8 == b'\n' then b'\r' ∷ b'\n' ∷ [] else c8 ∷ [] in
          let path : (t.sent ++ shown) ++ crlf (echoed t.rx)
              ≡ s.sent ++ (shown ++ crlf (echoed t.rx)) =
            append_assoc t.sent shown (crlf (echoed t.rx))
            ∙ ap (λ p. p ++ (shown ++ crlf (echoed t.rx))) quiet in
          let fewer : length t.rx < length s.rx = omega (arith, shorter, ap length left) in
          rw (a, b, reads, other, putchar-Prints c8 t)
            (subst
              (λ l.
                Echoes (s.sent ++ (shown ++ crlf (echoed l))) (behind_mark l)
                  (echo_rounds fuel (send shown t)))
              left
              (subst (λ p. Echoes p (behind_mark t.rx) (echo_rounds fuel (send shown t))) path
                (ih (send shown t) fewer)))
    ]

echo_rounds-Echoes :
    (fuel : ℕ) (s : Soc)
    → length s.rx < fuel
    → Echoes (s.sent ++ crlf (echoed s.rx)) (behind_mark s.rx) (echo_rounds fuel s)
echo_rounds-Echoes zero s h = absurd (omega arith)
echo_rounds-Echoes (suc fuel) s h =
    echo_round fuel s (next_char s.rx) refl (getchar-Reads s)
      (λ t lt. echo_rounds-Echoes fuel t (omega arith))

-- `cmd_echo` prints its prompt and then every character that comes, a newline with a carriage return
-- in front of it, up to the first '!', which it does not print and behind which it leaves the
-- input. Without a '!' it echoes all of the input and waits for more.
pub cmd_echo-Echoes :
    (s : Soc)
    → Echoes
        (s.sent ++ crlf (codes "Return to menu by sending '!'\n\n") ++ crlf (echoed s.rx))
        (behind_mark s.rx)
        (cmd_echo s)
unfolding cmd_echo
cmd_echo-Echoes s =
    let prompt = codes "Return to menu by sending '!'\n\n" in
    rw (print-Prints prompt (omega arith) s)
      (echo_rounds-Echoes (suc (length s.rx)) (send (crlf prompt) s) (omega arith))
