-- ===== src/Gray/Laws.antt =====
-- The two encoders agree and the decoder undoes them, so the checks never fail.
use picorv.Base.{
  ℕ, zero, suc, ◌+◌, ◌-◌, ◌/◌, ◌%◌, ◌^◌, ◌<◌, ◌≡◌, refl, arith, sym, ap, ◌∙◌, Bool, true, ◌&&◌,
}
use picorv.Base.{
  ◌==◌, ==_iff, if◌then◌else◌, Bool-cases, inl, inr, bit_and, [], ◌∷◌, ◌++◌, append-nil,
  append_assoc,
}
use picorv.Base.Text.{Bytes}
use picorv.Console.{done, Writes}
use picorv.Gray.{gray_encode_simple, gray_encode_bitwise, gray_decode, gray, main_rounds}

-- A check of every value below a bound.
all_below : ℕ → (ℕ → Bool) → Bool
all_below zero p = true
all_below (suc n) p = p n && all_below n p

all_below_lem : (n : ℕ) (p : ℕ → Bool) (x : ℕ) → all_below n p ≡ true → x < n → p x ≡ true
unfolding all_below
all_below_lem zero p x h lt = absurd (omega arith)
all_below_lem (suc n) p x h lt = ground (arith, all_below_lem n p x)

encoders_table : all_below 256 (λ c. gray_encode_bitwise c == gray_encode_simple c) ≡ true
unfolding all_below gray_encode_bitwise gray_encode_simple
encoders_table = refl

decoder_table : all_below 256 (λ c. gray_decode (gray_encode_simple c) == c) ≡ true
unfolding all_below gray_decode gray_encode_simple
decoder_table = refl

-- The two encoders give the same code for every byte.
pub bitwise-eq-simple : (c : ℕ) → c < 256 → gray_encode_bitwise c ≡ gray_encode_simple c
bitwise-eq-simple c h = (==_iff _ _).0 (all_below_lem 256 _ c encoders_table h)

-- Decoding the code of a byte gives the byte.
pub decode-encode : (c : ℕ) → c < 256 → gray_decode (gray_encode_simple c) ≡ c
decode-encode c h = (==_iff _ _).0 (all_below_lem 256 _ c decoder_table h)

-- `gray` puts out the code of a byte and does not trap.
pub gray-Writes : (c : ℕ) → c < 256 → Writes (gray c) (gray_encode_simple c ∷ [])
unfolding gray
gray-Writes c h out =
    let same : (gray_encode_simple c == gray_encode_bitwise c) ≡ true =
      ground (arith, bitwise-eq-simple c h) in
    let back : (gray_decode (gray_encode_simple c) == c) ≡ true =
      ground (arith, decode-encode c h) in
    rw (same, back)

-- What `n` rounds of `main` put out: the code of every counter value whose low bits are zero.
unfoldable pub codes_from : ℕ → ℕ → ℕ → Bytes
codes_from bits zero counter = []
codes_from bits (suc n) counter =
    (if bit_and counter (2 ^ bits - 1) == 0
      then gray_encode_simple (counter / 2 ^ bits % 2 ^ 8) ∷ []
      else [])
    ++ codes_from bits n ((counter + 1) % 2 ^ 32)

-- The endless loop of `main` never traps: any number of its rounds returns, with the Gray codes
-- of the counter's upper bits put out.
pub main_rounds-Writes :
    (bits n counter : ℕ) → Writes (main_rounds bits n counter) (codes_from bits n counter)
unfolding main_rounds codes_from
main_rounds-Writes bits zero counter out = ap (done tt) (sym (append-nil out))
main_rounds-Writes bits (suc n) counter out =
    elim (Bool-cases (bit_and counter (2 ^ bits - 1) == 0)) [
      | inl shown ↦
          rw (shown, gray-Writes (counter / 2 ^ bits % 2 ^ 8) (omega arith) out)
            (main_rounds-Writes bits n _ _ ∙ ap (done tt) (append_assoc out _ _))
      | inr hidden ↦ rw hidden (main_rounds-Writes bits n _ out)
    ]
