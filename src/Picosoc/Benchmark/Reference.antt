-- ===== src/Picosoc/Benchmark/Reference.antt =====
-- The work of the benchmark of picosoc/firmware.c against functions on lists.
use picorv.Base.{ℕ, zero, suc, ◌+◌, ◌*◌, ◌%◌, ◌^◌, ◌≤◌, ◌≡◌, refl, ap, sym, ◌∙◌, arith}
use picorv.Base.{[], ◌∷◌, ◌++◌, append_assoc, ◌==◌, if◌then◌else◌, Bool-cases, inl, inr}
use picorv.Base.{length, length-append, get_or, set, bit_xor}
use picorv.Base.Text.{Bytes}
use picorv.Xorshift.{xorshift32}
use picorv.Picosoc.Benchmark.{Work, fill_data, compress, word_at, sum_words, work_round, work}
use picorv.Picosoc.Benchmark.Laws.{nonzero_at, compress-above, compress-length}

-- The generator `n` steps after `x`, and the lowest bytes of the states on the way.
unfoldable pub state_after : ℕ → ℕ → ℕ
state_after zero x = x
state_after (suc n) x = state_after n (xorshift32 x)

unfoldable pub low_bytes : ℕ → ℕ → Bytes
low_bytes zero x = []
low_bytes (suc n) x = (xorshift32 x % 2 ^ 8) ∷ low_bytes n (xorshift32 x)

-- The places of the bytes that are not zero, counted from `k`.
abbrev pub places : ℕ → Bytes → Bytes
places k [] = []
places k (b ∷ bs) = let rest = places (k + 1) bs in if b == 0 then rest else k ∷ rest

-- The first list over the front of the second.
abbrev pub overlay : Bytes → Bytes → Bytes
overlay [] bs = bs
overlay (i ∷ is) [] = []
overlay (i ∷ is) (b ∷ bs) = i ∷ overlay is bs

-- The exclusive or of `x` and all words of four bytes, the lowest byte first.
abbrev pub xor_words : ℕ → Bytes → ℕ
xor_words x (a ∷ b ∷ c ∷ d ∷ bs) =
    xor_words (bit_xor x (a + 2 ^ 8 * (b + 2 ^ 8 * (c + 2 ^ 8 * d)))) bs
xor_words x bs = x

-- The buffer and the state that a round leaves, when it begins at `x`.
unfoldable pub round_bytes : ℕ → Bytes
round_bytes x = let bytes = low_bytes 256 x in overlay (places 0 bytes) bytes

unfoldable pub round_state : ℕ → ℕ
unfolding round_bytes
round_state x = xor_words (state_after 256 x) (round_bytes x)

-- The state after a number of rounds.
unfoldable pub rounds_state : ℕ → ℕ → ℕ
rounds_state zero x = x
rounds_state (suc n) x = rounds_state n (round_state x)

length-low_bytes : (n x : ℕ) → length (low_bytes n x) ≡ n
unfolding low_bytes
length-low_bytes zero x = refl
length-low_bytes (suc n) x = ap suc (length-low_bytes n (xorshift32 x))

length-overlay : (is bs : Bytes) → length (overlay is bs) ≡ length bs
length-overlay [] bs = refl
length-overlay (i ∷ is) [] = refl
length-overlay (i ∷ is) (b ∷ bs) = ap suc (length-overlay is bs)

length-places : (k : ℕ) (bs : Bytes) → length (places k bs) ≤ length bs
length-places k [] = omega arith
length-places k (b ∷ bs) = elim (Bool-cases (b == 0)) [
  | inl z ↦ rw z (omega (arith, length-places (k + 1) bs))
  | inr n ↦ rw n (omega (arith, length-places (k + 1) bs))
]

get_or_ext :
    (xs ys : Bytes) → length xs ≡ length ys → ((j : ℕ) → get_or xs j 0 ≡ get_or ys j 0) → xs ≡ ys
get_or_ext [] [] e h = refl
get_or_ext [] (y ∷ ys) e h = absurd (omega arith)
get_or_ext (x ∷ xs) [] e h = absurd (omega arith)
get_or_ext (x ∷ xs) (y ∷ ys) e h = rw (h 0, get_or_ext xs ys (omega arith) (λ j. h (suc j))) refl

get_or-append :
    (pre bs : Bytes) (k i : ℕ) → k ≡ length pre + i → get_or (pre ++ bs) k 0 ≡ get_or bs i 0
get_or-append [] bs k i e = ap (λ (j : ℕ). get_or bs j 0) (omega arith)
get_or-append (c ∷ pre) bs zero i e = absurd (omega arith)
get_or-append (c ∷ pre) bs (suc k) i e = get_or-append pre bs k i (omega arith)

set-append :
    (pre : Bytes) (b v k : ℕ) (bs : Bytes)
    → length pre ≡ k
    → set (pre ++ b ∷ bs) k v ≡ (pre ++ v ∷ []) ++ bs
set-append [] b v zero bs e = refl
set-append [] b v (suc k) bs e = absurd (omega arith)
set-append (c ∷ pre) b v zero bs e = absurd (omega arith)
set-append (c ∷ pre) b v (suc k) bs e =
    ap (λ rest. c ∷ rest) (set-append pre b v k bs (omega arith))

length-snoc : (pre : Bytes) (v k : ℕ) → length pre ≡ k → length (pre ++ v ∷ []) ≡ k + 1
length-snoc pre v k e = omega (arith, length-append pre (v ∷ []))

-- The first loop.
fill_data_lem :
    (left k x : ℕ) (pre old beyond : Bytes)
    → length pre ≡ k
    → length old ≡ left
    → fill_data left k (record { bytes = pre ++ (old ++ beyond); x32 = x })
      ≡ record { bytes = pre ++ (low_bytes left x ++ beyond); x32 = state_after left x }
unfolding fill_data low_bytes state_after
fill_data_lem zero k x pre [] beyond e size = refl
fill_data_lem zero k x pre (b ∷ old) beyond e size = absurd (omega arith)
fill_data_lem (suc left) k x pre [] beyond e size = absurd (omega arith)
fill_data_lem (suc left) k x pre (b ∷ old) beyond e size =
    let y = xorshift32 x in
    rw (set-append pre b (y % 2 ^ 8) k (old ++ beyond) e) (
      fill_data_lem left (k + 1) y (pre ++ (y % 2 ^ 8) ∷ []) old beyond
        (length-snoc pre (y % 2 ^ 8) k e) (omega arith)
      ∙ ap (λ bytes. record { bytes = bytes; x32 = state_after left y })
          (append_assoc pre ((y % 2 ^ 8) ∷ []) (low_bytes left y ++ beyond)))

-- The indices that the second loop finds.
nonzero_at-places :
    (left k : ℕ) (pre bs beyond : Bytes)
    → length pre ≡ k
    → length bs ≡ left
    → k + left ≤ 256
    → nonzero_at left k (pre ++ (bs ++ beyond)) ≡ places k bs
nonzero_at-places zero k pre [] beyond e size h = refl
nonzero_at-places zero k pre (b ∷ bs) beyond e size h = absurd (omega arith)
nonzero_at-places (suc left) k pre [] beyond e size h = absurd (omega arith)
nonzero_at-places (suc left) k pre (b ∷ bs) beyond e size h =
    let here : get_or (pre ++ b ∷ (bs ++ beyond)) k 0 ≡ b =
      get_or-append pre (b ∷ (bs ++ beyond)) k 0 (omega arith) in
    let byte : k % 2 ^ 8 ≡ k = omega arith in
    let rest : nonzero_at left (k + 1) (pre ++ b ∷ (bs ++ beyond)) ≡ places (k + 1) bs =
      ap (λ bytes. nonzero_at left (k + 1) bytes) (sym (append_assoc pre (b ∷ []) (bs ++ beyond)))
      ∙ nonzero_at-places left (k + 1) (pre ++ b ∷ []) bs beyond (length-snoc pre b k e)
          (omega arith) (omega arith) in
    rw (here, byte, rest) refl

get_or-overlay :
    (is bs beyond : Bytes) (j : ℕ)
    → length is ≤ length bs
    → get_or (overlay is bs ++ beyond) j 0 ≡ get_or is j (get_or (bs ++ beyond) j 0)
get_or-overlay [] bs beyond j h = refl
get_or-overlay (i ∷ is) [] beyond j h = absurd (omega arith)
get_or-overlay (i ∷ is) (b ∷ bs) beyond zero h = refl
get_or-overlay (i ∷ is) (b ∷ bs) beyond (suc j) h = get_or-overlay is bs beyond j (omega arith)

-- The second loop.
compress-overlay :
    (size : ℕ) (bs beyond : Bytes)
    → length bs ≡ size
    → size ≤ 256
    → compress size 0 0 (bs ++ beyond) ≡ overlay (places 0 bs) bs ++ beyond
compress-overlay size bs beyond e h =
    get_or_ext _ _
      (compress-length size 0 0 (bs ++ beyond)
        ∙ omega (
          arith,
          length-append bs beyond,
          length-append (overlay (places 0 bs) bs) beyond,
          length-overlay (places 0 bs) bs,
        ))
      (λ j.
        compress-above size 0 0 (bs ++ beyond) j j (omega arith)
          (omega (arith, length-append bs beyond)) (omega arith)
        ∙ ap (λ found. get_or found j (get_or (bs ++ beyond) j 0))
            (nonzero_at-places size 0 [] bs beyond refl e (omega arith))
        ∙ sym (get_or-overlay (places 0 bs) bs beyond j (length-places 0 bs)))

word_at_lem :
    (pre : Bytes) (k a b c d : ℕ) (bs : Bytes)
    → length pre ≡ 4 * k
    → word_at (pre ++ a ∷ b ∷ c ∷ d ∷ bs) k ≡ a + 2 ^ 8 * (b + 2 ^ 8 * (c + 2 ^ 8 * d))
unfolding word_at
word_at_lem pre k a b c d bs e =
    let word = a ∷ b ∷ c ∷ d ∷ bs in
    rw
      (
        get_or-append pre word (4 * k) 0 (omega arith),
        get_or-append pre word (4 * k + 1) 1 (omega arith),
        get_or-append pre word (4 * k + 2) 2 (omega arith),
        get_or-append pre word (4 * k + 3) 3 (omega arith),
      )
      (omega arith)

-- The third loop.
sum_words_lem :
    (left k x : ℕ) (pre bs beyond : Bytes)
    → length pre ≡ 4 * k
    → length bs ≡ 4 * left
    → sum_words left k (pre ++ (bs ++ beyond)) x ≡ xor_words x bs
unfolding sum_words
sum_words_lem zero k x pre [] beyond e size = refl
sum_words_lem zero k x pre (a ∷ bs) beyond e size = absurd (omega arith)
sum_words_lem (suc left) k x pre (a ∷ b ∷ c ∷ d ∷ bs) beyond e size =
    let y = bit_xor x (a + 2 ^ 8 * (b + 2 ^ 8 * (c + 2 ^ 8 * d))) in
    rw (word_at_lem pre k a b c d (bs ++ beyond) e) (
      ap (λ bytes. sum_words left (k + 1) bytes y)
        (sym (append_assoc pre (a ∷ b ∷ c ∷ d ∷ []) (bs ++ beyond)))
      ∙ sum_words_lem left (k + 1) y (pre ++ a ∷ b ∷ c ∷ d ∷ []) bs beyond
          (omega (arith, length-append pre (a ∷ b ∷ c ∷ d ∷ []))) (omega arith))
sum_words_lem (suc left) k x pre [] beyond e size = absurd (omega arith)
sum_words_lem (suc left) k x pre (a ∷ []) beyond e size = absurd (omega arith)
sum_words_lem (suc left) k x pre (a ∷ b ∷ []) beyond e size = absurd (omega arith)
sum_words_lem (suc left) k x pre (a ∷ b ∷ c ∷ []) beyond e size = absurd (omega arith)

length-round_bytes : (x : ℕ) → length (round_bytes x) ≡ 256
unfolding round_bytes
length-round_bytes x =
    length-overlay (places 0 (low_bytes 256 x)) (low_bytes 256 x) ∙ length-low_bytes 256 x

-- The second and the third loop of a round.
rest_of_round : Work → Work
rest_of_round filled =
    let bytes = compress 256 0 0 filled.bytes in
    record { bytes = bytes; x32 = sum_words 64 0 bytes filled.x32 }

rest_of_round_lem :
    (y : ℕ) (bs beyond : Bytes)
    → length bs ≡ 256
    → let after = overlay (places 0 bs) bs in
      rest_of_round (record { bytes = bs ++ beyond; x32 = y })
      ≡ record { bytes = after ++ beyond; x32 = xor_words y after }
unfolding rest_of_round
rest_of_round_lem y bs beyond size =
    let after = overlay (places 0 bs) bs in
    ap (λ bytes. record { bytes = bytes; x32 = sum_words 64 0 bytes y })
      (compress-overlay 256 bs beyond size (omega arith))
    ∙ ap (λ x. record { bytes = after ++ beyond; x32 = x })
        (sum_words_lem 64 0 y [] after beyond (omega arith)
          (omega (arith, length-overlay (places 0 bs) bs)))

work_round_lem :
    (x : ℕ) (old beyond : Bytes)
    → length old ≡ 256
    → work_round (record { bytes = old ++ beyond; x32 = x })
      ≡ record { bytes = round_bytes x ++ beyond; x32 = round_state x }
unfolding work_round round_state round_bytes rest_of_round
work_round_lem x old beyond size =
    ap rest_of_round (fill_data_lem 256 0 x [] old beyond (omega arith) size)
    ∙ rest_of_round_lem (state_after 256 x) (low_bytes 256 x) beyond (length-low_bytes 256 x)

-- With 256 bytes of data and whatever lies behind them, a positive number of rounds of the benchmark
-- ends with the data that the last round makes of the state before it alone: the lowest bytes of the
-- 256 next states of the generator, the places of those that are not zero written over their front.
-- The state is that of the generator after each round, with all words of the data combined into it by
-- exclusive or. The old data does not matter, and what lies behind the data stays.
pub work-reference :
    (n x : ℕ) (old beyond : Bytes)
    → length old ≡ 256
    → work (suc n) (record { bytes = old ++ beyond; x32 = x })
      ≡ record { bytes = round_bytes (rounds_state n x) ++ beyond; x32 = rounds_state (suc n) x }
unfolding work rounds_state
work-reference zero x old beyond size = work_round_lem x old beyond size
work-reference (suc n) x old beyond size =
    ap (work (suc n)) (work_round_lem x old beyond size)
    ∙ work-reference n (round_state x) (round_bytes x) beyond (length-round_bytes x)
