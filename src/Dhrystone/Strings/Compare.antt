-- ===== src/Dhrystone/Strings/Compare.antt =====
-- `strcmp` against the comparison of one byte after the other.
use picorv.Base.{ℕ, zero, suc, ◌+◌, ◌/◌, ◌%◌, ◌^◌, ◌<◌, ◌≡◌, ◌≢◌, refl, sym, ap, ◌∙◌, arith}
use picorv.Base.{true, false, not, ◌||◌, ◌==◌, if◌then◌else◌, Bool-cases, inl, inr, some}
use picorv.Dhrystone.Stdlib.{Memory, SignMagnitude, nonneg}
use picorv.Dhrystone.Strings.{load_word, has_zero, order, compare_tail, compare_words}
use picorv.Dhrystone.Strings.Zero.{has_zero-zero_byte}

-- The comparison of at most `left` bytes, as the C standard describes it.
abbrev pub compare_bytes : ℕ → ℕ → ℕ → Memory → SignMagnitude
compare_bytes zero s1 s2 mem = nonneg 0
compare_bytes (suc left) s1 s2 mem =
    let rest = compare_bytes left (s1 + 1) (s2 + 1) mem in
    if not (mem s1 == mem s2)
    then order (mem s1) (mem s2)
    else if mem s1 == 0
    then nonneg 0
    else rest

module _ (mem : Memory) (bounded : (a : ℕ) → mem a < 2 ^ 8) where
  -- The bytes of a word.
  pub byte_0 : (a : ℕ) → load_word mem a % 2 ^ 8 ≡ mem a
  unfolding load_word
  byte_0 a = omega (arith, bounded a)

  pub byte_1 : (a : ℕ) → load_word mem a / 2 ^ 8 % 2 ^ 8 ≡ mem (a + 1)
  unfolding load_word
  byte_1 a = omega (arith, bounded a, bounded (a + 1))

  pub byte_2 : (a : ℕ) → load_word mem a / 2 ^ 16 % 2 ^ 8 ≡ mem (a + 2)
  unfolding load_word
  byte_2 a = omega (arith, bounded a, bounded (a + 1), bounded (a + 2))

  pub byte_3 : (a : ℕ) → load_word mem a / 2 ^ 24 % 2 ^ 8 ≡ mem (a + 3)
  unfolding load_word
  byte_3 a = omega (arith, bounded a, bounded (a + 1), bounded (a + 2), bounded (a + 3))

  pub load_word-lt : (a : ℕ) → load_word mem a < 2 ^ 32
  unfolding load_word
  load_word-lt a = omega (arith, bounded a, bounded (a + 1), bounded (a + 2), bounded (a + 3))

  -- The test for a zero byte, at an address.
  pub has_zero-load_word :
      (a : ℕ)
      → has_zero (load_word mem a)
        ≡ (mem a == 0 || (mem (a + 1) == 0 || (mem (a + 2) == 0 || mem (a + 3) == 0)))
  has_zero-load_word a =
      has_zero-zero_byte (load_word mem a) (load_word-lt a)
      ∙ rw (byte_0 a, byte_1 a, byte_2 a, byte_3 a) refl

  -- The four bytes in turn.
  compare_bytes-four :
      (k s1 s2 : ℕ)
      → compare_bytes (suc (suc (suc (suc k)))) s1 s2 mem ≡ (
          if not (mem s1 == mem s2)
          then order (mem s1) (mem s2)
          else if mem s1 == 0
          then nonneg 0
          else if not (mem (s1 + 1) == mem (s2 + 1))
          then order (mem (s1 + 1)) (mem (s2 + 1))
          else if mem (s1 + 1) == 0
          then nonneg 0
          else if not (mem (s1 + 2) == mem (s2 + 2))
          then order (mem (s1 + 2)) (mem (s2 + 2))
          else if mem (s1 + 2) == 0
          then nonneg 0
          else if not (mem (s1 + 3) == mem (s2 + 3))
          then order (mem (s1 + 3)) (mem (s2 + 3))
          else if mem (s1 + 3) == 0
          then nonneg 0
          else compare_bytes k (s1 + 4) (s2 + 4) mem)
  compare_bytes-four k s1 s2 =
      let two : (s : ℕ) → s + 1 + 1 ≡ s + 2 = λ s. omega arith in
      let three : (s : ℕ) → s + 2 + 1 ≡ s + 3 = λ s. omega arith in
      let four : (s : ℕ) → s + 3 + 1 ≡ s + 4 = λ s. omega arith in
      rw (two s1, two s2, three s1, three s2, four s1, four s2) refl

  -- The bytes of two words that differ.
  compare_tail-four :
      (s1 s2 : ℕ) → compare_tail 4 (load_word mem s1) (load_word mem s2) ≡ compare_bytes 4 s1 s2 mem
  unfolding compare_tail
  compare_tail-four s1 s2 =
      let third : (s : ℕ) → load_word mem s / 2 ^ 8 / 2 ^ 8 % 2 ^ 8 ≡ mem (s + 2) =
        λ s. omega (arith, byte_2 s) in
      let fourth : (s : ℕ) → load_word mem s / 2 ^ 8 / 2 ^ 8 / 2 ^ 8 % 2 ^ 8 ≡ mem (s + 3) =
        λ s. omega (arith, byte_3 s) in
      rw
        (
          compare_bytes-four 0 s1 s2,
          byte_0 s1,
          byte_0 s2,
          byte_1 s1,
          byte_1 s2,
          third s1,
          third s2,
          fourth s1,
          fourth s2,
        )
        refl

  -- Words are equal if their bytes are.
  word_of_bytes :
      (s1 s2 : ℕ)
      → mem s1 ≡ mem s2
      → mem (s1 + 1) ≡ mem (s2 + 1)
      → mem (s1 + 2) ≡ mem (s2 + 2)
      → mem (s1 + 3) ≡ mem (s2 + 3)
      → load_word mem s1 ≡ load_word mem s2
  unfolding load_word
  word_of_bytes s1 s2 a b c d = rw (a, b, c, d) refl

  -- More bytes change nothing once a byte has decided.
  compare_bytes-decided :
      (k s1 s2 : ℕ)
      → load_word mem s1 ≢ load_word mem s2
      → compare_bytes (suc (suc (suc (suc k)))) s1 s2 mem ≡ compare_bytes 4 s1 s2 mem
  compare_bytes-decided k s1 s2 ne =
      rw (compare_bytes-four k s1 s2, compare_bytes-four 0 s1 s2)
        (ground (arith, word_of_bytes s1 s2, ne))

  -- The same behind the end of the first text.
  compare_bytes-ended :
      (n left s1 s2 : ℕ)
      → n < left
      → mem (s1 + n) ≡ 0
      → compare_bytes (suc n) s1 s2 mem ≡ compare_bytes left s1 s2 mem
  compare_bytes-ended n zero s1 s2 lt e = absurd (omega arith)
  compare_bytes-ended zero (suc left) s1 s2 lt e =
      let here : mem s1 ≡ 0 = ap mem (omega arith) ∙ e in rw here refl
  compare_bytes-ended (suc n) (suc left) s1 s2 lt e =
      rw (compare_bytes-ended n left (s1 + 1) (s2 + 1) (omega arith) (ap mem (omega arith) ∙ e))
        refl

  -- Equal words: the texts end in them, or the comparison goes on behind them.
  module _ (k s1 s2 : ℕ) (same : load_word mem s1 ≡ load_word mem s2) where
    same_0 : mem s1 ≡ mem s2
    same_0 = sym (byte_0 s1) ∙ ap (λ (v : ℕ). v % 2 ^ 8) same ∙ byte_0 s2

    same_1 : mem (s1 + 1) ≡ mem (s2 + 1)
    same_1 = sym (byte_1 s1) ∙ ap (λ (v : ℕ). v / 2 ^ 8 % 2 ^ 8) same ∙ byte_1 s2

    same_2 : mem (s1 + 2) ≡ mem (s2 + 2)
    same_2 = sym (byte_2 s1) ∙ ap (λ (v : ℕ). v / 2 ^ 16 % 2 ^ 8) same ∙ byte_2 s2

    same_3 : mem (s1 + 3) ≡ mem (s2 + 3)
    same_3 = sym (byte_3 s1) ∙ ap (λ (v : ℕ). v / 2 ^ 24 % 2 ^ 8) same ∙ byte_3 s2

    compare_bytes-stops :
        has_zero (load_word mem s1) ≡ true
        → compare_bytes (suc (suc (suc (suc k)))) s1 s2 mem ≡ nonneg 0
    compare_bytes-stops z =
        rw (compare_bytes-four k s1 s2)
          (ground (arith, sym (has_zero-load_word s1) ∙ z, same_0, same_1, same_2, same_3))

    compare_bytes-goes_on :
        has_zero (load_word mem s1) ≡ false
        → compare_bytes (suc (suc (suc (suc k)))) s1 s2 mem ≡ compare_bytes k (s1 + 4) (s2 + 4) mem
    compare_bytes-goes_on z =
        rw (compare_bytes-four k s1 s2)
          (ground (arith, sym (has_zero-load_word s1) ∙ z, same_0, same_1, same_2, same_3))

  -- A word in which a text ends has a zero byte.
  pub no_zero : (n s : ℕ) → n < 4 → mem (s + n) ≡ 0 → has_zero (load_word mem s) ≢ false
  no_zero zero s lt e z =
      let here : mem s ≡ 0 = ap mem (omega arith) ∙ e in
      absurd (ground (arith, sym (has_zero-load_word s) ∙ z))
  no_zero (suc zero) s lt e z = absurd (ground (arith, sym (has_zero-load_word s) ∙ z))
  no_zero (suc (suc zero)) s lt e z = absurd (ground (arith, sym (has_zero-load_word s) ∙ z))
  no_zero (suc (suc (suc zero))) s lt e z = absurd (ground (arith, sym (has_zero-load_word s) ∙ z))
  no_zero (suc (suc (suc (suc n)))) s lt e z = absurd (omega arith)

  -- One round of the word loop, on at least four bytes of the reference.
  round :
      (fuel k s1 s2 : ℕ)
      → (has_zero (load_word mem s1) ≡ false
          → compare_words fuel (s1 + 4) (s2 + 4) mem ≡ some (compare_bytes k (s1 + 4) (s2 + 4) mem))
      → compare_words (suc fuel) s1 s2 mem
        ≡ some (compare_bytes (suc (suc (suc (suc k)))) s1 s2 mem)
  unfolding compare_words
  round fuel k s1 s2 ih = elim (Bool-cases (load_word mem s1 == load_word mem s2)) [
    | inr differ ↦
        rw (differ, compare_bytes-decided k s1 s2 (ground (arith, differ)), compare_tail-four s1 s2)
          refl
    | inl same ↦
        let e : load_word mem s1 ≡ load_word mem s2 = ground (arith, same) in
        elim (Bool-cases (has_zero (load_word mem s1))) [
          | inl z ↦ rw (same, z, compare_bytes-stops k s1 s2 e z) refl
          | inr z ↦ rw (same, z, compare_bytes-goes_on k s1 s2 e z) (ih z)
        ]
  ]

  pub compare_words-compare_bytes :
      (fuel n s1 s2 : ℕ)
      → n < fuel
      → mem (s1 + n) ≡ 0
      → compare_words fuel s1 s2 mem ≡ some (compare_bytes (suc n) s1 s2 mem)
  compare_words-compare_bytes zero n s1 s2 lt e = absurd (omega arith)
  compare_words-compare_bytes (suc fuel) (suc (suc (suc (suc n)))) s1 s2 lt e =
      round fuel (suc n) s1 s2 (λ z.
        compare_words-compare_bytes fuel n (s1 + 4) (s2 + 4) (omega arith)
          (ap mem (omega arith) ∙ e))
  compare_words-compare_bytes (suc fuel) n s1 s2 lt e =
      let short : n < 4 = omega arith in
      round fuel 0 s1 s2 (λ z. absurd (no_zero n s1 short e z))
      ∙ ap some (sym (compare_bytes-ended n 4 s1 s2 short e))
