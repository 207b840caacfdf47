-- ===== src/Dhrystone/Strings/Copy.antt =====
-- The word loop of `strcpy` against `memcpy`.
use picorv.Base.{
  ℕ, zero, suc, ◌+◌, ◌/◌, ◌%◌, ◌^◌, ◌≤◌, ◌<◌, ◌≡◌, ◌≢◌, ◌⊎◌, refl, sym, ap, ◌∙◌, arith,
}
use picorv.Base.{false, ◌==◌, ==-false, Bool-cases, inl, inr, some}
use picorv.Dhrystone.Stdlib.{Memory, store, memcpy}
use picorv.Dhrystone.Strings.{load_word, store_word, has_zero, store_tail, copy_words}
use picorv.Dhrystone.Strings.Compare.{byte_0, byte_1, byte_2, byte_3, has_zero-load_word, no_zero}

-- A text of `n` characters in a memory of bytes, and a target that does not begin inside it.
pub record IsSource (n dst src : ℕ) (mem : Memory) : Type 0 where
  pub bounded : (a : ℕ) → mem a < 2 ^ 8
  pub nul : mem (src + n) ≡ 0
  pub chars : (i : ℕ) → i < n → mem (src + i) ≢ 0
  pub apart : (dst ≤ src) ⊎ (src + n < dst)

pub char :
    {n dst src : ℕ} {mem : Memory}
    → IsSource n dst src mem
    → (i a : ℕ) → i < n
    → a ≡ src + i
    → mem a ≢ 0
char {n} {dst} {src} {mem} h i a lt e z = h.chars i lt (ap mem (sym e) ∙ z)

-- The memory after the first character has been copied.
abbrev pub copied : ℕ → ℕ → Memory → Memory
copied dst src mem = store mem dst (mem src)

-- The characters behind it have stayed.
copied-behind :
    {n dst src : ℕ} {mem : Memory}
    → IsSource n dst src mem
    → (i : ℕ) → i < n
    → copied dst src mem (src + 1 + i) ≡ mem (src + 1 + i)
copied-behind {n} {dst} {src} h i lt = elim h.apart [
  | inl before ↦ rw (==-false dst (src + 1 + i) (omega arith)) refl
  | inr behind ↦ rw (==-false dst (src + 1 + i) (omega arith)) refl
]

pub IsSource-next :
    {n dst src : ℕ} {mem : Memory}
    → IsSource (suc n) dst src mem
    → IsSource n (dst + 1) (src + 1) (copied dst src mem)
IsSource-next {n} {dst} {src} {mem} h = record {
  bounded = λ a. bounded a;
  nul = copied-behind h n (omega arith) ∙ ap mem (omega arith) ∙ h.nul;
  chars = λ i lt e.
      h.chars (suc i) (omega arith)
        (ap mem (omega arith) ∙ sym (copied-behind h i (omega arith)) ∙ e);
  apart = elim h.apart [ inl before ↦ inl (omega arith) | inr behind ↦ inr (omega arith) ];
}
  where
    bounded : (a : ℕ) → copied dst src mem a < 2 ^ 8
    bounded a = elim (Bool-cases (dst == a)) [
      | inl here ↦ rw here (h.bounded src)
      | inr other ↦ rw other (h.bounded a)
    ]

-- The bytes of a word up to the `n`-th one are those of the text.
abbrev Spells : ℕ → ℕ → ℕ → Memory → Type 0
Spells zero v src mem = v % 2 ^ 8 ≡ mem src
Spells (suc n) v src mem = (v % 2 ^ 8 ≡ mem src) × Spells n (v / 2 ^ 8) (src + 1) mem

Spells-next :
    {k dst src : ℕ} {mem : Memory} (n j v : ℕ)
    → IsSource k dst src mem
    → j + n < k
    → Spells n v (src + 1 + j) mem
    → Spells n v (src + 1 + j) (copied dst src mem)
Spells-next zero j v h lt e = e ∙ sym (copied-behind h j (omega arith))
Spells-next {k} {dst} {src} {mem} (suc n) j v h lt (e, s) =
    let next : src + 1 + j + 1 ≡ src + 1 + (j + 1) = omega arith in
    (
      e ∙ sym (copied-behind h j (omega arith)),
      rw next (Spells-next n (j + 1) (v / 2 ^ 8) h (omega arith) (rw next at s)),
    )

-- The last word: the characters that are left and the NUL.
store_tail-memcpy :
    (n left dst src v : ℕ) (mem : Memory)
    → n ≤ left
    → IsSource n dst src mem
    → Spells n v src mem
    → store_tail left dst v mem ≡ memcpy (suc n) dst src mem
unfolding store_tail memcpy
store_tail-memcpy zero zero dst src v mem le h e = rw e refl
store_tail-memcpy zero (suc left) dst src v mem le h e =
    let nul : mem src ≡ 0 = ap mem (omega arith) ∙ h.nul in rw (e, nul) refl
store_tail-memcpy (suc n) zero dst src v mem le h e = absurd (omega arith)
store_tail-memcpy (suc n) (suc left) dst src v mem le h (e, s) =
    let char : mem src ≢ 0 = λ z. h.chars 0 (omega arith) (ap mem (omega arith) ∙ z) in
    let here : src + 1 + 0 ≡ src + 1 = omega arith in
    let spelt : Spells n (v / 2 ^ 8) (src + 1) (copied dst src mem) =
      rw here at (Spells-next n 0 (v / 2 ^ 8) h (omega arith) (rw here s)) in
    rw (e, ==-false (mem src) 0 char)
      (store_tail-memcpy n left (dst + 1) (src + 1) (v / 2 ^ 8) _ (omega arith) (IsSource-next h)
        spelt)

-- The four bytes of a word that is loaded.
load_word-Spells :
    (n src : ℕ) (mem : Memory)
    → ((a : ℕ) → mem a < 2 ^ 8)
    → n < 4
    → Spells n (load_word mem src) src mem
load_word-Spells n src mem bounded lt =
    let two : src + 1 + 1 ≡ src + 2 = omega arith in
    let three : src + 2 + 1 ≡ src + 3 = omega arith in
    let second : load_word mem src / 2 ^ 8 / 2 ^ 8 % 2 ^ 8 ≡ mem (src + 1 + 1) =
      rw two (omega (arith, byte_2 mem bounded src)) in
    let third : load_word mem src / 2 ^ 8 / 2 ^ 8 / 2 ^ 8 % 2 ^ 8 ≡ mem (src + 1 + 1 + 1) =
      rw (two, three) (omega (arith, byte_3 mem bounded src)) in
    at_most_three n lt (byte_0 mem bounded src) (byte_1 mem bounded src) second third
  where
    at_most_three :
        (n : ℕ)
        → n < 4
        → load_word mem src % 2 ^ 8 ≡ mem src
        → load_word mem src / 2 ^ 8 % 2 ^ 8 ≡ mem (src + 1)
        → load_word mem src / 2 ^ 8 / 2 ^ 8 % 2 ^ 8 ≡ mem (src + 1 + 1)
        → load_word mem src / 2 ^ 8 / 2 ^ 8 / 2 ^ 8 % 2 ^ 8 ≡ mem (src + 1 + 1 + 1)
        → Spells n (load_word mem src) src mem
    at_most_three zero lt a b c d = a
    at_most_three (suc zero) lt a b c d = (a, b)
    at_most_three (suc (suc zero)) lt a b c d = (a, (b, c))
    at_most_three (suc (suc (suc zero))) lt a b c d = (a, (b, (c, d)))
    at_most_three (suc (suc (suc (suc n)))) lt a b c d = absurd (omega arith)

-- A word without a zero byte is copied as its four characters.
store_word-copied :
    (m dst src : ℕ) (mem : Memory)
    → IsSource (suc (suc (suc (suc m)))) dst src mem
    → store_word mem dst (load_word mem src)
      ≡ copied
          (dst + 1 + 1 + 1)
          (src + 1 + 1 + 1)
          (copied (dst + 1 + 1) (src + 1 + 1) (copied (dst + 1) (src + 1) (copied dst src mem)))
unfolding store_word
store_word-copied m dst src mem h =
    let two : (a : ℕ) → a + 1 + 1 ≡ a + 2 = λ a. omega arith in
    let three : (a : ℕ) → a + 2 + 1 ≡ a + 3 = λ a. omega arith in
    rw
      (
        two dst,
        two src,
        three dst,
        three src,
        byte_0 mem h.bounded src,
        byte_1 mem h.bounded src,
        byte_2 mem h.bounded src,
        byte_3 mem h.bounded src,
        ahead dst (src + 1) 0 1 (omega arith) (omega arith) (omega arith) (omega arith),
        ahead dst (src + 2) 0 2 (omega arith) (omega arith) (omega arith) (omega arith),
        ahead dst (src + 3) 0 3 (omega arith) (omega arith) (omega arith) (omega arith),
        ahead (dst + 1) (src + 2) 1 2 (omega arith) (omega arith) (omega arith) (omega arith),
        ahead (dst + 1) (src + 3) 1 3 (omega arith) (omega arith) (omega arith) (omega arith),
        ahead (dst + 2) (src + 3) 2 3 (omega arith) (omega arith) (omega arith) (omega arith),
      )
      refl
  where
    ahead : (a b i j : ℕ) → a ≡ dst + i → b ≡ src + j → i < j → j < 4 → (a == b) ≡ false
    ahead a b i j ea eb lt small = elim h.apart [
      | inl before ↦ ==-false a b (omega arith)
      | inr behind ↦ ==-false a b (omega arith)
    ]

pub copy_words-memcpy :
    (fuel n dst src : ℕ) (mem : Memory)
    → n < fuel
    → IsSource n dst src mem
    → copy_words fuel dst src mem ≡ some (memcpy (suc n) dst src mem)
unfolding copy_words memcpy
copy_words-memcpy zero n dst src mem lt h = absurd (omega arith)
copy_words-memcpy (suc fuel) (suc (suc (suc (suc m)))) dst src mem lt h =
    let h4 = IsSource-next (IsSource-next (IsSource-next (IsSource-next h))) in
    let whole : has_zero (load_word mem src) ≡ false =
      has_zero-load_word mem h.bounded src
      ∙ ground (
        arith,
        char h 0 src (omega arith) (omega arith),
        h.chars 1 (omega arith),
        h.chars 2 (omega arith),
        h.chars 3 (omega arith),
      ) in
    let four : (a : ℕ) → a + 4 ≡ a + 1 + 1 + 1 + 1 = λ a. omega arith in
    rw (whole, store_word-copied m dst src mem h, four dst, four src)
      (copy_words-memcpy fuel m (dst + 1 + 1 + 1 + 1) (src + 1 + 1 + 1 + 1) _ (omega arith) h4)
copy_words-memcpy (suc fuel) n dst src mem lt h = elim (Bool-cases (has_zero (load_word mem src))) [
  | inl last ↦
      rw
        (
          last,
          store_tail-memcpy n 3 dst src (load_word mem src) mem (omega arith) h
              (load_word-Spells n src mem h.bounded (omega arith)),
        )
        refl
  | inr whole ↦ absurd (no_zero mem h.bounded n src (omega arith) h.nul whole)
]
