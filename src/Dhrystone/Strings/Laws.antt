-- ===== src/Dhrystone/Strings/Laws.antt =====
-- `strcmp` and `strcpy` against their byte-wise descriptions.
use picorv.Base.{ℕ, zero, suc, ◌+◌, ◌^◌, ◌<◌, ◌≡◌, refl, ap, ◌∙◌, arith}
use picorv.Base.{==-false, Bool-cases, inl, inr, some}
use picorv.Dhrystone.Stdlib.{Memory, memcpy}
use picorv.Dhrystone.Strings.{both_aligned, strcmp, strcpy}
use picorv.Dhrystone.Strings.Copy.{IsSource, IsSource-next, char, copy_words-memcpy}
use picorv.Dhrystone.Strings.Compare.{compare_bytes, compare_words-compare_bytes}

-- In a memory of bytes, for a first text with a NUL at its place `n` or before, `strcmp` ends within
-- `n + 1` rounds and gives what the comparison of one byte after the other gives, whatever the
-- alignment of the two texts and whatever lies behind them.
pub strcmp-compare_bytes :
    (mem : Memory) (fuel n s1 s2 : ℕ)
    → ((a : ℕ) → mem a < 2 ^ 8)
    → n < fuel
    → mem (s1 + n) ≡ 0
    → strcmp fuel s1 s2 mem ≡ some (compare_bytes (suc n) s1 s2 mem)
unfolding strcmp
strcmp-compare_bytes mem zero n s1 s2 bounded lt e = absurd (omega arith)
strcmp-compare_bytes mem (suc fuel) zero s1 s2 bounded lt e =
    let here : mem s1 ≡ 0 = ap mem (omega arith) ∙ e in
    elim (Bool-cases (both_aligned s1 s2)) [
      | inl words ↦ rw words (compare_words-compare_bytes mem bounded (suc fuel) 0 s1 s2 lt e)
      | inr bytes ↦ rw (bytes, here) (ground arith)
    ]
strcmp-compare_bytes mem (suc fuel) (suc n) s1 s2 bounded lt e =
    elim (Bool-cases (both_aligned s1 s2)) [
      | inl words ↦ rw words (compare_words-compare_bytes mem bounded (suc fuel) (suc n) s1 s2 lt e)
      | inr bytes ↦
          rw
            (
              bytes,
              strcmp-compare_bytes mem fuel n (s1 + 1) (s2 + 1) bounded (omega arith)
                  (ap mem (omega arith) ∙ e),
            )
            (ground arith)
    ]

-- In a memory of bytes, for a text of `n` characters and a target that does not begin inside it,
-- `strcpy` ends within `n + 1` rounds and leaves the memory that `memcpy` of the characters and the
-- NUL leaves, whatever the alignment of the two: bytes behind the NUL are read but never written.
pub strcpy-memcpy :
    (fuel n dst src : ℕ) (mem : Memory)
    → n < fuel
    → IsSource n dst src mem
    → strcpy fuel dst src mem ≡ some (memcpy (suc n) dst src mem)
unfolding strcpy memcpy
strcpy-memcpy zero n dst src mem lt h = absurd (omega arith)
strcpy-memcpy (suc fuel) zero dst src mem lt h = elim (Bool-cases (both_aligned dst src)) [
  | inl words ↦ rw words (copy_words-memcpy (suc fuel) 0 dst src mem lt h)
  | inr bytes ↦ let nul : mem src ≡ 0 = ap mem (omega arith) ∙ h.nul in rw (bytes, nul) refl
]
strcpy-memcpy (suc fuel) (suc n) dst src mem lt h = elim (Bool-cases (both_aligned dst src)) [
  | inl words ↦ rw words (copy_words-memcpy (suc fuel) (suc n) dst src mem lt h)
  | inr bytes ↦
      rw (bytes, ==-false (mem src) 0 (char h 0 src (omega arith) (omega arith)))
        (strcpy-memcpy fuel n (dst + 1) (src + 1) _ (omega arith) (IsSource-next h))
]
