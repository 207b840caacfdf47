-- ===== src/Examples/Texts.antt =====
-- The theorems on strcmp and strcpy, on a memory with a text.
use picorv.Base.{ℕ, ◌^◌, ◌<◌, ◌≡◌, refl, arith, ◌==◌, if◌then◌else◌, some, inr}
use picorv.Dhrystone.Stdlib.{Memory, memcpy}
use picorv.Dhrystone.Strings.{strcmp, strcpy}
use picorv.Dhrystone.Strings.Compare.{compare_bytes}
use picorv.Dhrystone.Strings.Copy.{IsSource}
use picorv.Dhrystone.Strings.Laws.{strcmp-compare_bytes, strcpy-memcpy}

-- `Hi` stands at 16 and, without its first character, at 17.
abbrev greeting : Memory
greeting a = if a == 16 then b'H' else if a == 17 then b'i' else 0

greeting-lt : (a : ℕ) → greeting a < 2 ^ 8
greeting-lt a = ground arith

strcmp-compare_bytes_example : strcmp 3 16 32 greeting ≡ some (compare_bytes 3 16 32 greeting)
strcmp-compare_bytes_example =
    strcmp-compare_bytes greeting 3 2 16 32 greeting-lt (omega arith) refl

greeting-IsSource : IsSource 2 40 16 greeting
greeting-IsSource = record {
  bounded = greeting-lt;
  nul = refl;
  chars = λ i lt. ground arith;
  apart = inr (omega arith);
}

strcpy-memcpy_example : strcpy 3 40 16 greeting ≡ some (memcpy 3 40 16 greeting)
strcpy-memcpy_example = strcpy-memcpy 3 2 40 16 greeting (omega arith) greeting-IsSource
