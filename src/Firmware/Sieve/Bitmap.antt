-- ===== src/Firmware/Sieve/Bitmap.antt =====
-- The bitmap of firmware/sieve.c as an array of bits.
use picorv.Base.{ℕ, zero, suc, ◌*◌, ◌/◌, ◌%◌, ◌^◌, ◌<◌, ◌≡◌, arith}
use picorv.Base.{List, ◌==◌, ◌||◌, get_or, set, length, get_or-set_self, get_or-set_ne, length-set}
use picorv.Base.{bit_and, bit_or, if◌then◌else◌, Bool-cases, inl, inr, ==_iff, not}
use picorv.Base.Bits.{bit, bit-lt, bit-bit_or, bit-pow, bit_and_pow}
use picorv.Firmware.Sieve.{bitmap_set, bitmap_get}
use native.Mathlib.Nat.{one-le-pow}

bitmap_get-bit :
    (bitmap : List ℕ) (idx : ℕ)
    → bitmap_get bitmap idx ≡ (bit (idx % 32) (get_or bitmap (idx / 32) 0) == 1)
unfolding bitmap_get
bitmap_get-bit bitmap idx =
    let w : ℕ = get_or bitmap (idx / 32) 0 in
    digit (bit (idx % 32) w) (bit-lt (idx % 32) w) (bit_and_pow (idx % 32) w)
  where
    digit :
        (d : ℕ)
        → d < 2
        → bit_and (get_or bitmap (idx / 32) 0) (2 ^ (idx % 32)) ≡ d * 2 ^ (idx % 32)
        → not (bit_and (get_or bitmap (idx / 32) 0) (2 ^ (idx % 32)) == 0) ≡ (d == 1)
    digit zero h e = ground arith
    digit (suc zero) h e = ground (arith, one-le-pow (idx % 32) 2)
    digit (suc (suc d)) h e = absurd (omega arith)

set_bit :
    (bitmap : List ℕ) (k j : ℕ)
    → k / 32 < length bitmap
    → bit (j % 32) (get_or (bitmap_set bitmap k) (j / 32) 0)
      ≡ (if k == j then 1 else bit (j % 32) (get_or bitmap (j / 32) 0))
unfolding bitmap_set
set_bit bitmap k j h = elim (Bool-cases (k / 32 == j / 32)) [
  | inl same ↦ same_word ((==_iff (k / 32) (j / 32)).0 same)
  | inr other ↦ ground (arith, get_or-set_ne bitmap (k / 32) (j / 32) (word k) 0)
]
  where
    word : ℕ → ℕ
    word i = bit_or (get_or bitmap (i / 32) 0) (2 ^ (i % 32))

    same_word :
        k / 32 ≡ j / 32
        → bit (j % 32) (get_or (set bitmap (k / 32) (word k)) (j / 32) 0)
          ≡ (if k == j then 1 else bit (j % 32) (get_or bitmap (j / 32) 0))
    same_word e =
        rw (← e, get_or-set_self bitmap (k / 32) (word k) 0 h)
          (ground (
            arith,
            bit-bit_or (j % 32) (get_or bitmap (k / 32) 0) (2 ^ (k % 32)),
            bit-pow (j % 32) (k % 32),
            bit-lt (j % 32) (get_or bitmap (k / 32) 0),
          ))

-- Setting a bit sets that bit, and leaves every other as it was.
pub bitmap_get-bitmap_set :
    (bitmap : List ℕ) (k j : ℕ)
    → k / 32 < length bitmap
    → bitmap_get (bitmap_set bitmap k) j ≡ ((k == j) || bitmap_get bitmap j)
bitmap_get-bitmap_set bitmap k j h =
    rw (bitmap_get-bit (bitmap_set bitmap k) j, bitmap_get-bit bitmap j, set_bit bitmap k j h)
      (ground (arith, bit-lt (j % 32) (get_or bitmap (j / 32) 0)))

pub length-bitmap_set : (bitmap : List ℕ) (k : ℕ) → length (bitmap_set bitmap k) ≡ length bitmap
unfolding bitmap_set
length-bitmap_set bitmap k = length-set bitmap (k / 32) _
