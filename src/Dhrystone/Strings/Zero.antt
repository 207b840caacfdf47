-- ===== src/Dhrystone/Strings/Zero.antt =====
-- The test of `strcpy` and `strcmp` for a zero byte in a word.
use picorv.Base.{ℕ, zero, suc, ◌+◌, ◌-◌, ◌*◌, ◌/◌, ◌%◌, ◌^◌, ◌≤◌, ◌<◌, ◌≡◌, ap, ◌∙◌, arith}
use picorv.Base.{Bool, ◌||◌, ◌==◌, bit_and, zero-cases, inl, inr}
use picorv.Base.Bits.{bit, bit-bit_and, bit_and_fields, bit_and_pow, bit_and-zero}
use picorv.Dhrystone.Strings.{has_zero}
use Prim.Native.Nat.{min}
use native.Mathlib.Nat.{pow-suc, div-div-eq-div-mul}

bit-div : (k a : ℕ) → bit k a ≡ a / 2 ^ k % 2
bit-div zero a = omega arith
bit-div (suc k) a =
    bit-div k (a / 2)
    ∙ ap (λ (q : ℕ). q % 2)
        (div-div-eq-div-mul a 2 (2 ^ k) ∙ ap (λ (q : ℕ). a / q) (omega (arith, pow-suc 2 k)))

-- One byte of `& 0x80808080`.
high_bit : (z : ℕ) → bit_and (z % 2 ^ 8) 128 ≡ z / 2 ^ 7 % 2 * 128
high_bit z = omega (arith, bit_and_pow 7 (z % 2 ^ 8), bit-div 7 (z % 2 ^ 8))

field :
    (z m : ℕ) → bit_and z (m * 2 ^ 8 + 128) ≡ bit_and (z / 2 ^ 8) m * 2 ^ 8 + z / 2 ^ 7 % 2 * 128
field z m =
    ap (λ (q : ℕ). bit_and q (m * 2 ^ 8 + 128)) (omega arith)
    ∙ bit_and_fields 8 (z / 2 ^ 8) (z % 2 ^ 8) m 128 (omega arith) (omega arith)
    ∙ ap (λ (q : ℕ). bit_and (z / 2 ^ 8) m * 2 ^ 8 + q) (high_bit z)

high_bits :
    (z : ℕ)
    → bit_and z 0x80808080
      ≡ z / 2 ^ 7 % 2 * 2 ^ 7
        + z / 2 ^ 15 % 2 * 2 ^ 15
        + z / 2 ^ 23 % 2 * 2 ^ 23
        + z / 2 ^ 31 % 2 * 2 ^ 31
high_bits z = omega (
  arith,
  field z 0x808080,
  field (z / 2 ^ 8) 0x8080,
  field (z / 2 ^ 8 / 2 ^ 8) 0x80,
  field (z / 2 ^ 8 / 2 ^ 8 / 2 ^ 8) 0,
  bit_and-zero (z / 2 ^ 8 / 2 ^ 8 / 2 ^ 8 / 2 ^ 8),
)

common : (k a b : ℕ) → bit_and a b / 2 ^ k % 2 ≡ min (a / 2 ^ k % 2) (b / 2 ^ k % 2)
common k a b = omega (arith, bit-div k (bit_and a b), bit-div k a, bit-div k b, bit-bit_and k a b)

-- Some byte of a word is zero.
abbrev pub zero_byte : ℕ → Bool
zero_byte v =
    v % 2 ^ 8 == 0
    || (v / 2 ^ 8 % 2 ^ 8 == 0 || (v / 2 ^ 16 % 2 ^ 8 == 0 || v / 2 ^ 24 % 2 ^ 8 == 0))

-- `v - 0x01010101` and `~v`, in 32 bits.
abbrev less : ℕ → ℕ
less v = (v + 2 ^ 32 - 0x01010101) % 2 ^ 32

abbrev flipped : ℕ → ℕ
flipped v = 2 ^ 32 - 1 - v

-- No byte up to the `k`-th one is zero.
abbrev NoneUpTo : ℕ → ℕ → Type 0
NoneUpTo zero v = 1 ≤ v % 2 ^ 8
NoneUpTo (suc k) v = (1 ≤ v % 2 ^ 8) × NoneUpTo k (v / 2 ^ 8)

module _ (v : ℕ) (h : v < 2 ^ 32) where
  none_0 : 1 ≤ v % 2 ^ 8 → min (less v / 2 ^ 7 % 2) (flipped v / 2 ^ 7 % 2) ≡ 0
  none_0 a = omega arith

  none_1 :
      1 ≤ v % 2 ^ 8 → 1 ≤ v / 2 ^ 8 % 2 ^ 8 → min (less v / 2 ^ 15 % 2) (flipped v / 2 ^ 15 % 2) ≡ 0
  none_1 a b = omega arith

  none_2 :
      1 ≤ v % 2 ^ 8
      → 1 ≤ v / 2 ^ 8 % 2 ^ 8
      → 1 ≤ v / 2 ^ 16 % 2 ^ 8
      → min (less v / 2 ^ 23 % 2) (flipped v / 2 ^ 23 % 2) ≡ 0
  none_2 a b c = omega arith

  none_3 :
      1 ≤ v % 2 ^ 8
      → 1 ≤ v / 2 ^ 8 % 2 ^ 8
      → 1 ≤ v / 2 ^ 16 % 2 ^ 8
      → 1 ≤ v / 2 ^ 24 % 2 ^ 8
      → min (less v / 2 ^ 31 % 2) (flipped v / 2 ^ 31 % 2) ≡ 0
  none_3 a b c d = omega arith

  some_0 : v % 2 ^ 8 ≡ 0 → min (less v / 2 ^ 7 % 2) (flipped v / 2 ^ 7 % 2) ≡ 1
  some_0 a = omega arith

  some_1 :
      1 ≤ v % 2 ^ 8 → v / 2 ^ 8 % 2 ^ 8 ≡ 0 → min (less v / 2 ^ 15 % 2) (flipped v / 2 ^ 15 % 2) ≡ 1
  some_1 a b = omega arith

  some_2 :
      1 ≤ v % 2 ^ 8
      → 1 ≤ v / 2 ^ 8 % 2 ^ 8
      → v / 2 ^ 16 % 2 ^ 8 ≡ 0
      → min (less v / 2 ^ 23 % 2) (flipped v / 2 ^ 23 % 2) ≡ 1
  some_2 a b c = omega arith

  some_3 :
      1 ≤ v % 2 ^ 8
      → 1 ≤ v / 2 ^ 8 % 2 ^ 8
      → 1 ≤ v / 2 ^ 16 % 2 ^ 8
      → v / 2 ^ 24 % 2 ^ 8 ≡ 0
      → min (less v / 2 ^ 31 % 2) (flipped v / 2 ^ 31 % 2) ≡ 1
  some_3 a b c d = omega arith

  -- The bits that the test keeps.
  kept :
      bit_and (bit_and (less v) (flipped v)) 0x80808080
      ≡ min (less v / 2 ^ 7 % 2) (flipped v / 2 ^ 7 % 2) * 2 ^ 7
        + min (less v / 2 ^ 15 % 2) (flipped v / 2 ^ 15 % 2) * 2 ^ 15
        + min (less v / 2 ^ 23 % 2) (flipped v / 2 ^ 23 % 2) * 2 ^ 23
        + min (less v / 2 ^ 31 % 2) (flipped v / 2 ^ 31 % 2) * 2 ^ 31
  kept =
      rw
        (
          ← common 7 (less v) (flipped v),
          ← common 15 (less v) (flipped v),
          ← common 23 (less v) (flipped v),
          ← common 31 (less v) (flipped v),
        )
        (high_bits (bit_and (less v) (flipped v)))

  -- The test finds a zero byte exactly if there is one.
  pub has_zero-zero_byte : has_zero v ≡ zero_byte v
  unfolding has_zero
  has_zero-zero_byte = elim (zero-cases (v % 2 ^ 8)) [
    | inl z ↦ ground (arith, kept, some_0 z)
    | inr a ↦ elim (zero-cases (v / 2 ^ 8 % 2 ^ 8)) [
      | inl z ↦ ground (arith, kept, some_1 (omega arith) z)
      | inr b ↦ elim (zero-cases (v / 2 ^ 16 % 2 ^ 8)) [
        | inl z ↦ ground (arith, kept, some_2 (omega arith) (omega arith) z)
        | inr c ↦ elim (zero-cases (v / 2 ^ 24 % 2 ^ 8)) [
          | inl z ↦ ground (arith, kept, some_3 (omega arith) (omega arith) (omega arith) z)
          | inr d ↦ ground (
            arith,
            kept,
            none_0 (omega arith),
            none_1 (omega arith) (omega arith),
            none_2 (omega arith) (omega arith) (omega arith),
            none_3 (omega arith) (omega arith) (omega arith) (omega arith),
          )
        ]
      ]
    ]
  ]
