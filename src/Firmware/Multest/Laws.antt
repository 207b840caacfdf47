-- ===== src/Firmware/Multest/Laws.antt =====
-- What `multest` of firmware/multest.c says of the core: it returns when the instructions agree
-- with C arithmetic, and stops at a round in which one of them does not.
use picorv.Base.{◌<◌, ◌^◌, ◌⊎◌, inl, inr, Bool-cases}
use picorv.Base.Bits.{bit_or-lt, bit_and_mask}
use picorv.Xorshift.{xorshift32}
use picorv.Xorshift.Linear.{xorshift32-lt}
use picorv.Firmware.Multest.{operand_a, operand_b}
use picorv.Base.{ℕ, zero, suc, ◌+◌, ◌≡◌, ◌≢◌, Bool, true, false, ◌&&◌, ◌==◌}
use picorv.Base.{arith}
use picorv.Base.Text.{Bytes}
use picorv.Firmware.Returns.{
  Returns, Traps, Returns-bind, Traps-bind, Traps-first, Traps-ebreak, returning,
}
use picorv.Firmware.Multest.{Hard, test_round, test_rounds, multest, verdict, print_row}
use picorv.Firmware.Multest.{
  soft_mul, soft_mulh, soft_mulhsu, soft_mulhu, soft_div, soft_divu, soft_rem, soft_remu,
}

-- The instructions of the core give what C arithmetic gives for the operands.
pub record AgreesOn (hard : Hard) (a b : ℕ) : Type 0 where
  pub on_mul : hard.mul a b ≡ soft_mul a b
  pub on_mulh : hard.mulh a b ≡ soft_mulh a b
  pub on_mulhsu : hard.mulhsu a b ≡ soft_mulhsu a b
  pub on_mulhu : hard.mulhu a b ≡ soft_mulhu a b
  pub on_div : hard.div a b ≡ soft_div a b
  pub on_divu : hard.divu a b ≡ soft_divu a b
  pub on_rem : hard.rem a b ≡ soft_rem a b
  pub on_remu : hard.remu a b ≡ soft_remu a b

four-same :
    {a b c d x y z w : ℕ}
    → x ≡ a
    → y ≡ b
    → z ≡ c
    → w ≡ d
    → (a == x && (b == y && (c == z && d == w))) ≡ true
four-same p q r t = ground arith

Returns-print_row :
    (name : Bytes) (w x y z : ℕ) (end : Bytes) → Returns (print_row name w x y z end)
unfolding print_row
Returns-print_row name w x y z end = search (returning) depth 20

Returns-verdict : (same : Bool) → same ≡ true → Returns (verdict same)
unfolding verdict
Returns-verdict true h = search (returning) depth 4
Returns-verdict false h = absurd (cc)

Traps-verdict : (same : Bool) → same ≡ false → Traps (verdict same)
unfolding verdict
Traps-verdict false h = search (Traps-bind, Traps-ebreak, returning) depth 6
Traps-verdict true h = absurd (cc)

Returns-test_round : (hard : Hard) (a b : ℕ) → AgreesOn hard a b → Returns (test_round hard a b)
unfolding test_round
Returns-test_round hard a b h =
    let muls = four-same h.on_mul h.on_mulh h.on_mulhsu h.on_mulhu in
    let divs = four-same h.on_div h.on_divu h.on_rem h.on_remu in
    search (returning, Returns-print_row, Returns-verdict, muls, divs) depth 20

Returns-test_rounds :
    (hard : Hard) (left i x : ℕ)
    → ((a b : ℕ) → AgreesOn hard a b)
    → Returns (test_rounds hard left i x)
unfolding test_rounds
Returns-test_rounds hard zero i x h = search (returning) depth 3
Returns-test_rounds hard (suc left) i x h =
    Returns-bind (Returns-test_round hard _ _ (h _ _))
      (λ _. Returns-test_rounds hard left (i + 1) _ h)

-- When the eight instructions agree with C arithmetic on all operands, `multest` returns from every
-- state of its generator, having only added to the output.
pub multest-Returns :
    (hard : Hard) (x : ℕ) → ((a b : ℕ) → AgreesOn hard a b) → Returns (multest hard x)
unfolding multest
multest-Returns hard x h = Returns-test_rounds hard 15 0 x h

mul-wrong : {x y : ℕ} (rest : Bool) → x ≢ y → (y == x && rest) ≡ false
mul-wrong rest h = ground arith

-- A round in which `mul` gives another product than C arithmetic reaches the `ebreak`.
pub test_round-Traps :
    (hard : Hard) (a b : ℕ) → hard.mul a b ≢ soft_mul a b → Traps (test_round hard a b)
unfolding test_round
test_round-Traps hard a b h =
    let wrong =
      mul-wrong
        (soft_mulh a b == hard.mulh a b
          && (soft_mulhsu a b == hard.mulhsu a b && soft_mulhu a b == hard.mulhu a b))
        h in
    search (Traps-bind, Traps-first, returning, Returns-print_row, Traps-verdict, wrong) depth 20

operand_a-lt : (i a : ℕ) → a < 2 ^ 32 → operand_a i a < 2 ^ 32
unfolding operand_a
operand_a-lt i a h = ground (arith, bit_or-lt 32 a 0x80000000, bit_and_mask 31 a)

operand_b-lt : (i b : ℕ) → b < 2 ^ 32 → operand_b i b < 2 ^ 32
unfolding operand_b
operand_b-lt i b h = ground arith

Returns-rounds_of_words :
    (hard : Hard) (left i x : ℕ)
    → x < 2 ^ 32
    → ((a b : ℕ) → a < 2 ^ 32 → b < 2 ^ 32 → AgreesOn hard a b)
    → Returns (test_rounds hard left i x)
unfolding test_rounds
Returns-rounds_of_words hard zero i x lx h = search (returning) depth 3
Returns-rounds_of_words hard (suc left) i x lx h =
    let la = xorshift32-lt x lx in
    let lb = xorshift32-lt (xorshift32 x) la in
    Returns-bind
      (Returns-test_round hard _ _
        (h _ _ (operand_a-lt i (xorshift32 x) la) (operand_b-lt i (xorshift32 (xorshift32 x)) lb)))
      (λ _. Returns-rounds_of_words hard left (i + 1) _ lb h)

-- When the instructions of the core agree with C arithmetic on all 32-bit operands, multest, from a
-- 32-bit state of the generator, returns: its `ebreak` is not reached.
pub multest-Returns_of_words :
    (hard : Hard) (x : ℕ)
    → x < 2 ^ 32
    → ((a b : ℕ) → a < 2 ^ 32 → b < 2 ^ 32 → AgreesOn hard a b)
    → Returns (multest hard x)
unfolding multest
multest-Returns_of_words hard x lx h = Returns-rounds_of_words hard 15 0 x lx h

-- The comparisons of a round: all eight instructions agree, or one does not.
abbrev pub muls_agree : Hard → ℕ → ℕ → Bool
muls_agree hard a b =
    soft_mul a b == hard.mul a b
    && (soft_mulh a b == hard.mulh a b
        && (soft_mulhsu a b == hard.mulhsu a b && soft_mulhu a b == hard.mulhu a b))

abbrev pub divs_agree : Hard → ℕ → ℕ → Bool
divs_agree hard a b =
    soft_div a b == hard.div a b
    && (soft_divu a b == hard.divu a b
        && (soft_rem a b == hard.rem a b && soft_remu a b == hard.remu a b))

test_round-Traps_at_muls :
    (hard : Hard) (a b : ℕ) → muls_agree hard a b ≡ false → Traps (test_round hard a b)
unfolding test_round
test_round-Traps_at_muls hard a b wrong =
    search (Traps-bind, Traps-first, returning, Returns-print_row, Traps-verdict, wrong) depth 20

test_round-Traps_at_divs :
    (hard : Hard) (a b : ℕ)
    → muls_agree hard a b ≡ true
    → divs_agree hard a b ≡ false
    → Traps (test_round hard a b)
unfolding test_round
test_round-Traps_at_divs hard a b right wrong =
    search
      (
        Traps-bind, Traps-first, returning, Returns-print_row, Returns-verdict, Traps-verdict,
        right, wrong,
      )
      depth 30

agree-AgreesOn :
    (hard : Hard) (a b : ℕ)
    → muls_agree hard a b ≡ true
    → divs_agree hard a b ≡ true
    → AgreesOn hard a b
agree-AgreesOn hard a b muls divs = ground arith

-- A round has one of two ends: it returns, when all eight instructions agree with C arithmetic on
-- its operands, or it reaches the `ebreak`, when one of them does not.
pub test_round_lem :
    (hard : Hard) (a b : ℕ)
    → (AgreesOn hard a b × Returns (test_round hard a b))
      ⊎ (¬ AgreesOn hard a b × Traps (test_round hard a b))
test_round_lem hard a b = elim (Bool-cases (muls_agree hard a b)) [
  | inr wrong ↦ inr (
    λ v. cc (wrong, four-same v.on_mul v.on_mulh v.on_mulhsu v.on_mulhu),
    test_round-Traps_at_muls hard a b wrong,
  )
  | inl right ↦ elim (Bool-cases (divs_agree hard a b)) [
    | inr wrong ↦ inr (
      λ v. cc (wrong, four-same v.on_div v.on_divu v.on_rem v.on_remu),
      test_round-Traps_at_divs hard a b right wrong,
    )
    | inl also ↦
        let v = agree-AgreesOn hard a b right also in inl (v, Returns-test_round hard a b v)
  ]
]
