-- ===== src/Core/Shift/Laws.antt =====
-- The shifters agree.
use picorv.Base.{
  ℕ, zero, suc, ◌+◌, ◌-◌, ◌*◌, ◌/◌, ◌%◌, ◌^◌, ◌≤◌, ◌<◌, ◌≡◌, refl, ap, sym, ◌∙◌, arith, Bool, true,
  false, leb, ◌==◌, if◌then◌else◌, Bool-cases, leb→le, inl, inr,
}
use native.Mathlib.Nat.{
  pow-suc, div-le_self, div-div-eq-div-mul, mul_assoc, div-add-mod', add-mul-mod_self_right,
}
use picorv.Core.Shift.{
  Shift, sll, srl, sra, Shifter, four_places, one_place, shift_clock, shift_clocks, alu_shl,
  alu_shr, barrel,
}

-- The value of `reg_op1` shifted by `n` places.
abbrev pub shifted : Shift → ℕ → ℕ → ℕ
shifted sll a n = a * 2 ^ n % 2 ^ 32
shifted srl a n = a / 2 ^ n
shifted sra a n = if leb (2 ^ 31) a then 2 ^ 32 - 1 - (2 ^ 32 - 1 - a) / 2 ^ n else a / 2 ^ n

shifted_zero : (i : Shift) (a : ℕ) → a < 2 ^ 32 → shifted i a 0 ≡ a
shifted_zero sll a h = omega arith
shifted_zero srl a h = omega arith
shifted_zero sra a h = ground arith

one_place_lem : (i : Shift) (a : ℕ) → a < 2 ^ 32 → one_place i a ≡ shifted i a 1
one_place_lem sll a h = refl
one_place_lem srl a h = refl
one_place_lem sra a h = ground arith

four_places_lem : (i : Shift) (a : ℕ) → a < 2 ^ 32 → four_places i a ≡ shifted i a 4
four_places_lem sll a h = refl
four_places_lem srl a h = refl
four_places_lem sra a h = ground arith

shifted-lt : (i : Shift) (a n : ℕ) → a < 2 ^ 32 → shifted i a n < 2 ^ 32
shifted-lt sll a n h = omega arith
shifted-lt srl a n h = omega (arith, div-le_self a (2 ^ n))
shifted-lt sra a n h = ground (arith, div-le_self a (2 ^ n))

pow_add : (m n : ℕ) → 2 ^ m * 2 ^ n ≡ 2 ^ (m + n)
pow_add m zero = let e : m + 0 ≡ m = omega arith in rw e (omega arith)
pow_add m (suc n) =
    ap (λ p. 2 ^ m * p) (pow-suc 2 n)
    ∙ sym (mul_assoc (2 ^ m) (2 ^ n) 2)
    ∙ ap (λ p. p * 2) (pow_add m n)
    ∙ sym (pow-suc 2 (m + n))
    ∙ ap (λ k. 2 ^ k) next
  where
    next : suc (m + n) ≡ m + suc n
    next = omega arith

div_div_pow : (a m n : ℕ) → a / 2 ^ m / 2 ^ n ≡ a / 2 ^ (m + n)
div_div_pow a m n = div-div-eq-div-mul a (2 ^ m) (2 ^ n) ∙ ap (λ p. a / p) (pow_add m n)

spread : (q r y : ℕ) → (q * 2 ^ 32 + r) * y ≡ r * y + q * y * 2 ^ 32
spread q r y = grind arith

mod_mul : (x y : ℕ) → x % 2 ^ 32 * y % 2 ^ 32 ≡ x * y % 2 ^ 32
mod_mul x y =
    let split : x * y ≡ x % 2 ^ 32 * y + x / 2 ^ 32 * y * 2 ^ 32 =
      ap (λ z. z * y) (sym (div-add-mod' x (2 ^ 32))) ∙ spread (x / 2 ^ 32) (x % 2 ^ 32) y in
    sym (
      ap (λ z. z % 2 ^ 32) split
      ∙ add-mul-mod_self_right (x % 2 ^ 32 * y) (x / 2 ^ 32 * y) (2 ^ 32))

shifted-shifted :
    (i : Shift) (a m n : ℕ) → a < 2 ^ 32 → shifted i (shifted i a m) n ≡ shifted i a (m + n)
shifted-shifted sll a m n h =
    mod_mul (a * 2 ^ m) (2 ^ n)
    ∙ ap (λ p. p % 2 ^ 32) (mul_assoc a (2 ^ m) (2 ^ n) ∙ ap (λ p. a * p) (pow_add m n))
shifted-shifted srl a m n h = div_div_pow a m n
shifted-shifted sra a m n h = elim (Bool-cases (leb (2 ^ 31) a)) [
  | inl negative ↦
      let small : (2 ^ 32 - 1 - a) / 2 ^ m < 2 ^ 31 =
        ground (arith, negative, div-le_self (2 ^ 32 - 1 - a) (2 ^ m)) in
      let keeps : leb (2 ^ 31) (2 ^ 32 - 1 - (2 ^ 32 - 1 - a) / 2 ^ m) ≡ true = ground arith in
      let twice : 2 ^ 32 - 1 - (2 ^ 32 - 1 - (2 ^ 32 - 1 - a) / 2 ^ m) ≡ (2 ^ 32 - 1 - a) / 2 ^ m =
        omega arith in
      rw (negative, keeps, twice, div_div_pow (2 ^ 32 - 1 - a) m n)
  | inr other ↦
      let keeps : leb (2 ^ 31) (a / 2 ^ m) ≡ false = ground (arith, other, div-le_self a (2 ^ m)) in
      rw (other, keeps) (div_div_pow a m n)
]

-- The clocks of a shift by `n` places, the one that hands over the result among them.
abbrev pub clocks : Bool → ℕ → ℕ
clocks true n = n / 4 + n % 4 + 1
clocks false n = n + 1

clocks-pos : (two : Bool) (n : ℕ) → 0 < clocks two n
clocks-pos true n = omega arith
clocks-pos false n = omega arith

-- The registers behind a shift.
abbrev pub finished : ℕ → Shifter
finished v = record { reg_op1 = v; reg_sh = 0; reg_out = v; is_shifting = false }

shift_clocks_finished :
    (fuel : ℕ) (two : Bool) (i : Shift) (v : ℕ) → shift_clocks fuel two i (finished v) ≡ finished v
unfolding shift_clocks
shift_clocks_finished zero two i v = refl
shift_clocks_finished (suc fuel) two i v = refl

shift_clocks_lem :
    (fuel : ℕ) (two : Bool) (i : Shift) (a n out : ℕ)
    → a < 2 ^ 32
    → clocks two n ≤ fuel
    → shift_clocks fuel two i
        (record { reg_op1 = a; reg_sh = n; reg_out = out; is_shifting = true })
      ≡ finished (shifted i a n)
unfolding shift_clocks shift_clock
shift_clocks_lem zero two i a n out h hf = absurd (omega (arith, clocks-pos two n))
shift_clocks_lem (suc fuel) two i a zero out h hf =
    shift_clocks_finished fuel two i a ∙ ap finished (sym (shifted_zero i a h))
shift_clocks_lem (suc fuel) false i a (suc n) out h hf =
    let some_left : (suc n == 0) ≡ false = ground arith in
    let left : suc n - 1 ≡ n = omega arith in
    rw (some_left, one_place_lem i a h, left)
      (shift_clocks_lem fuel false i (shifted i a 1) n out (shifted-lt i a 1 h) (omega arith)
        ∙ ap finished (shifted-shifted i a 1 n h ∙ ap (shifted i a) (omega arith)))
shift_clocks_lem (suc fuel) true i a (suc n) out h hf = elim (Bool-cases (leb 4 (suc n))) [
  | inl four ↦
      let many : 4 ≤ suc n = leb→le 4 (suc n) four in
      let whole : 4 + (suc n - 4) ≡ suc n = omega arith in
      let some_left : (suc n == 0) ≡ false = ground arith in
      rw (some_left, four, four_places_lem i a h)
        (shift_clocks_lem fuel true i (shifted i a 4) (suc n - 4) out (shifted-lt i a 4 h)
            (omega arith)
          ∙ ap finished (shifted-shifted i a 4 (suc n - 4) h ∙ ap (shifted i a) whole))
  | inr few ↦
      let left : suc n - 1 ≡ n = omega arith in
      let whole : 1 + n ≡ suc n = omega arith in
      let rest : clocks true n ≤ fuel = ground arith in
      let some_left : (suc n == 0) ≡ false = ground arith in
      rw (some_left, few, one_place_lem i a h, left)
        (shift_clocks_lem fuel true i (shifted i a 1) n out (shifted-lt i a 1 h) rest
          ∙ ap finished (shifted-shifted i a 1 n h ∙ ap (shifted i a) whole))
]

barrel_lem : (i : Shift) (a b : ℕ) → a < 2 ^ 32 → barrel i a b ≡ shifted i a (b % 2 ^ 5)
unfolding barrel alu_shl alu_shr
barrel_lem sll a b h = refl
barrel_lem srl a b h = refl
barrel_lem sra a b h = elim (Bool-cases (leb (2 ^ 31) a)) [
  | inl negative ↦ rw negative (omega (arith, div-le_self (2 ^ 32 - 1 - a) (2 ^ (b % 2 ^ 5))))
  | inr other ↦ rw other
]

-- From 32-bit registers, the shift in `cpu_state_shift`, with or without TWO_STAGE_SHIFT, ends
-- within its clocks and leaves in `reg_out` what the barrel shifter gives.
pub shift_clocks-barrel :
    (two : Bool) (i : Shift) (a b out : ℕ)
    → a < 2 ^ 32
    → shift_clocks
        (clocks two (b % 2 ^ 5))
        two
        i
        (record { reg_op1 = a; reg_sh = b % 2 ^ 5; reg_out = out; is_shifting = true })
      ≡ finished (barrel i a b)
shift_clocks-barrel two i a b out h =
    shift_clocks_lem (clocks two (b % 2 ^ 5)) two i a (b % 2 ^ 5) out h (omega arith)
    ∙ ap finished (sym (barrel_lem i a b h))
