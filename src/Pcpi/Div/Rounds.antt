-- ===== src/Pcpi/Div/Rounds.antt =====
-- The rounds of the divider: what its registers hold while it divides `a` by `b`.
use picorv.Base.{ℕ, suc, ◌+◌, ◌-◌, ◌*◌, ◌/◌, ◌%◌, ◌^◌, ◌≤◌, ◌<◌, ◌≡◌, ◌≢◌, refl, ap, ◌∙◌, arith}
use picorv.Base.{
  Bool, true, false, not, ◌&&◌, ◌||◌, leb, leb→le, ◌==◌, if◌then◌else◌, Bool-cases, inl, inr, ◌⊎◌,
}
use picorv.Base.{==-false, none}
use picorv.Base.Bits.{bit_or_fields}
use picorv.Pcpi.{Request, Requests, funct3, is_muldiv}
use picorv.Pcpi.Div.{Divider, clock, control, divide_bit}
use native.Mathlib.Nat.{pow-suc, one-le-pow, div-eq_of_lt, mod-zero, add-mul-div_right, div-add-mod}

-- The signals of a division under way: decoded, acknowledged, and not yet answered.
pub record IsBusy (i : Request) (sign : Bool) (s : Divider) : Type 0 where
  pub div : s.instr_div ≡ (funct3 i == 4)
  pub divu : s.instr_divu ≡ (funct3 i == 5)
  pub rem : s.instr_rem ≡ (funct3 i == 6)
  pub remu : s.instr_remu ≡ (funct3 i == 7)
  pub waits : s.pcpi_wait ≡ true
  pub waited : s.pcpi_wait_q ≡ true
  pub running : s.running ≡ true
  pub silent : s.pcpi_ready ≡ false
  pub signed : s.outsign ≡ sign

-- `k` rounds are left: the quotient so far is `q * 2 ^ k`, and the dividend what it leaves of `a`.
-- A division by zero fills the quotient with ones.
pub record IsDividing (a b k q : ℕ) (s : Divider) : Type 0 where
  pub shifted : s.divisor ≡ b * 2 ^ k / 2
  pub mask : s.quotient_msk ≡ 2 ^ k / 2
  pub so_far : s.quotient ≡ q * 2 ^ k
  pub split : q * 2 ^ k * b + s.dividend ≡ a
  pub left : (s.dividend < b * 2 ^ k) ⊎ ((b ≡ 0) × (q * 2 ^ k + 2 ^ k ≡ 2 ^ 32))

half_pow : (b k : ℕ) → b * 2 ^ suc k / 2 ≡ b * 2 ^ k
half_pow b k = omega (arith, pow-suc 2 k, ap (λ (t : ℕ). b * t) (pow-suc 2 k))

module _ (a b p q r : ℕ) where
  split_fits : q * (p * 2) * b + r ≡ a → b * p ≤ r → (2 * q + 1) * p * b + (r - b * p) ≡ a
  split_fits h le = grind arith

  split_skips : q * (p * 2) * b + r ≡ a → 2 * q * p * b + r ≡ a
  split_skips h = grind arith

  left_fits :
      (r < b * (p * 2)) ⊎ ((b ≡ 0) × (q * (p * 2) + p * 2 ≡ 2 ^ 32))
      → (r - b * p < b * p) ⊎ ((b ≡ 0) × ((2 * q + 1) * p + p ≡ 2 ^ 32))
  left_fits (inl lt) = inl (grind arith)
  left_fits (inr (z, e)) = inr (z, grind arith)

-- The bit that a round adds to the quotient.
abbrev pub next_quotient : ℕ → ℕ → ℕ → ℕ → ℕ
next_quotient b k q r = if leb (b * 2 ^ k) r then 2 * q + 1 else 2 * q

-- A round: one more bit of the quotient, and one round fewer.
pub divide_bit-IsDividing :
    (a b k q : ℕ) (s t : Divider)
    → IsDividing a b (suc k) q s
    → IsDividing a b k (next_quotient b k q s.dividend) (divide_bit s t)
unfolding divide_bit
divide_bit-IsDividing a b k q s t h =
    let twice : 2 ^ suc k ≡ 2 ^ k * 2 = pow-suc 2 k in
    let subtrahend : s.divisor ≡ b * 2 ^ k = h.shifted ∙ half_pow b k in
    let bit : s.quotient_msk ≡ 2 ^ k = omega (arith, h.mask) in
    let split : q * (2 ^ k * 2) * b + s.dividend ≡ a = rw (← twice) h.split in
    let left : (s.dividend < b * (2 ^ k * 2)) ⊎ ((b ≡ 0) × (q * (2 ^ k * 2) + 2 ^ k * 2 ≡ 2 ^ 32)) =
      rw (← twice) h.left in
    elim (Bool-cases (leb (b * 2 ^ k) s.dividend)) [
      | inl fits ↦
          rw (subtrahend, fits)
            (record {
              shifted = refl;
              mask = rw bit refl;
              so_far =
                  rw
                    (h.so_far, bit, bit_or_fields (suc k) q (2 ^ k) (omega (arith, one-le-pow k 2)))
                    (omega (arith, ap (λ (t : ℕ). q * t) twice));
              split = split_fits a b (2 ^ k) q s.dividend split (leb→le _ _ fits);
              left = left_fits a b (2 ^ k) q s.dividend left;
            })
      | inr skips ↦
          rw (subtrahend, skips)
            (record {
              shifted = refl;
              mask = rw bit refl;
              so_far = rw h.so_far (omega (arith, ap (λ (t : ℕ). q * t) twice));
              split = split_skips a b (2 ^ k) q s.dividend split;
              left = inl (ground arith);
            })
    ]

-- The registers that a clock of the last branch starts from.
abbrev pub waiting_on : Request → Divider → Divider
waiting_on i s = record (control i s) { pcpi_ready = false; pcpi_wr = false; pcpi_rd = none }

module _ {i : Request} {f : ℕ} {sign : Bool} {s : Divider} (r : Requests i f)
    (busy : IsBusy i sign s) where
  pub any_instr :
      4 ≤ f → f < 8 → (s.instr_div || (s.instr_divu || (s.instr_rem || s.instr_remu))) ≡ true
  any_instr low high = rw (busy.div, busy.divu, busy.rem, busy.remu, r.selects) (ground arith)

  pub clock-busy : s.quotient_msk ≢ 0 → clock i s ≡ divide_bit s (waiting_on i s)
  unfolding clock
  clock-busy ne = rw (r.out_of_reset, busy.waits, busy.waited, ==-false _ 0 ne) refl

  pub clock-IsBusy : 4 ≤ f → f < 8 → IsBusy i sign (divide_bit s (waiting_on i s))
  unfolding control divide_bit
  clock-IsBusy low high =
      let decoded : (i.resetn && (i.valid && (not s.pcpi_ready && is_muldiv i))) ≡ true =
        rw (r.out_of_reset, r.is_valid, busy.silent, r.decodes) refl in
      record {
        div = rw decoded refl;
        divu = rw decoded refl;
        rem = rw decoded refl;
        remu = rw decoded refl;
        waits = rw (any_instr low high, r.out_of_reset) refl;
        waited = rw (busy.waits, r.out_of_reset) refl;
        running = busy.running;
        silent = refl;
        signed = busy.signed;
      }

-- Where the rounds have left `q` and `r`, they are quotient and remainder.
abbrev pub quotient_of : ℕ → ℕ → ℕ
quotient_of a b = if b == 0 then 2 ^ 32 - 1 else a / b

quotient_unique : (a b q r : ℕ) → q * b + r ≡ a → r < b → (q ≡ a / b) × (r ≡ a % b)
quotient_unique a b q r e lt =
    let below : r / b ≡ 0 = div-eq_of_lt lt in
    let shown : (r + q * b) / b ≡ r / b + q = add-mul-div_right r q (omega arith) in
    let turned : r + q * b ≡ a = omega arith in
    let quotient : q ≡ a / b = rw (← turned, shown, below) (omega arith) in
    (quotient, grind (arith, div-add-mod a b))

pub divided :
    (a b q : ℕ) (s : Divider)
    → IsDividing a b 0 q s
    → (s.quotient ≡ quotient_of a b) × (s.dividend ≡ a % b)
divided a b q s h = elim h.left [
  | inl lt ↦
      let (eq, er) = quotient_unique a b q s.dividend (omega (arith, h.split)) (omega arith) in
      (ground arith, er)
  | inr (z, e) ↦ let whole : s.dividend ≡ a = grind arith in (ground arith, rw (z, mod-zero) whole)
]
