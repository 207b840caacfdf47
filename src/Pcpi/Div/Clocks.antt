-- ===== src/Pcpi/Div/Clocks.antt =====
-- The clocks of a division, from idle registers to the answer.
use picorv.Base.{ℕ, zero, suc, ◌+◌, ◌*◌, ◌/◌, ◌%◌, ◌^◌, ◌≤◌, ◌<◌, ◌≡◌, ◌≢◌, refl, ◌∙◌, arith}
use picorv.Base.{Bool, true, false, not, ◌&&◌, ◌||◌, ◌==◌, if◌then◌else◌, inl, inr, ◌⊎◌}
use picorv.Base.{some, none}
use picorv.Pcpi.{Request, Requests, funct3}
use picorv.Pcpi.Div.{
  Divider, clock, answer, control, load, finish, divide_bit, sign_bit, negate, differ,
}
use picorv.Pcpi.Div.Rounds.{
  IsBusy, IsDividing, clock-busy, clock-IsBusy, divide_bit-IsDividing, divided, quotient_of,
  waiting_on,
}
use native.Mathlib.Nat.{pow-suc, one-le-pow}

-- What comes out for a quotient and a remainder.
abbrev pub given : ℕ → Bool → ℕ → ℕ → ℕ
given f sign q r =
    let value : ℕ = if f == 4 || f == 5 then q else r in if sign then negate 32 value else value

mask_left : (k : ℕ) {m : ℕ} → m ≡ 2 ^ suc k / 2 → m ≢ 0
mask_left k e z = absurd (omega (arith, pow-suc 2 k, one-le-pow k 2))

-- A clock that brings no answer.
answer-waits :
    (fuel : ℕ) (i : Request) (s : Divider)
    → (clock i s).pcpi_ready ≡ false
    → answer (suc fuel) i s ≡ answer fuel i (clock i s)
unfolding answer
answer-waits fuel i s silent = rw silent refl

answers-later :
    {v : ℕ} (k : ℕ) (i : Request) (s : Divider)
    → (clock i s).pcpi_ready ≡ false
    → (answer k i (clock i s) ≡ none) × (answer (suc k) i (clock i s) ≡ some v)
    → (answer (suc k) i s ≡ none) × (answer (suc (suc k)) i s ≡ some v)
answers-later k i s silent (early, exact) =
    (answer-waits k i s silent ∙ early, answer-waits (suc k) i s silent ∙ exact)

module _ {i : Request} {f : ℕ} {sign : Bool} (r : Requests i f) where
  -- The last clock of a division.
  finish-answers :
      (a b q fuel : ℕ) (s : Divider)
      → IsBusy i sign s
      → IsDividing a b 0 q s
      → answer (suc fuel) i s ≡ some (given f sign (quotient_of a b) (a % b))
  unfolding answer clock finish
  finish-answers a b q fuel s busy h =
      let (eq, er) = divided a b q s h in
      rw
        (
          r.out_of_reset, busy.waits, busy.waited, h.mask, busy.running, busy.div, busy.divu,
          busy.signed, r.selects, eq, er,
        )
        refl

  answer-IsDividing :
      (k a b q : ℕ) (s : Divider)
      → 4 ≤ f
      → f < 8
      → IsBusy i sign s
      → IsDividing a b k q s
      → (answer k i s ≡ none) × (answer (suc k) i s ≡ some (given f sign (quotient_of a b) (a % b)))
  answer-IsDividing zero a b q s low high busy h =
      (unfold answer in refl, finish-answers a b q 0 s busy h)
  answer-IsDividing (suc k) a b q s low high busy h =
      let bit_left : s.quotient_msk ≢ 0 = mask_left k h.mask in
      let busy' = clock-IsBusy r busy low high in
      let still = clock-busy r busy bit_left in
      answers-later k i s (rw still busy'.silent) (
        rw still (answer-IsDividing k a b _ _ low high busy' (divide_bit-IsDividing a b k q s _ h)))

-- No request has been decoded, and nothing runs.
pub record IsIdle (s : Divider) : Type 0 where
  pub div : s.instr_div ≡ false
  pub divu : s.instr_divu ≡ false
  pub rem : s.instr_rem ≡ false
  pub remu : s.instr_remu ≡ false
  pub waits : s.pcpi_wait ≡ false
  pub waited : s.pcpi_wait_q ≡ false
  pub running : s.running ≡ false
  pub silent : s.pcpi_ready ≡ false

-- An operand without its sign, for the signed instructions.
abbrev pub operand : ℕ → ℕ → ℕ
operand f x = if (f == 4 || f == 6) && sign_bit x then negate 32 x else x

pub operand-lt : (f x : ℕ) → x < 2 ^ 32 → operand f x < 2 ^ 32
operand-lt f x h = ground arith

-- Before the first round.
in_range : (a b : ℕ) → a < 2 ^ 32 → (a < b * 2 ^ 32) ⊎ ((b ≡ 0) × (0 * 2 ^ 32 + 2 ^ 32 ≡ 2 ^ 32))
in_range a zero h = inr (refl, refl)
in_range a (suc b) h = inl (omega arith)

abbrev pub result_sign : ℕ → ℕ → ℕ → Bool
result_sign f x y =
    ((f == 4) && (differ (sign_bit x) (sign_bit y) && not (y == 0))) || ((f == 6) && sign_bit x)

-- The two clocks before the operands are loaded.
record IsStarting (i : Request) (wait : Bool) (s : Divider) : Type 0 where
  div : s.instr_div ≡ (funct3 i == 4)
  divu : s.instr_divu ≡ (funct3 i == 5)
  rem : s.instr_rem ≡ (funct3 i == 6)
  remu : s.instr_remu ≡ (funct3 i == 7)
  waits : s.pcpi_wait ≡ wait
  waited : s.pcpi_wait_q ≡ false
  running : s.running ≡ false
  silent : s.pcpi_ready ≡ false

pub and-false : (b : Bool) → (b && false) ≡ false
and-false true = refl
and-false false = refl

module _ {i : Request} {f : ℕ} (r : Requests i f) (s : Divider) where
  pub clock-still :
      s.pcpi_wait ≡ false → s.running ≡ false → clock i s ≡ divide_bit s (waiting_on i s)
  unfolding clock
  clock-still w n = rw (r.out_of_reset, w, n, and-false (s.quotient_msk == 0)) refl

  clock-IsIdle : IsIdle s → IsStarting i false (clock i s)
  unfolding control divide_bit
  clock-IsIdle h = rw (clock-still h.waits h.running) (record {
    div = rw (r.out_of_reset, r.is_valid, h.silent, r.decodes) refl;
    divu = rw (r.out_of_reset, r.is_valid, h.silent, r.decodes) refl;
    rem = rw (r.out_of_reset, r.is_valid, h.silent, r.decodes) refl;
    remu = rw (r.out_of_reset, r.is_valid, h.silent, r.decodes) refl;
    waits = rw (h.div, h.divu, h.rem, h.remu) refl;
    waited = rw h.waits refl;
    running = h.running;
    silent = refl;
  })

  clock-IsStarting : 4 ≤ f → f < 8 → IsStarting i false s → IsStarting i true (clock i s)
  unfolding control divide_bit
  clock-IsStarting low high h = rw (clock-still h.waits h.running) (record {
    div = rw (r.out_of_reset, r.is_valid, h.silent, r.decodes) refl;
    divu = rw (r.out_of_reset, r.is_valid, h.silent, r.decodes) refl;
    rem = rw (r.out_of_reset, r.is_valid, h.silent, r.decodes) refl;
    remu = rw (r.out_of_reset, r.is_valid, h.silent, r.decodes) refl;
    waits = rw (h.div, h.divu, h.rem, h.remu, r.out_of_reset, r.selects) (ground arith);
    waited = rw h.waits refl;
    running = h.running;
    silent = refl;
  })

  module _ (h : IsStarting i true s) where
    clock-loads : clock i s ≡ load i s (waiting_on i s)
    unfolding clock
    clock-loads = rw (r.out_of_reset, h.waits, h.waited) refl

    load-IsBusy : 4 ≤ f → f < 8 → IsBusy i (result_sign f i.rs1 i.rs2) (load i s (waiting_on i s))
    unfolding control load
    load-IsBusy low high = record {
      div = rw (r.out_of_reset, r.is_valid, h.silent, r.decodes) refl;
      divu = rw (r.out_of_reset, r.is_valid, h.silent, r.decodes) refl;
      rem = rw (r.out_of_reset, r.is_valid, h.silent, r.decodes) refl;
      remu = rw (r.out_of_reset, r.is_valid, h.silent, r.decodes) refl;
      waits = rw (h.div, h.divu, h.rem, h.remu, r.out_of_reset, r.selects) (ground arith);
      waited = rw (h.waits, r.out_of_reset) refl;
      running = refl;
      silent = refl;
      signed = rw (h.div, h.rem, r.selects) refl;
    }

    load-IsDividing :
        i.rs1 < 2 ^ 32
        → i.rs2 < 2 ^ 32
        → IsDividing (operand f i.rs1) (operand f i.rs2) 32 0 (load i s (waiting_on i s))
    unfolding load
    load-IsDividing la lb = record {
      shifted = rw (h.div, h.rem, r.selects) (ground arith);
      mask = refl;
      so_far = refl;
      split = rw (h.div, h.rem, r.selects) (omega arith);
      left =
          rw (h.div, h.rem, r.selects)
            (in_range (operand f i.rs1) (operand f i.rs2) (operand-lt f i.rs1 la));
    }

-- From idle registers, the answer comes in the 36th clock, and not before.
pub answer-given :
    {i : Request} {f : ℕ} (s : Divider)
    → Requests i f
    → 4 ≤ f
    → f < 8
    → i.rs1 < 2 ^ 32
    → i.rs2 < 2 ^ 32
    → IsIdle s
    → (answer 35 i s ≡ none)
      × (answer 36 i s
          ≡ some (
              given f
                (result_sign f i.rs1 i.rs2)
                (quotient_of (operand f i.rs1) (operand f i.rs2))
                (operand f i.rs1 % operand f i.rs2)))
answer-given {i} {f} s r low high la lb idle =
    let first = clock-IsIdle r s idle in
    let second = clock-IsStarting r (clock i s) low high first in
    let s2 = clock i (clock i s) in
    let loaded = load-IsBusy r s2 second low high in
    let loads = clock-loads r s2 second in
    answers-later 34 i s first.silent (
      answers-later 33 i (clock i s) second.silent (
        answers-later 32 i s2 (rw loads loaded.silent) (
          rw loads (
            answer-IsDividing r 32 (operand f i.rs1) (operand f i.rs2) 0 _ low high loaded
              (load-IsDividing r s2 second la lb)))))
