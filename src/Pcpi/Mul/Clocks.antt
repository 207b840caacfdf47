-- ===== src/Pcpi/Mul/Clocks.antt =====
-- The clocks of a multiplication, from idle registers to the answer.
use picorv.Base.{ℕ, zero, suc, ◌+◌, ◌/◌, ◌%◌, ◌^◌, ◌≤◌, ◌<◌, ◌≡◌, refl, ◌∙◌, arith}
use picorv.Base.{
  Bool, true, false, not, ◌&&◌, ◌||◌, leb, ◌==◌, if◌then◌else◌, inl, inr, some, none, Bool-cases,
}
use mathlib.Core.Path.{subst}
use picorv.Pcpi.{Request, Requests, funct3}
use picorv.Pcpi.Mul.{
  Multiplier, instr_any_mulh, clock, answer, control, output, load, multiply_bit, sign_extend,
}
use picorv.Pcpi.Mul.Rounds.{IsMultiplying, multiply_bit-IsMultiplying}

-- No request has been decoded, and no rounds are under way.
pub record IsIdle (s : Multiplier) : Type 0 where
  pub mul : s.instr_mul ≡ false
  pub mulh : s.instr_mulh ≡ false
  pub mulhsu : s.instr_mulhsu ≡ false
  pub mulhu : s.instr_mulhu ≡ false
  pub waits : s.pcpi_wait ≡ false
  pub waited : s.pcpi_wait_q ≡ false
  pub waiting : s.mul_waiting ≡ true
  pub unfinished : s.mul_finish ≡ false

-- A decoded request: what is acknowledged, whether operands are awaited, and whether the rounds are
-- over.
record IsBusy (i : Request) (wait wait_q awaits finish : Bool) (s : Multiplier) : Type 0 where
  mul : s.instr_mul ≡ (funct3 i == 0)
  mulh : s.instr_mulh ≡ (funct3 i == 1)
  mulhsu : s.instr_mulhsu ≡ (funct3 i == 2)
  mulhu : s.instr_mulhu ≡ (funct3 i == 3)
  waits : s.pcpi_wait ≡ wait
  waited : s.pcpi_wait_q ≡ wait_q
  waiting : s.mul_waiting ≡ awaits
  finished : s.mul_finish ≡ finish

-- The registers that a branch of a clock starts from.
abbrev pub before : Request → Multiplier → Multiplier
before i s = record (output i s (control i s)) { mul_finish = false }

-- A clock that brings no answer.
answer-waits :
    (fuel : ℕ) (i : Request) (s : Multiplier)
    → (clock i s).pcpi_ready ≡ false
    → answer (suc fuel) i s ≡ answer fuel i (clock i s)
unfolding answer
answer-waits fuel i s silent = rw silent refl

answers-later :
    {v : ℕ} (k : ℕ) (i : Request) (s : Multiplier)
    → (clock i s).pcpi_ready ≡ false
    → (answer k i (clock i s) ≡ none) × (answer (suc k) i (clock i s) ≡ some v)
    → (answer (suc k) i s ≡ none) × (answer (suc (suc k)) i s ≡ some v)
answers-later k i s silent (early, exact) =
    (answer-waits k i s silent ∙ early, answer-waits (suc k) i s silent ∙ exact)

abbrev pub first_operand : ℕ → ℕ → ℕ
first_operand f a = if f == 1 || f == 2 then sign_extend a else a

abbrev pub second_operand : ℕ → ℕ → ℕ
second_operand f b = if f == 1 then sign_extend b else b

-- The rounds of an instruction.
abbrev rounds : ℕ → ℕ
rounds f = if f == 0 then 32 else 64

rounds-le : (f : ℕ) → rounds f ≤ 64
rounds-le f = ground arith

not_and : (b : Bool) → not (b && not false) ≡ not b
not_and true = refl
not_and false = refl

module _ {i : Request} {f : ℕ} (r : Requests i f) (s : Multiplier) where
  pub clock-loads : s.mul_waiting ≡ true → clock i s ≡ load i s (before i s)
  unfolding clock
  clock-loads w = rw (r.out_of_reset, w) refl

  pub clock-multiplies : s.mul_waiting ≡ false → clock i s ≡ multiply_bit s (before i s)
  unfolding clock
  clock-multiplies w = rw (r.out_of_reset, w) refl

  pub unfinished-silent : s.mul_finish ≡ false → (clock i s).pcpi_ready ≡ false
  unfolding clock load multiply_bit output
  unfinished-silent u = elim (Bool-cases s.mul_waiting) [
    | inl w ↦ rw (r.out_of_reset, w, u) refl
    | inr w ↦ rw (r.out_of_reset, w, u) refl
  ]

module _ {i : Request} {f : ℕ} (r : Requests i f) (low : f < 4) where
  any_mul :
      {wait wait_q awaits finish : Bool} {s : Multiplier}
      → IsBusy i wait wait_q awaits finish s
      → (s.instr_mul || instr_any_mulh s) ≡ true
  any_mul h = rw (h.mul, h.mulh, h.mulhsu, h.mulhu, r.selects) (ground arith)

  module _ (s : Multiplier) where
    idle-IsBusy : IsIdle s → IsBusy i false false true false (load i s (before i s))
    unfolding control load output
    idle-IsBusy h = record {
      mul = rw (r.out_of_reset, r.is_valid, r.decodes) refl;
      mulh = rw (r.out_of_reset, r.is_valid, r.decodes) refl;
      mulhsu = rw (r.out_of_reset, r.is_valid, r.decodes) refl;
      mulhu = rw (r.out_of_reset, r.is_valid, r.decodes) refl;
      waits = rw (h.mul, h.mulh, h.mulhsu, h.mulhu) refl;
      waited = h.waits;
      waiting = rw h.waits refl;
      finished = refl;
    }

    load-IsBusy :
        (wait : Bool)
        → IsBusy i wait false true false s
        → IsBusy i true wait (not wait) false (load i s (before i s))
    unfolding control load output
    load-IsBusy wait h = record {
      mul = rw (r.out_of_reset, r.is_valid, r.decodes) refl;
      mulh = rw (r.out_of_reset, r.is_valid, r.decodes) refl;
      mulhsu = rw (r.out_of_reset, r.is_valid, r.decodes) refl;
      mulhu = rw (r.out_of_reset, r.is_valid, r.decodes) refl;
      waits = any_mul h;
      waited = h.waits;
      waiting = rw (h.waits, h.waited) (not_and wait);
      finished = refl;
    }

    multiply_bit-IsBusy :
        IsBusy i true true false false s
        → IsBusy i true true
            (leb 64 s.mul_counter)
            (leb 64 s.mul_counter)
            (multiply_bit s (before i s))
    unfolding control multiply_bit output
    multiply_bit-IsBusy h = record {
      mul = rw (r.out_of_reset, r.is_valid, r.decodes) refl;
      mulh = rw (r.out_of_reset, r.is_valid, r.decodes) refl;
      mulhsu = rw (r.out_of_reset, r.is_valid, r.decodes) refl;
      mulhu = rw (r.out_of_reset, r.is_valid, r.decodes) refl;
      waits = any_mul h;
      waited = h.waits;
      waiting = refl;
      finished = refl;
    }

    load-IsMultiplying :
        {wait wait_q awaits finish : Bool}
        → IsBusy i wait wait_q awaits finish s
        → i.rs1 < 2 ^ 32
        → i.rs2 < 2 ^ 32
        → IsMultiplying (first_operand f i.rs1) (second_operand f i.rs2) 0 (load i s (before i s))
    unfolding load
    load-IsMultiplying h la lb = record {
      first = rw (h.mulh, h.mulhsu, r.selects) (omega arith);
      second = rw (h.mulh, r.selects) (ground arith);
      so_far = ground arith;
      rd_fits = omega arith;
      rdx_fits = omega arith;
      saved = omega arith;
      settled = tt;
    }

  any_mulh :
      {wait wait_q awaits finish : Bool} {s : Multiplier}
      → IsBusy i wait wait_q awaits finish s
      → instr_any_mulh s ≡ not (f == 0)
  any_mulh h = rw (h.mulh, h.mulhsu, h.mulhu, r.selects) (ground arith)

  -- The half of the product that an instruction gives.
  module _ (x y v : ℕ)
      (half : (t : Multiplier)
        → IsMultiplying x y (rounds f) t
        → (if not (f == 0) then t.rd / 2 ^ 32 else t.rd) % 2 ^ 32 ≡ v) where
    finish-answers :
        (fuel : ℕ) (s : Multiplier)
        → IsBusy i true true true true s
        → IsMultiplying x y (rounds f) s
        → answer (suc fuel) i s ≡ some v
    unfolding answer clock load output
    finish-answers fuel s h m =
        rw (r.out_of_reset, h.waiting, h.finished, any_mulh h, half s m) refl

    answer-IsMultiplying :
        (l k : ℕ) (s : Multiplier)
        → k + suc l ≡ rounds f
        → s.mul_counter ≡ (suc l + 126) % 128
        → IsBusy i true true false false s
        → IsMultiplying x y k s
        → (answer (suc l) i s ≡ none) × (answer (suc (suc l)) i s ≡ some v)
    unfolding multiply_bit
    answer-IsMultiplying zero k s e c h m =
        let next = clock-multiplies r s h.waiting in
        let over : leb 64 s.mul_counter ≡ true = rw c refl in
        let last : suc k ≡ rounds f = omega arith in
        answers-later 0 i s (unfinished-silent r s h.finished) (
          unfold answer in refl,
          rw next (
              finish-answers 0 _
                (subst (λ b. IsBusy i true true b b (multiply_bit s (before i s))) over
                  (multiply_bit-IsBusy s h))
                (subst (λ n. IsMultiplying x y n (multiply_bit s (before i s))) last
                  (multiply_bit-IsMultiplying x y k s (omega (arith, rounds-le f)) m
                    (before i s)))),
        )
    answer-IsMultiplying (suc l) k s e c h m =
        let next = clock-multiplies r s h.waiting in
        let more : leb 64 s.mul_counter ≡ false = ground (arith, rounds-le f) in
        answers-later (suc l) i s (unfinished-silent r s h.finished) (
          rw next (
            answer-IsMultiplying l (suc k) _ (omega arith) (omega (arith, rounds-le f))
              (subst (λ b. IsBusy i true true b b (multiply_bit s (before i s))) more
                (multiply_bit-IsBusy s h))
              (multiply_bit-IsMultiplying x y k s (omega (arith, rounds-le f)) m (before i s))))

    -- From idle registers: three clocks to the operands, the rounds, and one clock to the answer.
    pub answer-given :
        (l : ℕ) (s : Multiplier)
        → suc l ≡ rounds f
        → x ≡ first_operand f i.rs1
        → y ≡ second_operand f i.rs2
        → i.rs1 < 2 ^ 32
        → i.rs2 < 2 ^ 32
        → IsIdle s
        → (answer (suc (suc (suc (suc l)))) i s ≡ none)
          × (answer (suc (suc (suc (suc (suc l))))) i s ≡ some v)
    unfolding load
    answer-given l s e ex ey la lb idle =
        let s1 = load i s (before i s) in
        let first = idle-IsBusy s idle in
        let loads = clock-loads r s idle.waiting in
        let s2 = load i s1 (before i s1) in
        let second = load-IsBusy s1 false first in
        let loads1 = clock-loads r s1 first.waiting in
        let s3 = load i s2 (before i s2) in
        let third = load-IsBusy s2 true second in
        let loads2 = clock-loads r s2 second.waiting in
        let begins : IsMultiplying x y 0 s3 = rw (ex, ey) (load-IsMultiplying s2 second la lb) in
        answers-later (suc (suc (suc l))) i s (unfinished-silent r s idle.unfinished) (
          rw loads (
            answers-later (suc (suc l)) i s1 (unfinished-silent r s1 first.finished) (
              rw loads1 (
                answers-later (suc l) i s2 (unfinished-silent r s2 second.finished) (
                  rw loads2 (
                    answer-IsMultiplying l 0 s3 (omega arith) (rw (any_mulh second) (ground arith))
                      third begins))))))
