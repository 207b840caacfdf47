-- ===== src/Pcpi/Mul/Service.antt =====
-- The handshake of the multiplier: it waits for a request again after an answer.
use picorv.Base.{ℕ, ◌<◌, ◌≡◌, refl, sym, ◌∙◌, arith}
use picorv.Base.{Bool, true, false, not, ◌&&◌, ◌||◌, Bool-cases, inl, inr}
use picorv.Pcpi.{Request, Requests}
use picorv.Pcpi.Mul.{Multiplier, instr_any_mulh, clock, control, output, load, multiply_bit}
use picorv.Pcpi.Mul.Clocks.{IsIdle, before, clock-loads, clock-multiplies, unfinished-silent}

abbrev any_mul : Multiplier → Bool
any_mul s = s.instr_mul || instr_any_mulh s

-- The request has been seen, decoded and taken.
record IsTaken (s : Multiplier) : Type 0 where
  decoded : any_mul s ≡ true
  waits : s.pcpi_wait ≡ true
  waited : s.pcpi_wait_q ≡ true

-- While a request is held.
pub record InService (s : Multiplier) : Type 0 where
  seen : s.pcpi_wait ≡ true → any_mul s ≡ true
  rounds : s.mul_waiting ≡ false → IsTaken s
  over : s.mul_finish ≡ true → IsTaken s × (s.mul_waiting ≡ true)

-- An answer has been given.
pub record HasAnswered (s : Multiplier) : Type 0 where
  taken : IsTaken s
  waiting : s.mul_waiting ≡ true
  unfinished : s.mul_finish ≡ false

pub IsIdle-InService : (s : Multiplier) → IsIdle s → InService s
IsIdle-InService s h = record {
  seen = λ e. cc (h.waits, e);
  rounds = λ e. cc (h.waiting, e);
  over = λ e. cc (h.unfinished, e);
}

starts : (wait wait_q : Bool) → not (wait && not wait_q) ≡ false → wait ≡ true
starts wait wait_q e = ground arith

module _ {i : Request} {f : ℕ} (r : Requests i f) (low : f < 4) where
  decodes : (s : Multiplier) → any_mul (control i s) ≡ true
  unfolding control
  decodes s = rw (r.out_of_reset, r.is_valid, r.decodes, r.selects) (ground arith)

  module _ (s : Multiplier) (h : InService s) where
    pub clock-InService : InService (clock i s)
    unfolding clock control load multiply_bit output
    clock-InService = elim (Bool-cases s.mul_waiting) [
      | inl w ↦ rw (clock-loads r s w) (record {
        seen = λ e. decodes s;
        rounds = λ e.
            let started : s.pcpi_wait ≡ true = starts s.pcpi_wait s.pcpi_wait_q e in
            record { decoded = decodes s; waits = h.seen started; waited = started };
        over = λ e. cc e;
      })
      | inr w ↦
          let t = h.rounds w in
          rw (clock-multiplies r s w) (record {
            seen = λ e. decodes s;
            rounds = λ e. record { decoded = decodes s; waits = t.decoded; waited = t.waits };
            over = λ e. (record { decoded = decodes s; waits = t.decoded; waited = t.waits }, e);
          })
    ]

    ready-finish : (clock i s).pcpi_ready ≡ true → s.mul_finish ≡ true
    unfolding clock control load multiply_bit output
    ready-finish ready = elim (Bool-cases s.mul_finish) [
      | inl e ↦ e
      | inr e ↦ cc (sym (unfinished-silent r s e) ∙ ready)
    ]

    pub ready-HasAnswered : (clock i s).pcpi_ready ≡ true → HasAnswered (clock i s)
    unfolding clock control load multiply_bit output
    ready-HasAnswered ready =
        let (t, w) = h.over (ready-finish ready) in
        rw (clock-loads r s w) (record {
          taken = record { decoded = decodes s; waits = t.decoded; waited = t.waits };
          waiting = rw (t.waits, t.waited) refl;
          unfinished = refl;
        })

  -- The clock in which the core takes the answer.
  pub clock-HasAnswered : (s : Multiplier) → HasAnswered s → HasAnswered (clock i s)
  unfolding clock control load output
  clock-HasAnswered s h = rw (clock-loads r s h.waiting) (record {
    taken = record { decoded = decodes s; waits = h.taken.decoded; waited = h.taken.waits };
    waiting = rw (h.taken.waits, h.taken.waited) refl;
    unfinished = refl;
  })

-- A clock without a request.
module _ (i : Request) (on : i.resetn ≡ true) (quiet : i.valid ≡ false) where
  quiet-loads : (s : Multiplier) → s.mul_waiting ≡ true → clock i s ≡ load i s (before i s)
  unfolding clock
  quiet-loads s w = rw (on, w) refl

  pub settles : (s : Multiplier) → HasAnswered s → IsIdle (clock i (clock i (clock i s)))
  unfolding control load output
  settles s h =
      let s1 = load i s (before i s) in
      let s2 = load i s1 (before i s1) in
      rw
        (
          quiet-loads s h.waiting,
          quiet-loads s1 (rw (h.taken.waits, h.taken.waited) refl),
          quiet-loads s2 (rw (h.taken.waits, h.taken.decoded) refl),
        )
        (record {
          mul = rw (on, quiet) refl;
          mulh = rw (on, quiet) refl;
          mulhsu = rw (on, quiet) refl;
          mulhu = rw (on, quiet) refl;
          waits = rw (on, quiet) refl;
          waited = rw (on, quiet) refl;
          waiting = rw (on, quiet) refl;
          unfinished = refl;
        })

  pub quiet-IsIdle : (s : Multiplier) → IsIdle s → IsIdle (clock i s)
  unfolding control load output
  quiet-IsIdle s h = rw (quiet-loads s h.waiting) (record {
    mul = rw (on, quiet) refl;
    mulh = rw (on, quiet) refl;
    mulhsu = rw (on, quiet) refl;
    mulhu = rw (on, quiet) refl;
    waits = rw (h.mul, h.mulh, h.mulhsu, h.mulhu) refl;
    waited = h.waits;
    waiting = rw h.waits refl;
    unfinished = refl;
  })
