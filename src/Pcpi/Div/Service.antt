-- ===== src/Pcpi/Div/Service.antt =====
-- The handshake of the divider: it waits for a request again after an answer.
use picorv.Base.{ℕ, ◌≤◌, ◌<◌, ◌≡◌, refl, arith}
use picorv.Base.{Bool, true, false, not, ◌&&◌, ◌||◌, ◌==◌, Bool-cases, inl, inr, ◌⊎◌}
use picorv.Pcpi.{Request, Requests}
use picorv.Pcpi.Div.{Divider, clock, control, load, finish, divide_bit}
use picorv.Pcpi.Div.Clocks.{IsIdle, and-false}
use picorv.Pcpi.Div.Rounds.{waiting_on}

abbrev any_div_rem : Divider → Bool
any_div_rem s = s.instr_div || (s.instr_divu || (s.instr_rem || s.instr_remu))

-- The request has been seen, decoded and taken.
record IsTaken (s : Divider) : Type 0 where
  decoded : any_div_rem s ≡ true
  waits : s.pcpi_wait ≡ true
  waited : s.pcpi_wait_q ≡ true

-- While a request is held and no answer has been given.
pub record InService (s : Divider) : Type 0 where
  silent : s.pcpi_ready ≡ false
  seen : s.pcpi_wait ≡ true → any_div_rem s ≡ true
  runs : s.running ≡ true → IsTaken s

-- An answer has been given.
pub record HasAnswered (s : Divider) : Type 0 where
  taken : IsTaken s
  over : s.running ≡ false
  ready : s.pcpi_ready ≡ true

-- The answer has been taken.
pub record HasRetired (s : Divider) : Type 0 where
  forgotten : any_div_rem s ≡ false
  waited : s.pcpi_wait_q ≡ true
  over : s.running ≡ false
  silent : s.pcpi_ready ≡ false

pub IsIdle-InService : (s : Divider) → IsIdle s → InService s
IsIdle-InService s h = record {
  silent = h.silent;
  seen = λ e. cc (h.waits, e);
  runs = λ e. cc (h.running, e);
}

starts-waits : (wait wait_q : Bool) → (wait && not wait_q) ≡ true → wait ≡ true
starts-waits wait wait_q e = ground arith

running-of : (b running : Bool) → (b && running) ≡ true → running ≡ true
running-of b running e = ground arith

-- The three branches of a clock out of reset.
abbrev begins : Divider → Bool
begins s = s.pcpi_wait && not s.pcpi_wait_q

abbrev ends_now : Divider → Bool
ends_now s = s.quotient_msk == 0 && s.running

module _ (i : Request) (on : i.resetn ≡ true) (s : Divider) where
  later_branches :
      begins s ≡ false
      → ((begins s ≡ false) × (ends_now s ≡ true) × (clock i s ≡ finish s (waiting_on i s)))
        ⊎ (clock i s ≡ divide_bit s (waiting_on i s))
  unfolding clock
  later_branches later = elim (Bool-cases (ends_now s)) [
    | inl ends ↦ inl (later, ends, rw (on, later, ends) refl)
    | inr more ↦ inr (rw (on, later, more) refl)
  ]

  branches :
      ((begins s ≡ true) × (clock i s ≡ load i s (waiting_on i s)))
      ⊎ (((begins s ≡ false) × (ends_now s ≡ true) × (clock i s ≡ finish s (waiting_on i s)))
          ⊎ (clock i s ≡ divide_bit s (waiting_on i s)))
  unfolding clock
  branches = elim (Bool-cases (begins s)) [
    | inl starts ↦ inl (starts, rw (on, starts) refl)
    | inr later ↦ inr (later_branches later)
  ]

  clock-rests : s.running ≡ false → begins s ≡ false → clock i s ≡ divide_bit s (waiting_on i s)
  unfolding clock
  clock-rests n later = rw (on, later, n, and-false (s.quotient_msk == 0)) refl

module _ {i : Request} {f : ℕ} (r : Requests i f) (low : 4 ≤ f) (high : f < 8) where
  decodes : (s : Divider) → s.pcpi_ready ≡ false → any_div_rem (control i s) ≡ true
  unfolding control
  decodes s silent = rw (r.out_of_reset, r.is_valid, silent, r.decodes, r.selects) (ground arith)

  module _ (s : Divider) (h : InService s) where
    taken : IsTaken s → IsTaken (control i s)
    unfolding control
    taken t = record {
      decoded = decodes s h.silent;
      waits = rw (t.decoded, r.out_of_reset) refl;
      waited = rw (t.waits, r.out_of_reset) refl;
    }

    pub clock-InService : (clock i s).pcpi_ready ≡ false → InService (clock i s)
    unfolding control load finish divide_bit
    clock-InService quiet = elim (branches i r.out_of_reset s) [
      | inl (starts, e) ↦
          let w = starts-waits s.pcpi_wait s.pcpi_wait_q starts in
          rw e (record {
            silent = refl;
            seen = λ q. decodes s h.silent;
            runs = λ q. record {
              decoded = decodes s h.silent;
              waits = rw (h.seen w, r.out_of_reset) refl;
              waited = rw (w, r.out_of_reset) refl;
            };
          })
      | inr (inl (later, ends, e)) ↦ cc (rw e at quiet)
      | inr (inr e) ↦ rw e (record {
        silent = refl;
        seen = λ q. decodes s h.silent;
        runs = λ q.
            let t = taken (h.runs q) in
            record { decoded = t.decoded; waits = t.waits; waited = t.waited };
      })
    ]

    pub ready-HasAnswered : (clock i s).pcpi_ready ≡ true → HasAnswered (clock i s)
    unfolding control load finish divide_bit
    ready-HasAnswered ready = elim (branches i r.out_of_reset s) [
      | inl (starts, e) ↦ cc (rw e at ready)
      | inr (inl (later, ends, e)) ↦
          let t = taken (h.runs (running-of (s.quotient_msk == 0) s.running ends)) in
          rw e (record {
            taken = record { decoded = t.decoded; waits = t.waits; waited = t.waited };
            over = refl;
            ready = refl;
          })
      | inr (inr e) ↦ cc (rw e at ready)
    ]

  -- The clock in which the core takes the answer.
  pub clock-HasRetired : (s : Divider) → HasAnswered s → HasRetired (clock i s)
  unfolding control divide_bit
  clock-HasRetired s h =
      rw (clock-rests i r.out_of_reset s h.over (rw (h.taken.waits, h.taken.waited) refl)) (record {
        forgotten = rw (r.out_of_reset, r.is_valid, h.ready) refl;
        waited = rw (h.taken.waits, r.out_of_reset) refl;
        over = h.over;
        silent = refl;
      })

-- Clocks without a request.
module _ (i : Request) (on : i.resetn ≡ true) (quiet : i.valid ≡ false) where
  pub settles : (s : Divider) → HasRetired s → IsIdle (clock i (clock i (clock i s)))
  unfolding control divide_bit
  settles s h =
      let s1 = divide_bit s (waiting_on i s) in
      let s2 = divide_bit s1 (waiting_on i s1) in
      rw
        (
          clock-rests i on s h.over (rw (h.waited) (and-false s.pcpi_wait)),
          clock-rests i on s1 h.over (rw (on, h.forgotten) refl),
          clock-rests i on s2 h.over (rw (on, quiet) refl),
        )
        (record {
          div = rw (on, quiet) refl;
          divu = rw (on, quiet) refl;
          rem = rw (on, quiet) refl;
          remu = rw (on, quiet) refl;
          waits = rw (on, quiet) refl;
          waited = rw (on, quiet) refl;
          running = h.over;
          silent = refl;
        })

  pub quiet-IsIdle : (s : Divider) → IsIdle s → IsIdle (clock i s)
  unfolding control divide_bit
  quiet-IsIdle s h = rw (clock-rests i on s h.running (rw h.waits refl)) (record {
    div = rw (on, quiet) refl;
    divu = rw (on, quiet) refl;
    rem = rw (on, quiet) refl;
    remu = rw (on, quiet) refl;
    waits = rw (h.div, h.divu, h.rem, h.remu) refl;
    waited = rw h.waits refl;
    running = h.running;
    silent = refl;
  })
