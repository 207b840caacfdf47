-- ===== src/Pcpi/Units/Laws.antt =====
-- The instructions that the units carry out are those that firmware/multest.c expects.
use picorv.Base.{ℕ, zero, suc, ◌^◌, ◌≤◌, ◌<◌, ◌≡◌, refl, ◌∙◌, arith}
use picorv.Base.{false, Bool-cases, inl, inr, some}
use picorv.Firmware.Returns.{Returns}
use picorv.Firmware.Multest.{multest}
use picorv.Firmware.Multest.Laws.{AgreesOn, multest-Returns_of_words}
use picorv.Pcpi.{Request, Requests}
use picorv.Pcpi.Mul as MulUnit
use picorv.Pcpi.Div as DivUnit
use picorv.Pcpi.Mul.Laws as MulLaws
use picorv.Pcpi.Div.Laws as DivLaws
use picorv.Pcpi.Div.Clocks as DivClocks
use picorv.Pcpi.Mul.Clocks as MulClocks
use picorv.Pcpi.Units.{Units, clock, answer, request, result, hard_units}

-- A unit that is not addressed stays idle.
module _ {i : Request} {f : ℕ} (r : Requests i f) where
  pub divider-stays :
      f < 4 → (s : DivUnit.Divider) → DivClocks.IsIdle s → DivClocks.IsIdle (DivUnit.clock i s)
  unfolding DivUnit.control DivUnit.divide_bit
  divider-stays low s h = rw (DivClocks.clock-still r s h.waits h.running) (record {
    div = rw (r.out_of_reset, r.is_valid, h.silent, r.decodes, r.selects) (ground arith);
    divu = rw (r.out_of_reset, r.is_valid, h.silent, r.decodes, r.selects) (ground arith);
    rem = rw (r.out_of_reset, r.is_valid, h.silent, r.decodes, r.selects) (ground arith);
    remu = rw (r.out_of_reset, r.is_valid, h.silent, r.decodes, r.selects) (ground arith);
    waits = rw (h.div, h.divu, h.rem, h.remu) refl;
    waited = rw h.waits refl;
    running = h.running;
    silent = refl;
  })

  pub multiplier-stays :
      4 ≤ f
      → (s : MulUnit.Multiplier) → MulClocks.IsIdle s
      → MulClocks.IsIdle (MulUnit.clock i s) × ((MulUnit.clock i s).pcpi_ready ≡ false)
  unfolding MulUnit.control MulUnit.load MulUnit.output
  multiplier-stays high s h = (
    rw (MulClocks.clock-loads r s h.waiting) (record {
      mul = rw (r.out_of_reset, r.is_valid, r.decodes, r.selects) (ground arith);
      mulh = rw (r.out_of_reset, r.is_valid, r.decodes, r.selects) (ground arith);
      mulhsu = rw (r.out_of_reset, r.is_valid, r.decodes, r.selects) (ground arith);
      mulhu = rw (r.out_of_reset, r.is_valid, r.decodes, r.selects) (ground arith);
      waits = rw (h.mul, h.mulh, h.mulhsu, h.mulhu) refl;
      waited = h.waits;
      waiting = rw h.waits refl;
      unfinished = refl;
    }),
    MulClocks.unfinished-silent r s h.unfinished,
  )

  answer-multiplier :
      (fuel : ℕ) (u : Units)
      → f < 4
      → DivClocks.IsIdle u.div
      → answer fuel i u ≡ MulUnit.answer fuel i u.mul
  unfolding answer MulUnit.answer MulUnit.clock DivUnit.clock
  answer-multiplier zero u low h = refl
  answer-multiplier (suc fuel) u low h =
      let still = divider-stays low u.div h in
      let rest = answer-multiplier fuel (clock i u) low still in
      elim (Bool-cases (MulUnit.clock i u.mul).pcpi_ready) [
        | inl ready ↦ rw ready refl
        | inr silent ↦ rw (silent, still.silent) rest
      ]

  answer-divider :
      (fuel : ℕ) (u : Units)
      → 4 ≤ f
      → MulClocks.IsIdle u.mul
      → answer fuel i u ≡ DivUnit.answer fuel i u.div
  unfolding answer DivUnit.answer DivUnit.clock MulUnit.clock
  answer-divider zero u high h = refl
  answer-divider (suc fuel) u high h =
      let (still, silent) = multiplier-stays high u.mul h in
      rw silent (rw (answer-divider fuel (clock i u) high still) refl)

-- Units that wait for a request.
pub record IsIdle (u : Units) : Type 0 where
  pub mul : MulClocks.IsIdle u.mul
  pub div : DivClocks.IsIdle u.div

pub request-Requests : (f a b : ℕ) → f < 8 → Requests (request f a b) f
request-Requests f a b h = record {
  out_of_reset = refl;
  is_valid = refl;
  decodes = ground arith;
  selects = omega arith;
}

module _ (u : Units) (idle : IsIdle u) (a b : ℕ) (la : a < 2 ^ 32) (lb : b < 2 ^ 32) where
  pub answer-product :
      (f : ℕ) → f < 4 → answer (MulLaws.clocks f) (request f a b) u ≡ some (MulLaws.product f a b)
  answer-product f low =
      let r = request-Requests f a b (omega arith) in
      answer-multiplier r (MulLaws.clocks f) u low idle.div
      ∙ (MulLaws.multiplier-multiplies u.mul r low la lb idle.mul).1

  pub answer-division :
      (f : ℕ) → 4 ≤ f → f < 8 → answer 36 (request f a b) u ≡ some (DivLaws.division f a b)
  answer-division f low high =
      let r = request-Requests f a b high in
      answer-divider r 36 u low idle.mul
      ∙ (DivLaws.divider-divides u.div r low high la lb idle.div).1

  -- For all 32-bit operands, the units, waiting for a request, carry out the eight instructions as
  -- the C arithmetic of firmware/multest.c does.
  pub hard_units-AgreesOn : AgreesOn (hard_units u) a b
  unfolding result
  hard_units-AgreesOn = record {
    on_mul = rw (answer-product 0 (omega arith)) refl;
    on_mulh = rw (answer-product 1 (omega arith)) refl;
    on_mulhsu = rw (answer-product 2 (omega arith)) refl;
    on_mulhu = rw (answer-product 3 (omega arith)) refl;
    on_div = rw (answer-division 4 (omega arith) (omega arith)) refl;
    on_divu = rw (answer-division 5 (omega arith) (omega arith)) refl;
    on_rem = rw (answer-division 6 (omega arith) (omega arith)) refl;
    on_remu = rw (answer-division 7 (omega arith) (omega arith)) refl;
  }

-- `multest` on a core with these units returns: whenever an instruction finds the units waiting for
-- a request, all 120 results of the test agree, and its `ebreak` is not reached.
pub multest-hard_units :
    (u : Units) (x : ℕ) → IsIdle u → x < 2 ^ 32 → Returns (multest (hard_units u) x)
multest-hard_units u x idle lx =
    multest-Returns_of_words (hard_units u) x lx (λ a b la lb. hard_units-AgreesOn u idle a b la lb)
