-- ===== src/Pcpi/Units/Service.antt =====
-- One instruction after another: the units wait for a request again after an answer.
use picorv.Base.{ℕ, zero, suc, ◌≤◌, ◌<◌, ◌≡◌, ◌^◌, refl, arith, Option, some, none}
use picorv.Base.{Bool, true, false, ◌||◌, ◌==◌, ltb, if◌then◌else◌, Bool-cases, inl, inr}
use picorv.Pcpi.{Request, Requests}
use picorv.Pcpi.Mul as MulUnit
use picorv.Pcpi.Div as DivUnit
use picorv.Pcpi.Mul.Clocks as MulClocks
use picorv.Pcpi.Div.Clocks as DivClocks
use picorv.Pcpi.Mul.Service as MulService
use picorv.Pcpi.Div.Service as DivService
use picorv.Pcpi.Mul.Laws.{product}
use picorv.Pcpi.Div.Laws.{division}
use picorv.Pcpi.Units.{
  Units, clock, pcpi_int_ready, pcpi_int_rd, answer, serve, retire, request, needed,
}
use picorv.Pcpi.Units.Laws.{
  IsIdle, divider-stays, multiplier-stays, request-Requests, answer-product, answer-division,
}

-- A property of the units when the answer comes, if it comes.
abbrev OnAnswer : (Units → Type 0) → Option Units → Type 0
OnAnswer P none = Unit
OnAnswer P (some t) = P t

or-true : (b : Bool) → (b || true) ≡ true
or-true true = refl
or-true false = refl

module _ (i : Request) (u : Units) where
  serve-ready :
      (fuel : ℕ) → pcpi_int_ready (clock i u) ≡ true → serve (suc fuel) i u ≡ some (clock i u)
  unfolding serve
  serve-ready fuel ready = rw ready refl

  serve-later :
      (fuel : ℕ)
      → pcpi_int_ready (clock i u) ≡ false
      → serve (suc fuel) i u ≡ serve fuel i (clock i u)
  unfolding serve
  serve-later fuel later = rw later refl

  -- The two units run side by side.
  clock-mul : (clock i u).mul ≡ MulUnit.clock i u.mul
  unfolding clock
  clock-mul = refl

  clock-div : (clock i u).div ≡ DivUnit.clock i u.div
  unfolding clock
  clock-div = refl

  mul_ready : (MulUnit.clock i u.mul).pcpi_ready ≡ true → pcpi_int_ready (clock i u) ≡ true
  mul_ready ready = rw (clock-mul, ready) refl

  div_ready : (DivUnit.clock i u.div).pcpi_ready ≡ true → pcpi_int_ready (clock i u) ≡ true
  div_ready ready = rw (clock-div, ready) (or-true (clock i u).mul.pcpi_ready)

  none_ready :
      (MulUnit.clock i u.mul).pcpi_ready ≡ false
      → (DivUnit.clock i u.div).pcpi_ready ≡ false
      → pcpi_int_ready (clock i u) ≡ false
  none_ready a b = rw (clock-mul, clock-div, a, b) refl

module _ {i : Request} {f : ℕ} (r : Requests i f) where
  quiet_divider :
      (s : DivUnit.Divider)
      → DivClocks.IsIdle s
      → DivClocks.IsIdle (DivUnit.clock (record i { valid = false }) s)
  quiet_divider = DivService.quiet-IsIdle (record i { valid = false }) r.out_of_reset refl

  quiet_multiplier :
      (s : MulUnit.Multiplier)
      → MulClocks.IsIdle s
      → MulClocks.IsIdle (MulUnit.clock (record i { valid = false }) s)
  quiet_multiplier = MulService.quiet-IsIdle (record i { valid = false }) r.out_of_reset refl

  -- After an answer of the multiplier, and of the divider.
  multiplier-retires :
      (u : Units)
      → f < 4
      → MulService.InService u.mul
      → DivClocks.IsIdle (DivUnit.clock i u.div)
      → (MulUnit.clock i u.mul).pcpi_ready ≡ true
      → IsIdle (retire i (clock i u))
  unfolding retire clock
  multiplier-retires u low h still ready = record {
    mul =
        MulService.settles (record i { valid = false }) r.out_of_reset refl _
          (MulService.clock-HasAnswered r low _ (MulService.ready-HasAnswered r low u.mul h ready));
    div = quiet_divider _ (quiet_divider _ (quiet_divider _ (divider-stays r low _ still)));
  }

  divider-retires :
      (u : Units)
      → 4 ≤ f
      → f < 8
      → MulClocks.IsIdle (MulUnit.clock i u.mul)
      → DivService.InService u.div
      → (DivUnit.clock i u.div).pcpi_ready ≡ true
      → IsIdle (retire i (clock i u))
  unfolding retire clock
  divider-retires u low high still h ready = record {
    mul =
        quiet_multiplier _
          (quiet_multiplier _ (quiet_multiplier _ (multiplier-stays r low _ still).0));
    div =
        DivService.settles (record i { valid = false }) r.out_of_reset refl _
          (DivService.clock-HasRetired r low high _
            (DivService.ready-HasAnswered r low high u.div h ready));
  }

  multiplier-serves :
      (fuel : ℕ) (u : Units)
      → f < 4
      → MulService.InService u.mul
      → DivClocks.IsIdle u.div
      → OnAnswer (λ t. IsIdle (retire i t)) (serve fuel i u)
  unfolding serve
  multiplier-serves zero u low h idle = tt
  multiplier-serves (suc fuel) u low h idle =
      let still = divider-stays r low u.div idle in
      elim (Bool-cases (MulUnit.clock i u.mul).pcpi_ready) [
        | inl ready ↦
            rw (serve-ready i u fuel (mul_ready i u ready)) (multiplier-retires u low h still ready)
        | inr silent ↦ rw (serve-later i u fuel (none_ready i u silent still.silent)) (
            multiplier-serves fuel (clock i u) low
              (rw (clock-mul i u) (MulService.clock-InService r low u.mul h))
              (rw (clock-div i u) still))
      ]

  divider-serves :
      (fuel : ℕ) (u : Units)
      → 4 ≤ f
      → f < 8
      → MulClocks.IsIdle u.mul
      → DivService.InService u.div
      → OnAnswer (λ t. IsIdle (retire i t)) (serve fuel i u)
  unfolding serve
  divider-serves zero u low high idle h = tt
  divider-serves (suc fuel) u low high idle h =
      let (still, silent) = multiplier-stays r low u.mul idle in
      elim (Bool-cases (DivUnit.clock i u.div).pcpi_ready) [
        | inl ready ↦
            rw (serve-ready i u fuel (div_ready i u ready))
              (divider-retires u low high still h ready)
        | inr later ↦ rw (serve-later i u fuel (none_ready i u silent later)) (
            divider-serves fuel (clock i u) low high (rw (clock-mul i u) still)
              (rw (clock-div i u) (DivService.clock-InService r low high u.div h later)))
      ]

-- The answer is what `serve` finds.
serve-answer :
    (fuel : ℕ) (i : Request) (u : Units) (v : ℕ)
    → answer fuel i u ≡ some v
    → (t : Units) × (serve fuel i u ≡ some t) × (pcpi_int_rd t ≡ some v)
unfolding answer serve
serve-answer zero i u v e = cc e
serve-answer (suc fuel) i u v e = elim (Bool-cases (pcpi_int_ready (clock i u))) [
  | inl ready ↦ (clock i u, rw ready refl, rw ready at e)
  | inr later ↦
      let (t, s, d) = serve-answer fuel i (clock i u) v (rw later at e) in (t, rw later s, d)
]

-- The result of the instruction with funct3 `f`.
abbrev pub expected : ℕ → ℕ → ℕ → ℕ
expected f a b = if ltb f 4 then product f a b else division f a b

module _ (u : Units) (f a b : ℕ) (high : f < 8) (la : a < 2 ^ 32) (lb : b < 2 ^ 32)
    (idle : IsIdle u) where
  answer-expected : answer (needed f) (request f a b) u ≡ some (expected f a b)
  answer-expected = elim (Bool-cases (ltb f 4)) [
    | inl low ↦
        let n : needed f ≡ (if f == 0 then 36 else 68) = ground arith in
        rw (n, low) (answer-product u idle a b la lb f (ground arith))
    | inr rest ↦
        let n : needed f ≡ 36 = ground arith in
        rw (n, rest) (answer-division u idle a b la lb f (ground arith) high)
  ]

  serve-IsIdle :
      OnAnswer (λ t. IsIdle (retire (request f a b) t)) (serve (needed f) (request f a b) u)
  serve-IsIdle =
      let r = request-Requests f a b high in
      elim (Bool-cases (ltb f 4)) [
        | inl low ↦
            multiplier-serves r (needed f) u (ground arith)
              (MulService.IsIdle-InService u.mul idle.mul) idle.div
        | inr rest ↦
            divider-serves r (needed f) u (ground arith) high idle.mul
              (DivService.IsIdle-InService u.div idle.div)
      ]

  -- An instruction of the M extension on 32-bit operands, from units that wait for a request: the
  -- answer comes within the clocks that it needs, it is the result of C arithmetic, and when the
  -- request has been taken back for three clocks the units wait for a request again.
  pub serve_lem :
      (t : Units) × (serve (needed f) (request f a b) u ≡ some t)
      × (pcpi_int_rd t ≡ some (expected f a b))
      × IsIdle (retire (request f a b) t)
  serve_lem =
      let (t, s, d) = serve-answer (needed f) (request f a b) u (expected f a b) answer-expected in
      (t, s, d, rw s at serve-IsIdle)
