-- ===== src/Pcpi/Mul.antt =====
-- `picorv32_pcpi_mul` of picorv32.v with its default parameters STEPS_AT_ONCE = 1 and
-- CARRY_CHAIN = 4: the multiplier, one bit of the first operand in a clock.
pub mod Carry
pub mod Rounds
pub mod Clocks
pub mod Service
pub mod Laws
use picorv.Base.{ℕ, zero, suc, ◌+◌, ◌-◌, ◌*◌, ◌/◌, ◌%◌, ◌^◌, Bool, true, false, not, ◌&&◌, ◌||◌}
use picorv.Base.{leb, ◌==◌, if◌then◌else◌, Option, none, some}
use picorv.Pcpi.{Request, funct3, is_muldiv}

-- The registers.
pub record Multiplier : Type 0 where
  pub instr_mul : Bool
  pub instr_mulh : Bool
  pub instr_mulhsu : Bool
  pub instr_mulhu : Bool
  pub pcpi_wait : Bool
  pub pcpi_wait_q : Bool
  pub rs1 : ℕ
  pub rs2 : ℕ
  pub rd : ℕ
  pub rdx : ℕ
  pub mul_counter : ℕ
  pub mul_waiting : Bool
  pub mul_finish : Bool
  pub pcpi_wr : Bool
  pub pcpi_ready : Bool
  pub pcpi_rd : ℕ

abbrev pub instr_any_mulh : Multiplier → Bool
instr_any_mulh s = s.instr_mulh || (s.instr_mulhsu || s.instr_mulhu)

-- The loop over `j` of the carry save accumulator, with `n` chains of four bits to go: `next_rd` and
-- `next_rdt`, whose bits lie at the top of each chain. A sum has five bits.
unfoldable pub carry_chains : ℕ → ℕ → ℕ → ℕ → ℕ × ℕ
carry_chains zero rd rdx this_rs2 = (0, 0)
carry_chains (suc n) rd rdx this_rs2 =
    let sum : ℕ = (rd % 16 + rdx % 16 + this_rs2 % 16) % 32 in
    let above = carry_chains n (rd / 16) (rdx / 16) (this_rs2 / 16) in
    (16 * above.0 + sum % 16, 16 * above.1 + 8 * (sum / 16))

-- The first `always` block: the decoder and the handshake.
unfoldable pub control : Request → Multiplier → Multiplier
control i s =
    let decoded = i.resetn && (i.valid && is_muldiv i) in
    record s {
      instr_mul = decoded && funct3 i == 0b000;
      instr_mulh = decoded && funct3 i == 0b001;
      instr_mulhsu = decoded && funct3 i == 0b010;
      instr_mulhu = decoded && funct3 i == 0b011;
      pcpi_wait = s.instr_mul || instr_any_mulh s;
      pcpi_wait_q = s.pcpi_wait;
    }

-- `$signed(a)` in 64 bits.
abbrev pub sign_extend : ℕ → ℕ
sign_extend a = if leb (2 ^ 31) a then a + (2 ^ 64 - 2 ^ 32) else a

-- `if (mul_waiting)`: the operands are loaded.
unfoldable pub load : Request → Multiplier → Multiplier → Multiplier
load i s t = record t {
  rs1 = if s.instr_mulh || s.instr_mulhsu then sign_extend i.rs1 else i.rs1;
  rs2 = if s.instr_mulh then sign_extend i.rs2 else i.rs2;
  rd = 0;
  rdx = 0;
  mul_counter = if instr_any_mulh s then 62 else 30;
  mul_waiting = not (s.pcpi_wait && not s.pcpi_wait_q);
}

-- The other branch: one bit. The counter has seven bits, and its highest one ends the rounds.
unfoldable pub multiply_bit : Multiplier → Multiplier → Multiplier
multiply_bit s t =
    let sums = carry_chains 16 s.rd s.rdx (if s.rs1 % 2 == 1 then s.rs2 else 0) in
    record t {
      rd = sums.0;
      rdx = sums.1 * 2 % 2 ^ 64;
      rs1 = s.rs1 / 2;
      rs2 = s.rs2 * 2 % 2 ^ 64;
      mul_counter = (s.mul_counter + 2 ^ 7 - 1) % 2 ^ 7;
      mul_finish = leb (2 ^ 6) s.mul_counter;
      mul_waiting = leb (2 ^ 6) s.mul_counter;
    }

-- The last `always` block: the result is given out.
unfoldable pub output : Request → Multiplier → Multiplier → Multiplier
output i s t =
    let done = s.mul_finish && i.resetn in
    record t {
      pcpi_wr = done;
      pcpi_ready = done;
      pcpi_rd =
          if done then (if instr_any_mulh s then s.rd / 2 ^ 32 else s.rd) % 2 ^ 32 else s.pcpi_rd;
    }

-- One edge of the clock.
unfoldable pub clock : Request → Multiplier → Multiplier
unfolding control load multiply_bit output
clock i s =
    let t = record (output i s (control i s)) { mul_finish = false } in
    if not i.resetn
    then record t { mul_waiting = true }
    else if s.mul_waiting
    then load i s t
    else multiply_bit s t

-- The core holds the request until `pcpi_ready`, and takes `pcpi_rd`; none if the answer does not
-- come within `fuel` clocks.
unfoldable pub answer : ℕ → Request → Multiplier → Option ℕ
answer zero i s = none
answer (suc fuel) i s =
    let t = clock i s in let rest = answer fuel i t in if t.pcpi_ready then some t.pcpi_rd else rest
