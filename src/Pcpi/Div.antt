-- ===== src/Pcpi/Div.antt =====
-- `picorv32_pcpi_div` of picorv32.v: the divider, one bit of the quotient in a clock.
pub mod Rounds
pub mod Clocks
pub mod Service
pub mod Laws
use picorv.Base.{ℕ, zero, suc, ◌+◌, ◌-◌, ◌*◌, ◌/◌, ◌%◌, ◌^◌, Bool, true, false, not, ◌&&◌, ◌||◌}
use picorv.Base.{leb, ◌==◌, if◌then◌else◌, Option, none, some, bit_or}
use picorv.Pcpi.{Request, funct3, is_muldiv}

-- The registers. `pcpi_rd` is none for 'bx.
pub record Divider : Type 0 where
  pub instr_div : Bool
  pub instr_divu : Bool
  pub instr_rem : Bool
  pub instr_remu : Bool
  pub pcpi_wait : Bool
  pub pcpi_wait_q : Bool
  pub dividend : ℕ
  pub divisor : ℕ
  pub quotient : ℕ
  pub quotient_msk : ℕ
  pub running : Bool
  pub outsign : Bool
  pub pcpi_ready : Bool
  pub pcpi_wr : Bool
  pub pcpi_rd : Option ℕ

-- `pcpi_rs1[31]`
abbrev pub sign_bit : ℕ → Bool
sign_bit a = leb (2 ^ 31) a

-- Unary minus on `w` bits.
abbrev pub negate : ℕ → ℕ → ℕ
negate w a = (2 ^ w - a) % 2 ^ w

abbrev pub differ : Bool → Bool → Bool
differ a b = if a then not b else b

-- The first `always` block: the decoder and the handshake.
unfoldable pub control : Request → Divider → Divider
control i s =
    let decoded = i.resetn && (i.valid && (not s.pcpi_ready && is_muldiv i)) in
    record s {
      instr_div = decoded && funct3 i == 0b100;
      instr_divu = decoded && funct3 i == 0b101;
      instr_rem = decoded && funct3 i == 0b110;
      instr_remu = decoded && funct3 i == 0b111;
      pcpi_wait = (s.instr_div || (s.instr_divu || (s.instr_rem || s.instr_remu))) && i.resetn;
      pcpi_wait_q = s.pcpi_wait && i.resetn;
    }

-- `if (start)`: the operands are loaded, their signs aside. The divisor register has 63 bits, in
-- which its minus is taken.
unfoldable pub load : Request → Divider → Divider → Divider
load i s t = record t {
  running = true;
  dividend = if (s.instr_div || s.instr_rem) && sign_bit i.rs1 then negate 32 i.rs1 else i.rs1;
  divisor =
      (if (s.instr_div || s.instr_rem) && sign_bit i.rs2 then negate 63 i.rs2 else i.rs2)
      * 2 ^ 31
      % 2 ^ 63;
  outsign =
      (s.instr_div && (differ (sign_bit i.rs1) (sign_bit i.rs2) && not (i.rs2 == 0)))
      || (s.instr_rem && sign_bit i.rs1);
  quotient = 0;
  quotient_msk = 2 ^ 31;
}

-- `if (!quotient_msk && running)`: the result is given out.
unfoldable pub finish : Divider → Divider → Divider
finish s t =
    let value = if s.instr_div || s.instr_divu then s.quotient else s.dividend in
    record t {
      running = false;
      pcpi_ready = true;
      pcpi_wr = true;
      pcpi_rd = some (if s.outsign then negate 32 value else value);
    }

-- The last branch: one bit of the quotient.
unfoldable pub divide_bit : Divider → Divider → Divider
divide_bit s t =
    let fits = leb s.divisor s.dividend in
    record t {
      dividend = if fits then s.dividend - s.divisor else s.dividend;
      quotient = if fits then bit_or s.quotient s.quotient_msk else s.quotient;
      divisor = s.divisor / 2;
      quotient_msk = s.quotient_msk / 2;
    }

-- One edge of the clock; `t` has the registers that the first block and the defaults of the second
-- one set.
unfoldable pub clock : Request → Divider → Divider
unfolding control load finish divide_bit
clock i s =
    let t = record (control i s) { pcpi_ready = false; pcpi_wr = false; pcpi_rd = none } in
    if not i.resetn
    then record t { running = false }
    else if s.pcpi_wait && not s.pcpi_wait_q
    then load i s t
    else if s.quotient_msk == 0 && s.running
    then finish s t
    else divide_bit s t

-- The core holds the request until `pcpi_ready`, and takes `pcpi_rd`; none if the answer does not
-- come within `fuel` clocks.
unfoldable pub answer : ℕ → Request → Divider → Option ℕ
answer zero i s = none
answer (suc fuel) i s =
    let t = clock i s in let rest = answer fuel i t in if t.pcpi_ready then t.pcpi_rd else rest
