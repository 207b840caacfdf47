-- ===== src/Pcpi.antt =====
-- The co-processor interface (PCPI) of picorv32.v, and the units behind it.
--
-- A unit is a function from the inputs and the registers at a rising edge of the clock to the
-- registers after it: an assignment `<=` reads the old registers only.
pub mod Div
pub mod Mul
pub mod Units
use picorv.Base.{ℕ, zero, suc, ◌/◌, ◌%◌, ◌^◌, ◌≡◌, Bool, true, false, ◌&&◌, ◌==◌}

-- What the core drives: `resetn` and the signals `pcpi_valid`, `pcpi_insn`, `pcpi_rs1`, `pcpi_rs2`.
pub record Request : Type 0 where
  pub resetn : Bool
  pub valid : Bool
  pub insn : ℕ
  pub rs1 : ℕ
  pub rs2 : ℕ

-- `pcpi_insn[14:12]`
abbrev pub funct3 : Request → ℕ
funct3 i = i.insn / 2 ^ 12 % 2 ^ 3

-- `pcpi_insn[6:0] == 7'b0110011 && pcpi_insn[31:25] == 7'b0000001`
abbrev pub is_muldiv : Request → Bool
is_muldiv i = i.insn % 2 ^ 7 == 0b0110011 && i.insn / 2 ^ 25 == 0b0000001

-- The core holds a request for an instruction of the M extension.
pub record Requests (i : Request) (funct : ℕ) : Type 0 where
  pub out_of_reset : i.resetn ≡ true
  pub is_valid : i.valid ≡ true
  pub decodes : is_muldiv i ≡ true
  pub selects : funct3 i ≡ funct
