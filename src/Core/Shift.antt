-- ===== src/Core/Shift.antt =====
-- The shifts of picorv32.v: bit by bit in `cpu_state_shift`, with TWO_STAGE_SHIFT four bits at a
-- time, or at once in `alu_shl` and `alu_shr` for BARREL_SHIFTER.
pub mod Laws
use picorv.Base.{
  ℕ, zero, suc, ◌+◌, ◌-◌, ◌*◌, ◌/◌, ◌%◌, ◌^◌, Bool, true, false, ◌&&◌, ltb, leb, ◌==◌,
  if◌then◌else◌,
}

-- sll and slli, srl and srli, sra and srai.
pub data Shift : Type 0 where
  sll srl sra : Shift

-- The registers that take part; `cpu_state` is `cpu_state_shift` until the result stands in
-- `reg_out`.
pub record Shifter : Type 0 where
  pub reg_op1 : ℕ
  pub reg_sh : ℕ
  pub reg_out : ℕ
  pub is_shifting : Bool

-- `reg_op1 << 4`, `>> 4` and `$signed(reg_op1) >>> 4`, and those by 1.
abbrev pub four_places : Shift → ℕ → ℕ
four_places sll reg_op1 = reg_op1 * 2 ^ 4 % 2 ^ 32
four_places srl reg_op1 = reg_op1 / 2 ^ 4
four_places sra reg_op1 = reg_op1 / 2 ^ 4 + (if leb (2 ^ 31) reg_op1 then 15 * 2 ^ 28 else 0)

abbrev pub one_place : Shift → ℕ → ℕ
one_place sll reg_op1 = reg_op1 * 2 % 2 ^ 32
one_place srl reg_op1 = reg_op1 / 2
one_place sra reg_op1 = reg_op1 / 2 + (if leb (2 ^ 31) reg_op1 then 2 ^ 31 else 0)

-- A clock in `cpu_state_shift`.
unfoldable pub shift_clock : Bool → Shift → Shifter → Shifter
shift_clock two_stage_shift instr s =
    if s.reg_sh == 0
    then record s { reg_out = s.reg_op1; is_shifting = false }
    else if two_stage_shift && leb 4 s.reg_sh
    then record s { reg_op1 = four_places instr s.reg_op1; reg_sh = s.reg_sh - 4 }
    else record s { reg_op1 = one_place instr s.reg_op1; reg_sh = s.reg_sh - 1 }

-- The clocks until it leaves that state, on fuel.
unfoldable pub shift_clocks : ℕ → Bool → Shift → Shifter → Shifter
unfolding shift_clock
shift_clocks zero two_stage_shift instr s = s
shift_clocks (suc fuel) two_stage_shift instr s =
    let rest = shift_clocks fuel two_stage_shift instr (shift_clock two_stage_shift instr s) in
    if s.is_shifting then rest else s

-- The barrel shifter; `reg_op2[4:0]` is the number of places. The operand of `>>>` has 33 bits, the
-- first one its sign.
unfoldable pub alu_shl : ℕ → ℕ → ℕ
alu_shl reg_op1 reg_op2 = reg_op1 * 2 ^ (reg_op2 % 2 ^ 5) % 2 ^ 32

unfoldable pub alu_shr : Bool → ℕ → ℕ → ℕ
alu_shr arithmetic reg_op1 reg_op2 =
    let places = reg_op2 % 2 ^ 5 in
    if arithmetic && leb (2 ^ 31) reg_op1
    then (2 ^ 33 - 1 - (2 ^ 32 - 1 - reg_op1) / 2 ^ places) % 2 ^ 32
    else reg_op1 / 2 ^ places

unfoldable pub barrel : Shift → ℕ → ℕ → ℕ
unfolding alu_shl alu_shr
barrel sll reg_op1 reg_op2 = alu_shl reg_op1 reg_op2
barrel srl reg_op1 reg_op2 = alu_shr false reg_op1 reg_op2
barrel sra reg_op1 reg_op2 = alu_shr true reg_op1 reg_op2
