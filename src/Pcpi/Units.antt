-- ===== src/Pcpi/Units.antt =====
-- The two units behind the interface as the core instantiates them with ENABLE_MUL = 1 and
-- ENABLE_DIV = 1, and the routines `hard_mul` to `hard_remu` of firmware/start.S on them.
pub mod Laws
pub mod Reset
pub mod Service
use picorv.Base.{
  ℕ, zero, suc, ◌+◌, ◌*◌, ◌^◌, Bool, true, false, ◌||◌, ◌==◌, ltb, if◌then◌else◌, Option, none,
  some,
}
use picorv.Firmware.Multest.{Hard}
use picorv.Pcpi.{Request}
use picorv.Pcpi.Mul.{Multiplier}
use picorv.Pcpi.Div.{Divider}
use picorv.Pcpi.Mul
use picorv.Pcpi.Div

pub record Units : Type 0 where
  pub mul : Multiplier
  pub div : Divider

unfoldable pub clock : Request → Units → Units
clock i u = record { mul = Mul.clock i u.mul; div = Div.clock i u.div }

-- `pcpi_int_ready` and `pcpi_int_rd`.
abbrev pub pcpi_int_ready : Units → Bool
pcpi_int_ready u = u.mul.pcpi_ready || u.div.pcpi_ready

abbrev pub pcpi_int_rd : Units → Option ℕ
pcpi_int_rd u = if u.mul.pcpi_ready then some u.mul.pcpi_rd else u.div.pcpi_rd

-- The core holds the request until `pcpi_int_ready`, for at most `fuel` clocks.
unfoldable pub answer : ℕ → Request → Units → Option ℕ
unfolding clock
answer zero i u = none
answer (suc fuel) i u =
    let t = clock i u in
    let rest = answer fuel i t in if pcpi_int_ready t then pcpi_int_rd t else rest

-- The units when the answer comes.
unfoldable pub serve : ℕ → Request → Units → Option Units
unfolding clock
serve zero i u = none
serve (suc fuel) i u =
    let t = clock i u in let rest = serve fuel i t in if pcpi_int_ready t then some t else rest

-- `pcpi_valid` is still high in the clock in which the core takes the answer, and low in the three
-- clocks after it.
unfoldable pub retire : Request → Units → Units
unfolding clock
retire i t =
    let quiet = record i { valid = false } in clock quiet (clock quiet (clock quiet (clock i t)))

-- The request for the instruction with funct3 `f` on the registers a0 and a1, with the result in a0.
abbrev pub request : ℕ → ℕ → ℕ → Request
request f a b = record {
  resetn = true;
  valid = true;
  insn = 0x02B50533 + f * 2 ^ 12;
  rs1 = a;
  rs2 = b;
}

-- Clocks enough for the instruction.
abbrev pub needed : ℕ → ℕ
needed f = if f == 0 then 36 else if ltb f 4 then 68 else 36

abbrev or_zero : Option ℕ → ℕ
or_zero none = 0
or_zero (some v) = v

unfoldable pub result : Units → ℕ → ℕ → ℕ → ℕ
unfolding answer
result u f a b = or_zero (answer (needed f) (request f a b) u)

-- The instructions of a core whose units are in the given state.
abbrev pub hard_units : Units → Hard
hard_units u = record {
  mul = result u 0;
  mulh = result u 1;
  mulhsu = result u 2;
  mulhu = result u 3;
  div = result u 4;
  divu = result u 5;
  rem = result u 6;
  remu = result u 7;
}
