-- ===== src/Examples/Core.antt =====
-- The theorems on the multiplication and division units of the core, on units at reset.
use picorv.Base.{◌≡◌, refl, arith, true, false, some, none, ◌⊎◌}
use picorv.Firmware.Returns.{Returns, Traps}
use picorv.Firmware.Multest.{multest, test_round}
use picorv.Firmware.Multest.Laws.{AgreesOn, test_round_lem}
use picorv.Pcpi.Div as DivUnit
use picorv.Pcpi.Div.Clocks as DivClocks
use picorv.Pcpi.Div.Laws.{divider-divides, division}
use picorv.Pcpi.Mul as MulUnit
use picorv.Pcpi.Mul.Clocks as MulClocks
use picorv.Pcpi.Mul.Laws.{multiplier-multiplies, product}
use picorv.Pcpi.Units.{Units, clock, request, hard_units, serve, retire, needed, pcpi_int_rd}
use picorv.Pcpi.Units.Service.{expected, serve_lem}
use picorv.Pcpi.Units.Laws.{IsIdle, request-Requests, multest-hard_units}
use picorv.Pcpi.Units.Reset.{hard_units-AgreesOn_after_reset}
use picorv.Pcpi.{Request}
use picorv.Examples.{stuck_core}

-- A divider that has been reset.
abbrev divider : DivUnit.Divider
divider = record {
  instr_div = false;
  instr_divu = false;
  instr_rem = false;
  instr_remu = false;
  pcpi_wait = false;
  pcpi_wait_q = false;
  dividend = 0;
  divisor = 0;
  quotient = 0;
  quotient_msk = 0;
  running = false;
  outsign = false;
  pcpi_ready = false;
  pcpi_wr = false;
  pcpi_rd = none;
}

divider-IsIdle : DivClocks.IsIdle divider
divider-IsIdle = record {
  div = refl;
  divu = refl;
  rem = refl;
  remu = refl;
  waits = refl;
  waited = refl;
  running = refl;
  silent = refl;
}

-- -7 by 2.
divider-divides_example :
    (DivUnit.answer 35 (request 4 0xfffffff9 2) divider ≡ none)
    × (DivUnit.answer 36 (request 4 0xfffffff9 2) divider ≡ some (division 4 0xfffffff9 2))
divider-divides_example =
    divider-divides divider (request-Requests 4 0xfffffff9 2 (omega arith)) (omega arith)
      (omega arith) (omega arith) (omega arith) divider-IsIdle

-- A multiplier that has been reset.
abbrev multiplier : MulUnit.Multiplier
multiplier = record {
  instr_mul = false;
  instr_mulh = false;
  instr_mulhsu = false;
  instr_mulhu = false;
  pcpi_wait = false;
  pcpi_wait_q = false;
  rs1 = 0;
  rs2 = 0;
  rd = 0;
  rdx = 0;
  mul_counter = 0;
  mul_waiting = true;
  mul_finish = false;
  pcpi_wr = false;
  pcpi_ready = false;
  pcpi_rd = 0;
}

multiplier-IsIdle : MulClocks.IsIdle multiplier
multiplier-IsIdle = record {
  mul = refl;
  mulh = refl;
  mulhsu = refl;
  mulhu = refl;
  waits = refl;
  waited = refl;
  waiting = refl;
  unfinished = refl;
}

-- The upper half of -7 times 2.
multiplier-multiplies_example :
    (MulUnit.answer 67 (request 1 0xfffffff9 2) multiplier ≡ none)
    × (MulUnit.answer 68 (request 1 0xfffffff9 2) multiplier ≡ some (product 1 0xfffffff9 2))
multiplier-multiplies_example =
    multiplier-multiplies multiplier (request-Requests 1 0xfffffff9 2 (omega arith)) (omega arith)
      (omega arith) (omega arith) multiplier-IsIdle

abbrev units : Units
units = record { mul = multiplier; div = divider }

units-IsIdle : IsIdle units
units-IsIdle = record { mul = multiplier-IsIdle; div = divider-IsIdle }

-- Units in the middle of something, and a clock of reset.
abbrev busy_units : Units
busy_units = record {
  mul = record multiplier {
    instr_mul = true;
    pcpi_wait = true;
    mul_waiting = false;
    mul_counter = 9;
  };
  div = record divider { instr_rem = true; pcpi_wait = true; running = true; quotient_msk = 64 };
}

abbrev reset : Request
reset = record (request 0 3 5) { resetn = false }

hard_units-AgreesOn_after_reset_example :
    AgreesOn (hard_units (clock reset (clock reset (clock reset busy_units)))) 0x80000000 0xffffffff
hard_units-AgreesOn_after_reset_example =
    hard_units-AgreesOn_after_reset reset reset reset refl refl refl busy_units 0x80000000
      0xffffffff (omega arith) (omega arith)

multest-hard_units_example : Returns (multest (hard_units units) 314159265)
multest-hard_units_example = multest-hard_units units 314159265 units-IsIdle (omega arith)

-- -7 by 2, from units at reset.
serve_lem_example :
    (t : Units) × (serve (needed 4) (request 4 0xfffffff9 2) units ≡ some t)
    × (pcpi_int_rd t ≡ some (expected 4 0xfffffff9 2))
    × IsIdle (retire (request 4 0xfffffff9 2) t)
serve_lem_example =
    serve_lem units 4 0xfffffff9 2 (omega arith) (omega arith) (omega arith) units-IsIdle

test_round_lem_example :
    (AgreesOn stuck_core 3 5 × Returns (test_round stuck_core 3 5))
    ⊎ (¬ AgreesOn stuck_core 3 5 × Traps (test_round stuck_core 3 5))
test_round_lem_example = test_round_lem stuck_core 3 5
