-- ===== src/Examples/Lanes.antt =====
-- The theorems on the data lanes and the shifter of the core at concrete inputs.
use picorv.Base.{ℕ, ◌+◌, ◌-◌, ◌≡◌, refl, arith, true, ◌&&◌, leb, ltb, if◌then◌else◌}
use picorv.Core.Lanes.{Ram, sb, sh, lh, stmem, ldmem, byte_lane}
use picorv.Core.Lanes.Laws.{byte_at, IsRam, byte_at-stmem}
use picorv.Core.Lanes.Loads.{extended, gathered, ldmem-gathered, ldmem-stmem}
use picorv.Core.Lanes as Lanes
use picorv.Core.Shift.{sra, shift_clocks, barrel}
use picorv.Core.Shift.Laws.{clocks, finished, shift_clocks-barrel}

-- A RAM of the HX8K board: 256 words, all alike.
abbrev ram : Ram
ram a = 0x89abcdef

ram-IsRam : IsRam ram
ram-IsRam a = omega arith

-- What answers outside of the RAM.
abbrev elsewhere : ℕ → ℕ
elsewhere a = 0

byte_at-stmem_example :
    byte_at (stmem sb 256 41 0x1234 ram) 41
    ≡ (if leb 41 41 && ltb 41 (41 + 1) then byte_lane 0x1234 (41 - 41) else byte_at ram 41)
byte_at-stmem_example = byte_at-stmem sb 256 41 0x1234 41 ram refl (omega arith) (omega arith)

ldmem-gathered_example : ldmem lh 256 elsewhere 42 ram ≡ extended lh (gathered Lanes.half ram 42)
ldmem-gathered_example =
    ldmem-gathered lh 256 elsewhere 42 ram ram-IsRam refl (omega arith) (omega arith)

ldmem-stmem_example : ldmem lh 256 elsewhere 42 (stmem sh 256 42 0xfffe ram) ≡ 0xfffffffe
ldmem-stmem_example =
    ldmem-stmem lh sh 256 elsewhere 42 0xfffe ram ram-IsRam refl refl (omega arith) (omega arith)

shift_clocks-barrel_example :
    shift_clocks
      (clocks true 11)
      true
      sra
      (record { reg_op1 = 0x80000000; reg_sh = 11; reg_out = 7; is_shifting = true })
    ≡ finished (barrel sra 0x80000000 43)
shift_clocks-barrel_example = shift_clocks-barrel true sra 0x80000000 43 7 (omega arith)
