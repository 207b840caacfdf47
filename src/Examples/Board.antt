-- ===== src/Examples/Board.antt =====
-- The theorems on the memory test, the input and the flash of the PicoSoC, on concrete boards.
use picorv.Base.{ℕ, zero, suc, ◌+◌, ◌*◌, ◌<◌, ◌≡◌, refl, arith, ◌++◌, [], ◌∷◌, ◌==◌, if◌then◌else◌}
use picorv.Base.Text.{Bytes, codes}
use picorv.Picosoc.Soc.{Soc, ret}
use picorv.Picosoc.Flash.{Config}
use picorv.Picosoc.Flash.Laws.{Mode, set_mode, HasMode, set_mode-HasMode}
use picorv.Picosoc.Text.Laws.{crlf, IsWidth}
use picorv.Picosoc.Input.{cmd_echo}
use picorv.Picosoc.Input.Laws.{cmd_echo-Echoes}
use picorv.Picosoc.Memtest.{cmd_memtest, stride}
use picorv.Picosoc.Memtest.Laws.{cmd_memtest-passes, cmd_memtest-fails, fault_report}
use picorv.Base.{length, get_or, replicate}
use picorv.Picosoc.Benchmark.{compress, work}
use picorv.Picosoc.Benchmark.Laws.{nonzero_at, compress_lem}
use picorv.Picosoc.Benchmark.Reference.{round_bytes, rounds_state, work-reference}
use picorv.Examples.{board}

cmd_memtest-passes_example :
    (t : Soc) × (cmd_memtest Config.hx8kdemo board ≡ ret tt t)
    × (t.sent ≡ [] ++ crlf (codes "Running memtest ..... passed\n"))
    × (t.cell ≡ board.cell)
cmd_memtest-passes_example = cmd_memtest-passes Config.hx8kdemo board (λ a v. refl)

-- A RAM whose word 256 is stuck at zero.
abbrev faulty_board : Soc
faulty_board = record board { cell = λ a v. if a == 256 then 0 else v }

good_before : (j v : ℕ) → j < 1 → faulty_board.cell (0 + j * stride) v ≡ v
good_before zero v lt = refl
good_before (suc j) v lt = absurd (omega arith)

cmd_memtest-fails_example :
    (digits : ℕ) × IsWidth (4 * (0 + 1 * stride)) 4 digits
    × (t : Soc) × (cmd_memtest Config.icebreaker faulty_board ≡ ret tt t)
    × (t.sent ≡ [] ++ fault_report digits (0 + 1 * stride))
    × (t.cell ≡ faulty_board.cell)
cmd_memtest-fails_example =
    cmd_memtest-fails Config.icebreaker faulty_board 1 (omega arith) (λ v. refl) good_before

-- A user who types `a`, a newline, the mark, and `z`.
abbrev typing_board : Soc
typing_board = record board { rx = b'a' ∷ 0xffffffff ∷ 10 ∷ b'!' ∷ b'z' ∷ [] }

cmd_echo-Echoes_example :
    (t : Soc) × (cmd_echo typing_board ≡ ret tt t)
    × (t.sent ≡ [] ++ crlf (codes "Return to menu by sending '!'\n\n") ++ crlf (b'a' ∷ b'\n' ∷ []))
    × (t.rx ≡ b'z' ∷ [])
cmd_echo-Echoes_example = cmd_echo-Echoes typing_board

set_mode-HasMode_example :
    (after : ℕ) × (set_mode Config.icebreaker Mode.qddr board
      ≡ ret tt (record board { spictrl = after }))
    × HasMode Config.icebreaker Mode.qddr 0 after
set_mode-HasMode_example = set_mode-HasMode Config.icebreaker Mode.qddr board (omega arith)

-- A buffer without zeroes.
abbrev sevens : Bytes
sevens = replicate 256 7

compress_lem_example :
    (length (compress 256 0 0 sevens) ≡ 256)
    × ((j : ℕ)
        → get_or (compress 256 0 0 sevens) j 0
          ≡ get_or (nonzero_at 256 0 sevens) j (get_or sevens j 0))
compress_lem_example = compress_lem sevens refl

-- The rounds that `cmd_benchmark` runs, with two bytes behind the buffer.
work-reference_example :
    work 20 (record { bytes = sevens ++ 1 ∷ 2 ∷ []; x32 = 314159265 }) ≡ record {
      bytes = round_bytes (rounds_state 19 314159265) ++ 1 ∷ 2 ∷ [];
      x32 = rounds_state 20 314159265;
    }
work-reference_example = work-reference 19 314159265 sevens (1 ∷ 2 ∷ []) refl
