-- ===== src/Firmware/Stats.antt =====
-- firmware/stats.c.
pub mod Laws
use picorv.Base.{
  ℕ, zero, suc, ◌+◌, ◌-◌, ◌*◌, ◌/◌, ◌%◌, ◌^◌, Bool, true, false, not, ◌&&◌, ◌||◌, [], ◌∷◌, ltb,
  ◌==◌, if◌then◌else◌,
}
use picorv.Base.Text.{Bytes, codes}
use picorv.Console.{Io, ◌>>=◌, ◌>>◌, pure, fault}
use picorv.Firmware.Print.{print_chr, print_str}

-- The first loop: `buffer` up to `p`, its last byte first, and the room behind `p`. `digits`
-- is only compared with 0, so it stops there.
unfoldable pub store_padded : ℕ → ℕ → ℕ → Bool → Bytes → Io Bytes
store_padded zero val digits zero_pad buffer =
    if not (val == 0) || ltb 0 digits then fault else pure buffer
store_padded (suc room) val digits zero_pad buffer =
    let c : ℕ = if not (val == 0) then b'0' + val % 10 else if zero_pad then b'0' else b' ' in
    let rest = store_padded room (val / 10) (digits - 1) zero_pad (c ∷ buffer) in
    if not (val == 0) || ltb 0 digits then rest else pure buffer

-- The second loop. With one blank left, `p[-2]` lies in front of `buffer`: undefined.
unfoldable pub write_dotted : Bytes → Io (Unit {0})
write_dotted [] = pure tt
write_dotted (c ∷ []) = if c == b' ' then fault else print_chr c
write_dotted (c ∷ d ∷ buffer) =
    print_chr (if c == b' ' && d == b' ' then b'.' else c) >> write_dotted (d ∷ buffer)

unfoldable pub stats_print_dec : ℕ → ℕ → Bool → Io (Unit {0})
unfolding store_padded write_dotted
stats_print_dec val digits zero_pad = do
  buffer ← store_padded 32 val digits zero_pad []
  write_dotted buffer

-- `stats` with the counters that it reads. A division by zero is undefined.
unfoldable pub stats : ℕ → ℕ → Io (Unit {0})
stats num_cycles num_instr = do
  print_str (codes "Cycle counter ........")
  stats_print_dec num_cycles 8 false
  print_str (codes "\nInstruction counter ..")
  stats_print_dec num_instr 8 false
  print_str (codes "\nCPI: ")
  if num_instr == 0 then fault else stats_print_dec (num_cycles / num_instr) 0 false
  print_str (codes ".")
  stats_print_dec (100 * num_cycles % 2 ^ 32 / num_instr % 100) 2 true
  print_str (codes "\n")
