-- ===== src/Picosoc/Benchmark.antt =====
-- `cmd_benchmark` and `cmd_benchmark_all` of picosoc/firmware.c.
pub mod Laws
pub mod Reference
use picorv.Base.{ℕ, zero, suc, ◌+◌, ◌-◌, ◌*◌, ◌%◌, ◌^◌, Bool, false, ◌==◌, if◌then◌else◌}
use picorv.Base.{get_or, set, replicate, bit_xor}
use picorv.Base.Text.{Bytes, codes}
use picorv.Xorshift.{xorshift32}
use picorv.Picosoc.Soc.{
  M, ◌>>=◌, ◌>>◌, pure, read_cycle, read_instret, read_spictrl, write_spictrl, with_field,
}
use picorv.Picosoc.Flash.{Config, icebreaker, hx8kdemo, set_flash_latency, set_flash_mode_spi}
use picorv.Picosoc.Flash.{
  set_flash_mode_dual, set_flash_mode_quad, set_flash_mode_qddr, enable_flash_crm,
}
use picorv.Picosoc.Text.{putchar, print, print_hex, print_dec}

-- `data` and `x32`.
pub record Work : Type 0 where
  pub bytes : Bytes
  pub x32 : ℕ

-- `data[k] = x32` for the `left` last bytes.
unfoldable pub fill_data : ℕ → ℕ → Work → Work
fill_data zero k w = w
fill_data (suc left) k w =
    let x = xorshift32 w.x32 in
    fill_data left (k + 1) (record { bytes = set w.bytes k (x % 2 ^ 8); x32 = x })

-- `if (data[k]) data[p++] = k`.
unfoldable pub compress : ℕ → ℕ → ℕ → Bytes → Bytes
compress zero k p bytes = bytes
compress (suc left) k p bytes =
    let keep = compress left (k + 1) p bytes in
    let store = compress left (k + 1) (p + 1) (set bytes p (k % 2 ^ 8)) in
    if get_or bytes k 0 == 0 then keep else store

-- `words[k]` on a little-endian machine.
unfoldable pub word_at : Bytes → ℕ → ℕ
word_at bytes k =
    get_or bytes (4 * k) 0
    + 2 ^ 8 * get_or bytes (4 * k + 1) 0
    + 2 ^ 16 * get_or bytes (4 * k + 2) 0
    + 2 ^ 24 * get_or bytes (4 * k + 3) 0

unfoldable pub sum_words : ℕ → ℕ → Bytes → ℕ → ℕ
sum_words zero k bytes x = x
sum_words (suc left) k bytes x = sum_words left (k + 1) bytes (bit_xor x (word_at bytes k))

-- The body of the outer loop, and the loop.
unfoldable pub work_round : Work → Work
unfolding fill_data compress word_at sum_words
work_round w =
    let filled = fill_data 256 0 w in
    let bytes = compress 256 0 0 filled.bytes in
    record { bytes = bytes; x32 = sum_words 64 0 bytes filled.x32 }

unfoldable pub work : ℕ → Work → Work
unfolding work_round
work zero w = w
work (suc left) w = work left (work_round w)

-- The checksum. Every byte of `data` is stored to before it is read.
unfoldable pub checksum : ℕ
unfolding work
checksum = (work 20 (record { bytes = replicate 256 0; x32 = 314159265 })).x32

pub record Timing : Type 0 where
  pub cycles : ℕ
  pub instns : ℕ

unfoldable pub cmd_benchmark : Bool → M Timing
cmd_benchmark verbose = do
  cycles_begin ← read_cycle
  instns_begin ← read_instret
  cycles_end ← read_cycle
  instns_end ← read_instret
  let cycles = (cycles_end + 2 ^ 32 - cycles_begin) % 2 ^ 32
  let instns = (instns_end + 2 ^ 32 - instns_begin) % 2 ^ 32
  if verbose
      then (do
        print (codes "Cycles: 0x")
        print_hex cycles 8
        putchar b'\n'
        print (codes "Instns: 0x")
        print_hex instns 8
        putchar b'\n'
        print (codes "Chksum: 0x")
        print_hex checksum 8
        putchar b'\n')
      else pure tt
  pure (record { cycles = cycles; instns = instns })

-- `print_hex(cmd_benchmark(false, &instns), 8); putchar('\n');`, and the new `instns`.
unfoldable pub timed : M ℕ
timed = do t ← cmd_benchmark false; print_hex t.cycles 8; putchar b'\n'; pure t.instns

-- One of the loops of the HX8KDEMO version, from `i = 8` down to 1.
unfoldable pub latencies : ℕ → Bytes → Bytes → ℕ → ℕ → M ℕ
unfolding timed
latencies zero name gap bits instns = pure instns
latencies (suc j) name gap bits instns = do
  print name
  print_dec (suc j)
  print gap
  set_flash_latency (suc j)
  r ← read_spictrl
  write_spictrl (with_field 0x00700000 bits r)
  print (codes ": ")
  n ← timed
  latencies j name gap bits n

unfoldable pub cmd_benchmark_all : Config → M (Unit {0})
unfolding latencies
cmd_benchmark_all hx8kdemo = do
  print (codes "default        ")
  r ← read_spictrl
  write_spictrl (with_field 0x00700000 0x00000000 r)
  print (codes ": ")
  n0 ← timed
  n1 ← latencies 8 (codes "dspi-") (codes "         ") 0x00400000 n0
  n2 ← latencies 8 (codes "dspi-crm-") (codes "     ") 0x00500000 n1
  n3 ← latencies 8 (codes "qspi-") (codes "         ") 0x00200000 n2
  n4 ← latencies 8 (codes "qspi-crm-") (codes "     ") 0x00300000 n3
  n5 ← latencies 8 (codes "qspi-ddr-") (codes "     ") 0x00600000 n4
  n6 ← latencies 8 (codes "qspi-ddr-crm-") (codes " ") 0x00700000 n5
  print (codes "instns         : ")
  print_hex n6 8
  putchar b'\n'
cmd_benchmark_all icebreaker = do
  print (codes "default   ")
  set_flash_mode_spi icebreaker
  _ ← timed
  print (codes "dual      ")
  set_flash_mode_dual icebreaker
  _ ← timed
  print (codes "quad      ")
  set_flash_mode_quad icebreaker
  _ ← timed
  print (codes "quad-crm  ")
  enable_flash_crm
  _ ← timed
  print (codes "qddr      ")
  set_flash_mode_qddr icebreaker
  _ ← timed
  print (codes "qddr-crm  ")
  enable_flash_crm
  _ ← timed
  pure tt
