-- ===== src/Picosoc/Progress/Commands.antt =====
-- No command of the menu puts back input, and all end.
use picorv.Base.{ℕ, zero, suc, ◌+◌, arith, Bool, true, false, [], ◌∷◌}
use picorv.Base.{Option, none, some, ◌==◌, get_or, bit_and, leb, ◌&&◌, not, ◌/◌, ◌^◌, ◌*◌, ◌%◌}
use picorv.Base.Numeral.{lower_digits}
use picorv.Xorshift.{xorshift32}
use picorv.Base.Text.{Bytes}
use picorv.Picosoc.Soc.{M, pure}
use picorv.Picosoc.Soc.{
  write_leds, write_clkdiv, write_spictrl, write_uart, read_spictrl, read_cycle, read_instret,
  read_leds,
}
use picorv.Picosoc.Flash.{
  Config, icebreaker, hx8kdemo, flashio, set_flash_qspi_flag, set_flash_latency,
}
use picorv.Picosoc.Flash.{
  set_flash_mode_spi, set_flash_mode_dual, set_flash_mode_quad, set_flash_mode_qddr,
  enable_flash_crm,
}
use picorv.Picosoc.Text.{putchar, print, print_hex, print_dec, hex_rounds, put_digit, put_last}
use picorv.Picosoc.Report.{
  on_off, cmd_print_spi_state, print_id, cmd_read_flash_id, cmd_read_flash_regs_print,
}
use picorv.Picosoc.Report.{cmd_read_flash_reg, pad_name, print_reg_bit, cmd_read_flash_regs}
use picorv.Picosoc.Memtest.{
  write_word, read_word, write_byte, read_byte, fill_words, check_words, word_verdict, word_cycles,
}
use picorv.Picosoc.Memtest.{
  fill_bytes, check_bytes, byte_verdict, byte_access, cmd_memtest, stride, word_rounds,
}
use picorv.Picosoc.Benchmark.{cmd_benchmark, timed, latencies, cmd_benchmark_all}
use picorv.Picosoc.Progress.{
  Takes, TakesSome, Steady, Hungry, Steady-bind, Hungry-left, Hungry-right, Steady-if,
}
use picorv.Picosoc.Progress.{TakesSome-weaken, Takes-weaken, Hungry-Steady, bind-Takes}

pub Steady-pure {ℓ} : {A : Type ℓ} (a : A) → Steady (pure a)
Steady-pure a = record { at = λ s. omega arith }

pub Steady-read_spictrl : Steady read_spictrl
Steady-read_spictrl = record { at = λ s. omega arith }

pub Steady-write_spictrl : (v : ℕ) → Steady (write_spictrl v)
Steady-write_spictrl v = record { at = λ s. omega arith }

pub Steady-read_leds : Steady read_leds
Steady-read_leds = record { at = λ s. omega arith }

pub Steady-write_leds : (v : ℕ) → Steady (write_leds v)
Steady-write_leds v = record { at = λ s. omega arith }

pub Steady-write_clkdiv : (v : ℕ) → Steady (write_clkdiv v)
Steady-write_clkdiv v = record { at = λ s. omega arith }

pub Steady-write_uart : (c : ℕ) → Steady (write_uart c)
Steady-write_uart c = record { at = λ s. omega arith }

pub Steady-read_cycle : Steady read_cycle
Steady-read_cycle = record { at = λ s. omega arith }

pub Steady-read_instret : Steady read_instret
Steady-read_instret = record { at = λ s. omega arith }

pub Steady-flashio : (buffer : Bytes) (len wrencmd : ℕ) → Steady (flashio buffer len wrencmd)
unfolding flashio
Steady-flashio buffer len wrencmd = record { at = λ s. omega arith }

pub ruleset registers = (
  Steady-bind, Steady-pure, Steady-read_spictrl, Steady-write_spictrl, Steady-read_leds,
  Steady-write_leds, Steady-write_clkdiv, Steady-write_uart, Steady-read_cycle, Steady-read_instret,
  Steady-flashio, Steady-if,
)

pub Steady-putchar : (c : ℕ) → Steady (putchar c)
unfolding putchar
Steady-putchar c = search registers

pub Steady-print : (p : Bytes) → Steady (print p)
unfolding print
Steady-print [] = search registers
Steady-print (c ∷ p) =
    Steady-if (not (c == 0)) (Steady-bind (Steady-putchar c) (λ _. Steady-print p)) (Steady-pure tt)

pub Steady-hex_rounds : (i v digits : ℕ) → Steady (hex_rounds i v digits)
unfolding hex_rounds
Steady-hex_rounds zero v digits = search registers
Steady-hex_rounds (suc i) v digits =
    let c : ℕ = get_or lower_digits (bit_and (v / 2 ^ (4 * i)) 15) 0 in
    Steady-if (c == b'0' && leb digits i) (Steady-hex_rounds i v digits)
      (Steady-bind (Steady-putchar c) (λ _. Steady-hex_rounds i v i))

pub Steady-print_hex : (v digits : ℕ) → Steady (print_hex v digits)
unfolding print_hex
Steady-print_hex v digits = Steady-hex_rounds 8 v digits

pub Steady-put_digit : (c : Option ℕ) → Steady (put_digit c)
unfolding put_digit
Steady-put_digit none = search registers
Steady-put_digit (some c) = Steady-putchar c

pub Steady-put_last : (c : Option ℕ) → Steady (put_last c)
unfolding put_last
Steady-put_last none = Steady-putchar b'0'
Steady-put_last (some c) = Steady-putchar c

pub Steady-print_dec : (v : ℕ) → Steady (print_dec v)
unfolding print_dec
Steady-print_dec v = search (registers, Steady-print, Steady-put_digit, Steady-put_last)

pub ruleset printing = (registers, Steady-putchar, Steady-print, Steady-print_hex, Steady-print_dec)

pub Steady-set_flash_latency : (v : ℕ) → Steady (set_flash_latency v)
unfolding set_flash_latency
Steady-set_flash_latency v = search registers depth 20

pub Steady-on_off : (flag : ℕ) → Steady (on_off flag)
unfolding on_off
Steady-on_off flag = search printing

pub Steady-cmd_print_spi_state : Steady cmd_print_spi_state
unfolding cmd_print_spi_state
Steady-cmd_print_spi_state = search (printing, Steady-on_off) depth 40

pub Steady-print_id : (left i : ℕ) (buffer : Bytes) → Steady (print_id left i buffer)
unfolding print_id
Steady-print_id zero i buffer = search registers
Steady-print_id (suc left) i buffer = Steady-bind (Steady-putchar b' ') (λ _.
    Steady-bind (Steady-print_hex (get_or buffer i 0) 2) (λ _. Steady-print_id left (i + 1) buffer))

pub Steady-cmd_read_flash_id : Steady cmd_read_flash_id
unfolding cmd_read_flash_id
Steady-cmd_read_flash_id = search (printing, Steady-print_id) depth 10

pub Steady-reg_print : (addr : ℕ) (name : Bytes) → Steady (cmd_read_flash_regs_print addr name)
unfolding cmd_read_flash_regs_print
Steady-reg_print addr name = search (printing, Steady-set_flash_latency) depth 30

pub Steady-cmd_read_flash_reg : (cmd : ℕ) → Steady (cmd_read_flash_reg cmd)
unfolding cmd_read_flash_reg
Steady-cmd_read_flash_reg cmd = search registers

pub Steady-pad_name : (left : ℕ) (name : Bytes) → Steady (pad_name left name)
unfolding pad_name
Steady-pad_name zero name = search registers
Steady-pad_name (suc left) [] = Steady-bind (Steady-putchar b' ') (λ _. Steady-pad_name left [])
Steady-pad_name (suc left) (c ∷ name) =
    Steady-if (c == 0) (Steady-bind (Steady-putchar b' ') (λ _. Steady-pad_name left (c ∷ name)))
      (Steady-bind (Steady-putchar c) (λ _. Steady-pad_name left name))

pub Steady-print_reg_bit : (val : ℕ) (name : Bytes) → Steady (print_reg_bit val name)
unfolding print_reg_bit
Steady-print_reg_bit val name = search (printing, Steady-pad_name) depth 10

pub Steady-cmd_read_flash_regs : (config : Config) → Steady (cmd_read_flash_regs config)
unfolding cmd_read_flash_regs
Steady-cmd_read_flash_regs icebreaker =
    search (printing, Steady-cmd_read_flash_reg, Steady-print_reg_bit) depth 80
Steady-cmd_read_flash_regs hx8kdemo = search (printing, Steady-reg_print) depth 40

pub Steady-write_word : (word v : ℕ) → Steady (write_word word v)
unfolding write_word
Steady-write_word word v = record { at = λ s. omega arith }

pub Steady-read_word : (word : ℕ) → Steady (read_word word)
unfolding read_word
Steady-read_word word = record { at = λ s. omega arith }

pub Steady-write_byte : (byte v : ℕ) → Steady (write_byte byte v)
unfolding write_byte
Steady-write_byte byte v = record { at = λ s. omega arith }

pub Steady-read_byte : (byte : ℕ) → Steady (read_byte byte)
unfolding read_byte
Steady-read_byte byte = record { at = λ s. omega arith }

pub Steady-fill_words : (left word state : ℕ) → Steady (fill_words left word state)
unfolding fill_words
Steady-fill_words zero word state = search registers
Steady-fill_words (suc left) word state =
    Steady-bind (Steady-write_word word (xorshift32 state))
      (λ _. Steady-fill_words left (word + stride) (xorshift32 state))

pub Steady-check_words : (left word state : ℕ) → Steady (check_words left word state)
unfolding check_words
Steady-check_words zero word state = search registers
Steady-check_words (suc left) word state = Steady-bind (Steady-read_word word) (λ v.
    Steady-if (v == xorshift32 state) (Steady-check_words left (word + stride) (xorshift32 state))
      (Steady-pure (some word)))

pub Steady-word_verdict :
    (next : M Bool) (failed : Option ℕ) → Steady next → Steady (word_verdict next failed)
unfolding word_verdict
Steady-word_verdict next none h = search printing
Steady-word_verdict next (some word) h = search printing depth 10

pub Steady-word_cycles : (left i : ℕ) (config : Config) → Steady (word_cycles left i config)
unfolding word_cycles
Steady-word_cycles zero i config = search registers
Steady-word_cycles (suc left) i config =
    Steady-bind (Steady-fill_words (word_rounds config) 0 i) (λ _.
      Steady-bind (Steady-check_words (word_rounds config) 0 i)
        (λ failed. Steady-word_verdict _ failed (Steady-word_cycles left (i + 1) config)))

pub Steady-fill_bytes : (left byte : ℕ) → Steady (fill_bytes left byte)
unfolding fill_bytes
Steady-fill_bytes zero byte = search registers
Steady-fill_bytes (suc left) byte =
    Steady-bind (Steady-write_byte byte (byte % 2 ^ 8)) (λ _. Steady-fill_bytes left (byte + 1))

pub Steady-check_bytes : (left byte : ℕ) → Steady (check_bytes left byte)
unfolding check_bytes
Steady-check_bytes zero byte = search registers
Steady-check_bytes (suc left) byte = Steady-bind (Steady-read_byte byte) (λ v.
    Steady-if (v == byte % 2 ^ 8) (Steady-check_bytes left (byte + 1)) (Steady-pure (some byte)))

pub Steady-byte_verdict : (failed : Option ℕ) → Steady (byte_verdict failed)
unfolding byte_verdict
Steady-byte_verdict none = search printing
Steady-byte_verdict (some byte) = search printing depth 10

pub Steady-byte_access : (go_on : Bool) → Steady (byte_access go_on)
unfolding byte_access
Steady-byte_access false = search registers
Steady-byte_access true =
    search (registers, Steady-fill_bytes, Steady-check_bytes, Steady-byte_verdict)

pub Steady-cmd_memtest : (config : Config) → Steady (cmd_memtest config)
unfolding cmd_memtest
Steady-cmd_memtest config = search (printing, Steady-word_cycles, Steady-byte_access)

pub Steady-cmd_benchmark : (verbose : Bool) → Steady (cmd_benchmark verbose)
unfolding cmd_benchmark
Steady-cmd_benchmark verbose = search printing depth 40

pub Steady-timed : Steady timed
unfolding timed
Steady-timed = search (printing, Steady-cmd_benchmark)

pub Steady-latencies :
    (left : ℕ) (name gap : Bytes) (bits instns : ℕ) → Steady (latencies left name gap bits instns)
unfolding latencies
Steady-latencies zero name gap bits instns = search registers
Steady-latencies (suc j) name gap bits instns =
    let rest = Steady-latencies j name gap bits in
    search (printing, Steady-set_flash_latency, Steady-timed, rest) depth 20

pub Steady-set_flash_mode_spi : (config : Config) → Steady (set_flash_mode_spi config)
unfolding set_flash_mode_spi
Steady-set_flash_mode_spi icebreaker = search registers
Steady-set_flash_mode_spi hx8kdemo = search registers

pub Steady-set_flash_mode_dual : (config : Config) → Steady (set_flash_mode_dual config)
unfolding set_flash_mode_dual
Steady-set_flash_mode_dual icebreaker = search registers
Steady-set_flash_mode_dual hx8kdemo = search registers

pub Steady-set_flash_mode_quad : (config : Config) → Steady (set_flash_mode_quad config)
unfolding set_flash_mode_quad
Steady-set_flash_mode_quad icebreaker = search registers
Steady-set_flash_mode_quad hx8kdemo = search registers

pub Steady-set_flash_mode_qddr : (config : Config) → Steady (set_flash_mode_qddr config)
unfolding set_flash_mode_qddr
Steady-set_flash_mode_qddr icebreaker = search registers
Steady-set_flash_mode_qddr hx8kdemo = search registers

pub Steady-enable_flash_crm : Steady enable_flash_crm
unfolding enable_flash_crm
Steady-enable_flash_crm = search registers

pub Steady-cmd_benchmark_all : (config : Config) → Steady (cmd_benchmark_all config)
unfolding cmd_benchmark_all
Steady-cmd_benchmark_all hx8kdemo = search (printing, Steady-timed, Steady-latencies) depth 40
Steady-cmd_benchmark_all icebreaker =
    search
      (
        printing, Steady-timed, Steady-enable_flash_crm, Steady-set_flash_mode_spi,
        Steady-set_flash_mode_dual, Steady-set_flash_mode_quad, Steady-set_flash_mode_qddr,
      )
      depth 60

pub Steady-set_flash_qspi_flag : (config : Config) → Steady (set_flash_qspi_flag config)
unfolding set_flash_qspi_flag
Steady-set_flash_qspi_flag icebreaker = search registers
Steady-set_flash_qspi_flag hx8kdemo = search registers
