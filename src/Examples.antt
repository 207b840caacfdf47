-- ===== src/Examples.antt =====
-- The theorems of the other modules at concrete inputs.
pub mod Board
pub mod Core
pub mod Texts
pub mod Bench
pub mod Lanes
use picorv.Base.{
  ℕ, zero, suc, ◌+◌, ◌*◌, ◌/◌, ◌%◌, ◌^◌, ◌≤◌, ◌<◌, ◌≡◌, ◌≢◌, ◌⊎◌, refl, arith, inl, inr, ltb,
  if◌then◌else◌,
}
use picorv.Base.{false, List, [], ◌∷◌, ◌++◌, some, bit_and, ◌||◌, ◌==◌, get_or, take}
use picorv.Base.Bits.{bit_ext, bit-bit_and, bit-zero}
use picorv.Base.Text.{Bytes, codes}
use picorv.Base.Numeral.{decimal, hexadecimal, upper_digits, lower_digits}
use picorv.Console.{Writes, done, trapped, undefined}
use picorv.Firmware.Returns.{Returns, Traps}
use picorv.Firmware.Sieve.{Statics, sieve, bitmap_size, bitmap_get, bitmap_set, mark_multiples}
use picorv.Firmware.Sieve.Bitmap.{bitmap_get-bitmap_set}
use picorv.Firmware.Sieve.Marking.{IsMarked, mark_multiples_lem}
use picorv.Firmware.Sieve.Primes.{IsSieved}
use picorv.Firmware.Sieve.Output.{sieve-prints-primes, lines, primes}
use picorv.Firmware.Irq.{Counts, irq, count_irqs}
use picorv.Firmware.Irq.Laws.{irq_lem}
use picorv.Firmware.Multest.{
  Hard, multest, test_round, soft_mul, soft_mulh, soft_mulhsu, soft_mulhu, soft_div, soft_divu,
  soft_rem, soft_remu,
}
use picorv.Firmware.Print as Firm
use picorv.Firmware.Print.Laws.{print_dec-Writes, print_hex-Writes}
use picorv.Base.{◌-◌, length}
use picorv.Firmware.Stats.{stats_print_dec}
use picorv.Firmware.Stats.Laws.{leaders, stats_print_dec-Writes}
use picorv.Picosoc.Soc.{Soc, Prints}
use picorv.Picosoc.Flash.{Config}
use picorv.Picosoc.Menu.{main}
use picorv.Picosoc.Progress.Loop.{IsWaiting, main-IsWaiting}
use picorv.Picosoc.Text as Soft
use picorv.Picosoc.Text.Laws.{print_hex-Prints, print-Prints, crlf, IsWidth}
use picorv.Picosoc.Text.Decimal.{print_dec-Prints, print_dec_drops_zero}
use picorv.Xorshift.{xorshift32}
use picorv.Xorshift.Linear.{xorshift32_injective, xorshift32-ne-zero}
use picorv.Gray.{gray_encode_bitwise, gray_encode_simple, gray_decode, main_rounds}
use picorv.Gray.Laws.{bitwise-eq-simple, decode-encode, main_rounds-Writes, codes_from}
use picorv.Presyn.{decode}
use picorv.Presyn.Laws.{decode-decode}
use picorv.Dhrystone.Stdlib.{malloc, memcpy, printf, int, minus}
use picorv.Dhrystone.Stdlib.Laws.{malloc-malloc, memcpy-copies, int_text}
use picorv.Dhrystone.Syscalls.{sys_write, sys_sbrk}
use picorv.Dhrystone.Syscalls.Laws.{sys_write-done, sbrk-sbrk}

-- A SoC at reset whose user presses ENTER and then `S`, with a flash that shifts out zeroes and a
-- RAM that keeps what it is given.
abbrev pub board : Soc
board = record {
  spictrl = 0;
  clkdiv = 0;
  leds = 0;
  sent = [];
  rx = 0xffffffff ∷ 13 ∷ 83 ∷ [];
  ticks = 0;
  rdcycle = (λ n. n * 1000);
  rdinstret = (λ n. n * 100);
  transactions = [];
  reply = (λ past wren bytes. 0);
  ram = (λ a. 0);
  cell = (λ a v. v);
}

main-IsWaiting_example : IsWaiting (main Config.icebreaker board)
main-IsWaiting_example = main-IsWaiting Config.icebreaker board

abbrev zeroes : List ℕ
zeroes = 0 ∷ 0 ∷ []

abbrev fresh : Statics
fresh = record { bitmap = zeroes; hash = 0 }

word_of_zeroes : (i : ℕ) → get_or zeroes i 0 ≡ 0
word_of_zeroes zero = refl
word_of_zeroes (suc zero) = refl
word_of_zeroes (suc (suc i)) = refl

zero_and : (a : ℕ) → bit_and 0 a ≡ 0
zero_and a = bit_ext _ 0 (λ k. omega (arith, bit-bit_and k 0 a, bit-zero k))

nothing_marked : (k : ℕ) → bitmap_get zeroes k ≡ false
unfolding bitmap_get
nothing_marked k = rw (word_of_zeroes (k / 32), zero_and (2 ^ (k % 32)))

fresh-IsSieved : IsSieved 0 zeroes
fresh-IsSieved = record {
  two_words = refl;
  only = λ k lt h. absurd (cc (nothing_marked k));
  all = λ a m k lt. absurd (omega arith);
}

sieve-prints-primes_example :
    (t : Statics) × (sieve fresh []
      ≡ done t ([] ++ lines 1 primes ++ codes "checksum: 1772A48F OK\n"))
    × IsSieved bitmap_size t.bitmap
sieve-prints-primes_example = sieve-prints-primes fresh [] fresh-IsSieved

mark_multiples_lem_example :
    (after : List ℕ) × (mark_multiples 134 3 6 (0 ∷ 0 ∷ []) ≡ some after)
    × IsMarked 3 6 (0 ∷ 0 ∷ []) after
mark_multiples_lem_example =
    mark_multiples_lem 134 3 6 (0 ∷ 0 ∷ []) refl (omega arith) (omega arith) refl (omega arith)
      (omega arith)

stats_print_dec-Writes_example :
    Writes
      (stats_print_dec 12345 8 false)
      (leaders false (8 - length (decimal 12345)) (decimal 12345))
stats_print_dec-Writes_example =
    stats_print_dec-Writes 12345 8 false (omega arith) (omega arith) (omega arith)

print_dec-Writes_example : Writes (Firm.print_dec 4294967295) (decimal 4294967295)
print_dec-Writes_example = print_dec-Writes 4294967295 (omega arith)

abbrev seed : ℕ
seed = 314159265

xorshift32_injective_example : seed ≡ seed
xorshift32_injective_example = xorshift32_injective seed seed (omega arith) (omega arith) refl

bitwise-eq-simple_example : gray_encode_bitwise 200 ≡ gray_encode_simple 200
bitwise-eq-simple_example = bitwise-eq-simple 200 (omega arith)

decode-encode_example : gray_decode (gray_encode_simple 200) ≡ 200
decode-encode_example = decode-encode 200 (omega arith)

main_rounds-Writes_example : Writes (main_rounds 1 4 7) (codes_from 1 4 7)
main_rounds-Writes_example = main_rounds-Writes 1 4 7

memcpy-copies_example :
    ((i : ℕ) → i < 3 → memcpy 3 10 12 (λ c. c) (10 + i) ≡ 12 + i)
    × ((c : ℕ) → (c < 10) ⊎ (10 + 3 ≤ c) → memcpy 3 10 12 (λ c. c) c ≡ c)
memcpy-copies_example = memcpy-copies 3 10 12 (λ c. c) (inl (omega arith))

sys_write-done_example : sys_write 1 (codes "hello") 4 [] ≡ done 4 ([] ++ take 4 (codes "hello"))
sys_write-done_example = sys_write-done 1 4 (codes "hello") [] (omega arith)

print_hex-Writes_example : Writes (Firm.print_hex 0xBEEF 4) (hexadecimal upper_digits 4 0xBEEF)
print_hex-Writes_example = print_hex-Writes 0xBEEF 4 (omega arith)

print_hex-Prints_example :
    (k : ℕ) × (k ≤ 8)
    × IsWidth 0xBEEF 2 k
    × Prints (Soft.print_hex 0xBEEF 2) (hexadecimal lower_digits k 0xBEEF)
print_hex-Prints_example = print_hex-Prints 0xBEEF 2 (omega arith) (omega arith)

print_dec-Prints_example :
    Prints (Soft.print_dec 256) (if ltb 256 1000 then decimal 256 else codes ">=1000")
print_dec-Prints_example = print_dec-Prints 256 (inl (inr (omega arith)))

print_dec_drops_zero_example :
    Prints (Soft.print_dec 105) (decimal (105 / 100 * 10 + 105 % 10))
    × (105 / 100 * 10 + 105 % 10 ≢ 105)
print_dec_drops_zero_example = print_dec_drops_zero 105 (omega arith) (omega arith) (omega arith)

abbrev counted : Counts
counted = record { ext_irq_4_count = 3; ext_irq_5_count = 0xffffffff; timer_irq_count = 0 }

irq_lem_example :
    ((bit_and 1 6 ≡ 0)
      × (irq (λ a. 0x9002) (0x1001 ∷ []) 1 counted []
          ≡ done (record { regs = 0x1001 ∷ []; counts = count_irqs 1 counted }) []))
    ⊎ ((bit_and 1 6 ≢ 0)
        × (text : Bytes) × (irq (λ a. 0x9002) (0x1001 ∷ []) 1 counted [] ≡ trapped ([] ++ text)))
irq_lem_example =
    irq_lem (λ a. 0x9002) (0x1001 ∷ []) 1 counted []
      (record { irq_4 = omega arith; irq_5 = omega arith; timer = omega arith })

-- A core that computes as C does.
abbrev good_core : Hard
good_core = record {
  mul = soft_mul;
  mulh = soft_mulh;
  mulhsu = soft_mulhsu;
  mulhu = soft_mulhu;
  div = soft_div;
  divu = soft_divu;
  rem = soft_rem;
  remu = soft_remu;
}

-- A core whose multiplier is stuck at zero.
abbrev pub stuck_core : Hard
stuck_core = record good_core { mul = λ a b. 0 }

decode-decode_example : decode (decode b'U') ≡ b'U'
decode-decode_example = decode-decode b'U' refl
