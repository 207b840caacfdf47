-- ===== src/Picosoc/Memtest.antt =====
-- `cmd_memtest` of picosoc/firmware.c, over the RAM of the state.
pub mod Words
pub mod Lanes
pub mod Laws
use picorv.Base.{ℕ, true, false, zero, suc, ◌+◌, ◌-◌, ◌*◌, ◌/◌, ◌%◌, ◌^◌, Bool, ◌==◌, if◌then◌else◌}
use picorv.Base.{Option, none, some}
use picorv.Base.Text.{codes}
use picorv.Xorshift.{xorshift32}
use picorv.Picosoc.Soc.{M, ret, ◌>>=◌, ◌>>◌, pure}
use picorv.Picosoc.Flash.{Config, icebreaker, hx8kdemo}
use picorv.Picosoc.Text.{print, print_hex}

-- MEM_TOTAL
abbrev pub mem_total : Config → ℕ
mem_total icebreaker = 0x20000
mem_total hx8kdemo = 0x200

abbrev pub update : (ℕ → ℕ) → ℕ → ℕ → ℕ → ℕ
update f a v b = if a == b then v else f b

-- `*(base_word + word) = v`, and the value of `*(base_word + word)`.
unfoldable pub write_word : ℕ → ℕ → M (Unit {0})
write_word word v s = ret tt (record s { ram = update s.ram word (s.cell word v) })

unfoldable pub read_word : ℕ → M ℕ
read_word word s = ret (s.ram word) s

-- A word with byte `lane` replaced, and that byte of a word.
abbrev pub with_byte : ℕ → ℕ → ℕ → ℕ
with_byte lane v w = w / 256 ^ (lane + 1) * 256 ^ (lane + 1) + v * 256 ^ lane + w % 256 ^ lane

abbrev pub byte_of : ℕ → ℕ → ℕ
byte_of lane w = w / 256 ^ lane % 256

-- `*(base_byte + byte) = v`, and the value of `*(base_byte + byte)`.
unfoldable pub write_byte : ℕ → ℕ → M (Unit {0})
unfolding write_word
write_byte byte v s = write_word (byte / 4) (with_byte (byte % 4) v (s.ram (byte / 4))) s

unfoldable pub read_byte : ℕ → M ℕ
read_byte byte s = ret (byte_of (byte % 4) (s.ram (byte / 4))) s

-- The rounds of `for (int word = 0; word < MEM_TOTAL / sizeof(int); word += stride)`.
abbrev pub stride : ℕ
stride = 256

abbrev pub word_rounds : Config → ℕ
word_rounds config = (mem_total config / 4 + stride - 1) / stride

unfoldable pub fill_words : ℕ → ℕ → ℕ → M (Unit {0})
unfolding write_word
fill_words zero word state = pure tt
fill_words (suc left) word state = do
  write_word word (xorshift32 state)
  fill_words left (word + stride) (xorshift32 state)

-- The word that the loop stops at, if any.
unfoldable pub check_words : ℕ → ℕ → ℕ → M (Option ℕ)
unfolding read_word
check_words zero word state = pure none
check_words (suc left) word state = do
  v ← read_word word
  let rest = check_words left (word + stride) (xorshift32 state)
  if v == xorshift32 state then rest else pure (some word)

-- What follows a check: the dot and the rest of the test, or the report of a failure.
unfoldable pub word_verdict : M Bool → Option ℕ → M Bool
word_verdict next none = do print (codes "."); next
word_verdict next (some word) = do
  print (codes " ***FAILED WORD*** at ")
  print_hex (4 * word) 4
  print (codes "\n")
  pure false

-- The cycles of word access with `left` to go; `false` is the early `return`.
unfoldable pub word_cycles : ℕ → ℕ → Config → M Bool
unfolding fill_words check_words word_verdict
word_cycles zero i config = pure true
word_cycles (suc left) i config = do
  fill_words (word_rounds config) 0 i
  failed ← check_words (word_rounds config) 0 i
  word_verdict (word_cycles left (i + 1) config) failed

unfoldable pub fill_bytes : ℕ → ℕ → M (Unit {0})
unfolding write_byte
fill_bytes zero byte = pure tt
fill_bytes (suc left) byte = do write_byte byte (byte % 2 ^ 8); fill_bytes left (byte + 1)

unfoldable pub check_bytes : ℕ → ℕ → M (Option ℕ)
unfolding read_byte
check_bytes zero byte = pure none
check_bytes (suc left) byte = do
  v ← read_byte byte
  let rest = check_bytes left (byte + 1)
  if v == byte % 2 ^ 8 then rest else pure (some byte)

unfoldable pub byte_verdict : Option ℕ → M (Unit {0})
byte_verdict none = print (codes " passed\n")
byte_verdict (some byte) = do
  print (codes " ***FAILED BYTE*** at ")
  print_hex byte 4
  print (codes "\n")

unfoldable pub byte_access : Bool → M (Unit {0})
unfolding fill_bytes check_bytes byte_verdict
byte_access false = pure tt
byte_access true = do fill_bytes 128 0; failed ← check_bytes 128 0; byte_verdict failed

unfoldable pub cmd_memtest : Config → M (Unit {0})
unfolding word_cycles byte_access
cmd_memtest config = do
  print (codes "Running memtest ")
  passed ← word_cycles 5 1 config
  byte_access passed
