-- ===== src/Core/Lanes.antt =====
-- The data lanes of the memory interface of picorv32.v and the RAM of picosoc/picosoc.v behind it:
-- what a store instruction writes and what a load instruction reads.
pub mod Laws
pub mod Loads
use picorv.Base.{
  ℕ, ◌+◌, ◌-◌, ◌*◌, ◌/◌, ◌%◌, ◌^◌, Bool, true, false, not, ◌&&◌, ltb, ◌==◌, if◌then◌else◌,
}

-- `mem_wordsize`: 0, 1 and 2.
pub data WordSize : Type 0 where
  word half byte : WordSize

-- The instructions, each with its size.
pub data Store : Type 0 where
  sb sh sw : Store

pub data Load : Type 0 where
  lb lbu lh lhu lw : Load

abbrev pub store_size : Store → WordSize
store_size sb = byte
store_size sh = half
store_size sw = word

abbrev pub load_size : Load → WordSize
load_size lb = byte
load_size lbu = byte
load_size lh = half
load_size lhu = half
load_size lw = word

-- Byte `k` of a word.
abbrev pub byte_lane : ℕ → ℕ → ℕ
byte_lane w k =
    if k == 0
    then w % 2 ^ 8
    else if k == 1
    then w / 2 ^ 8 % 2 ^ 8
    else if k == 2
    then w / 2 ^ 16 % 2 ^ 8
    else w / 2 ^ 24 % 2 ^ 8

unfoldable pub mem_la_wdata : WordSize → ℕ → ℕ
mem_la_wdata word reg_op2 = reg_op2
mem_la_wdata half reg_op2 = reg_op2 % 2 ^ 16 + reg_op2 % 2 ^ 16 * 2 ^ 16
mem_la_wdata byte reg_op2 = let b = reg_op2 % 2 ^ 8 in b + b * 2 ^ 8 + b * 2 ^ 16 + b * 2 ^ 24

-- The four bits of `mem_la_wstrb`, from the lowest.
abbrev pub Strobes : Type 0
Strobes = record { wen_0 : Bool; wen_1 : Bool; wen_2 : Bool; wen_3 : Bool }

unfoldable pub mem_la_wstrb : WordSize → ℕ → Strobes
mem_la_wstrb word reg_op1 = record { wen_0 = true; wen_1 = true; wen_2 = true; wen_3 = true }
mem_la_wstrb half reg_op1 =
    let upper = reg_op1 / 2 % 2 == 1 in
    record { wen_0 = not upper; wen_1 = not upper; wen_2 = upper; wen_3 = upper }
mem_la_wstrb byte reg_op1 =
    let place = reg_op1 % 4 in
    record { wen_0 = place == 0; wen_1 = place == 1; wen_2 = place == 2; wen_3 = place == 3 }

unfoldable pub mem_rdata_word : WordSize → ℕ → ℕ → ℕ
mem_rdata_word word reg_op1 mem_rdata = mem_rdata
mem_rdata_word half reg_op1 mem_rdata =
    if reg_op1 / 2 % 2 == 1 then mem_rdata / 2 ^ 16 % 2 ^ 16 else mem_rdata % 2 ^ 16
mem_rdata_word byte reg_op1 mem_rdata = byte_lane mem_rdata (reg_op1 % 4)

-- `picosoc_mem`, at the edge of a clock: the words by their addresses.
abbrev pub Ram : Type 0
Ram = ℕ → ℕ

unfoldable pub picosoc_mem : Strobes → ℕ → ℕ → Ram → Ram
picosoc_mem wen addr wdata mem a =
    let written =
      (if wen.wen_0 then byte_lane wdata 0 else byte_lane (mem addr) 0)
      + (if wen.wen_1 then byte_lane wdata 1 else byte_lane (mem addr) 1) * 2 ^ 8
      + (if wen.wen_2 then byte_lane wdata 2 else byte_lane (mem addr) 2) * 2 ^ 16
      + (if wen.wen_3 then byte_lane wdata 3 else byte_lane (mem addr) 3) * 2 ^ 24 in
    if a == addr then written else mem a

-- The addresses for which CATCH_MISALIGN stops the access.
abbrev pub is_misaligned : WordSize → ℕ → Bool
is_misaligned word reg_op1 = not (reg_op1 % 4 == 0)
is_misaligned half reg_op1 = not (reg_op1 % 2 == 0)
is_misaligned byte reg_op1 = false

-- The word address that the RAM sees, and its strobes: only the addresses of its words count.
abbrev pub ram_addr : ℕ → ℕ
ram_addr mem_addr = mem_addr / 4 % 2 ^ 22

abbrev no_strobes : Strobes
no_strobes = record { wen_0 = false; wen_1 = false; wen_2 = false; wen_3 = false }

unfoldable pub ram_wen : ℕ → ℕ → Strobes → Strobes
ram_wen mem_words mem_addr mem_wstrb =
    if ltb (mem_addr / 4 * 4) (4 * mem_words) then mem_wstrb else no_strobes

-- A store to the address that `cpu_state_stmem` has put into `reg_op1`.
unfoldable pub stmem : Store → ℕ → ℕ → ℕ → Ram → Ram
unfolding mem_la_wdata mem_la_wstrb ram_wen picosoc_mem
stmem instr mem_words reg_op1 reg_op2 ram =
    let size = store_size instr in
    picosoc_mem (ram_wen mem_words reg_op1 (mem_la_wstrb size reg_op1)) (ram_addr reg_op1)
      (mem_la_wdata size reg_op2) ram

-- `$signed` of the lower bits, extended to 32 bits.
abbrev pub sign_extended : ℕ → ℕ → ℕ
sign_extended bits w =
    let low = w % 2 ^ bits in if ltb low (2 ^ (bits - 1)) then low else low + 2 ^ 32 - 2 ^ bits

-- `reg_out` behind a load, by the latched flags.
unfoldable pub loaded : Load → ℕ → ℕ
loaded lb mem_rdata_word = sign_extended 8 mem_rdata_word
loaded lh mem_rdata_word = sign_extended 16 mem_rdata_word
loaded lbu mem_rdata_word = mem_rdata_word
loaded lhu mem_rdata_word = mem_rdata_word
loaded lw mem_rdata_word = mem_rdata_word

-- `mem_rdata`: the RAM answers at the addresses of its words, the other parts of the PicoSoC, given as
-- `elsewhere`, at all others.
unfoldable pub ram_rdata : ℕ → (ℕ → ℕ) → ℕ → Ram → ℕ
ram_rdata mem_words elsewhere mem_addr ram =
    if ltb mem_addr (4 * mem_words) then ram (ram_addr mem_addr) else elsewhere mem_addr

-- A load from the address that `cpu_state_ldmem` has put into `reg_op1`.
unfoldable pub ldmem : Load → ℕ → (ℕ → ℕ) → ℕ → Ram → ℕ
unfolding ram_rdata
ldmem instr mem_words elsewhere reg_op1 ram =
    let mem_rdata = ram_rdata mem_words elsewhere (reg_op1 / 4 * 4) ram in
    loaded instr (mem_rdata_word (load_size instr) reg_op1 mem_rdata)
