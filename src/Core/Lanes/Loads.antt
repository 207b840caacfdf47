-- ===== src/Core/Lanes/Loads.antt =====
-- What a load instruction reads from the memory of bytes, and a store before it.
use picorv.Base.{
  ℕ, ◌+◌, ◌-◌, ◌*◌, ◌/◌, ◌%◌, ◌^◌, ◌≤◌, ◌<◌, ◌≡◌, refl, ap, sym, ◌∙◌, arith, true, false, ◌&&◌, leb,
  ltb, ◌==◌, if◌then◌else◌, Bool-cases, inl, inr, lt→ltb,
}
use picorv.Core.Lanes.{
  Store, Load, lb, lbu, lh, lhu, lw, WordSize, word, half, byte, Ram, store_size, load_size,
  byte_lane, is_misaligned, ram_addr, ram_rdata, loaded, Strobes, ram_wen, mem_la_wstrb,
  mem_la_wdata, stmem, ldmem, mem_rdata_word, picosoc_mem,
}
use picorv.Core.Lanes.Laws.{byte_at, bytes, IsRam, byte_lane-lt, lane-lt, byte_at-stmem}

-- The bytes from an address on, the lowest first.
abbrev pub gathered : WordSize → Ram → ℕ → ℕ
gathered byte ram addr = byte_at ram addr
gathered half ram addr = byte_at ram addr + byte_at ram (addr + 1) * 2 ^ 8
gathered word ram addr =
    byte_at ram addr
    + byte_at ram (addr + 1) * 2 ^ 8
    + byte_at ram (addr + 2) * 2 ^ 16
    + byte_at ram (addr + 3) * 2 ^ 24

-- `lb` and `lh` extend the sign, the others fill with zeroes.
abbrev pub extended : Load → ℕ → ℕ
extended lb w = if leb (2 ^ 7) w then w + (2 ^ 32 - 2 ^ 8) else w
extended lh w = if leb (2 ^ 15) w then w + (2 ^ 32 - 2 ^ 16) else w
extended lbu w = w
extended lhu w = w
extended lw w = w

-- One more than the greatest value of a size.
abbrev limit : WordSize → ℕ
limit byte = 2 ^ 8
limit half = 2 ^ 16
limit word = 2 ^ 32

loaded_lem :
    (instr : Load) (w : ℕ) → w < limit (load_size instr) → loaded instr w ≡ extended instr w
unfolding loaded
loaded_lem lb w h = ground arith
loaded_lem lh w h = ground arith
loaded_lem lbu w h = refl
loaded_lem lhu w h = refl
loaded_lem lw w h = refl

gathered-lt : (size : WordSize) (ram : Ram) (addr : ℕ) → gathered size ram addr < limit size
gathered-lt byte ram addr = byte_lane-lt (ram (addr / 4)) (addr % 4)
gathered-lt half ram addr = omega (
  arith,
  byte_lane-lt (ram (addr / 4)) (addr % 4),
  byte_lane-lt (ram ((addr + 1) / 4)) ((addr + 1) % 4),
)
gathered-lt word ram addr = omega (
  arith,
  byte_lane-lt (ram (addr / 4)) (addr % 4),
  byte_lane-lt (ram ((addr + 1) / 4)) ((addr + 1) % 4),
  byte_lane-lt (ram ((addr + 2) / 4)) ((addr + 2) % 4),
  byte_lane-lt (ram ((addr + 3) / 4)) ((addr + 3) % 4),
)

mem_rdata_word-byte :
    (ram : Ram) (addr : ℕ) → mem_rdata_word byte addr (ram (addr / 4)) ≡ gathered byte ram addr
unfolding mem_rdata_word
mem_rdata_word-byte ram addr = refl

mem_rdata_word-half :
    (ram : Ram) (addr : ℕ)
    → is_misaligned half addr ≡ false
    → mem_rdata_word half addr (ram (addr / 4)) ≡ gathered half ram addr
unfolding mem_rdata_word
mem_rdata_word-half ram addr aligned =
    let next : (addr + 1) / 4 ≡ addr / 4 = ground arith in
    elim (Bool-cases (addr % 4 == 2)) [
      | inl upper ↦
          let place : addr % 4 ≡ 2 = ground arith in
          let place1 : (addr + 1) % 4 ≡ 3 = omega arith in
          let bit : addr / 2 % 2 ≡ 1 = omega arith in rw (next, place, place1, bit) (omega arith)
      | inr lower ↦
          let place : addr % 4 ≡ 0 = ground arith in
          let place1 : (addr + 1) % 4 ≡ 1 = omega arith in
          let bit : addr / 2 % 2 ≡ 0 = omega arith in rw (next, place, place1, bit) (omega arith)
    ]

mem_rdata_word-word :
    (ram : Ram) (addr : ℕ)
    → ram (addr / 4) < 2 ^ 32
    → is_misaligned word addr ≡ false
    → mem_rdata_word word addr (ram (addr / 4)) ≡ gathered word ram addr
unfolding mem_rdata_word
mem_rdata_word-word ram addr small aligned =
    let zero : addr % 4 ≡ 0 = ground arith in
    let next1 : (addr + 1) / 4 ≡ addr / 4 = ground arith in
    let next2 : (addr + 2) / 4 ≡ addr / 4 = ground arith in
    let next3 : (addr + 3) / 4 ≡ addr / 4 = ground arith in
    let place1 : (addr + 1) % 4 ≡ 1 = ground arith in
    let place2 : (addr + 2) % 4 ≡ 2 = ground arith in
    let place3 : (addr + 3) % 4 ≡ 3 = ground arith in
    rw (next1, next2, next3, zero, place1, place2, place3) (omega arith)

mem_rdata_word_lem :
    (size : WordSize) (ram : Ram) (addr : ℕ)
    → ram (addr / 4) < 2 ^ 32
    → is_misaligned size addr ≡ false
    → mem_rdata_word size addr (ram (addr / 4)) ≡ gathered size ram addr
mem_rdata_word_lem word ram addr small aligned = mem_rdata_word-word ram addr small aligned
mem_rdata_word_lem half ram addr small aligned = mem_rdata_word-half ram addr aligned
mem_rdata_word_lem byte ram addr small aligned = mem_rdata_word-byte ram addr

ram_rdata_inside :
    (mem_words : ℕ) (elsewhere : ℕ → ℕ) (addr : ℕ) (ram : Ram)
    → addr < 4 * mem_words
    → mem_words ≤ 2 ^ 22
    → ram_rdata mem_words elsewhere (addr / 4 * 4) ram ≡ ram (addr / 4)
unfolding ram_rdata
ram_rdata_inside mem_words elsewhere addr ram h hw =
    let place : ram_addr (addr / 4 * 4) ≡ addr / 4 = omega arith in
    rw (lt→ltb (addr / 4 * 4) (4 * mem_words) (omega arith), place)

-- A load from an aligned address of a RAM of 32-bit words gives the bytes from there on, the lowest
-- first, with the sign extended for `lb` and `lh` and zeroes else.
pub ldmem-gathered :
    (instr : Load) (mem_words : ℕ) (elsewhere : ℕ → ℕ) (addr : ℕ) (ram : Ram)
    → IsRam ram
    → is_misaligned (load_size instr) addr ≡ false
    → addr < 4 * mem_words
    → mem_words ≤ 2 ^ 22
    → ldmem instr mem_words elsewhere addr ram
      ≡ extended instr (gathered (load_size instr) ram addr)
unfolding ldmem
ldmem-gathered instr mem_words elsewhere addr ram small aligned h hw =
    rw
      (
        ram_rdata_inside mem_words elsewhere addr ram h hw,
        mem_rdata_word_lem (load_size instr) ram addr (small (addr / 4)) aligned,
      )
      (loaded_lem instr (gathered (load_size instr) ram addr)
        (gathered-lt (load_size instr) ram addr))

picosoc_mem-IsRam :
    (wen : Strobes) (addr wdata : ℕ) (ram : Ram)
    → IsRam ram
    → IsRam (picosoc_mem wen addr wdata ram)
unfolding picosoc_mem
picosoc_mem-IsRam wen addr wdata ram small a = elim (Bool-cases (a == addr)) [
  | inl here ↦ rw here (
      omega (
        arith,
        lane-lt wen.wen_0 wdata (ram addr) 0,
        lane-lt wen.wen_1 wdata (ram addr) 1,
        lane-lt wen.wen_2 wdata (ram addr) 2,
        lane-lt wen.wen_3 wdata (ram addr) 3,
      ))
  | inr other ↦ rw other (small a)
]

stmem-IsRam :
    (instr : Store) (mem_words addr v : ℕ) (ram : Ram)
    → IsRam ram
    → IsRam (stmem instr mem_words addr v ram)
unfolding stmem
stmem-IsRam instr mem_words addr v ram small =
    picosoc_mem-IsRam (ram_wen mem_words addr (mem_la_wstrb (store_size instr) addr))
      (ram_addr addr) (mem_la_wdata (store_size instr) v) ram small

-- The lower bits of a word that a size holds.
abbrev pub lower : WordSize → ℕ → ℕ
lower byte v = v % 2 ^ 8
lower half v = v % 2 ^ 16
lower word v = v % 2 ^ 32

byte_at_stored :
    (instr : Store) (mem_words addr v j : ℕ) (ram : Ram)
    → is_misaligned (store_size instr) addr ≡ false
    → addr < 4 * mem_words
    → mem_words ≤ 2 ^ 22
    → j < bytes (store_size instr)
    → byte_at (stmem instr mem_words addr v ram) (addr + j) ≡ byte_lane v j
byte_at_stored instr mem_words addr v j ram aligned h hw hj =
    let inside : (leb addr (addr + j) && ltb (addr + j) (addr + bytes (store_size instr))) ≡ true =
      ground arith in
    let place : addr + j - addr ≡ j = omega arith in
    rw (byte_at-stmem instr mem_words addr v (addr + j) ram aligned h hw, inside, place)

first_byte :
    (ram : Ram) (addr v : ℕ) → byte_at ram (addr + 0) ≡ byte_lane v 0 → byte_at ram addr ≡ v % 2 ^ 8
first_byte ram addr v h =
    let here : addr + 0 ≡ addr = omega arith in ap (byte_at ram) (sym here) ∙ h

gathered_bytes :
    (size : WordSize) (ram : Ram) (addr v : ℕ)
    → ((j : ℕ) → j < bytes size → byte_at ram (addr + j) ≡ byte_lane v j)
    → gathered size ram addr ≡ lower size v
gathered_bytes byte ram addr v h = first_byte ram addr v (h 0 (omega arith))
gathered_bytes half ram addr v h =
    rw (first_byte ram addr v (h 0 (omega arith)), h 1 (omega arith)) (omega arith)
gathered_bytes word ram addr v h =
    rw
      (
        first_byte ram addr v (h 0 (omega arith)),
        h 1 (omega arith),
        h 2 (omega arith),
        h 3 (omega arith),
      )
      (omega arith)

gathered-stmem :
    (instr : Store) (mem_words addr v : ℕ) (ram : Ram)
    → is_misaligned (store_size instr) addr ≡ false
    → addr < 4 * mem_words
    → mem_words ≤ 2 ^ 22
    → gathered (store_size instr) (stmem instr mem_words addr v ram) addr
      ≡ lower (store_size instr) v
gathered-stmem instr mem_words addr v ram aligned h hw =
    gathered_bytes (store_size instr) (stmem instr mem_words addr v ram) addr v
      (λ j lt. byte_at_stored instr mem_words addr v j ram aligned h hw lt)

-- A load of what a store of the same size has written gives the lower bits of the value.
pub ldmem-stmem :
    (i : Load) (j : Store) (mem_words : ℕ) (elsewhere : ℕ → ℕ) (addr v : ℕ) (ram : Ram)
    → IsRam ram
    → load_size i ≡ store_size j
    → is_misaligned (store_size j) addr ≡ false
    → addr < 4 * mem_words
    → mem_words ≤ 2 ^ 22
    → ldmem i mem_words elsewhere addr (stmem j mem_words addr v ram)
      ≡ extended i (lower (store_size j) v)
ldmem-stmem i j mem_words elsewhere addr v ram small same aligned h hw =
    ldmem-gathered i mem_words elsewhere addr (stmem j mem_words addr v ram)
      (stmem-IsRam j mem_words addr v ram small)
      (ap (λ size. is_misaligned size addr) same ∙ aligned) h hw
    ∙ ap (extended i) (
        ap (λ size. gathered size (stmem j mem_words addr v ram) addr) same
        ∙ gathered-stmem j mem_words addr v ram aligned h hw)
