-- ===== src/Core/Lanes/Laws.antt =====
-- The RAM behind the lanes is a memory of bytes.
use picorv.Base.{
  ℕ, ◌+◌, ◌-◌, ◌*◌, ◌/◌, ◌%◌, ◌^◌, ◌≤◌, ◌<◌, ◌≡◌, refl, ap, ◌∙◌, ◌⊎◌, arith, lt→ltb, Bool,
  Bool-cases, inl, inr, true, false, ◌&&◌, leb, ltb, ◌==◌, if◌then◌else◌,
}
use picorv.Core.Lanes.{
  Store, WordSize, word, half, byte, Ram, Strobes, store_size, byte_lane, is_misaligned, ram_addr,
  stmem, mem_la_wdata, mem_la_wstrb, ram_wen, picosoc_mem,
}

-- The byte at an address.
abbrev pub byte_at : Ram → ℕ → ℕ
byte_at ram b = byte_lane (ram (b / 4)) (b % 4)

abbrev pub bytes : WordSize → ℕ
bytes word = 4
bytes half = 2
bytes byte = 1

abbrev pub IsRam : Ram → Type 0
IsRam ram = (a : ℕ) → ram a < 2 ^ 32

-- The strobe of a byte.
abbrev strobe : Strobes → ℕ → Bool
strobe wen k =
    if k == 0
    then wen.wen_0
    else if k == 1
    then wen.wen_1
    else if k == 2
    then wen.wen_2
    else wen.wen_3

byte_lane-bytes :
    (x0 x1 x2 x3 k : ℕ)
    → x0 < 2 ^ 8
    → x1 < 2 ^ 8
    → x2 < 2 ^ 8
    → x3 < 2 ^ 8
    → k < 4
    → byte_lane (x0 + x1 * 2 ^ 8 + x2 * 2 ^ 16 + x3 * 2 ^ 24) k
      ≡ (if k == 0 then x0 else if k == 1 then x1 else if k == 2 then x2 else x3)
byte_lane-bytes x0 x1 x2 x3 k h0 h1 h2 h3 h = ground arith

pub byte_lane-lt : (w k : ℕ) → byte_lane w k < 2 ^ 8
byte_lane-lt w k = ground arith

abbrev pub lane : Bool → ℕ → ℕ → ℕ → ℕ
lane s wdata old k = if s then byte_lane wdata k else byte_lane old k

pub lane-lt : (s : Bool) (wdata old k : ℕ) → lane s wdata old k < 2 ^ 8
lane-lt s wdata old k = ground (arith, byte_lane-lt wdata k, byte_lane-lt old k)

lane_pick :
    (wen : Strobes) (wdata old k : ℕ)
    → k < 4
    → (if k == 0
        then lane wen.wen_0 wdata old 0
        else if k == 1
        then lane wen.wen_1 wdata old 1
        else if k == 2
        then lane wen.wen_2 wdata old 2
        else lane wen.wen_3 wdata old 3)
      ≡ lane (strobe wen k) wdata old k
lane_pick wen wdata old k h = ground arith

byte_at-picosoc_mem :
    (wen : Strobes) (a wdata b : ℕ) (ram : Ram)
    → byte_at (picosoc_mem wen a wdata ram) b
      ≡ (if b / 4 == a && strobe wen (b % 4) then byte_lane wdata (b % 4) else byte_at ram b)
unfolding picosoc_mem
byte_at-picosoc_mem wen a wdata b ram = elim (Bool-cases (b / 4 == a)) [
  | inl here ↦
      let e : b / 4 ≡ a = ground (arith, here) in
      rw
        (
          here,
          e,
          byte_lane-bytes (lane wen.wen_0 wdata (ram a) 0) (lane wen.wen_1 wdata (ram a) 1)
              (lane wen.wen_2 wdata (ram a) 2) (lane wen.wen_3 wdata (ram a) 3) (b % 4)
              (lane-lt wen.wen_0 wdata (ram a) 0) (lane-lt wen.wen_1 wdata (ram a) 1)
              (lane-lt wen.wen_2 wdata (ram a) 2) (lane-lt wen.wen_3 wdata (ram a) 3) (omega arith),
        )
        (lane_pick wen wdata (ram a) (b % 4) (omega arith))
  | inr other ↦ rw other
]

if_congr {ℓ} :
    {A : Type ℓ} (p q : Bool) (x y z : A)
    → p ≡ q
    → (q ≡ true → x ≡ y)
    → (if p then x else z) ≡ (if q then y else z)
if_congr p true x y z e h = rw e (h refl)
if_congr p false x y z e h = rw e

guard-word :
    (addr b : ℕ)
    → is_misaligned word addr ≡ false
    → (b / 4 == addr / 4 && strobe (mem_la_wstrb word addr) (b % 4))
      ≡ (leb addr b && ltb b (addr + 4))
unfolding mem_la_wstrb
guard-word addr b aligned = ground arith

guard-half :
    (addr b : ℕ)
    → is_misaligned half addr ≡ false
    → (b / 4 == addr / 4 && strobe (mem_la_wstrb half addr) (b % 4))
      ≡ (leb addr b && ltb b (addr + 2))
unfolding mem_la_wstrb
guard-half addr b aligned = ground arith

value-half :
    (v k : ℕ)
    → k < 2
    → (byte_lane (mem_la_wdata half v) k ≡ byte_lane v k)
      × (byte_lane (mem_la_wdata half v) (k + 2) ≡ byte_lane v k)
unfolding mem_la_wdata
value-half v k h = (ground arith, ground arith)

covered-word :
    (addr v b x : ℕ)
    → is_misaligned word addr ≡ false
    → (if b / 4 == addr / 4 && strobe (mem_la_wstrb word addr) (b % 4)
        then byte_lane (mem_la_wdata word v) (b % 4)
        else x)
      ≡ (if leb addr b && ltb b (addr + 4) then byte_lane v (b - addr) else x)
unfolding mem_la_wdata
covered-word addr v b x aligned =
    if_congr (b / 4 == addr / 4 && strobe (mem_la_wstrb word addr) (b % 4))
      (leb addr b && ltb b (addr + 4)) (byte_lane v (b % 4)) (byte_lane v (b - addr)) x
      (guard-word addr b aligned)
      λ here. let place : b % 4 ≡ b - addr = ground arith in ap (byte_lane v) place

place-half :
    (addr b : ℕ)
    → is_misaligned half addr ≡ false
    → (leb addr b && ltb b (addr + 2)) ≡ true
    → (b - addr < 2) × ((b % 4 ≡ b - addr) ⊎ (b % 4 ≡ b - addr + 2))
place-half addr b aligned here = (ground arith, ground arith)

covered-half :
    (addr v b x : ℕ)
    → is_misaligned half addr ≡ false
    → (if b / 4 == addr / 4 && strobe (mem_la_wstrb half addr) (b % 4)
        then byte_lane (mem_la_wdata half v) (b % 4)
        else x)
      ≡ (if leb addr b && ltb b (addr + 2) then byte_lane v (b - addr) else x)
covered-half addr v b x aligned =
    if_congr (b / 4 == addr / 4 && strobe (mem_la_wstrb half addr) (b % 4))
      (leb addr b && ltb b (addr + 2)) (byte_lane (mem_la_wdata half v) (b % 4))
      (byte_lane v (b - addr)) x (guard-half addr b aligned)
      λ here.
        let (below, place) = place-half addr b aligned here in
        let (lower, upper) = value-half v (b - addr) below in
        elim place [
          | inl e ↦ ap (byte_lane (mem_la_wdata half v)) e ∙ lower
          | inr e ↦ ap (byte_lane (mem_la_wdata half v)) e ∙ upper
        ]

covered-byte :
    (addr v b x : ℕ)
    → (if b / 4 == addr / 4 && strobe (mem_la_wstrb byte addr) (b % 4)
        then byte_lane (mem_la_wdata byte v) (b % 4)
        else x)
      ≡ (if leb addr b && ltb b (addr + 1) then byte_lane v (b - addr) else x)
unfolding mem_la_wstrb mem_la_wdata
covered-byte addr v b x = ground arith

ram_wen_inside :
    (mem_words addr : ℕ) (wen : Strobes) → addr < 4 * mem_words → ram_wen mem_words addr wen ≡ wen
unfolding ram_wen
ram_wen_inside mem_words addr wen h = rw (lt→ltb (addr / 4 * 4) (4 * mem_words) (omega arith))

covered :
    (size : WordSize) (addr v b x : ℕ)
    → is_misaligned size addr ≡ false
    → (if b / 4 == addr / 4 && strobe (mem_la_wstrb size addr) (b % 4)
        then byte_lane (mem_la_wdata size v) (b % 4)
        else x)
      ≡ (if leb addr b && ltb b (addr + bytes size) then byte_lane v (b - addr) else x)
covered word addr v b x aligned = covered-word addr v b x aligned
covered half addr v b x aligned = covered-half addr v b x aligned
covered byte addr v b x aligned = covered-byte addr v b x

-- A store to an aligned address of the RAM changes the bytes from there on, as many as it has, to
-- those of the value, and no other byte.
pub byte_at-stmem :
    (instr : Store) (mem_words addr v b : ℕ) (ram : Ram)
    → is_misaligned (store_size instr) addr ≡ false
    → addr < 4 * mem_words
    → mem_words ≤ 2 ^ 22
    → byte_at (stmem instr mem_words addr v ram) b ≡ (
        if leb addr b && ltb b (addr + bytes (store_size instr))
        then byte_lane v (b - addr)
        else byte_at ram b)
unfolding stmem
byte_at-stmem instr mem_words addr v b ram aligned h hw =
    let place : ram_addr addr ≡ addr / 4 = omega arith in
    rw
      (
        byte_at-picosoc_mem (ram_wen mem_words addr (mem_la_wstrb (store_size instr) addr))
            (ram_addr addr) (mem_la_wdata (store_size instr) v) b ram,
        place,
        ram_wen_inside mem_words addr (mem_la_wstrb (store_size instr) addr) h,
      )
      (covered (store_size instr) addr v b (byte_at ram b) aligned)
