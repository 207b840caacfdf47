-- ===== src/Picosoc/Flash/Laws.antt =====
-- The fields of reg_spictrl that the `set_flash_mode_*` functions set.
use picorv.Base.{ℕ, ◌+◌, ◌*◌, ◌/◌, ◌%◌, ◌-◌, ◌^◌, ◌<◌, ◌≡◌, refl, ap, ◌∙◌, arith, bit_and, bit_or}
use picorv.Base.Bits.{bit_and_fields, bit_or_two_fields, bit_or_fields, bit_or-zero, bit_and_mask}
use picorv.Picosoc.Soc.{Soc, M, ret, with_field}
use picorv.Picosoc.Flash.{Config, icebreaker, hx8kdemo}
use picorv.Picosoc.Flash.{
  set_flash_mode_spi, set_flash_mode_dual, set_flash_mode_quad, set_flash_mode_qddr,
}

-- A field of `k` bits above `low` bits of which `r` is cleared, in a word of 32 bits.
clear_field :
    (low : ℕ) (r : ℕ)
    → r < 2 ^ 32
    → bit_and (r % 2 ^ 23) (2 ^ low - 1) ≡ r % 2 ^ 23 % 2 ^ low
    → 2 ^ low - 1 < 2 ^ 23
    → bit_and r ((2 ^ 9 - 1) * 2 ^ 23 + (2 ^ low - 1)) ≡ r / 2 ^ 23 * 2 ^ 23 + r % 2 ^ 23 % 2 ^ low
clear_field low r lr masked small =
    let whole : r ≡ r / 2 ^ 23 * 2 ^ 23 + r % 2 ^ 23 = omega arith in
    let upper : bit_and (r / 2 ^ 23) (2 ^ 9 - 1) ≡ r / 2 ^ 23 =
      bit_and_mask 9 (r / 2 ^ 23) ∙ omega arith in
    ap (λ (x : ℕ). bit_and x ((2 ^ 9 - 1) * 2 ^ 23 + (2 ^ low - 1))) whole
    ∙ bit_and_fields 23 (r / 2 ^ 23) (r % 2 ^ 23) (2 ^ 9 - 1) (2 ^ low - 1) (omega arith) small
    ∙ rw (upper, masked) refl

-- The three mode bits, and the mode bits with the latency field below them.
with_mode :
    (c r : ℕ)
    → c < 8
    → r < 2 ^ 32
    → with_field 0x00700000 (c * 2 ^ 20) r ≡ r / 2 ^ 23 * 2 ^ 23 + c * 2 ^ 20 + r % 2 ^ 20
with_mode c r lc lr =
    let cleared = clear_field 20 r lr (bit_and_mask 20 (r % 2 ^ 23)) (omega arith) in
    let split : r / 2 ^ 23 * 2 ^ 23 + r % 2 ^ 23 % 2 ^ 20
        ≡ r / 2 ^ 23 * 2 ^ 3 * 2 ^ 20 + r % 2 ^ 20 =
      omega arith in
    let padded : c * 2 ^ 20 ≡ c * 2 ^ 20 + 0 = omega arith in
    ap (λ (x : ℕ). bit_or x (c * 2 ^ 20)) (cleared ∙ split)
    ∙ ap (bit_or (r / 2 ^ 23 * 2 ^ 3 * 2 ^ 20 + r % 2 ^ 20)) padded
    ∙ bit_or_two_fields 20 (r / 2 ^ 23 * 2 ^ 3) (r % 2 ^ 20) c 0 (omega arith) (omega arith)
    ∙ rw (bit_or_fields 3 (r / 2 ^ 23) c lc, bit_or-zero (r % 2 ^ 20)) (omega arith)

with_mode_and_latency :
    (d r : ℕ)
    → d < 128
    → r < 2 ^ 32
    → with_field 0x007f0000 (d * 2 ^ 16) r ≡ r / 2 ^ 23 * 2 ^ 23 + d * 2 ^ 16 + r % 2 ^ 16
with_mode_and_latency d r ld lr =
    let cleared = clear_field 16 r lr (bit_and_mask 16 (r % 2 ^ 23)) (omega arith) in
    let split : r / 2 ^ 23 * 2 ^ 23 + r % 2 ^ 23 % 2 ^ 16
        ≡ r / 2 ^ 23 * 2 ^ 7 * 2 ^ 16 + r % 2 ^ 16 =
      omega arith in
    let padded : d * 2 ^ 16 ≡ d * 2 ^ 16 + 0 = omega arith in
    ap (λ (x : ℕ). bit_or x (d * 2 ^ 16)) (cleared ∙ split)
    ∙ ap (bit_or (r / 2 ^ 23 * 2 ^ 7 * 2 ^ 16 + r % 2 ^ 16)) padded
    ∙ bit_or_two_fields 16 (r / 2 ^ 23 * 2 ^ 7) (r % 2 ^ 16) d 0 (omega arith) (omega arith)
    ∙ rw (bit_or_fields 7 (r / 2 ^ 23) d ld, bit_or-zero (r % 2 ^ 16)) (omega arith)

-- The four modes.
pub data Mode : Type 0 where
  spi dual quad qddr : Mode

abbrev pub set_mode : Config → Mode → M (Unit {0})
set_mode config spi = set_flash_mode_spi config
set_mode config dual = set_flash_mode_dual config
set_mode config quad = set_flash_mode_quad config
set_mode config qddr = set_flash_mode_qddr config

-- The flags of a mode, and the latency that comes with it: HX8KDEMO leaves the latency as it is.
abbrev pub ddr_flag : Mode → ℕ
ddr_flag spi = 0
ddr_flag dual = 1
ddr_flag quad = 0
ddr_flag qddr = 1

abbrev pub qspi_flag : Mode → ℕ
qspi_flag spi = 0
qspi_flag dual = 0
qspi_flag quad = 1
qspi_flag qddr = 1

abbrev pub latency_after : Config → Mode → ℕ → ℕ
latency_after hx8kdemo mode before = before
latency_after icebreaker spi before = 0
latency_after icebreaker dual before = 0
latency_after icebreaker quad before = 4
latency_after icebreaker qddr before = 7

-- A register value that a mode has led to from `before`.
pub record HasMode (config : Config) (mode : Mode) (before after : ℕ) : Type 0 where
  pub ddr : after / 2 ^ 22 % 2 ≡ ddr_flag mode
  pub qspi : after / 2 ^ 21 % 2 ≡ qspi_flag mode
  pub crm : after / 2 ^ 20 % 2 ≡ 0
  pub latency : after / 2 ^ 16 % 2 ^ 4 ≡ latency_after config mode (before / 2 ^ 16 % 2 ^ 4)
  pub above : after / 2 ^ 23 ≡ before / 2 ^ 23
  pub below : after % 2 ^ 16 ≡ before % 2 ^ 16

-- A function that sets a mode, in either configuration, returns having changed reg_spictrl alone, and
-- of it the mode flags (the continuous read mode goes off) and the latency that belongs to the mode.
pub set_mode-HasMode :
    (config : Config) (mode : Mode) (s : Soc)
    → s.spictrl < 2 ^ 32
    → (after : ℕ) × (set_mode config mode s ≡ ret tt (record s { spictrl = after }))
      × HasMode config mode s.spictrl after
unfolding set_flash_mode_spi set_flash_mode_dual set_flash_mode_quad set_flash_mode_qddr
set_mode-HasMode icebreaker spi s h =
    (_, refl, rw (with_mode_and_latency 0 s.spictrl (omega arith) h) (omega arith))
set_mode-HasMode icebreaker dual s h =
    (_, refl, rw (with_mode_and_latency 64 s.spictrl (omega arith) h) (omega arith))
set_mode-HasMode icebreaker quad s h =
    (_, refl, rw (with_mode_and_latency 36 s.spictrl (omega arith) h) (omega arith))
set_mode-HasMode icebreaker qddr s h =
    (_, refl, rw (with_mode_and_latency 103 s.spictrl (omega arith) h) (omega arith))
set_mode-HasMode hx8kdemo spi s h =
    (_, refl, rw (with_mode 0 s.spictrl (omega arith) h) (omega arith))
set_mode-HasMode hx8kdemo dual s h =
    (_, refl, rw (with_mode 4 s.spictrl (omega arith) h) (omega arith))
set_mode-HasMode hx8kdemo quad s h =
    (_, refl, rw (with_mode 2 s.spictrl (omega arith) h) (omega arith))
set_mode-HasMode hx8kdemo qddr s h =
    (_, refl, rw (with_mode 6 s.spictrl (omega arith) h) (omega arith))
