-- ===== src/Picosoc/Report.antt =====
-- The commands of picosoc/firmware.c that print the state of the SPI controller and of the flash.
use picorv.Base.{ℕ, zero, suc, ◌+◌, ◌/◌, ◌^◌, [], ◌∷◌, ◌==◌, if◌then◌else◌, bit_and}
use picorv.Base.{get_or, replicate}
use picorv.Base.Text.{Bytes, codes}
use picorv.Picosoc.Soc.{M, ◌>>=◌, ◌>>◌, pure, read_spictrl}
use picorv.Picosoc.Flash.{Config, icebreaker, hx8kdemo, flashio, set_flash_latency}
use picorv.Picosoc.Text.{putchar, print, print_hex, print_dec}

unfoldable pub on_off : ℕ → M (Unit {0})
on_off flag = if flag == 0 then print (codes "OFF\n") else print (codes "ON\n")

unfoldable pub cmd_print_spi_state : M (Unit {0})
unfolding on_off
cmd_print_spi_state = do
  print (codes "SPI State:\n")
  print (codes "  LATENCY ")
  latency ← read_spictrl
  print_dec (bit_and (latency / 2 ^ 16) 15)
  print (codes "\n")
  print (codes "  DDR ")
  ddr ← read_spictrl
  on_off (bit_and ddr (2 ^ 22))
  print (codes "  QSPI ")
  qspi ← read_spictrl
  on_off (bit_and qspi (2 ^ 21))
  print (codes "  CRM ")
  crm ← read_spictrl
  on_off (bit_and crm (2 ^ 20))

-- `buffer[i]` for `i` from 1 to 16, with the index and the rounds to go.
unfoldable pub print_id : ℕ → ℕ → Bytes → M (Unit {0})
print_id zero i buffer = pure tt
print_id (suc left) i buffer = do
  putchar b' '
  print_hex (get_or buffer i 0) 2
  print_id left (i + 1) buffer

unfoldable pub cmd_read_flash_id : M (Unit {0})
unfolding print_id
cmd_read_flash_id = do
  buffer ← flashio (0x9F ∷ replicate 16 0) 17 0
  print_id 16 1 buffer
  putchar b'\n'

-- Only in the HX8KDEMO configuration; `addr` is one of 0x800000 to 0x800005.
unfoldable pub cmd_read_flash_regs_print : ℕ → Bytes → M ℕ
cmd_read_flash_regs_print addr name = do
  set_flash_latency 8
  buffer ←
      flashio
        (0x65
          ∷ (bit_and (addr / 2 ^ 16) 255)
          ∷ (bit_and (addr / 2 ^ 8) 255)
          ∷ (bit_and addr 255)
          ∷ 0
          ∷ 0
          ∷ [])
        6 0
  print (codes "0x")
  print_hex addr 6
  print (codes " ")
  print name
  print (codes " 0x")
  print_hex (get_or buffer 5 0) 2
  print (codes "\n")
  pure (get_or buffer 5 0)

-- Only in the ICEBREAKER configuration.
unfoldable pub cmd_read_flash_reg : ℕ → M ℕ
cmd_read_flash_reg cmd = do buffer ← flashio (cmd ∷ 0 ∷ []) 2 0; pure (get_or buffer 1 0)

-- The loop of `print_reg_bit` with its rounds to go; the end of `name` is its NUL.
unfoldable pub pad_name : ℕ → Bytes → M (Unit {0})
pad_name zero name = pure tt
pad_name (suc left) [] = do putchar b' '; pad_name left []
pad_name (suc left) (c ∷ name) =
    if c == 0
    then (do putchar b' '; pad_name left (c ∷ name))
    else (do putchar c; pad_name left name)

unfoldable pub print_reg_bit : ℕ → Bytes → M (Unit {0})
unfolding pad_name
print_reg_bit val name = do
  pad_name 12 name
  putchar (if val == 0 then b'0' else b'1')
  putchar b'\n'

unfoldable pub cmd_read_flash_regs : Config → M (Unit {0})
unfolding cmd_read_flash_regs_print cmd_read_flash_reg
cmd_read_flash_regs hx8kdemo = do
  print (codes "\n")
  _ ← cmd_read_flash_regs_print 0x800000 (codes "SR1V")
  _ ← cmd_read_flash_regs_print 0x800001 (codes "SR2V")
  _ ← cmd_read_flash_regs_print 0x800002 (codes "CR1V")
  _ ← cmd_read_flash_regs_print 0x800003 (codes "CR2V")
  _ ← cmd_read_flash_regs_print 0x800004 (codes "CR3V")
  _ ← cmd_read_flash_regs_print 0x800005 (codes "VDLP")
  pure tt
cmd_read_flash_regs icebreaker = do
  putchar b'\n'
  sr1 ← cmd_read_flash_reg 0x05
  sr2 ← cmd_read_flash_reg 0x35
  sr3 ← cmd_read_flash_reg 0x15
  print_reg_bit (bit_and sr1 0x01) (codes "S0  (BUSY)")
  print_reg_bit (bit_and sr1 0x02) (codes "S1  (WEL)")
  print_reg_bit (bit_and sr1 0x04) (codes "S2  (BP0)")
  print_reg_bit (bit_and sr1 0x08) (codes "S3  (BP1)")
  print_reg_bit (bit_and sr1 0x10) (codes "S4  (BP2)")
  print_reg_bit (bit_and sr1 0x20) (codes "S5  (TB)")
  print_reg_bit (bit_and sr1 0x40) (codes "S6  (SEC)")
  print_reg_bit (bit_and sr1 0x80) (codes "S7  (SRP)")
  putchar b'\n'
  print_reg_bit (bit_and sr2 0x01) (codes "S8  (SRL)")
  print_reg_bit (bit_and sr2 0x02) (codes "S9  (QE)")
  print_reg_bit (bit_and sr2 0x04) (codes "S10 ----")
  print_reg_bit (bit_and sr2 0x08) (codes "S11 (LB1)")
  print_reg_bit (bit_and sr2 0x10) (codes "S12 (LB2)")
  print_reg_bit (bit_and sr2 0x20) (codes "S13 (LB3)")
  print_reg_bit (bit_and sr2 0x40) (codes "S14 (CMP)")
  print_reg_bit (bit_and sr2 0x80) (codes "S15 (SUS)")
  putchar b'\n'
  print_reg_bit (bit_and sr3 0x01) (codes "S16 ----")
  print_reg_bit (bit_and sr3 0x02) (codes "S17 ----")
  print_reg_bit (bit_and sr3 0x04) (codes "S18 (WPS)")
  print_reg_bit (bit_and sr3 0x08) (codes "S19 ----")
  print_reg_bit (bit_and sr3 0x10) (codes "S20 ----")
  print_reg_bit (bit_and sr3 0x20) (codes "S21 (DRV0)")
  print_reg_bit (bit_and sr3 0x40) (codes "S22 (DRV1)")
  print_reg_bit (bit_and sr3 0x80) (codes "S23 (HOLD)")
  putchar b'\n'
