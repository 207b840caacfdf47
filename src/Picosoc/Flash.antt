-- ===== src/Picosoc/Flash.antt =====
-- `flashio` and the `set_flash_*` functions of picosoc/firmware.c, in both configurations.
pub mod Laws
use picorv.Base.{ℕ, ◌+◌, ◌*◌, ◌/◌, ◌%◌, ◌^◌, [], ◌∷◌, ◌++◌, bit_and, bit_or}
use picorv.Base.{get_or, take, drop}
use picorv.Base.Text.{Bytes}
use picorv.Picosoc.Soc.{ret, M, ◌>>=◌, ◌>>◌, pure, write_spictrl, read_spictrl, with_field}

-- The macro with which the file is compiled.
pub data Config : Type 0 where
  icebreaker hx8kdemo : Config

-- The bytes that come back for the bytes of `todo`, behind those already exchanged.
exchange : (Bytes → ℕ) → Bytes → Bytes → Bytes
exchange reply before [] = []
exchange reply before (b ∷ todo) =
    reply (before ++ b ∷ []) % 2 ^ 8 ∷ exchange reply (before ++ b ∷ []) todo

-- The lowest byte of `reg_spictrl` as the worker stores it last: CS high when no byte is exchanged,
-- and else the last bit that is sent, with the clock high.
last_sent : Bytes → ℕ
last_sent [] = 0x20
last_sent (b ∷ []) = bit_or (b % 2) 0x10
last_sent (b ∷ c ∷ todo) = last_sent (c ∷ todo)

-- `reg_spictrl` behind the worker: it stores to all bytes but the third, which has the mode and the
-- latency.
worker_spictrl : Bytes → ℕ → ℕ
unfolding last_sent
worker_spictrl out r = last_sent out + 0x01 * 2 ^ 8 + r / 2 ^ 16 % 2 ^ 8 * 2 ^ 16 + 0x80 * 2 ^ 24

-- `flashio(data, len, wrencmd)` leaves in the first `len` bytes of `data` what the flash shifts
-- out for them. The loop that copies the worker of picosoc/start.s to the stack moves the worker
-- unchanged, and the call runs it there.
unfoldable pub flashio : Bytes → ℕ → ℕ → M Bytes
unfolding exchange worker_spictrl
flashio buffer len wrencmd s =
    let out = take len buffer in
    ret (exchange (s.reply s.transactions wrencmd) [] out ++ drop len buffer) (record s {
      transactions = s.transactions ++ (wrencmd, out) ∷ [];
      spictrl = worker_spictrl out s.spictrl;
    })

-- `buffer` up to the last byte that is sent.
unfoldable pub set_flash_qspi_flag : Config → M (Unit {0})
unfolding flashio
set_flash_qspi_flag icebreaker = do
  answer ← flashio (0x35 ∷ 0x00 ∷ []) 2 0
  _ ← flashio (0x31 ∷ bit_or (get_or answer 1 0) 2 ∷ []) 2 0x50
  pure tt
set_flash_qspi_flag hx8kdemo = do
  answer ← flashio (0x65 ∷ 0x80 ∷ 0x00 ∷ 0x02 ∷ 0 ∷ 0 ∷ []) 6 0
  _ ← flashio (0x71 ∷ 0x80 ∷ 0x00 ∷ 0x02 ∷ bit_or (get_or answer 5 0) 2 ∷ []) 5 0x06
  pure tt

-- Only in the HX8KDEMO configuration.
unfoldable pub set_flash_latency : ℕ → M (Unit {0})
unfolding flashio
set_flash_latency value = do
  r ← read_spictrl
  write_spictrl (with_field 0x007f0000 (bit_and value 15 * 2 ^ 16) r)
  _ ← flashio (0x71 ∷ 0x80 ∷ 0x00 ∷ 0x04 ∷ bit_or 0x70 value ∷ []) 5 0x06
  pure tt

unfoldable pub set_flash_mode_spi : Config → M (Unit {0})
set_flash_mode_spi icebreaker = do
  r ← read_spictrl
  write_spictrl (with_field 0x007f0000 0x00000000 r)
set_flash_mode_spi hx8kdemo = do
  r ← read_spictrl
  write_spictrl (with_field 0x00700000 0x00000000 r)

unfoldable pub set_flash_mode_dual : Config → M (Unit {0})
set_flash_mode_dual icebreaker = do
  r ← read_spictrl
  write_spictrl (with_field 0x007f0000 0x00400000 r)
set_flash_mode_dual hx8kdemo = do
  r ← read_spictrl
  write_spictrl (with_field 0x00700000 0x00400000 r)

unfoldable pub set_flash_mode_quad : Config → M (Unit {0})
set_flash_mode_quad icebreaker = do
  r ← read_spictrl
  write_spictrl (with_field 0x007f0000 0x00240000 r)
set_flash_mode_quad hx8kdemo = do
  r ← read_spictrl
  write_spictrl (with_field 0x00700000 0x00200000 r)

unfoldable pub set_flash_mode_qddr : Config → M (Unit {0})
set_flash_mode_qddr icebreaker = do
  r ← read_spictrl
  write_spictrl (with_field 0x007f0000 0x00670000 r)
set_flash_mode_qddr hx8kdemo = do
  r ← read_spictrl
  write_spictrl (with_field 0x00700000 0x00600000 r)

-- Only in the ICEBREAKER configuration.
unfoldable pub enable_flash_crm : M (Unit {0})
enable_flash_crm = do r ← read_spictrl; write_spictrl (bit_or r 0x00100000)
