-- ===== src/Picosoc/Soc.antt =====
-- The hardware that picosoc/firmware.c sees: memory-mapped registers, the UART, the SPI flash,
-- the counters and the RAM.
--
-- What the hardware does on its own is data of the state. `rx` holds the values that the coming
-- reads of reg_uart_data give, 0xffffffff for an empty receive buffer. `reply` is the flash: from
-- the transactions so far, the write-enable command and the bytes of this transaction up to now,
-- the byte that it shifts out. `cell` is the RAM: what the word at an address holds after a write.
use picorv.Base.{ℕ, ◌+◌, ◌-◌, ◌^◌, ◌≡◌, List, [], ◌∷◌, ◌++◌, bit_and, bit_or}
use picorv.Base.Text.{Bytes}

pub record Soc : Type 0 where
  pub spictrl : ℕ
  pub clkdiv : ℕ
  pub leds : ℕ
  pub sent : Bytes
  pub rx : List ℕ
  pub ticks : ℕ
  pub rdcycle : ℕ → ℕ
  pub rdinstret : ℕ → ℕ
  pub transactions : List (ℕ × Bytes)
  pub reply : List (ℕ × Bytes) → ℕ → Bytes → ℕ
  pub ram : ℕ → ℕ
  pub cell : ℕ → ℕ → ℕ

-- `waiting` is a program that polls the UART with nothing left in `rx`.
pub data Result {ℓ} (A : Type ℓ) : Type ℓ where
  ret : A → Soc → Result A
  waiting : Soc → Result A

abbrev pub M {ℓ} : Type ℓ → Type ℓ
M A = Soc → Result A

abbrev pub bind {ℓ κ} : {A : Type ℓ} {B : Type κ} → Result A → (A → M B) → Result B
bind (ret a s) f = f a s
bind (waiting s) f = waiting s

infixl 5 ◌>>=◌ ◌>>◌
abbrev pub ◌>>=◌ {ℓ κ} : {A : Type ℓ} {B : Type κ} → M A → (A → M B) → M B
◌>>=◌ m f s = bind (m s) f

abbrev pub ◌>>◌ {ℓ} : {B : Type ℓ} → M (Unit {0}) → M B → M B
m >> k = m >>= λ _. k

abbrev pub pure {ℓ} : {A : Type ℓ} → A → M A
pure a s = ret a s

-- Writes to `reg_spictrl`, `reg_uart_clkdiv`, `reg_leds` and `reg_uart_data`.
abbrev pub write_spictrl : ℕ → M (Unit {0})
write_spictrl v s = ret tt (record s { spictrl = v })

abbrev pub write_clkdiv : ℕ → M (Unit {0})
write_clkdiv v s = ret tt (record s { clkdiv = v })

abbrev pub write_leds : ℕ → M (Unit {0})
write_leds v s = ret tt (record s { leds = v })

abbrev pub write_uart : ℕ → M (Unit {0})
write_uart c s = ret tt (record s { sent = s.sent ++ c ∷ [] })

abbrev pub read_spictrl : M ℕ
read_spictrl s = ret s.spictrl s

abbrev pub read_leds : M ℕ
read_leds s = ret s.leds s

-- `rdcycle` and `rdinstret`: the counter at the present tick, which is then over.
abbrev pub read_cycle : M ℕ
read_cycle s = ret (s.rdcycle s.ticks) (record s { ticks = s.ticks + 1 })

abbrev pub read_instret : M ℕ
read_instret s = ret (s.rdinstret s.ticks) (record s { ticks = s.ticks + 1 })

-- `~m` on 32 bits.
abbrev pub not32 : ℕ → ℕ
not32 m = 2 ^ 32 - 1 - m

-- `(r & ~mask) | v`
abbrev pub with_field : ℕ → ℕ → ℕ → ℕ
with_field mask v r = bit_or (bit_and r (not32 mask)) v

-- A text behind what the UART has sent.
abbrev pub send : Bytes → Soc → Soc
send text s = record s { sent = s.sent ++ text }

-- A routine that returns and does nothing but print a text.
abbrev pub Prints : M (Unit {0}) → Bytes → Type 0
Prints m text = (s : Soc) → m s ≡ ret tt (send text s)
