-- ===== src/Picosoc/Input.antt =====
-- `getchar_prompt`, `getchar` and `cmd_echo` of picosoc/firmware.c.
pub mod Laws
use picorv.Base.{
  ℕ, zero, suc, ◌+◌, ◌-◌, ◌%◌, ◌^◌, true, false, List, [], ◌∷◌, ltb, ◌==◌, if◌then◌else◌,
}
use picorv.Base.{Option, none, some, length}
use picorv.Base.Text.{Bytes, codes}
use picorv.Picosoc.Soc.{
  M, ret, waiting, ◌>>=◌, ◌>>◌, pure, write_leds, read_leds, read_cycle, not32,
}
use picorv.Picosoc.Text.{putchar, print}

-- What a read of reg_uart_data gives while nothing has been received, and -1 as an int32_t.
abbrev pub no_char : ℕ
no_char = 0xffffffff

unfoldable pub print_prompt : Option Bytes → M (Unit {0})
print_prompt none = pure tt
print_prompt (some prompt) = print prompt

-- The body of the loop up to the read, and the new `cycles_begin`.
unfoldable pub blink : Option Bytes → ℕ → M ℕ
unfolding print_prompt
blink prompt cycles_begin = do
  cycles_now ← read_cycle
  if ltb 12000000 ((cycles_now + 2 ^ 32 - cycles_begin) % 2 ^ 32)
      then (do print_prompt prompt; v ← read_leds; write_leds (not32 v); pure cycles_now)
      else pure cycles_begin

-- The read itself, which takes a value off `rx`.
unfoldable pub took : List ℕ → M (Unit {0})
took rest s = ret tt (record s { rx = rest })

-- The loop `while (c == -1)`, over the values that are still to be read.
unfoldable pub poll : List ℕ → Option Bytes → ℕ → M ℕ
unfolding blink took
poll [] prompt cycles_begin s = waiting s
poll (c ∷ rest) prompt cycles_begin s = elim (c == no_char) [
  | true ↦ (do begin ← blink prompt cycles_begin; took rest; poll rest prompt begin) s
  | false ↦ (do begin ← blink prompt cycles_begin; took rest; pure c) s
]

unfoldable pub getchar_prompt : Option Bytes → M ℕ
unfolding poll print_prompt
getchar_prompt prompt = do
  cycles_begin ← read_cycle
  write_leds (not32 0)
  print_prompt prompt
  c ← λ s. poll s.rx prompt cycles_begin s
  write_leds 0
  pure (c % 2 ^ 8)

unfoldable pub getchar : M ℕ
getchar = getchar_prompt none

-- The loop of `cmd_echo`; every round takes a value off `rx`, so their number is fuel enough.
unfoldable pub echo_rounds : ℕ → M (Unit {0})
echo_rounds zero = waiting
echo_rounds (suc fuel) = do
  c ← getchar
  let rest = (do putchar c; echo_rounds fuel)
  if c == b'!' then pure tt else rest

unfoldable pub cmd_echo : M (Unit {0})
unfolding echo_rounds
cmd_echo = do
  print (codes "Return to menu by sending '!'\n\n")
  λ s. echo_rounds (suc (length s.rx)) s
