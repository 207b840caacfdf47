-- ===== src/Picosoc/Menu.antt =====
-- `main` of picosoc/firmware.c.
use picorv.Base.{ℕ, zero, suc, ◌/◌, true, List, [], ◌∷◌, ◌&&◌, ltb, ◌==◌, if◌then◌else◌}
use picorv.Base.{Option, none, some, length, bit_xor}
use picorv.Base.Text.{Bytes, codes}
use picorv.Picosoc.Soc.{
  M, waiting, ◌>>=◌, ◌>>◌, pure, write_leds, write_clkdiv, read_spictrl, write_spictrl,
}
use picorv.Picosoc.Flash.{Config, set_flash_qspi_flag, set_flash_mode_spi}
use picorv.Picosoc.Flash.{set_flash_mode_dual, set_flash_mode_quad, set_flash_mode_qddr}
use picorv.Picosoc.Text.{putchar, print, print_dec}
use picorv.Picosoc.Input.{getchar, getchar_prompt, cmd_echo}
use picorv.Picosoc.Report.{cmd_print_spi_state, cmd_read_flash_id, cmd_read_flash_regs}
use picorv.Picosoc.Memtest.{cmd_memtest, mem_total}
use picorv.Picosoc.Benchmark.{cmd_benchmark, cmd_benchmark_all}

-- `reg_spictrl = reg_spictrl ^ 0x00100000`
unfoldable pub toggle_crm : M (Unit {0})
toggle_crm = do r ← read_spictrl; write_spictrl (bit_xor r 0x00100000)

-- The `switch`: what a command does, or none for `default: continue`.
unfoldable pub command : Config → ℕ → Option (M (Unit {0}))
unfolding toggle_crm
command config cmd =
    if cmd == b'1'
    then some cmd_read_flash_id
    else if cmd == b'2'
    then some (cmd_read_flash_regs config)
    else if cmd == b'3'
    then some (set_flash_mode_spi config)
    else if cmd == b'4'
    then some (set_flash_mode_dual config)
    else if cmd == b'5'
    then some (set_flash_mode_quad config)
    else if cmd == b'6'
    then some (set_flash_mode_qddr config)
    else if cmd == b'7'
    then some toggle_crm
    else if cmd == b'9'
    then some (do _ ← cmd_benchmark true; pure tt)
    else if cmd == b'0'
    then some (cmd_benchmark_all config)
    else if cmd == b'M'
    then some (cmd_memtest config)
    else if cmd == b'S'
    then some cmd_print_spi_state
    else if cmd == b'e'
    then some cmd_echo
    else none

unfoldable pub perform : M (Unit {0}) → Option (M (Unit {0})) → M (Unit {0})
perform again none = again
perform again (some act) = act

-- `for (int rep = 10; rep > 0; rep--)`, with `rep` as the argument.
unfoldable pub prompts : Config → ℕ → M (Unit {0})
unfolding command perform
prompts config zero = pure tt
prompts config (suc rep) = do
  print (codes "Command> ")
  cmd ← getchar
  if ltb 32 cmd && ltb cmd 127 then putchar cmd else pure tt
  print (codes "\n")
  perform (prompts config rep) (command config cmd)

unfoldable pub print_lines : List Bytes → M (Unit {0})
print_lines [] = pure tt
print_lines (line ∷ rest) = do print line; print_lines rest

abbrev pub menu : List Bytes
menu =
    codes "\n"
    ∷ codes "Select an action:\n"
    ∷ codes "\n"
    ∷ codes "   [1] Read SPI Flash ID\n"
    ∷ codes "   [2] Read SPI Config Regs\n"
    ∷ codes "   [3] Switch to default mode\n"
    ∷ codes "   [4] Switch to Dual I/O mode\n"
    ∷ codes "   [5] Switch to Quad I/O mode\n"
    ∷ codes "   [6] Switch to Quad DDR mode\n"
    ∷ codes "   [7] Toggle continuous read mode\n"
    ∷ codes "   [9] Run simplistic benchmark\n"
    ∷ codes "   [0] Benchmark all configs\n"
    ∷ codes "   [M] Run Memtest\n"
    ∷ codes "   [S] Print SPI state\n"
    ∷ codes "   [e] Echo UART\n"
    ∷ codes "\n"
    ∷ []

abbrev pub banner : List Bytes
banner =
    codes "\n"
    ∷ codes "  ____  _          ____         ____\n"
    ∷ codes " |  _ \\(_) ___ ___/ ___|  ___  / ___|\n"
    ∷ codes " | |_) | |/ __/ _ \\___ \\ / _ \\| |\n"
    ∷ codes " |  __/| | (_| (_) |__) | (_) | |___\n"
    ∷ codes " |_|   |_|\\___\\___/____/ \\___/ \\____|\n"
    ∷ codes "\n"
    ∷ []

-- `while (1)`: every round takes a value off `rx`, so that their number is fuel enough.
unfoldable pub menu_rounds : Config → ℕ → M (Unit {0})
unfolding prompts print_lines
menu_rounds config zero = waiting
menu_rounds config (suc fuel) = do print_lines menu; prompts config 10; menu_rounds config fuel

-- `while (getchar_prompt("Press ENTER to continue..\n") != '\r')`, with the same fuel.
unfoldable pub wait_for_enter : ℕ → M (Unit {0})
wait_for_enter zero = waiting
wait_for_enter (suc fuel) = do
  c ← getchar_prompt (some (codes "Press ENTER to continue..\n"))
  let again = wait_for_enter fuel
  if c == b'\r' then pure tt else again

unfoldable pub main : Config → M (Unit {0})
unfolding wait_for_enter print_lines menu_rounds
main config = do
  write_leds 31
  write_clkdiv 104
  print (codes "Booting..\n")
  write_leds 63
  set_flash_qspi_flag config
  write_leds 127
  λ s. wait_for_enter (suc (length s.rx)) s
  print_lines banner
  print (codes "Total memory: ")
  print_dec (mem_total config / 1024)
  print (codes " KiB\n")
  print (codes "\n")
  print (codes "\n")
  cmd_print_spi_state
  print (codes "\n")
  λ s. menu_rounds config (suc (length s.rx)) s
