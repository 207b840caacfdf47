-- ===== src/Firmware/Irq.antt =====
-- firmware/irq.c.
pub mod Laws
use picorv.Base.{
  ℕ, zero, suc, ◌+◌, ◌-◌, ◌*◌, ◌/◌, ◌%◌, ◌^◌, Bool, true, false, not, ◌&&◌, ◌||◌, ltb, ◌==◌,
  if◌then◌else◌, List, [], ◌∷◌,
}
use picorv.Base.{bit_and, bit_or, get_or}
use picorv.Base.Text.{Bytes, codes}
use picorv.Console.{Io, ◌>>=◌, ◌>>◌, pure, ebreak}
use picorv.Firmware.Print.{print_chr, print_str, print_dec, print_hex}

-- The static counters.
pub record Counts : Type 0 where
  pub ext_irq_4_count : ℕ
  pub ext_irq_5_count : ℕ
  pub timer_irq_count : ℕ

-- `(regs[0] & 1) ? regs[0] - 3 : regs[0] - 4`
unfoldable pub faulting_pc : List ℕ → ℕ
faulting_pc regs =
    let q0 = get_or regs 0 0 in
    if bit_and q0 1 == 0 then (q0 + 2 ^ 32 - 4) % 2 ^ 32 else (q0 + 2 ^ 32 - 3) % 2 ^ 32

abbrev pub is_long : ℕ → Bool
is_long instr = bit_and instr 3 == 3

-- The instruction at an address of a memory of half words.
unfoldable pub instruction_at : (ℕ → ℕ) → ℕ → ℕ
instruction_at half pc =
    let low = half pc in if is_long low then bit_or low (half ((pc + 2) % 2 ^ 32) * 2 ^ 16) else low

-- `((instr & 3) != 3) != (regs[0] & 1)`: the length that q0 tells is not that of the instruction.
unfoldable pub is_mismatch : ℕ → ℕ → Bool
is_mismatch instr q0 = if is_long instr then not (bit_and q0 1 == 0) else bit_and q0 1 == 0

abbrev instr_digits : ℕ → ℕ
instr_digits instr = if is_long instr then 8 else 4

-- What the check of q0 prints when it fails.
pub report_mismatch : (ℕ → ℕ) → List ℕ → Io (Unit {0})
report_mismatch half regs = do
  let instr = instruction_at half (faulting_pc regs)
  print_str (codes "Mismatch between q0 LSB and decoded instruction word! q0=0x")
  print_hex (get_or regs 0 0) 8
  print_str (codes ", instr=0x")
  print_hex instr (instr_digits instr)
  print_str (codes "\n")
  ebreak

check_q0 : (ℕ → ℕ) → List ℕ → Io (Unit {0})
unfolding is_mismatch report_mismatch
check_q0 half regs =
    if is_mismatch (instruction_at half (faulting_pc regs)) (get_or regs 0 0)
    then report_mismatch half regs
    else pure tt

-- `x++` on an `unsigned int` when bit `bit` of the pending interrupts is set.
abbrev pub bump : ℕ → ℕ → ℕ → ℕ
bump irqs mask count = if bit_and irqs mask == 0 then count else (count + 1) % 2 ^ 32

unfoldable pub count_irqs : ℕ → Counts → Counts
count_irqs irqs c = record {
  ext_irq_4_count = bump irqs (2 ^ 4) c.ext_irq_4_count;
  ext_irq_5_count = bump irqs (2 ^ 5) c.ext_irq_5_count;
  timer_irq_count = bump irqs 1 c.timer_irq_count;
}

print_instr : Bytes → ℕ → ℕ → Io (Unit {0})
print_instr what pc instr = do
  print_str what
  print_hex pc 8
  print_str (codes ": 0x")
  print_hex instr (instr_digits instr)
  print_str (codes "\n")

-- The name of register `r` in the dump.
register_name : ℕ → Bytes
register_name r =
    if r == 0
    then codes "pc  "
    else if ltb r 10
    then b'x' ∷ (b'0' + r) ∷ b' ' ∷ b' ' ∷ []
    else if ltb r 20
    then b'x' ∷ b'1' ∷ (b'0' + r - 10) ∷ b' ' ∷ []
    else if ltb r 30
    then b'x' ∷ b'2' ∷ (b'0' + r - 20) ∷ b' ' ∷ []
    else b'x' ∷ b'3' ∷ (b'0' + r - 30) ∷ b' ' ∷ []

-- The two loops of the dump, as one over `n = 4 * i + k`.
dump_rounds : ℕ → ℕ → List ℕ → Io (Unit {0})
unfolding register_name
dump_rounds zero n regs = pure tt
dump_rounds (suc left) n regs = do
  let r = n / 4 + n % 4 * 8
  print_str (register_name r)
  print_hex (get_or regs r 0) 8
  print_str (if n % 4 == 3 then codes "\n" else codes "    ")
  dump_rounds left (n + 1) regs

rule : Bytes
rule = codes "------------------------------------------------------------\n"

report : (ℕ → ℕ) → List ℕ → ℕ → Counts → Io (Unit {0})
unfolding rule print_instr dump_rounds
report half regs irqs c = do
  let pc = faulting_pc regs
  let instr = instruction_at half pc
  print_str (codes "\n")
  print_str rule
  if bit_and irqs 2 == 0
      then pure tt
      else if instr == 0x00100073 || instr == 0x9002
      then (do print_str (codes "EBREAK instruction at 0x"); print_hex pc 8; print_str (codes "\n"))
      else print_instr (codes "Illegal Instruction at 0x") pc instr
  if bit_and irqs 4 == 0
      then pure tt
      else print_instr (codes "Bus error in Instruction at 0x") pc instr
  dump_rounds 32 0 regs
  print_str rule
  print_str (codes "Number of fast external IRQs counted: ")
  print_dec c.ext_irq_4_count
  print_str (codes "\n")
  print_str (codes "Number of slow external IRQs counted: ")
  print_dec c.ext_irq_5_count
  print_str (codes "\n")
  print_str (codes "Number of timer IRQs counted: ")
  print_dec c.timer_irq_count
  print_str (codes "\n")
  ebreak

-- The handler: it returns the registers as they were, and the new counters.
unfoldable pub irq : (ℕ → ℕ) → List ℕ → ℕ → Counts → Io (record { regs : List ℕ; counts : Counts })
unfolding check_q0 report
irq half regs irqs c = do
  let counts = count_irqs irqs c
  if bit_and irqs 6 == 0 then pure tt else check_q0 half regs
  if bit_and irqs 6 == 0 then pure tt else report half regs irqs counts
  pure (record { regs = regs; counts = counts })
