-- ===== src/Firmware/Irq/Laws.antt =====
-- What the interrupt handler of firmware/irq.c does.
use picorv.Base.{
  ℕ, zero, suc, ◌+◌, ◌*◌, ◌/◌, ◌%◌, ◌^◌, ◌<◌, ◌≡◌, ◌≢◌, arith, Bool, true, false, ◌==◌,
  if◌then◌else◌,
}
use picorv.Base.{bit_and, List, inl, inr, get_or}
use picorv.Base.Text.{Bytes, codes}
use picorv.Base.{◌++◌, inl, inr, ◌⊎◌, ==-false, zero-cases}
use picorv.Console.{Io, done, trapped, ◌>>=◌, pure}
use picorv.Firmware.Print.{print_hex}
use picorv.Firmware.Returns.{
  Returns, Traps, Returns-bind, Traps-bind, Traps-first, Traps-ebreak, returning,
}
use picorv.Firmware.Returns.{
  Returns-print_hex, Returns-print_dec, Returns-print_str, Returns-hex_8, Returns-pure,
}
use picorv.Firmware.Irq.{
  Counts, irq, report_mismatch, count_irqs, check_q0, report, dump_rounds, print_instr,
  instr_digits,
}
use picorv.Firmware.Irq.{bump, register_name}

-- An interrupt that is neither a trap of the core (1) nor a bus error (2) is only counted: the
-- handler returns the registers untouched and prints nothing.
pub irq_counts :
    (half : ℕ → ℕ) (regs : List ℕ) (irqs : ℕ) (c : Counts) (out : Bytes)
    → bit_and irqs 6 ≡ 0
    → irq half regs irqs c out ≡ done (record { regs = regs; counts = count_irqs irqs c }) out
unfolding irq
irq_counts half regs irqs c out h = rw h

Returns-instr_digits : (instr : ℕ) → Returns (print_hex instr (instr_digits instr))
Returns-instr_digits instr = Returns-print_hex instr (instr_digits instr) (ground arith)

Returns-print_instr : (what : Bytes) (pc instr : ℕ) → Returns (print_instr what pc instr)
unfolding print_instr
Returns-print_instr what pc instr = search (returning, Returns-instr_digits) depth 12

Returns-dump_rounds : (left n : ℕ) (regs : List ℕ) → Returns (dump_rounds left n regs)
unfolding dump_rounds
Returns-dump_rounds zero n regs = Returns-pure tt
Returns-dump_rounds (suc left) n regs =
    Returns-bind (Returns-print_str (register_name (n / 4 + n % 4 * 8))) (λ _.
      Returns-bind (Returns-hex_8 (get_or regs (n / 4 + n % 4 * 8) 0)) (λ _.
        Returns-bind (Returns-print_str (if n % 4 == 3 then codes "\n" else codes "    "))
          (λ _. Returns-dump_rounds left (n + 1) regs)))

bump-lt : (irqs mask count : ℕ) → count < 2 ^ 32 → bump irqs mask count < 2 ^ 32
bump-lt irqs mask count h = ground arith

-- Counters of 32 bits.
pub record IsCounts (c : Counts) : Type 0 where
  pub irq_4 : c.ext_irq_4_count < 2 ^ 32
  pub irq_5 : c.ext_irq_5_count < 2 ^ 32
  pub timer : c.timer_irq_count < 2 ^ 32

-- Counting keeps the counters in 32 bits.
count_irqs-IsCounts : (irqs : ℕ) (c : Counts) → IsCounts c → IsCounts (count_irqs irqs c)
unfolding count_irqs
count_irqs-IsCounts irqs c v = record {
  irq_4 = bump-lt irqs (2 ^ 4) _ v.irq_4;
  irq_5 = bump-lt irqs (2 ^ 5) _ v.irq_5;
  timer = bump-lt irqs 1 _ v.timer;
}

Traps-report :
    (half : ℕ → ℕ) (regs : List ℕ) (irqs : ℕ) (c : Counts)
    → IsCounts c
    → Traps (report half regs irqs c)
unfolding report
Traps-report half regs irqs c v =
    search
      (
        Traps-bind, Traps-ebreak, returning, Returns-print_instr, Returns-dump_rounds,
        Returns-print_dec, v.irq_4, v.irq_5, v.timer,
      )
      depth 40

Traps-either {ℓ} :
    {A : Type ℓ} (b : Bool) (m : Io (Unit {0})) (k : Unit {0} → Io A)
    → Traps m
    → ((u : Unit {0}) → Traps (k u))
    → Traps ((if b then m else pure tt) >>= k)
Traps-either true m k p q = Traps-first _ p
Traps-either false m k p q = Traps-bind (Returns-pure tt) q

Traps-report_mismatch : (half : ℕ → ℕ) (regs : List ℕ) → Traps (report_mismatch half regs)
unfolding report_mismatch
Traps-report_mismatch half regs =
    search (Traps-bind, Traps-ebreak, returning, Returns-instr_digits) depth 12

-- A step that a false test does not skip.
Traps-unless {ℓ} :
    {A : Type ℓ} (b : Bool) (m : Io (Unit {0})) (k : Unit {0} → Io A)
    → b ≡ false
    → Traps (m >>= k)
    → Traps ((if b then pure tt else m) >>= k)
Traps-unless true m k h t = absurd (cc)
Traps-unless false m k h t = t

-- A bus error or a trap ends in an `ebreak`, whether the check of q0 finds a mismatch or not.
Traps-irq :
    (half : ℕ → ℕ) (regs : List ℕ) (irqs : ℕ) (c : Counts)
    → bit_and irqs 6 ≢ 0
    → IsCounts c
    → Traps (irq half regs irqs c)
unfolding irq check_q0
Traps-irq half regs irqs c ne v =
    Traps-unless (bit_and irqs 6 == 0) _ _ (==-false (bit_and irqs 6) 0 ne) (
      Traps-either _ _ _ (Traps-report_mismatch half regs) (λ _.
        Traps-unless (bit_and irqs 6 == 0) _ _ (==-false (bit_and irqs 6) 0 ne)
          (Traps-first _ (Traps-report half regs irqs _ (count_irqs-IsCounts irqs c v)))))

-- For every register file, memory and pending interrupts, and counters of 32 bits, the handler
-- has one of two ends. Without bit 1 (a trap of the core) and bit 2 (a bus error) it returns the
-- registers untouched and the counters updated, and prints nothing. With one of them it reaches an
-- `ebreak`, having only added to the output.
pub irq_lem :
    (half : ℕ → ℕ) (regs : List ℕ) (irqs : ℕ) (c : Counts) (out : Bytes)
    → IsCounts c
    → ((bit_and irqs 6 ≡ 0)
        × (irq half regs irqs c out
            ≡ done (record { regs = regs; counts = count_irqs irqs c }) out))
      ⊎ ((bit_and irqs 6 ≢ 0) × (text : Bytes) × (irq half regs irqs c out ≡ trapped (out ++ text)))
irq_lem half regs irqs c out v = elim (zero-cases (bit_and irqs 6)) [
  | inl e ↦ inl (e, irq_counts half regs irqs c out e)
  | inr ne ↦ (let (text, e) = (Traps-irq half regs irqs c ne v).at out in inr (ne, text, e))
]
