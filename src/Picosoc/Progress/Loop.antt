-- ===== src/Picosoc/Progress/Loop.antt =====
-- Reading a character takes input, and so the loops of `main` go on for as long as there is any.
use picorv.Base.{
  ℕ, zero, suc, ◌≤◌, ◌<◌, ◌≡◌, refl, arith, ap, Bool, true, false, ltb, ◌&&◌, List, [], ◌∷◌, length,
  if◌then◌else◌,
}
use picorv.Base.{Option, none, some, ◌==◌, Bool-cases, inl, inr}
use picorv.Base.Text.{Bytes, codes}
use picorv.Picosoc.Soc.{Soc, M, Result, ret, waiting, ◌>>=◌, ◌>>◌, bind, pure}
use picorv.Picosoc.Flash.{Config}
use picorv.Picosoc.Text.{putchar, print}
use picorv.Picosoc.Input.{
  blink, took, poll, print_prompt, getchar_prompt, getchar, echo_rounds, cmd_echo, no_char,
}
use picorv.Picosoc.Menu.{
  toggle_crm, command, perform, prompts, print_lines, menu, menu_rounds, wait_for_enter, main,
}
use picorv.Picosoc.Progress.{
  Takes, TakesSome, Steady, Hungry, Steady-bind, Hungry-left, Hungry-right, Steady-if,
}
use picorv.Picosoc.Progress.{TakesSome-weaken, Hungry-Steady}
use picorv.Picosoc.Progress.Commands.{
  registers, printing, Steady-pure, Steady-print, Steady-putchar,
}
use picorv.Picosoc.Progress.Commands.{
  Steady-cmd_read_flash_id, Steady-cmd_read_flash_regs, Steady-cmd_memtest,
}
use picorv.Picosoc.Progress.Commands.{
  Steady-cmd_benchmark, Steady-cmd_benchmark_all, Steady-cmd_print_spi_state,
}
use picorv.Picosoc.Progress.Commands.{
  Steady-set_flash_mode_spi, Steady-set_flash_mode_dual, Steady-set_flash_mode_quad,
}
use picorv.Picosoc.Progress.Commands.{Steady-set_flash_mode_qddr, Steady-set_flash_qspi_flag}

Steady-print_prompt : (prompt : Option Bytes) → Steady (print_prompt prompt)
unfolding print_prompt
Steady-print_prompt none = search registers
Steady-print_prompt (some prompt) = Steady-print prompt

Steady-blink : (prompt : Option Bytes) (cycles_begin : ℕ) → Steady (blink prompt cycles_begin)
unfolding blink
Steady-blink prompt cycles_begin = search (registers, Steady-print_prompt) depth 10

-- Whatever `blink` does, after the read the rest of the input is left.
after_blink :
    (rest : List ℕ) (r : Result ℕ) (f : ℕ → M ℕ)
    → Takes (suc (length rest)) r
    → ((a : ℕ) (s : Soc) → TakesSome (suc (length rest)) (f a (record s { rx = rest })))
    → TakesSome (suc (length rest)) (bind r (λ a. took rest >> f a))
unfolding took
after_blink rest (ret a t) f h k = k a t
after_blink rest (waiting t) f h k = h

poll-TakesSome :
    (rx : List ℕ) (prompt : Option Bytes) (cycles_begin : ℕ) (s : Soc)
    → s.rx ≡ rx
    → TakesSome (length rx) (poll rx prompt cycles_begin s)
unfolding poll
poll-TakesSome [] prompt cycles_begin s e = e
poll-TakesSome (c ∷ rest) prompt cycles_begin s e = elim (Bool-cases (c == no_char)) [
  | inl empty ↦
      rw (empty, poll)
        (after_blink rest (blink prompt cycles_begin s) (poll rest prompt)
          (rw (ap length e) at ((Steady-blink prompt cycles_begin).at s))
          (λ b t.
            TakesSome-weaken (length rest) (suc (length rest)) _ (omega arith)
              (poll-TakesSome rest prompt b (record t { rx = rest }) refl)))
  | inr full ↦
      rw (full, poll)
        (after_blink rest (blink prompt cycles_begin s) (λ _. pure c)
          (rw (ap length e) at ((Steady-blink prompt cycles_begin).at s)) (λ b t. omega arith))
]

Hungry-poll :
    (prompt : Option Bytes) (cycles_begin : ℕ) → Hungry (λ s. poll s.rx prompt cycles_begin s)
Hungry-poll prompt cycles_begin = record {
  at = λ s. poll-TakesSome s.rx prompt cycles_begin s refl;
}

Hungry-getchar_prompt : (prompt : Option Bytes) → Hungry (getchar_prompt prompt)
unfolding getchar_prompt
Hungry-getchar_prompt prompt =
    search (Hungry-right, Hungry-left, Hungry-poll, registers, Steady-print_prompt) depth 10

Hungry-getchar : Hungry getchar
unfolding getchar
Hungry-getchar = Hungry-getchar_prompt none

-- To prove something of what comes of `m` and then `f`, where it holds of every waiting state
-- with no input: look at `f` from where `m` may have led.
module _ {A B : Type 0} (P : Result B → Type 0)
    (at_wait : (t : Soc) → t.rx ≡ [] → P (waiting t)) where
  after_some :
      (n : ℕ) (r : Result A) (f : A → M B)
      → TakesSome n r
      → ((a : A) (t : Soc) → length t.rx < n → P (f a t))
      → P (bind r f)
  after_some n (ret a t) f h k = k a t h
  after_some n (waiting t) f h k = at_wait t h

  after :
      (n : ℕ) (r : Result A) (f : A → M B)
      → Takes n r
      → ((a : A) (t : Soc) → length t.rx ≤ n → P (f a t))
      → P (bind r f)
  after n (ret a t) f h k = k a t h
  after n (waiting t) f h k = at_wait t h

-- A branch of a loop: it stops, or it goes on after a routine that takes nothing back.
round_ends :
    {A : Type 0} (P : Result A → Type 0) (stop : Bool) (stopped : M A) (act : M (Unit {0}))
    (rest : M A) (n : ℕ) (t : Soc)
    → ((u : Soc) → u.rx ≡ [] → P (waiting u))
    → Steady act
    → length t.rx < n
    → P (stopped t)
    → ((u : Soc) → length u.rx < n → P (rest u))
    → P ((if stop then stopped else (act >> rest)) t)
round_ends P true stopped act rest n t at_wait q lt p k = p
round_ends P false stopped act rest n t at_wait q lt p k =
    after P at_wait (length t.rx) (act t) (λ _. rest) (q.at t) (λ _ u le. k u (omega arith))

echo_rounds-Takes :
    (fuel n : ℕ) (s : Soc) → length s.rx < fuel → length s.rx ≤ n → Takes n (echo_rounds fuel s)
unfolding echo_rounds
echo_rounds-Takes zero n s h le = absurd (omega arith)
echo_rounds-Takes (suc fuel) n s h le =
    after_some (Takes n) (λ t e. e) (length s.rx) (getchar s) _ (Hungry-getchar.at s)
      λ c t lt.
        round_ends (Takes n) (c == b'!') (pure tt) (putchar c) (echo_rounds fuel) (length s.rx) t
          (λ u e. e) (Steady-putchar c) lt (omega arith)
          (λ u lu. echo_rounds-Takes fuel n u (omega arith) (omega arith))

-- `cmd_echo` ends: it returns, or waits with all input taken.
Steady-cmd_echo : Steady cmd_echo
unfolding cmd_echo
Steady-cmd_echo = Steady-bind (Steady-print (codes "Return to menu by sending '!'\n\n")) (λ _.
    record {
      at = λ s. echo_rounds-Takes (suc (length s.rx)) (length s.rx) s (omega arith) (omega arith);
    })

abbrev pub IsWaiting {ℓ} : {A : Type ℓ} → Result A → Type 0
IsWaiting (ret a t) = ⊥
IsWaiting (waiting t) = t.rx ≡ []

Steady-toggle_crm : Steady toggle_crm
unfolding toggle_crm
Steady-toggle_crm = search registers

abbrev SteadyCommand : Option (M (Unit {0})) → Type 0
SteadyCommand none = Unit
SteadyCommand (some act) = Steady act

SteadyCommand-if :
    (b : Bool) (act : M (Unit {0})) (rest : Option (M (Unit {0})))
    → Steady act
    → SteadyCommand rest
    → SteadyCommand (if b then some act else rest)
SteadyCommand-if true act rest p q = p
SteadyCommand-if false act rest p q = q

Steady-discard : {A : Type 0} (m : M A) → Steady m → Steady (m >>= λ _. pure (tt {0}))
Steady-discard m p = Steady-bind p (λ _. Steady-pure tt)

SteadyCommand-command : (config : Config) (cmd : ℕ) → SteadyCommand (command config cmd)
unfolding command
SteadyCommand-command config cmd = SteadyCommand-if (cmd == b'1') _ _ Steady-cmd_read_flash_id (
    SteadyCommand-if (cmd == b'2') _ _ (Steady-cmd_read_flash_regs config) (
      SteadyCommand-if (cmd == b'3') _ _ (Steady-set_flash_mode_spi config) (
        SteadyCommand-if (cmd == b'4') _ _ (Steady-set_flash_mode_dual config) (
          SteadyCommand-if (cmd == b'5') _ _ (Steady-set_flash_mode_quad config) (
            SteadyCommand-if (cmd == b'6') _ _ (Steady-set_flash_mode_qddr config) (
              SteadyCommand-if (cmd == b'7') _ _ Steady-toggle_crm (
                SteadyCommand-if (cmd == b'9') _ _ (Steady-discard _ (Steady-cmd_benchmark true)) (
                  SteadyCommand-if (cmd == b'0') _ _ (Steady-cmd_benchmark_all config) (
                    SteadyCommand-if (cmd == b'M') _ _ (Steady-cmd_memtest config) (
                      SteadyCommand-if (cmd == b'S') _ _ Steady-cmd_print_spi_state
                        (SteadyCommand-if (cmd == b'e') _ _ Steady-cmd_echo tt)))))))))))

Steady-perform :
    (again : M (Unit {0})) (act : Option (M (Unit {0})))
    → Steady again
    → SteadyCommand act
    → Steady (perform again act)
unfolding perform
Steady-perform again none p q = p
Steady-perform again (some act) p q = q

-- The part of a round of `prompts` from the character on.
Steady-handle :
    (config : Config) (again : M (Unit {0})) (cmd : ℕ)
    → Steady again
    → Steady (do
      if ltb 32 cmd && ltb cmd 127 then putchar cmd else pure tt
      print (codes "\n")
      perform again (command config cmd))
Steady-handle config again cmd p =
    Steady-bind (Steady-if (ltb 32 cmd && ltb cmd 127) (Steady-putchar cmd) (Steady-pure tt)) (λ _.
      Steady-bind (Steady-print (codes "\n"))
        (λ _. Steady-perform again (command config cmd) p (SteadyCommand-command config cmd)))

Hungry-prompts :
    (config : Config) (rep : ℕ) → Steady (prompts config rep) → Hungry (prompts config (suc rep))
unfolding prompts
Hungry-prompts config rep p =
    Hungry-right (Steady-print (codes "Command> "))
      (λ _. Hungry-left Hungry-getchar (λ cmd. Steady-handle config (prompts config rep) cmd p))

Steady-prompts : (config : Config) (rep : ℕ) → Steady (prompts config rep)
Steady-prompts config zero = unfold prompts in Steady-pure tt
Steady-prompts config (suc rep) =
    Hungry-Steady (Hungry-prompts config rep (Steady-prompts config rep))

Steady-print_lines : (ls : List Bytes) → Steady (print_lines ls)
unfolding print_lines
Steady-print_lines [] = Steady-pure tt
Steady-print_lines (line ∷ rest) = Steady-bind (Steady-print line) (λ _. Steady-print_lines rest)

menu_rounds-IsWaiting :
    (config : Config) (fuel : ℕ) (s : Soc)
    → length s.rx < fuel
    → IsWaiting (menu_rounds config fuel s)
unfolding menu_rounds
menu_rounds-IsWaiting config zero s h = absurd (omega arith)
menu_rounds-IsWaiting config (suc fuel) s h =
    after IsWaiting (λ t e. e) (length s.rx) (print_lines menu s) _ ((Steady-print_lines menu).at s)
      λ _ t le.
        after_some IsWaiting (λ u e. e) (length t.rx) (prompts config 10 t) _
          ((Hungry-prompts config 9 (Steady-prompts config 9)).at t)
          λ _ u lt. menu_rounds-IsWaiting config fuel u (omega arith)

wait_for_enter-Takes :
    (fuel n : ℕ) (s : Soc) → length s.rx < fuel → length s.rx ≤ n → Takes n (wait_for_enter fuel s)
unfolding wait_for_enter
wait_for_enter-Takes zero n s h le = absurd (omega arith)
wait_for_enter-Takes (suc fuel) n s h le =
    after_some (Takes n) (λ t e. e) (length s.rx) (getchar_prompt (some prompt) s) _
      ((Hungry-getchar_prompt (some prompt)).at s)
      λ c t lt.
        round_ends (Takes n) (c == b'\r') (pure tt) (pure tt) (wait_for_enter fuel) (length s.rx) t
          (λ u e. e) (Steady-pure tt) lt (omega arith)
          (λ u lu. wait_for_enter-Takes fuel n u (omega arith) (omega arith))
  where
    prompt : Bytes
    prompt = codes "Press ENTER to continue..\n"

record Endless (m : M (Unit {0})) : Type 0 where
  at : (s : Soc) → IsWaiting (m s)

Endless-bind :
    {A : Type 0} {m : M A} {f : A → M (Unit {0})}
    → Steady m
    → ((a : A) → Endless (f a))
    → Endless (m >>= f)
Endless-bind {m} {f} p k = record {
  at = λ s. after IsWaiting (λ t e. e) (length s.rx) (m s) f (p.at s) (λ a t le. (k a).at t);
}

Endless-menu : (config : Config) → Endless (λ s. menu_rounds config (suc (length s.rx)) s)
Endless-menu config = record {
  at = λ s. menu_rounds-IsWaiting config (suc (length s.rx)) s (omega arith);
}

Steady-enter : Steady (λ s. wait_for_enter (suc (length s.rx)) s)
Steady-enter = record {
  at = λ s. wait_for_enter-Takes (suc (length s.rx)) (length s.rx) s (omega arith) (omega arith);
}

Endless-main : (config : Config) → Endless (main config)
unfolding main
Endless-main config =
    search
      (
        Endless-bind, Endless-menu, Steady-enter, printing, Steady-print_lines,
        Steady-set_flash_qspi_flag, Steady-cmd_print_spi_state,
      )
      depth 40

-- `main` never returns and never stops before its input does: from every state, in both
-- configurations, it comes to wait for the UART with all input taken.
pub main-IsWaiting : (config : Config) (s : Soc) → IsWaiting (main config s)
main-IsWaiting config s = (Endless-main config).at s
