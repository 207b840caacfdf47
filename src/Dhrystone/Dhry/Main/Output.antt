-- ===== src/Dhrystone/Dhry/Main/Output.antt =====
-- What `main` of dhrystone/dhry_1.c prints in all.
use picorv.Base.{ℕ, ◌*◌, ◌^◌, ◌≤◌, ◌<◌, ◌≡◌, ◌≢◌, ap, arith}
use picorv.Base.{◌++◌, append_assoc}
use picorv.Base.Text.{Bytes}
use picorv.Console.{done, Writes}
use picorv.Dhrystone.Dhry.Main.{Setting}
use picorv.Dhrystone.Dhry.Main.Final.{
  first_address, second_address, final, final-IsExpected, initialize_lem, run_rounds-initialized,
}
use picorv.Dhrystone.Dhry.Main.Report.{user_time, user_insn, main}
use picorv.Dhrystone.Dhry.Main.Prints.{
  opening_text, global_text, record_text, local_text, opening-Writes, print_values-Writes,
}
use picorv.Dhrystone.Dhry.Main.Figures.{figures_text, figures-Writes}

-- The whole text, with the address that both records point to and the two counts.
abbrev pub main_text : ℕ → ℕ → ℕ → Bytes
main_text second user_time user_insn =
    opening_text
    ++ (global_text ++ record_text second ++ local_text)
    ++ figures_text user_time user_insn

gather : (out a b c : Bytes) → out ++ a ++ b ++ c ≡ out ++ (a ++ b ++ c)
gather out a b c = simp (append_assoc)

-- The benchmark ends and prints its report: each variable has the value that stands below it,
-- Arr_2_Glob[8][7] is 110, both records point to the second one, and the figures are the quotients
-- of the two counts. `heap_memory` stands below 2 ^ 31 and not at 0, the time is from 47 cycles to
-- 2147483, and the number of instructions is positive.
pub main_lem :
    (e : Setting)
    → e.heap_memory ≢ 0
    → e.heap_memory < 2 ^ 31
    → 47 ≤ user_time e
    → 1000 * user_time e < 2 ^ 31
    → 0 < user_insn e
    → user_insn e < 2 ^ 31
    → Writes (main e) (main_text e.heap_memory (user_time e) (user_insn e))
unfolding main
main_lem e nz below least most some_insn hi out =
    let out1 = out ++ opening_text in
    let values = global_text ++ record_text (second_address e) ++ local_text in
    let shown =
      print_values-Writes (first_address e) (second_address e) (final e 100) (λ p. omega arith) nz
        below (final-IsExpected e 99 (omega arith)) out1 in
    rw
      (
        initialize_lem e out,
        opening-Writes out,
        run_rounds-initialized e 99 out1 nz,
        shown,
        figures-Writes (user_time e) (user_insn e) least most some_insn hi (out1 ++ values),
      )
      (ap (done tt) (gather out opening_text values (figures_text (user_time e) (user_insn e))))
