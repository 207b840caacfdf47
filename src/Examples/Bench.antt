-- ===== src/Examples/Bench.antt =====
-- The theorems on the benchmark at concrete inputs.
use picorv.Base.{◌≡◌, ◌∷◌, [], ◌++◌, refl, arith}
use picorv.Base.Text.{codes}
use picorv.Base.Numeral.{decimal}
use picorv.Console.{done, ◌>>=◌}
use picorv.Dhrystone.Stdlib.{printf, int, minus, char, text}
use picorv.Dhrystone.Stdlib.Format.{formatted, expand, rendered, printf_lem}
use picorv.Dhrystone.Dhry.{ident_3}
use picorv.Dhrystone.Dhry.Main.{Setting, initialize, run_rounds}
use picorv.Dhrystone.Dhry.Main.Final.{
  IsExpected, first_address, second_address, final, run_rounds-IsExpected,
}
use picorv.Dhrystone.Dhry.Main.Report.{main}
use picorv.Dhrystone.Dhry.Main.Output.{main_text, main_lem}

-- The heap at 65536, 40000 cycles and 12000 instructions, the counter of cycles past its wrap.
abbrev setting : Setting
setting = record {
  heap_memory = 65536;
  stack = record {
    int_1_loc = 77;
    int_2_loc = 77;
    int_3_loc = 77;
    enum_loc = ident_3;
    str_1_loc = [];
    str_2_loc = [];
  };
  memory = λ p. record {
    ptr_comp = 0;
    discr = ident_3;
    enum_comp = ident_3;
    int_comp = p;
    str_comp = [];
  };
  begin_time = 4294967000;
  begin_insn = 500;
  end_time = 39704;
  end_insn = 12500;
}

run_rounds-IsExpected_example :
    ((initialize setting >>= run_rounds 100 1) [] ≡ done (final setting 100) [])
    × IsExpected 100 (first_address setting) (second_address setting) (final setting 100)
run_rounds-IsExpected_example = run_rounds-IsExpected setting 99 [] (λ p. omega arith) (omega arith)

main_lem_example : main setting (codes ">") ≡ done tt (codes ">" ++ main_text 65536 40000 12000)
main_lem_example =
    main_lem setting (λ p. omega arith) (omega arith) (omega arith) (omega arith) (omega arith)
      (omega arith) (codes ">")

printf_lem_example :
    printf (codes "%s: %d%c\n") (text (codes "x") ∷ int (minus 12) ∷ char b'!' ∷ []) (codes "# ")
    ≡ done tt (codes "# x: -12!\n")
printf_lem_example =
    printf_lem (codes "%s: %d%c\n") (text (codes "x") ∷ int (minus 12) ∷ char b'!' ∷ [])
      (codes "x: -12!\n") (unfold formatted expand rendered decimal in refl) (codes "# ")
