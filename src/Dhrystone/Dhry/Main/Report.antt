-- ===== src/Dhrystone/Dhry/Main/Report.antt =====
-- What `main` of dhrystone/dhry_1.c prints, and `main` itself.
use picorv.Base.{ℕ, ◌%◌, Bool, false, ◌==◌, if◌then◌else◌}
use picorv.Base.{List, [], ◌∷◌}
use picorv.Base.Text.{Bytes, codes}
use picorv.Console.{Io, ◌>>=◌, ◌>>◌, pure, fault}
use picorv.Dhrystone.Stdlib.{printf, Arg, char, text, int, nonneg}
use picorv.Dhrystone.Dhry.{Globals, RecType, Enumeration, index_of, value_of, deref, sub_int}
use picorv.Dhrystone.Dhry.Main.{
  Locals, Variables, Setting, mul_int, sign, magnitude_of, div_int, initialize, run_rounds,
}

-- Calls of `printf`, one behind the other, each a format and its arguments.
abbrev pub Calls : Type 0
Calls = List (Bytes × List Arg)

unfoldable pub prints : Calls → Io (Unit {0})
prints [] = pure tt
prints (c ∷ rest) = printf c.0 c.1 >> prints rest

-- The arguments of `%d`.
abbrev number : ℕ → List Arg
number w = int (value_of w) ∷ []

abbrev truth : Bool → List Arg
truth b = int (nonneg (if b then 1 else 0)) ∷ []

abbrev enumeration : Enumeration → List Arg
enumeration e = int (nonneg (index_of e)) ∷ []

abbrev pub number_of_runs : ℕ
number_of_runs = 100

-- Before the runs; without REG defined, `Reg` is false.
abbrev reg : Bool
reg = false

unfoldable pub opening : Calls
opening =
    (codes "\n", [])
    ∷ (codes "Dhrystone Benchmark, Version 2.1 (Language: C)\n", [])
    ∷ (codes "\n", [])
    ∷ (
      if reg
          then codes "Program compiled with 'register' attribute\n"
          else codes "Program compiled without 'register' attribute\n",
      [],
    )
    ∷ (codes "\n", [])
    ∷ (codes "Please give the number of runs through the benchmark: ", [])
    ∷ (codes "\n", [])
    ∷ (codes "Execution starts, %d runs through Dhrystone\n", number number_of_runs)
    ∷ []

-- The final values of the global variables.
unfoldable pub global_values : Globals → Calls
global_values g =
    (codes "Execution ends\n", [])
    ∷ (codes "\n", [])
    ∷ (codes "Final values of the variables used in the benchmark:\n", [])
    ∷ (codes "\n", [])
    ∷ (codes "Int_Glob:            %d\n", number g.int_glob)
    ∷ (codes "        should be:   %d\n", number 5)
    ∷ (codes "Bool_Glob:           %d\n", truth g.bool_glob)
    ∷ (codes "        should be:   %d\n", number 1)
    ∷ (codes "Ch_1_Glob:           %c\n", char g.ch_1_glob ∷ [])
    ∷ (codes "        should be:   %c\n", char b'A' ∷ [])
    ∷ (codes "Ch_2_Glob:           %c\n", char g.ch_2_glob ∷ [])
    ∷ (codes "        should be:   %c\n", char b'B' ∷ [])
    ∷ (codes "Arr_1_Glob[8]:       %d\n", number (g.arr_1_glob 8))
    ∷ (codes "        should be:   %d\n", number 7)
    ∷ (codes "Arr_2_Glob[8][7]:    %d\n", number (g.arr_2_glob 8 7))
    ∷ (codes "        should be:   Number_Of_Runs + 10\n", [])
    ∷ []

-- Those of the two records.
unfoldable pub record_values : RecType → RecType → Calls
record_values a b =
    (codes "Ptr_Glob->\n", [])
    ∷ (codes "  Ptr_Comp:          %d\n", number a.ptr_comp)
    ∷ (codes "        should be:   (implementation-dependent)\n", [])
    ∷ (codes "  Discr:             %d\n", enumeration a.discr)
    ∷ (codes "        should be:   %d\n", number 0)
    ∷ (codes "  Enum_Comp:         %d\n", enumeration a.enum_comp)
    ∷ (codes "        should be:   %d\n", number 2)
    ∷ (codes "  Int_Comp:          %d\n", number a.int_comp)
    ∷ (codes "        should be:   %d\n", number 17)
    ∷ (codes "  Str_Comp:          %s\n", text a.str_comp ∷ [])
    ∷ (codes "        should be:   DHRYSTONE PROGRAM, SOME STRING\n", [])
    ∷ (codes "Next_Ptr_Glob->\n", [])
    ∷ (codes "  Ptr_Comp:          %d\n", number b.ptr_comp)
    ∷ (codes "        should be:   (implementation-dependent), same as above\n", [])
    ∷ (codes "  Discr:             %d\n", enumeration b.discr)
    ∷ (codes "        should be:   %d\n", number 0)
    ∷ (codes "  Enum_Comp:         %d\n", enumeration b.enum_comp)
    ∷ (codes "        should be:   %d\n", number 1)
    ∷ (codes "  Int_Comp:          %d\n", number b.int_comp)
    ∷ (codes "        should be:   %d\n", number 18)
    ∷ (codes "  Str_Comp:          %s\n", text b.str_comp ∷ [])
    ∷ (codes "        should be:   DHRYSTONE PROGRAM, SOME STRING\n", [])
    ∷ []

-- Those of the variables of `main`.
unfoldable pub local_values : Locals → Calls
local_values l =
    (codes "Int_1_Loc:           %d\n", number l.int_1_loc)
    ∷ (codes "        should be:   %d\n", number 5)
    ∷ (codes "Int_2_Loc:           %d\n", number l.int_2_loc)
    ∷ (codes "        should be:   %d\n", number 13)
    ∷ (codes "Int_3_Loc:           %d\n", number l.int_3_loc)
    ∷ (codes "        should be:   %d\n", number 7)
    ∷ (codes "Enum_Loc:            %d\n", enumeration l.enum_loc)
    ∷ (codes "        should be:   %d\n", number 1)
    ∷ (codes "Str_1_Loc:           %s\n", text l.str_1_loc ∷ [])
    ∷ (codes "        should be:   DHRYSTONE PROGRAM, 1'ST STRING\n", [])
    ∷ (codes "Str_2_Loc:           %s\n", text l.str_2_loc ∷ [])
    ∷ (codes "        should be:   DHRYSTONE PROGRAM, 2'ND STRING\n", [])
    ∷ (codes "\n", [])
    ∷ []

-- The report on the variables. The records are read before the first line is printed: no print
-- changes them, and a fault leaves no text.
unfoldable pub print_values : Variables → Io (Unit {0})
print_values v = do
  a ← deref v.globals.ptr_glob v.globals
  b ← deref v.globals.next_ptr_glob v.globals
  prints (global_values v.globals)
  prints (record_values a b)
  prints (local_values v.locals)

-- `%` of `int`: the remainder has the sign of `a`.
unfoldable pub rem_int : ℕ → ℕ → Io ℕ
rem_int a b =
    let r = magnitude_of a % magnitude_of b in
    if b == 0 then fault else pure (if sign a then sub_int 0 r else r)

-- The four arguments of a number in thousandths.
unfoldable pub thousandths : ℕ → Io (List Arg)
thousandths x = do
  whole ← div_int x 1000
  hundreds ← div_int x 100
  tens ← div_int x 10
  ones ← div_int x 1
  a ← rem_int hundreds 10
  b ← rem_int tens 10
  c ← rem_int ones 10
  pure (int (value_of whole) ∷ int (value_of a) ∷ int (value_of b) ∷ int (value_of c) ∷ [])

-- The figures of the measurement.
unfoldable pub figures : ℕ → ℕ → Io (Unit {0})
figures user_time user_insn = do
  printf (codes "Number_Of_Runs: %d\n") (number number_of_runs)
  printf (codes "User_Time: %d cycles, %d insn\n")
      (int (value_of user_time) ∷ int (value_of user_insn) ∷ [])
  cycles_per_instruction_x1000 ← div_int (mul_int 1000 user_time) user_insn
  cycles ← thousandths cycles_per_instruction_x1000
  printf (codes "Cycles_Per_Instruction: %d.%d%d%d\n") cycles
  dhrystones_per_second_per_mhz ← div_int (mul_int number_of_runs 1000000) user_time
  printf (codes "Dhrystones_Per_Second_Per_MHz: %d\n") (number dhrystones_per_second_per_mhz)
  dmips_per_mhz_x1000 ← div_int (mul_int 1000 dhrystones_per_second_per_mhz) 1757
  dmips ← thousandths dmips_per_mhz_x1000
  printf (codes "DMIPS_Per_MHz: %d.%d%d%d\n") dmips

abbrev pub user_time : Setting → ℕ
user_time e = sub_int e.end_time e.begin_time

abbrev pub user_insn : Setting → ℕ
user_insn e = sub_int e.end_insn e.begin_insn

unfoldable pub main : Setting → Io (Unit {0})
main e = do
  v ← initialize e
  prints opening
  w ← run_rounds number_of_runs 1 v
  print_values w
  figures (user_time e) (user_insn e)
