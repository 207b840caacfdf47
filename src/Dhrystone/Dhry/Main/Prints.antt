-- ===== src/Dhrystone/Dhry/Main/Prints.antt =====
-- The text of the report of dhrystone/dhry_1.c on the variables.
use picorv.Base.{ℕ, ◌^◌, ◌<◌, ◌≡◌, ◌≢◌, refl, sym, ap, ◌∙◌, ==-false, lt→ltb}
use picorv.Base.{Option, some, List, [], ◌∷◌, ◌++◌, append_assoc, append-nil}
use mathlib.Core.Option.{some-injective}
use picorv.Base.Text.{Bytes, codes}
use picorv.Base.Numeral.{decimal}
use picorv.Console.{done, Writes}
use picorv.Dhrystone.Stdlib.{int, nonneg}
use picorv.Dhrystone.Stdlib.Format.{formatted, expand, rendered, join, join-some, printf_lem}
use picorv.Dhrystone.Dhry.{Globals, RecType, deref, value_of}
use picorv.Dhrystone.Dhry.Blocks.{block, linked}
use picorv.Dhrystone.Dhry.Main.{Variables, some_string}
use picorv.Dhrystone.Dhry.Main.Final.{IsExpected}
use picorv.Dhrystone.Dhry.Main.Report.{
  Calls, prints, opening, global_values, record_values, local_values, print_values,
}

-- The text of all the calls.
abbrev pub text_of : Calls → Option Bytes
text_of [] = some []
text_of (c ∷ rest) = join (formatted c.0 c.1) (text_of rest)

pub prints_lem : (calls : Calls) (t : Bytes) → text_of calls ≡ some t → Writes (prints calls) t
unfolding prints
prints_lem [] t h out = rw (sym (some-injective [] t h)) (ap (done tt) (sym (append-nil out)))
prints_lem (c ∷ rest) t h out =
    let (s, b, first, others, whole) = join-some (formatted c.0 c.1) (text_of rest) t h in
    rw (printf_lem c.0 c.1 s first out, sym whole)
      (prints_lem rest b others (out ++ s) ∙ ap (done tt) (append_assoc out s b))

abbrev pub concat : List Bytes → Bytes
concat [] = []
concat (s ∷ rest) = s ++ concat rest

abbrev pub opening_text : Bytes
opening_text = concat (
    codes "\n"
    ∷ codes "Dhrystone Benchmark, Version 2.1 (Language: C)\n"
    ∷ codes "\n"
    ∷ codes "Program compiled without 'register' attribute\n"
    ∷ codes "\n"
    ∷ codes "Please give the number of runs through the benchmark: \n"
    ∷ codes "Execution starts, 100 runs through Dhrystone\n"
    ∷ [])

pub opening-Writes : Writes (prints opening) opening_text
opening-Writes =
    prints_lem opening opening_text (unfold opening formatted expand rendered decimal in refl)

-- The report, with the two values that depend on the implementation.
abbrev pub global_text : Bytes
global_text = concat (
    codes "Execution ends\n"
    ∷ codes "\n"
    ∷ codes "Final values of the variables used in the benchmark:\n"
    ∷ codes "\n"
    ∷ codes "Int_Glob:            5\n"
    ∷ codes "        should be:   5\n"
    ∷ codes "Bool_Glob:           1\n"
    ∷ codes "        should be:   1\n"
    ∷ codes "Ch_1_Glob:           A\n"
    ∷ codes "        should be:   A\n"
    ∷ codes "Ch_2_Glob:           B\n"
    ∷ codes "        should be:   B\n"
    ∷ codes "Arr_1_Glob[8]:       7\n"
    ∷ codes "        should be:   7\n"
    ∷ codes "Arr_2_Glob[8][7]:    110\n"
    ∷ codes "        should be:   Number_Of_Runs + 10\n"
    ∷ [])

abbrev pub record_text : ℕ → Bytes
record_text second = concat (
    codes "Ptr_Glob->\n"
    ∷ (codes "  Ptr_Comp:          " ++ decimal second ++ codes "\n")
    ∷ codes "        should be:   (implementation-dependent)\n"
    ∷ codes "  Discr:             0\n"
    ∷ codes "        should be:   0\n"
    ∷ codes "  Enum_Comp:         2\n"
    ∷ codes "        should be:   2\n"
    ∷ codes "  Int_Comp:          17\n"
    ∷ codes "        should be:   17\n"
    ∷ codes "  Str_Comp:          DHRYSTONE PROGRAM, SOME STRING\n"
    ∷ codes "        should be:   DHRYSTONE PROGRAM, SOME STRING\n"
    ∷ codes "Next_Ptr_Glob->\n"
    ∷ (codes "  Ptr_Comp:          " ++ decimal second ++ codes "\n")
    ∷ codes "        should be:   (implementation-dependent), same as above\n"
    ∷ codes "  Discr:             0\n"
    ∷ codes "        should be:   0\n"
    ∷ codes "  Enum_Comp:         1\n"
    ∷ codes "        should be:   1\n"
    ∷ codes "  Int_Comp:          18\n"
    ∷ codes "        should be:   18\n"
    ∷ codes "  Str_Comp:          DHRYSTONE PROGRAM, SOME STRING\n"
    ∷ codes "        should be:   DHRYSTONE PROGRAM, SOME STRING\n"
    ∷ [])

abbrev pub local_text : Bytes
local_text = concat (
    codes "Int_1_Loc:           5\n"
    ∷ codes "        should be:   5\n"
    ∷ codes "Int_2_Loc:           13\n"
    ∷ codes "        should be:   13\n"
    ∷ codes "Int_3_Loc:           7\n"
    ∷ codes "        should be:   7\n"
    ∷ codes "Enum_Loc:            1\n"
    ∷ codes "        should be:   1\n"
    ∷ codes "Str_1_Loc:           DHRYSTONE PROGRAM, 1'ST STRING\n"
    ∷ codes "        should be:   DHRYSTONE PROGRAM, 1'ST STRING\n"
    ∷ codes "Str_2_Loc:           DHRYSTONE PROGRAM, 2'ND STRING\n"
    ∷ codes "        should be:   DHRYSTONE PROGRAM, 2'ND STRING\n"
    ∷ codes "\n"
    ∷ [])

global_values-Writes :
    (first second : ℕ) (v : Variables)
    → IsExpected 100 first second v
    → Writes (prints (global_values v.globals)) global_text
global_values-Writes first second v (i, b, c, d, a, n, ptr, next, r, s, l) =
    prints_lem (global_values v.globals) global_text (
      unfold global_values in
      rw (i, b, c, d, a, n) (unfold formatted expand rendered decimal in refl))

pub rendered_nonneg : (n : ℕ) → n < 2 ^ 31 → rendered b'd' (int (nonneg n)) ≡ some (decimal n)
unfolding rendered
rendered_nonneg n h = rw (lt→ltb n (2 ^ 31) h)

pointer_line :
    (p : ℕ)
    → p < 2 ^ 31
    → formatted (codes "  Ptr_Comp:          %d\n") (int (value_of p) ∷ [])
      ≡ some (codes "  Ptr_Comp:          " ++ decimal p ++ codes "\n")
unfolding formatted expand
pointer_line p h = rw (lt→ltb p (2 ^ 31) h, rendered_nonneg p h)

deref_value :
    {p q : ℕ} {r : RecType} (g : Globals) (out : Bytes)
    → p ≡ q
    → q ≢ 0
    → g.heap q ≡ r
    → deref p g out ≡ done r out
unfolding deref
deref_value {q} g out e nz h = rw (e, ==-false q 0 nz, h)

record_values-Writes :
    (second : ℕ)
    → second < 2 ^ 31
    → Writes
        (prints (record_values (block second 17 some_string) (linked second 18 some_string)))
        (record_text second)
record_values-Writes second h =
    prints_lem (record_values (block second 17 some_string) (linked second 18 some_string))
      (record_text second)
      (unfold record_values in
        rw (pointer_line second h) (unfold formatted expand rendered decimal in refl))

local_values-Writes :
    (first second : ℕ) (v : Variables)
    → IsExpected 100 first second v
    → Writes (prints (local_values v.locals)) local_text
local_values-Writes first second v (i, b, c, d, a, n, ptr, next, r, s, l) =
    prints_lem (local_values v.locals) local_text
      (unfold local_values in rw l (unfold formatted expand rendered decimal in refl))

-- Where the variables are as expected after 100 runs, the report shows the values that it says
-- should be there.
pub print_values-Writes :
    (first second : ℕ) (v : Variables)
    → first ≢ 0
    → second ≢ 0
    → second < 2 ^ 31
    → IsExpected 100 first second v
    → Writes (print_values v) (global_text ++ record_text second ++ local_text)
unfolding print_values
print_values-Writes first second v nz mz below h out =
    let (i, b, c, d, a, n, ptr, next, r, s, l) = h in
    rw
      (
        deref_value v.globals out ptr nz r,
        deref_value v.globals out next mz s,
        global_values-Writes first second v h out,
        record_values-Writes second below (out ++ global_text),
        local_values-Writes first second v h ((out ++ global_text) ++ record_text second),
      )
      (ap (done tt) (
        append_assoc (out ++ global_text) (record_text second) local_text
        ∙ append_assoc out global_text (record_text second ++ local_text)))
