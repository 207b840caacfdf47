-- ===== src/Dhrystone/Dhry/Main/Figures.antt =====
-- The figures that dhrystone/dhry_1.c prints at its end.
use picorv.Base.{ℕ, ◌+◌, ◌*◌, ◌/◌, ◌%◌, ◌^◌, ◌≤◌, ◌<◌, ◌≡◌, refl, ap, arith, lt→ltb, ==-false}
use picorv.Base.{some, List, [], ◌∷◌, ◌++◌, append_assoc}
use native.Mathlib.Nat.{div-le_self, div-lt_iff_lt-mul}
use picorv.Base.Text.{Bytes, codes}
use picorv.Base.Numeral.{decimal, decimal_small}
use picorv.Console.{done, Writes}
use picorv.Dhrystone.Stdlib.{Arg, int, nonneg, printf}
use picorv.Dhrystone.Stdlib.Format.{formatted, expand, rendered, printf_lem}
use picorv.Dhrystone.Dhry.{value_of}
use picorv.Dhrystone.Dhry.Main.{div_int}
use picorv.Dhrystone.Dhry.Main.Report.{rem_int, thousandths, figures}
use picorv.Dhrystone.Dhry.Main.Prints.{concat, rendered_nonneg}

value_of-small : (n : ℕ) → n < 2 ^ 31 → value_of n ≡ nonneg n
value_of-small n h = rw (lt→ltb n (2 ^ 31) h)

div_int_lem :
    (a b : ℕ) (out : Bytes) → a < 2 ^ 31 → 0 < b → b < 2 ^ 31 → div_int a b out ≡ done (a / b) out
unfolding div_int
div_int_lem a b out ha pos hb =
    rw (lt→ltb a (2 ^ 31) ha, lt→ltb b (2 ^ 31) hb, ==-false b 0 (λ e. omega arith))

rem_int_lem :
    (a b : ℕ) (out : Bytes) → a < 2 ^ 31 → 0 < b → b < 2 ^ 31 → rem_int a b out ≡ done (a % b) out
unfolding rem_int
rem_int_lem a b out ha pos hb =
    rw (lt→ltb a (2 ^ 31) ha, lt→ltb b (2 ^ 31) hb, ==-false b 0 (λ e. omega arith))

digit : ℕ → Arg
digit d = int (nonneg (d % 10))

thousandths_lem :
    (x : ℕ) (out : Bytes)
    → x < 2 ^ 31
    → thousandths x out
      ≡ done (int (nonneg (x / 1000)) ∷ digit (x / 100) ∷ digit (x / 10) ∷ digit x ∷ []) out
unfolding thousandths digit
thousandths_lem x out h =
    let one : x / 1 ≡ x = omega arith in
    rw (
      div_int_lem x 1000 out h (omega arith) (omega arith),
      div_int_lem x 100 out h (omega arith) (omega arith),
      div_int_lem x 10 out h (omega arith) (omega arith),
      div_int_lem x 1 out h (omega arith) (omega arith),
      rem_int_lem (x / 100) 10 out (omega arith) (omega arith) (omega arith),
      rem_int_lem (x / 10) 10 out (omega arith) (omega arith) (omega arith),
      rem_int_lem (x / 1) 10 out (omega arith) (omega arith) (omega arith),
      value_of-small (x / 1000) (omega arith),
      value_of-small (x / 100 % 10) (omega arith),
      value_of-small (x / 10 % 10) (omega arith),
      value_of-small (x / 1 % 10) (omega arith),
      one,
    )

-- The lines of the figures for a time in cycles and a number of instructions.
abbrev runs_line : Bytes
runs_line = codes "Number_Of_Runs: 100\n"

abbrev time_line : ℕ → ℕ → Bytes
time_line user_time user_insn = concat (
    codes "User_Time: "
    ∷ decimal user_time
    ∷ codes " cycles, "
    ∷ decimal user_insn
    ∷ codes " insn\n"
    ∷ [])

-- A number in thousandths: its whole part, the point and three digits.
abbrev thousandths_line : Bytes → ℕ → Bytes
thousandths_line label x =
    let digits = (b'0' + x / 100 % 10) ∷ (b'0' + x / 10 % 10) ∷ (b'0' + x % 10) ∷ [] in
    concat (label ∷ decimal (x / 1000) ∷ codes "." ∷ digits ∷ codes "\n" ∷ [])

abbrev rate_line : ℕ → Bytes
rate_line rate = concat (codes "Dhrystones_Per_Second_Per_MHz: " ∷ decimal rate ∷ codes "\n" ∷ [])

abbrev cycles_label : Bytes
cycles_label = codes "Cycles_Per_Instruction: "

abbrev dmips_label : Bytes
dmips_label = codes "DMIPS_Per_MHz: "

abbrev pub figures_text : ℕ → ℕ → Bytes
figures_text user_time user_insn =
    let rate = 100000000 / user_time in
    runs_line
    ++ time_line user_time user_insn
    ++ thousandths_line cycles_label (1000 * user_time / user_insn)
    ++ rate_line rate
    ++ thousandths_line dmips_label (1000 * rate / 1757)

runs_line-Writes : Writes (printf (codes "Number_Of_Runs: %d\n") (int (nonneg 100) ∷ [])) runs_line
runs_line-Writes = printf_lem _ _ _ (unfold formatted expand rendered decimal in refl)

time_line-Writes :
    (t i : ℕ)
    → t < 2 ^ 31
    → i < 2 ^ 31
    → Writes
        (printf (codes "User_Time: %d cycles, %d insn\n") (int (nonneg t) ∷ int (nonneg i) ∷ []))
        (time_line t i)
time_line-Writes t i ht hi =
    printf_lem _ _ _
      (unfold formatted expand in rw (rendered_nonneg t ht) (rw (rendered_nonneg i hi) refl))

rate_line-Writes :
    (r : ℕ)
    → r < 2 ^ 31
    → Writes
        (printf (codes "Dhrystones_Per_Second_Per_MHz: %d\n") (int (nonneg r) ∷ []))
        (rate_line r)
rate_line-Writes r h = printf_lem _ _ _ (unfold formatted expand in rw (rendered_nonneg r h) refl)

rendered-digit : (n : ℕ) → rendered b'd' (digit n) ≡ some ((b'0' + n % 10) ∷ [])
unfolding digit
rendered-digit n = rw (rendered_nonneg (n % 10) (omega arith), decimal_small (n % 10) (omega arith))

abbrev parts : ℕ → List Arg
parts x = int (nonneg (x / 1000)) ∷ digit (x / 100) ∷ digit (x / 10) ∷ digit x ∷ []

cycles_line-Writes :
    (x : ℕ)
    → x < 2 ^ 31
    → Writes
        (printf (codes "Cycles_Per_Instruction: %d.%d%d%d\n") (parts x))
        (thousandths_line cycles_label x)
cycles_line-Writes x h = printf_lem _ _ _ (
    unfold formatted expand in
    rw (rendered_nonneg (x / 1000) (omega arith))
      (rw (rendered-digit (x / 100)) (rw (rendered-digit (x / 10)) (rw (rendered-digit x) refl))))

dmips_line-Writes :
    (x : ℕ)
    → x < 2 ^ 31
    → Writes
        (printf (codes "DMIPS_Per_MHz: %d.%d%d%d\n") (parts x))
        (thousandths_line dmips_label x)
dmips_line-Writes x h = printf_lem _ _ _ (
    unfold formatted expand in
    rw (rendered_nonneg (x / 1000) (omega arith))
      (rw (rendered-digit (x / 100)) (rw (rendered-digit (x / 10)) (rw (rendered-digit x) refl))))

rate_small : (t : ℕ) → 47 ≤ t → 100000000 / t < 2127660
rate_small t h = (div-lt_iff_lt-mul {x = 100000000} (ground arith)).1 (omega (arith, h))

gather : (out a b c d e : Bytes) → out ++ a ++ b ++ c ++ d ++ e ≡ out ++ (a ++ b ++ c ++ d ++ e)
gather out a b c d e = simp (append_assoc)

-- The figures are printed as the quotients that they are, with three digits behind the point, for
-- a time from 47 cycles to 2147483, for which no product exceeds an `int`.
pub figures-Writes :
    (t i : ℕ)
    → 47 ≤ t
    → 1000 * t < 2 ^ 31
    → 0 < i
    → i < 2 ^ 31
    → Writes (figures t i) (figures_text t i)
unfolding figures
figures-Writes t i least most some_insn hi out =
    let rate = 100000000 / t in
    let cycles = 1000 * t / i in
    let few : cycles < 2 ^ 31 = omega (arith, div-le_self (1000 * t) i) in
    let slow = rate_small t least in
    let cycles_fit : 1000 * t % 2 ^ 32 ≡ 1000 * t = omega arith in
    let rate_fits : 1000 * rate % 2 ^ 32 ≡ 1000 * rate = omega arith in
    let out2 = out ++ runs_line ++ time_line t i in
    let out3 = out2 ++ thousandths_line cycles_label cycles in
    let out4 = out3 ++ rate_line rate in
    rw
      (
        runs_line-Writes out,
        value_of-small t (omega arith),
        value_of-small i hi,
        time_line-Writes t i (omega arith) hi (out ++ runs_line),
        cycles_fit,
        div_int_lem (1000 * t) i out2 most some_insn hi,
        thousandths_lem cycles out2 few,
        cycles_line-Writes cycles few out2,
        div_int_lem 100000000 t out3 (omega arith) (omega arith) (omega arith),
        value_of-small rate (omega arith),
        rate_line-Writes rate (omega arith) out3,
        rate_fits,
        div_int_lem (1000 * rate) 1757 out4 (omega arith) (omega arith) (omega arith),
        thousandths_lem (1000 * rate / 1757) out4 (omega arith),
        dmips_line-Writes (1000 * rate / 1757) (omega arith) out4,
      )
      (ap (done tt) (
        gather out runs_line (time_line t i) (thousandths_line cycles_label cycles) (rate_line rate)
          (thousandths_line dmips_label (1000 * rate / 1757))))
