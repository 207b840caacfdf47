-- ===== src/Dhrystone/Dhry/Main.antt =====
-- `main` of dhrystone/dhry_1.c, as the Makefile builds it: TIME and RISCV defined, and with
-- USE_MYSTDLIB, so that `malloc` and `printf` are those of dhrystone/stdlib.c.
pub mod Runs
pub mod Final
pub mod Report
pub mod Prints
pub mod Figures
pub mod Output
use picorv.Base.{ℕ, zero, suc, ◌+◌, ◌-◌, ◌*◌, ◌/◌, ◌%◌, ◌^◌, Bool, true, false, not, ◌&&◌}
use picorv.Base.{ltb, ◌==◌, if◌then◌else◌, List, [], ◌∷◌}
use picorv.Base.Text.{Bytes, codes}
use picorv.Console.{Io, ◌>>=◌, ◌>>◌, pure, fault}
use picorv.Dhrystone.Stdlib.{malloc, printf, Arg, char, text, int}
use picorv.Dhrystone.Dhry.{
  Globals, RecType, Enumeration, ident_1, ident_2, ident_3, index_of, is_same, add_int, sub_int,
  lt_int, value_of, assign_at, assign, func_1, func_2, proc_1, proc_2, proc_4, proc_5, proc_6,
  proc_7, proc_8,
}

-- The variables of `main`.
pub record Locals : Type 0 where
  pub int_1_loc : ℕ
  pub int_2_loc : ℕ
  pub int_3_loc : ℕ
  pub enum_loc : Enumeration
  pub str_1_loc : Bytes
  pub str_2_loc : Bytes

pub record Variables : Type 0 where
  pub globals : Globals
  pub locals : Locals

-- What `main` runs in: the address of `heap_memory`, what the stack and the heap hold, and what
-- `time` and `insn` give before and behind the loop.
pub record Setting : Type 0 where
  pub heap_memory : ℕ
  pub stack : Locals
  pub memory : ℕ → RecType
  pub begin_time : ℕ
  pub begin_insn : ℕ
  pub end_time : ℕ
  pub end_insn : ℕ

-- `*` and `/` of `int`; the quotient is cut towards zero.
abbrev pub mul_int : ℕ → ℕ → ℕ
mul_int a b = a * b % 2 ^ 32

abbrev pub sign : ℕ → Bool
sign a = not (ltb a (2 ^ 31))

abbrev pub magnitude_of : ℕ → ℕ
magnitude_of a = if ltb a (2 ^ 31) then a else 2 ^ 32 - a

unfoldable pub div_int : ℕ → ℕ → Io ℕ
div_int a b =
    let q = magnitude_of a / magnitude_of b in
    if b == 0
    then fault
    else pure (
        if sign a && not (sign b)
        then sub_int 0 q
        else if sign b && not (sign a)
        then sub_int 0 q
        else q)

abbrev pub some_string : Bytes
some_string = codes "DHRYSTONE PROGRAM, SOME STRING"

abbrev pub first_string : Bytes
first_string = codes "DHRYSTONE PROGRAM, 1'ST STRING"

abbrev pub second_string : Bytes
second_string = codes "DHRYSTONE PROGRAM, 2'ND STRING"

abbrev pub third_string : Bytes
third_string = codes "DHRYSTONE PROGRAM, 3'RD STRING"

-- `while (Int_1_Loc < Int_2_Loc)`, where `Int_2_Loc` stays: 3, while `Int_1_Loc` begins at 2.
unfoldable pub count_up : ℕ → Locals → Io Locals
unfolding proc_7
count_up zero l = fault
count_up (suc fuel) l =
    let m = record l { int_3_loc = sub_int (mul_int 5 l.int_1_loc) l.int_2_loc } in
    let n = record m { int_3_loc = proc_7 m.int_1_loc m.int_2_loc } in
    let rest = count_up fuel (record n { int_1_loc = add_int n.int_1_loc 1 }) in
    if lt_int l.int_1_loc l.int_2_loc then rest else pure l

-- One round of the loop over `Ch_Index`.
unfoldable pub try_letter : ℕ → ℕ → Variables → Variables
unfolding func_1 proc_6
try_letter run_index ch_index v =
    let (found, g) = func_1 ch_index b'C' v.globals in
    if is_same v.locals.enum_loc found
    then record {
      globals = record g { int_glob = run_index };
      locals = record v.locals {
        enum_loc = proc_6 ident_1 g;
        str_2_loc = third_string;
        int_2_loc = run_index;
      };
    }
    else record { globals = g; locals = v.locals }

-- That loop, with `left` rounds to go; its bound `Ch_2_Glob` stays as it is.
unfoldable pub letters : ℕ → ℕ → ℕ → Variables → Variables
unfolding try_letter
letters zero run_index ch_index v = v
letters (suc left) run_index ch_index v =
    letters left run_index (ch_index + 1) (try_letter run_index ch_index v)

-- The body of the loop over `Run_Index`.
unfoldable pub run_once : ℕ → Variables → Io Variables
run_once run_index v = do
  r ← func_2 v.locals.str_1_loc second_string (proc_4 (proc_5 v.globals))
  l ← count_up 2 (record v.locals {
    int_1_loc = 2;
    int_2_loc = 3;
    str_2_loc = second_string;
    enum_loc = ident_2;
  })
  g1 ← proc_8 l.int_1_loc l.int_3_loc (record r.1 { bool_glob = not r.0 })
  g2 ← proc_1 g1.ptr_glob g1
  let w = letters (g2.ch_2_glob + 1 - b'A') run_index b'A' (record { globals = g2; locals = l })
  let product = mul_int w.locals.int_2_loc w.locals.int_1_loc
  q ← div_int product w.locals.int_3_loc
  let difference = sub_int (mul_int 7 (sub_int product w.locals.int_3_loc)) q
  last ← proc_2 q w.globals
  pure (record w { locals = record w.locals { int_1_loc = last; int_2_loc = difference } })

-- The loop over `Run_Index`, with `left` runs to go.
unfoldable pub run_rounds : ℕ → ℕ → Variables → Io Variables
run_rounds zero run_index v = pure v
run_rounds (suc left) run_index v = do w ← run_once run_index v; run_rounds left (run_index + 1) w

-- `sizeof (Rec_Type)`
abbrev pub size_of_rec_type : ℕ
size_of_rec_type = 48

-- The global variables at the start; `malloc` has given nothing yet.
abbrev pub zeroed : (ℕ → RecType) → Globals
zeroed memory = record {
  ptr_glob = 0;
  next_ptr_glob = 0;
  int_glob = 0;
  bool_glob = false;
  ch_1_glob = 0;
  ch_2_glob = 0;
  arr_1_glob = λ i. 0;
  arr_2_glob = λ i j. 0;
  heap = memory;
}

-- The initializations.
unfoldable pub initialize : Setting → Io Variables
initialize e = do
  next ← malloc 0 size_of_rec_type
  block ← malloc next.used size_of_rec_type
  let first = e.heap_memory + block.p
  let second = e.heap_memory + next.p
  let g = zeroed e.memory
  pure (record {
    globals = record g {
      next_ptr_glob = second;
      ptr_glob = first;
      heap = assign_at g.heap first (record {
        ptr_comp = second;
        discr = ident_1;
        enum_comp = ident_3;
        int_comp = 40;
        str_comp = some_string;
      });
      arr_2_glob = assign_at g.arr_2_glob 8 (assign_at (g.arr_2_glob 8) 7 10);
    };
    locals = record e.stack { str_1_loc = first_string };
  })
