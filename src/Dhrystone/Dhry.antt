-- ===== src/Dhrystone/Dhry.antt =====
-- The benchmark: dhrystone/dhry_2.c, and the data and the procedures 1 to 5 of dhrystone/dhry_1.c.
-- Its `main` is in Dhry/Main.
--
-- An `int` is its 32-bit pattern. A text is the list of its characters, so `strcpy` of a literal is
-- an assignment.
pub mod Blocks
pub mod Main
use picorv.Base.{ℕ, ◌+◌, ◌-◌, ◌%◌, ◌^◌, Bool, true, false, not, ◌&&◌, ◌||◌}
use picorv.Base.{ltb, leb, ◌==◌, if◌then◌else◌, [], ◌∷◌, zero, suc}
use picorv.Base.Text.{Bytes}
use picorv.Console.{Io, ◌>>=◌, pure, fault}
use picorv.Dhrystone.Stdlib.{SignMagnitude, nonneg, minus}
use picorv.Dhrystone.Strings.{order}

-- `+`, `-`, `<` and the value of an `int`.
abbrev pub add_int : ℕ → ℕ → ℕ
add_int a b = (a + b) % 2 ^ 32

abbrev pub sub_int : ℕ → ℕ → ℕ
sub_int a b = (a + 2 ^ 32 - b) % 2 ^ 32

abbrev pub lt_int : ℕ → ℕ → Bool
lt_int a b = ltb ((a + 2 ^ 31) % 2 ^ 32) ((b + 2 ^ 31) % 2 ^ 32)

abbrev pub value_of : ℕ → SignMagnitude
value_of a = if ltb a (2 ^ 31) then nonneg a else minus (2 ^ 32 - a)

pub data Enumeration : Type 0 where
  ident_1 ident_2 ident_3 ident_4 ident_5 : Enumeration

abbrev pub index_of : Enumeration → ℕ
index_of ident_1 = 0
index_of ident_2 = 1
index_of ident_3 = 2
index_of ident_4 = 3
index_of ident_5 = 4

abbrev pub is_same : Enumeration → Enumeration → Bool
is_same a b = index_of a == index_of b

-- `Rec_Type`, with the variant `var_1` of its union, the only one in use.
pub record RecType : Type 0 where
  pub ptr_comp : ℕ
  pub discr : Enumeration
  pub enum_comp : Enumeration
  pub int_comp : ℕ
  pub str_comp : Bytes

-- The global variables, and the records on the heap by their addresses: the blocks that `malloc`
-- gives do not overlap.
pub record Globals : Type 0 where
  pub ptr_glob : ℕ
  pub next_ptr_glob : ℕ
  pub int_glob : ℕ
  pub bool_glob : Bool
  pub ch_1_glob : ℕ
  pub ch_2_glob : ℕ
  pub arr_1_glob : ℕ → ℕ
  pub arr_2_glob : ℕ → ℕ → ℕ
  pub heap : ℕ → RecType

-- An assignment to an element of an array.
abbrev pub assign_at {ℓ} : {A : Type ℓ} → (ℕ → A) → ℕ → A → ℕ → A
assign_at f i v j = if i == j then v else f j

-- `*p`, and an assignment to it; no record is at the null pointer.
unfoldable pub deref : ℕ → Globals → Io RecType
deref p g = if p == 0 then fault else pure (g.heap p)

unfoldable pub assign : ℕ → RecType → Globals → Io Globals
assign p r g = if p == 0 then fault else pure (record g { heap = assign_at g.heap p r })

-- `Func_1`: the result, and `Ch_1_Glob`.
unfoldable pub func_1 : ℕ → ℕ → Globals → Enumeration × Globals
func_1 ch_1_par_val ch_2_par_val g =
    if not (ch_1_par_val == ch_2_par_val)
    then (ident_1, g)
    else (ident_2, record g { ch_1_glob = ch_1_par_val })

-- A character of a text, where its NUL stands too.
unfoldable pub char_at : Bytes → ℕ → Io ℕ
char_at [] zero = pure 0
char_at [] (suc i) = fault
char_at (c ∷ s) zero = pure c
char_at (c ∷ s) (suc i) = char_at s i

-- `strcmp` on texts.
unfoldable pub strcmp_texts : Bytes → Bytes → SignMagnitude
strcmp_texts [] [] = nonneg 0
strcmp_texts [] (d ∷ t) = order 0 d
strcmp_texts (c ∷ s) [] = order c 0
strcmp_texts (c ∷ s) (d ∷ t) = if not (c == d) then order c d else strcmp_texts s t

abbrev positive : SignMagnitude → Bool
positive (nonneg n) = ltb 0 n
positive (minus n) = false

-- The loop of `Func_2`, which gives `Ch_Loc`, `Int_Loc` and the variables of the program. A round
-- that finds two equal characters changes nothing that the next one reads, so that the loop never
-- ends: with the fuel used up it is undefined, as C has it for such a loop.
unfoldable pub find_difference :
    ℕ → Bytes → Bytes → ℕ → ℕ → Globals → Io (record { ch_loc : ℕ; int_loc : ℕ; after : Globals })
unfolding char_at func_1
find_difference zero str_1 str_2 ch_loc int_loc g = fault
find_difference (suc fuel) str_1 str_2 ch_loc int_loc g =
    let round = (do
      c ← char_at str_1 int_loc
      d ← char_at str_2 (int_loc + 1)
      let r = func_1 c d g
      let next = find_difference fuel str_1 str_2 b'A' (add_int int_loc 1) r.1
      let again = find_difference fuel str_1 str_2 ch_loc int_loc r.1
      if is_same r.0 ident_1 then next else again) in
    if lt_int 2 int_loc
    then pure (record { ch_loc = ch_loc; int_loc = int_loc; after = g })
    else round

-- `Func_2`. The loop sets `Ch_Loc` before it ends, so that its first value does not matter.
unfoldable pub func_2 : Bytes → Bytes → Globals → Io (Bool × Globals)
unfolding strcmp_texts find_difference
func_2 str_1_par_ref str_2_par_ref g = do
  r ← find_difference 2 str_1_par_ref str_2_par_ref 0 2 g
  let int_loc = if leb b'W' r.ch_loc && ltb r.ch_loc b'Z' then 7 else r.int_loc
  if r.ch_loc == b'R'
      then pure (true, r.after)
      else if positive (strcmp_texts str_1_par_ref str_2_par_ref)
      then pure (true, record r.after { int_glob = add_int int_loc 7 })
      else pure (false, r.after)

unfoldable pub func_3 : Enumeration → Bool
func_3 enum_par_val = is_same enum_par_val ident_3

-- `Proc_6`: the value of `*Enum_Ref_Par`, which is written before it is read.
unfoldable pub proc_6 : Enumeration → Globals → Enumeration
unfolding func_3
proc_6 enum_val_par g =
    let stored = if not (func_3 enum_val_par) then ident_4 else enum_val_par in
    elim enum_val_par [
      | ident_1 ↦ ident_1
      | ident_2 ↦ if lt_int 100 g.int_glob then ident_1 else ident_4
      | ident_3 ↦ ident_2
      | ident_4 ↦ stored
      | ident_5 ↦ ident_3
    ]

-- `Proc_7`: the value of `*Int_Par_Ref`.
unfoldable pub proc_7 : ℕ → ℕ → ℕ
proc_7 int_1_par_val int_2_par_val = add_int int_2_par_val (add_int int_1_par_val 2)

-- The loop of `Proc_8` with `left` rounds to go.
unfoldable pub fill_row : ℕ → ℕ → ℕ → (ℕ → ℕ → ℕ) → ℕ → ℕ → ℕ
fill_row zero int_loc int_index arr_2 = arr_2
fill_row (suc left) int_loc int_index arr_2 =
    fill_row left int_loc (int_index + 1)
      (assign_at arr_2 int_loc (assign_at (arr_2 int_loc) int_index int_loc))

-- `Proc_8` on the two global arrays, with every index checked.
unfoldable pub proc_8 : ℕ → ℕ → Globals → Io Globals
unfolding fill_row
proc_8 int_1_par_val int_2_par_val g =
    let int_loc = add_int int_1_par_val 5 in
    if not (leb 1 int_loc && ltb (int_loc + 30) 50)
    then fault
    else (let first = assign_at g.arr_1_glob int_loc int_2_par_val in
        let second = assign_at first (int_loc + 1) (first int_loc) in
        let arr_1 = assign_at second (int_loc + 30) int_loc in
        let rows = fill_row 2 int_loc int_loc g.arr_2_glob in
        let row = assign_at (rows int_loc) (int_loc - 1) (add_int (rows int_loc (int_loc - 1)) 1) in
        let counted = assign_at rows int_loc row in
        let arr_2 =
          assign_at counted (int_loc + 20)
            (assign_at (counted (int_loc + 20)) int_loc (arr_1 int_loc)) in
        pure (record g { arr_1_glob = arr_1; arr_2_glob = arr_2; int_glob = 5 }))

-- `Proc_5` and `Proc_4`.
unfoldable pub proc_5 : Globals → Globals
proc_5 g = record g { ch_1_glob = b'A'; bool_glob = false }

unfoldable pub proc_4 : Globals → Globals
proc_4 g = record g { bool_glob = (g.ch_1_glob == b'A') || g.bool_glob; ch_2_glob = b'B' }

-- `Proc_3`, whose argument is the address of the record whose `Ptr_Comp` it sets.
unfoldable pub proc_3 : ℕ → Globals → Io Globals
unfolding proc_7
proc_3 ptr_ref_par g =
    let follow = (do
      glob ← deref g.ptr_glob g
      ref ← deref ptr_ref_par g
      assign ptr_ref_par (record ref { ptr_comp = glob.ptr_comp }) g) in
    (do
      h ← if not (g.ptr_glob == 0) then follow else pure g
      glob ← deref h.ptr_glob h
      assign h.ptr_glob (record glob { int_comp = proc_7 10 h.int_glob }) h)

-- `Proc_2`: the value of `*Int_Par_Ref`. If the test fails, the `while` reads a variable that was
-- never set.
unfoldable pub proc_2 : ℕ → Globals → Io ℕ
proc_2 int_par_ref g =
    if g.ch_1_glob == b'A'
    then pure (sub_int (sub_int (add_int int_par_ref 10) 1) g.int_glob)
    else fault

-- `Proc_1`: each statement loads what it reads, in the order of the source. `ptr` is
-- `Ptr_Val_Par` and `next` is `Next_Record`.
unfoldable pub link_next : ℕ → ℕ → Globals → Io Globals
unfolding proc_6 proc_7
link_next ptr next g = do
  next1 ← deref next g
  g1 ← assign next (record next1 { int_comp = 6 }) g
  par ← deref ptr g1
  next2 ← deref next g1
  g2 ← assign next (record next2 { enum_comp = proc_6 par.enum_comp g1 }) g1
  glob ← deref g2.ptr_glob g2
  next3 ← deref next g2
  g3 ← assign next (record next3 { ptr_comp = glob.ptr_comp }) g2
  next4 ← deref next g3
  assign next (record next4 { int_comp = proc_7 next4.int_comp 10 }) g3

unfoldable pub proc_1 : ℕ → Globals → Io Globals
proc_1 ptr g = do
  par ← deref ptr g
  let next = par.ptr_comp
  glob ← deref g.ptr_glob g
  g1 ← assign next glob g
  par1 ← deref ptr g1
  g2 ← assign ptr (record par1 { int_comp = 5 }) g1
  par2 ← deref ptr g2
  next2 ← deref next g2
  g3 ← assign next (record next2 { int_comp = par2.int_comp }) g2
  par3 ← deref ptr g3
  next3 ← deref next g3
  g4 ← assign next (record next3 { ptr_comp = par3.ptr_comp }) g3
  g5 ← proc_3 next g4
  next5 ← deref next g5
  let copy_back = (do par5 ← deref ptr g5; comp ← deref par5.ptr_comp g5; assign ptr comp g5)
  if is_same next5.discr ident_1 then link_next ptr next g5 else copy_back
