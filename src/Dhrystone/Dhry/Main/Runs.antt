-- ===== src/Dhrystone/Dhry/Main/Runs.antt =====
-- The runs of the benchmark that dhrystone/dhry_1.c counts, and the values they leave.
use picorv.Base.{ℕ, zero, suc, ◌+◌, ◌^◌, ◌<◌, ◌≡◌, ◌≢◌, refl, ap, ◌∙◌, arith}
use picorv.Base.{true, false, not}
use picorv.Base.Text.{Bytes}
use picorv.Console.{done}
use picorv.Dhrystone.Dhry.{
  Globals, RecType, ident_2, func_2, proc_2, proc_4, proc_5, proc_8, add_int, assign_at,
}
use picorv.Dhrystone.Dhry.Main.{
  Locals, count_up, letters, div_int, first_string, second_string, run_rounds, run_once,
}
use picorv.Dhrystone.Dhry.Blocks.{
  block, linked, two_blocks, ptr_glob-two_blocks, int_glob-two_blocks, ch_2_glob-two_blocks,
  proc_1_lem,
}

func_2_lem :
    {s : Bytes}
    → s ≡ first_string
    → (g : Globals) (out : Bytes) → func_2 s second_string g out ≡ done (false, g) out
unfolding func_2
func_2_lem e g out = rw e refl

-- The global variables after a run.
unfoldable pub after_run : Globals → Globals
after_run g =
    let row = assign_at (g.arr_2_glob 8) 8 8 in
    let rows = assign_at (assign_at g.arr_2_glob 8 row) 8 (assign_at row 9 8) in
    let counted = assign_at rows 8 (assign_at (rows 8) 7 (add_int (rows 8 7) 1)) in
    record g {
      int_glob = 5;
      bool_glob = true;
      ch_1_glob = b'A';
      ch_2_glob = b'B';
      arr_1_glob = assign_at (assign_at (assign_at g.arr_1_glob 8 7) 9 7) 38 8;
      arr_2_glob = assign_at counted 28 (assign_at (g.arr_2_glob 28) 8 7);
    }

ptr_glob-after_run : (g : Globals) → (after_run g).ptr_glob ≡ g.ptr_glob
unfolding after_run
ptr_glob-after_run g = refl

int_glob-after_run : (g : Globals) → (after_run g).int_glob ≡ 5
unfolding after_run
int_glob-after_run g = refl

ch_2_glob-after_run : (g : Globals) → (after_run g).ch_2_glob ≡ b'B'
unfolding after_run
ch_2_glob-after_run g = refl

ruleset after_run_laws = (
  ptr_glob-two_blocks, int_glob-two_blocks, ch_2_glob-two_blocks, ptr_glob-after_run,
  int_glob-after_run, ch_2_glob-after_run,
)

-- The variables of `main` after a run.
unfoldable pub locals_after : Locals → Locals
locals_after l = record l {
  int_1_loc = 5;
  int_2_loc = 13;
  int_3_loc = 7;
  enum_loc = ident_2;
  str_2_loc = second_string;
}

count_up_lem :
    (l : Locals) (out : Bytes)
    → count_up 2
        (record l { int_1_loc = 2; int_2_loc = 3; str_2_loc = second_string; enum_loc = ident_2 })
        out
      ≡ done (record (locals_after l) { int_1_loc = 3; int_2_loc = 3 }) out
unfolding count_up locals_after
count_up_lem l out = refl

-- The global variables after `n` runs.
unfoldable pub after_runs : ℕ → Globals → Globals
after_runs zero g = g
after_runs (suc n) g = after_run (after_runs n g)

after_runs-after_run : (n : ℕ) (g : Globals) → after_runs n (after_run g) ≡ after_runs (suc n) g
unfolding after_runs
after_runs-after_run zero g = refl
after_runs-after_run (suc n) g = ap after_run (after_runs-after_run n g)

pub arr_2_glob-after_runs :
    (n : ℕ) (g : Globals)
    → g.arr_2_glob 8 7 + n < 2 ^ 32
    → (after_runs n g).arr_2_glob 8 7 ≡ g.arr_2_glob 8 7 + n
unfolding after_runs after_run
arr_2_glob-after_runs zero g h = omega arith
arr_2_glob-after_runs (suc n) g h = rw (arr_2_glob-after_runs n g (omega arith)) (omega arith)

pub pointers-after_runs :
    (n : ℕ) (g : Globals)
    → ((after_runs n g).ptr_glob ≡ g.ptr_glob) × ((after_runs n g).next_ptr_glob ≡ g.next_ptr_glob)
unfolding after_runs after_run
pointers-after_runs zero g = (refl, refl)
pointers-after_runs (suc n) g = pointers-after_runs n g

-- The records stand at two addresses.
module _ (first second : ℕ) (nz : first ≢ 0) (mz : second ≢ 0) (ne : first ≢ second) where
  proc_8_lem :
      (a b : RecType) (g : Globals) (out : Bytes)
      → proc_8 3 7
          (record (proc_4 (proc_5 (two_blocks first second a b g))) { bool_glob = not false })
          out
        ≡ done (two_blocks first second a b (after_run g)) out
  unfolding proc_8 proc_4 proc_5 two_blocks after_run
  proc_8_lem a b g out = refl

  letters_lem :
      (run_index : ℕ) (a b : RecType) (g : Globals) (l : Locals)
      → letters 2 run_index b'A' (record {
        globals = two_blocks first second a b (after_run g);
        locals = record (locals_after l) { int_1_loc = 3; int_2_loc = 3 };
      })
        ≡ record {
          globals = two_blocks first second a b (after_run g);
          locals = record (locals_after l) { int_1_loc = 3; int_2_loc = 3 };
        }
  unfolding letters two_blocks after_run locals_after
  letters_lem run_index a b g l = refl

  proc_2_lem :
      (a b : RecType) (g : Globals) (out : Bytes)
      → proc_2 1 (two_blocks first second a b (after_run g)) out ≡ done 5 out
  unfolding proc_2 two_blocks after_run
  proc_2_lem a b g out = refl

  run_once_lem :
      (run_index x : ℕ) (b : RecType) (s out : Bytes) (g : Globals) (l : Locals)
      → g.ptr_glob ≡ first
      → l.str_1_loc ≡ first_string
      → run_once run_index
          (record { globals = two_blocks first second (block second x s) b g; locals = l })
          out
        ≡ done
            (record {
              globals =
                  two_blocks first second (block second 17 s) (linked second 18 s) (after_run g);
              locals = locals_after l;
            })
            out
  unfolding run_once locals_after div_int
  run_once_lem run_index x b s out g l ep el =
      simp
        (
          func_2_lem el,
          count_up_lem,
          proc_8_lem,
          proc_1_lem first second nz mz ne,
          letters_lem,
          proc_2_lem,
          after_run_laws,
          ep,
        )
        refl

  run_rounds_more :
      (left run_index : ℕ) (s out : Bytes) (g : Globals) (l : Locals)
      → g.ptr_glob ≡ first
      → l.str_1_loc ≡ first_string
      → run_rounds left run_index
          (record {
            globals = two_blocks first second (block second 17 s) (linked second 18 s) g;
            locals = locals_after l;
          })
          out
        ≡ done
            (record {
              globals =
                  two_blocks first second
                    (block second 17 s)
                    (linked second 18 s)
                    (after_runs left g);
              locals = locals_after l;
            })
            out
  unfolding run_rounds after_runs locals_after
  run_rounds_more zero run_index s out g l ep el = refl
  run_rounds_more (suc left) run_index s out g l ep el =
      rw (run_once_lem run_index 17 (linked second 18 s) s out g (locals_after l) ep el) (
        run_rounds_more left (run_index + 1) s out (after_run g) l (ptr_glob-after_run g ∙ ep) el
        ∙ rw (after_runs-after_run left g) refl)

  pub run_rounds_lem :
      (n run_index x : ℕ) (b : RecType) (s out : Bytes) (g : Globals) (l : Locals)
      → g.ptr_glob ≡ first
      → l.str_1_loc ≡ first_string
      → run_rounds
          (suc n)
          run_index
          (record { globals = two_blocks first second (block second x s) b g; locals = l })
          out
        ≡ done
            (record {
              globals =
                  two_blocks first second
                    (block second 17 s)
                    (linked second 18 s)
                    (after_runs (suc n) g);
              locals = locals_after l;
            })
            out
  unfolding run_rounds
  run_rounds_lem n run_index x b s out g l ep el = rw (run_once_lem run_index x b s out g l ep el) (
      run_rounds_more n (run_index + 1) s out (after_run g) l (ptr_glob-after_run g ∙ ep) el
      ∙ rw (after_runs-after_run n g) refl)
