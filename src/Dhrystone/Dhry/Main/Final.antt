-- ===== src/Dhrystone/Dhry/Main/Final.antt =====
-- The values that the report of dhrystone/dhry_1.c says the variables of the benchmark should have.
use picorv.Base.{ℕ, suc, ◌+◌, ◌^◌, ◌<◌, ◌≡◌, ◌≢◌, refl, arith, ==_iff, ==-true, ==-false, true}
use mathlib.Core.Path.{fun_ext}
use picorv.Base.Text.{Bytes}
use picorv.Console.{done, ◌>>=◌}
use picorv.Dhrystone.Stdlib.{malloc}
use picorv.Dhrystone.Dhry.{Globals, RecType, ident_2, assign_at}
use picorv.Dhrystone.Dhry.Blocks.{block, linked, two, two_blocks}
use picorv.Dhrystone.Dhry.Main.{
  Locals, Variables, Setting, size_of_rec_type, zeroed, initialize, run_rounds, some_string,
  first_string, second_string,
}
use picorv.Dhrystone.Dhry.Main.Runs.{
  after_run, after_runs, locals_after, run_rounds_lem, arr_2_glob-after_runs, pointers-after_runs,
}

-- The addresses of the two records.
abbrev pub first_address : Setting → ℕ
first_address e = e.heap_memory + size_of_rec_type

abbrev pub second_address : Setting → ℕ
second_address e = e.heap_memory

-- The global variables behind the initializations, without the two records.
abbrev start_globals : Setting → Globals
start_globals e =
    let g = zeroed e.memory in
    record g {
      ptr_glob = first_address e;
      next_ptr_glob = second_address e;
      arr_2_glob = assign_at g.arr_2_glob 8 (assign_at (g.arr_2_glob 8) 7 10);
    }

abbrev begin_locals : Setting → Locals
begin_locals e = record e.stack { str_1_loc = first_string }

-- The variables after `n` runs.
unfoldable pub final : Setting → ℕ → Variables
final e n = record {
  globals =
      two_blocks (first_address e) (second_address e) (block (second_address e) 17 some_string)
        (linked (second_address e) 18 some_string) (after_runs n (start_globals e));
  locals = locals_after (begin_locals e);
}

two-assign_at :
    (first second : ℕ) (a : RecType) (h : ℕ → RecType)
    → two first second a (h second) h ≡ assign_at h first a
unfolding two
two-assign_at first second a h = fun_ext λ p. ground (arith, ==_iff second p)

-- The variables behind the initializations.
abbrev pub initialized : Setting → Variables
initialized e = record {
  globals =
      two_blocks (first_address e) (second_address e) (block (second_address e) 40 some_string)
        (e.memory (second_address e)) (start_globals e);
  locals = begin_locals e;
}

pub initialize_lem : (e : Setting) (out : Bytes) → initialize e out ≡ done (initialized e) out
unfolding initialize malloc two_blocks
initialize_lem e out =
    let here : e.heap_memory + 0 ≡ e.heap_memory = omega arith in
    let record_1 = block (second_address e) 40 some_string in
    rw (here, two-assign_at (first_address e) (second_address e) record_1 e.memory)

two_first : (first second : ℕ) (a b : RecType) (h : ℕ → RecType) → two first second a b h first ≡ a
unfolding two
two_first first second a b h = rw (==-true first)

two_second :
    (first second : ℕ) (a b : RecType) (h : ℕ → RecType)
    → first ≢ second
    → two first second a b h second ≡ b
unfolding two
two_second first second a b h ne = rw (==-false first second ne, ==-true second)

-- The variables with the values that the report says they should have after `n` runs, the pointers
-- among them the addresses of the two records.
abbrev pub IsExpected : ℕ → ℕ → ℕ → Variables → Type 0
IsExpected n first second v =
    (v.globals.int_glob ≡ 5)
    × (v.globals.bool_glob ≡ true)
    × (v.globals.ch_1_glob ≡ b'A')
    × (v.globals.ch_2_glob ≡ b'B')
    × (v.globals.arr_1_glob 8 ≡ 7)
    × (v.globals.arr_2_glob 8 7 ≡ n + 10)
    × (v.globals.ptr_glob ≡ first)
    × (v.globals.next_ptr_glob ≡ second)
    × (v.globals.heap first ≡ block second 17 some_string)
    × (v.globals.heap second ≡ linked second 18 some_string)
    × (v.locals ≡ record {
      int_1_loc = 5;
      int_2_loc = 13;
      int_3_loc = 7;
      enum_loc = ident_2;
      str_1_loc = first_string;
      str_2_loc = second_string;
    })

pub final-IsExpected :
    (e : Setting) (n : ℕ)
    → n + 11 < 2 ^ 32
    → IsExpected (suc n) (first_address e) (second_address e) (final e (suc n))
unfolding final two_blocks after_runs after_run locals_after
final-IsExpected e n h =
    let counted : (after_runs n (start_globals e)).arr_2_glob 8 7 ≡ 10 + n =
      arr_2_glob-after_runs n (start_globals e) (omega arith) in
    let pointers = pointers-after_runs n (start_globals e) in
    let heap = (after_runs n (start_globals e)).heap in
    (
      refl,
      refl,
      refl,
      refl,
      refl,
      rw counted (omega arith),
      pointers.0,
      pointers.1,
      two_first (first_address e) (second_address e) _ _ heap,
      two_second (first_address e) (second_address e) _ _ heap (λ p. omega arith),
      refl,
    )

pub run_rounds-initialized :
    (e : Setting) (n : ℕ) (out : Bytes)
    → e.heap_memory ≢ 0
    → run_rounds (suc n) 1 (initialized e) out ≡ done (final e (suc n)) out
unfolding final
run_rounds-initialized e n out nz =
    run_rounds_lem (first_address e) (second_address e) (λ p. omega arith) nz (λ p. omega arith) n 1
      40 (e.memory (second_address e)) some_string out (start_globals e) (begin_locals e) refl refl

-- From any start, with `heap_memory` not at address 0, the initializations and any number of runs
-- from 1 to 2 ^ 31 - 11 end, with every variable at the value that the report of `main` says it should
-- have; nothing is printed.
pub run_rounds-IsExpected :
    (e : Setting) (n : ℕ) (out : Bytes)
    → e.heap_memory ≢ 0
    → n + 11 < 2 ^ 31
    → ((initialize e >>= run_rounds (suc n) 1) out ≡ done (final e (suc n)) out)
      × IsExpected (suc n) (first_address e) (second_address e) (final e (suc n))
run_rounds-IsExpected e n out nz h = (
  rw (initialize_lem e out) (run_rounds-initialized e n out nz),
  final-IsExpected e n (omega arith),
)
