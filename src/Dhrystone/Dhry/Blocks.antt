-- ===== src/Dhrystone/Dhry/Blocks.antt =====
-- The two records of the benchmark and what the procedures 1 and 3 of dhrystone/dhry_1.c do to them.
use picorv.Base.{ℕ, ◌≡◌, ◌≢◌, refl, ap, arith, ==-false, ==-true}
use picorv.Base.{◌==◌, ==_iff, if◌then◌else◌}
use mathlib.Core.Path.{fun_ext}
use picorv.Base.Text.{Bytes}
use picorv.Console.{done}
use picorv.Dhrystone.Dhry.{
  Globals, RecType, ident_1, ident_2, ident_3, proc_1, proc_3, proc_7, deref, assign, link_next,
}

-- The record that `Ptr_Glob` points to.
abbrev pub block : ℕ → ℕ → Bytes → RecType
block next x s = record {
  ptr_comp = next;
  discr = ident_1;
  enum_comp = ident_3;
  int_comp = x;
  str_comp = s;
}

abbrev pub linked : ℕ → ℕ → Bytes → RecType
linked next x s = record (block next x s) { enum_comp = ident_2 }

-- A heap with two records at two addresses.
module _ (first second : ℕ) where
  unfoldable pub two : RecType → RecType → (ℕ → RecType) → ℕ → RecType
  two a b h p = if first == p then a else if second == p then b else h p

  unfoldable pub two_blocks : RecType → RecType → Globals → Globals
  unfolding two
  two_blocks a b g = record g { heap = two a b g.heap }

  pub ptr_glob-two_blocks : (a b : RecType) (g : Globals) → (two_blocks a b g).ptr_glob ≡ g.ptr_glob
  unfolding two_blocks
  ptr_glob-two_blocks a b g = refl

  pub int_glob-two_blocks : (a b : RecType) (g : Globals) → (two_blocks a b g).int_glob ≡ g.int_glob
  unfolding two_blocks
  int_glob-two_blocks a b g = refl

  pub ch_2_glob-two_blocks :
      (a b : RecType) (g : Globals) → (two_blocks a b g).ch_2_glob ≡ g.ch_2_glob
  unfolding two_blocks
  ch_2_glob-two_blocks a b g = refl

  -- Neither is null.
  module _ (nz : first ≢ 0) (mz : second ≢ 0) (ne : first ≢ second) where
    deref_first :
        (a b : RecType) (g : Globals) (out : Bytes)
        → deref first (two_blocks a b g) out ≡ done a out
    unfolding deref two_blocks
    deref_first a b g out = rw (==-false first 0 nz, ==-true first) refl

    deref_second :
        (a b : RecType) (g : Globals) (out : Bytes)
        → deref second (two_blocks a b g) out ≡ done b out
    unfolding deref two_blocks
    deref_second a b g out =
        rw (==-false second 0 mz, ==-false first second ne, ==-true second) refl

    assign_first :
        (a b c : RecType) (g : Globals) (out : Bytes)
        → assign first c (two_blocks a b g) out ≡ done (two_blocks c b g) out
    unfolding assign two_blocks
    assign_first a b c g out =
        rw (==-false first 0 nz)
          (ap (λ h. done (record g { heap = h }) out) (fun_ext λ p. ground (arith, ==_iff first p)))

    assign_second :
        (a b c : RecType) (g : Globals) (out : Bytes)
        → assign second c (two_blocks a b g) out ≡ done (two_blocks a c g) out
    unfolding assign two_blocks
    assign_second a b c g out =
        rw (==-false second 0 mz)
          (ap (λ h. done (record g { heap = h }) out) (fun_ext λ p. ground (arith, ne)))

    ruleset block_laws = (
      deref_first, deref_second, assign_first, assign_second, ptr_glob-two_blocks,
      int_glob-two_blocks,
    )

    link_next_lem :
        (x : ℕ) (s out : Bytes) (g : Globals)
        → g.ptr_glob ≡ first
        → link_next first second (two_blocks (block second x s) (block second 5 s) g) out
          ≡ done (two_blocks (block second x s) (linked second 18 s) g) out
    unfolding link_next
    link_next_lem x s out g ep = simp (block_laws, ep) refl

    proc_3_lem :
        (a b : RecType) (out : Bytes) (g : Globals)
        → g.ptr_glob ≡ first
        → proc_3 second (two_blocks a b g) out
          ≡ done
              (two_blocks
                (record a { int_comp = proc_7 10 g.int_glob })
                (record b { ptr_comp = a.ptr_comp })
                g)
              out
    unfolding proc_3
    proc_3_lem a b out g ep = simp (block_laws, ep, ==-false first 0 nz) refl

    pub proc_1_lem :
        (x : ℕ) (b : RecType) (s out : Bytes) (g : Globals)
        → g.ptr_glob ≡ first
        → g.int_glob ≡ 5
        → proc_1 first (two_blocks (block second x s) b g) out
          ≡ done (two_blocks (block second 17 s) (linked second 18 s) g) out
    unfolding proc_1 proc_7
    proc_1_lem x b s out g ep ei = simp (block_laws, ep, ei, proc_3_lem, link_next_lem) refl
