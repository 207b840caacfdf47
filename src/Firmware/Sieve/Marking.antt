-- ===== src/Firmware/Sieve/Marking.antt =====
-- The inner loop of `sieve`: it ends, and it marks the odd multiples from `j` on.
use picorv.Base.{ℕ, zero, suc, ◌+◌, ◌-◌, ◌*◌, ◌/◌, ◌%◌, ◌≤◌, ◌<◌, ◌≡◌, refl, arith, true}
use picorv.Base.{List, ◌==◌, ◌||◌, length, leb, leb→le, Bool-cases, inl, inr, ==_iff, ◌⊎◌}
use picorv.Base.{some, ◌∙◌}
use picorv.Firmware.Sieve.{bitmap_set, bitmap_get, bitmap_size, mark_multiples}
use picorv.Firmware.Sieve.Bitmap.{bitmap_get-bitmap_set, length-bitmap_set}

-- `after` is `before` with the bit of every odd number among `j`, `j + p`, `j + 2 * p`, ... set.
pub record IsMarked (p j : ℕ) (before after : List ℕ) : Type 0 where
  pub same_length : length after ≡ length before
  pub kept : (k : ℕ) → bitmap_get before k ≡ true → bitmap_get after k ≡ true
  pub sound :
      (k : ℕ)
      → bitmap_get after k ≡ true
      → (bitmap_get before k ≡ true) ⊎ ((t : ℕ) × (3 + 2 * k ≡ j + t * p))
  pub complete : (k t : ℕ) → k < bitmap_size → 3 + 2 * k ≡ j + t * p → bitmap_get after k ≡ true

IsMarked-skip :
    {p j : ℕ} {before after : List ℕ}
    → j % 2 ≡ 0
    → IsMarked p (j + p) before after
    → IsMarked p j before after
IsMarked-skip {p} {j} {after = after} even m = record {
  same_length = m.same_length;
  kept = m.kept;
  sound = λ k h. elim (m.sound k h) [ inl old ↦ inl old | inr (t, e) ↦ inr (suc t, omega arith) ];
  complete = λ k t.
      elim t as (λ t. k < bitmap_size → 3 + 2 * k ≡ j + t * p → bitmap_get after k ≡ true) [
        | zero ↦ λ lt e. absurd (omega arith)
        | suc t ↦ λ lt e. m.complete k t lt (omega arith)
      ];
}

IsMarked-set :
    {p j : ℕ} {before after : List ℕ}
    → j % 2 ≡ 1
    → 3 ≤ j
    → (j - 3) / 2 / 32 < length before
    → IsMarked p (j + p) (bitmap_set before ((j - 3) / 2)) after
    → IsMarked p j before after
IsMarked-set {p} {j} {before} {after} odd low room m = record {
  same_length = m.same_length ∙ length-bitmap_set before ((j - 3) / 2);
  kept = λ k h. m.kept k (ground (arith, get_set k));
  sound = λ k h. elim (m.sound k h) [
    | inl old ↦ was_set k old (get_set k)
    | inr (t, e) ↦ inr (suc t, omega arith)
  ];
  complete = λ k t.
      elim t as (λ t. k < bitmap_size → 3 + 2 * k ≡ j + t * p → bitmap_get after k ≡ true) [
        | zero ↦ λ lt e. m.kept k (ground (arith, get_set k))
        | suc t ↦ λ lt e. m.complete k t lt (omega arith)
      ];
}
  where
    get_set :
        (k : ℕ)
        → bitmap_get (bitmap_set before ((j - 3) / 2)) k
          ≡ (((j - 3) / 2 == k) || bitmap_get before k)
    get_set k = bitmap_get-bitmap_set before ((j - 3) / 2) k room

    was_set :
        (k : ℕ)
        → bitmap_get (bitmap_set before ((j - 3) / 2)) k ≡ true
        → bitmap_get (bitmap_set before ((j - 3) / 2)) k
          ≡ (((j - 3) / 2 == k) || bitmap_get before k)
        → (bitmap_get before k ≡ true) ⊎ ((t : ℕ) × (3 + 2 * k ≡ j + t * p))
    was_set k old e = elim (Bool-cases ((j - 3) / 2 == k)) [
      | inl here ↦ inr (0, let q = (==_iff ((j - 3) / 2) k).0 here in omega arith)
      | inr there ↦ inl (ground arith)
    ]

-- For an odd `p` and a `j` from 3 on and any bitmap of two words, the loop ends with the fuel that
-- it takes to bring `j`, which grows by at least 3 in a round, past the number of the last bit. The
-- bitmap it leaves has kept what was marked, and the marks in it are those and the bits of all
-- numbers `j + t * p`.
pub mark_multiples_lem :
    (fuel p j : ℕ) (bitmap : List ℕ)
    → p % 2 ≡ 1
    → 3 ≤ j
    → 3 ≤ p
    → length bitmap ≡ 2
    → 1 + (1 - j % 2) ≤ fuel
    → 132 + (1 - j % 2) ≤ fuel + j
    → (after : List ℕ) × (mark_multiples fuel p j bitmap ≡ some after) × IsMarked p j bitmap after
unfolding mark_multiples
mark_multiples_lem zero p j bitmap odd low lowp two some_fuel enough = absurd (omega arith)
mark_multiples_lem (suc fuel) p j bitmap odd low lowp two some_fuel enough =
    elim (Bool-cases (j % 2 == 0)) [
      | inl even ↦
          let (after, returns, marked) =
            mark_multiples_lem fuel p (j + p) bitmap odd (omega arith) lowp two (ground arith)
              (ground arith) in
          (after, rw even returns, IsMarked-skip (ground arith) marked)
      | inr not_even ↦ elim (Bool-cases (leb bitmap_size ((j - 3) / 2))) [
        | inl past ↦ (
          bitmap,
          rw (not_even, past),
          record {
            same_length = refl;
            kept = λ k h. h;
            sound = λ k h. inl h;
            complete = λ k t lt e. absurd (omega (arith, leb→le _ _ past));
          },
        )
        | inr within ↦
            let (after, returns, marked) =
              mark_multiples_lem fuel p (j + p) (bitmap_set bitmap ((j - 3) / 2)) odd (omega arith)
                lowp (length-bitmap_set bitmap ((j - 3) / 2) ∙ two) (ground arith) (ground arith) in
            (
              after,
              rw (not_even, within) returns,
              IsMarked-set (ground arith) low (ground arith) marked,
            )
      ]
    ]
