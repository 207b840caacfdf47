-- ===== src/Firmware/Sieve/Primes.antt =====
-- `sieve` as a whole: which bits it marks, and the primes that it announces.
use picorv.Base.{ℕ, ◌+◌, ◌-◌, ◌*◌, ◌/◌, ◌%◌, ◌≤◌, ◌<◌, ◌≡◌, arith, ap, ◌∙◌}
use picorv.Base.{true, List, length, ◌==◌}
use picorv.Base.{Bool-cases, inl, inr, ==_iff, ◌↔◌}
use picorv.Firmware.Sieve.{bitmap_get, bitmap_size}
use picorv.Firmware.Sieve.Marking.{IsMarked}

abbrev pub Composite : ℕ → Type 0
Composite n = (d : ℕ) × (e : ℕ) × (2 ≤ d) × (2 ≤ e) × (n ≡ d * e)

-- The bitmap before round `i`: only composite numbers are marked, and so is every proper multiple
-- of a number `3 + 2 * a` from an earlier round.
pub record IsSieved (i : ℕ) (bitmap : List ℕ) : Type 0 where
  pub two_words : length bitmap ≡ 2
  pub only : (k : ℕ) → k < bitmap_size → bitmap_get bitmap k ≡ true → Composite (3 + 2 * k)
  pub all :
      (a m k : ℕ)
      → a < i
      → 2 ≤ m
      → k < bitmap_size
      → 3 + 2 * k ≡ (3 + 2 * a) * m
      → bitmap_get bitmap k ≡ true

odd_factor : (d e n : ℕ) → n ≡ d * e → n % 2 ≡ 1 → d % 2 ≡ 1
odd_factor d e n p odd = elim (Bool-cases (d % 2 == 0)) [
  | inl even ↦
      let h : d ≡ d / 2 * 2 = ground arith in absurd (omega (arith, ap (λ (t : ℕ). t * e) h))
  | inr not_even ↦ ground arith
]

-- A proper factor of an odd number is `3 + 2 * a` for an earlier `a`.
earlier_factor :
    (i : ℕ)
    → Composite (3 + 2 * i)
    → (a : ℕ) × (e : ℕ) × (a < i) × (2 ≤ e) × (3 + 2 * i ≡ (3 + 2 * a) * e)
earlier_factor i (d, e, ld, le, p) =
    let odd = odd_factor d e (3 + 2 * i) p (omega arith) in
    let same : 3 + 2 * ((d - 3) / 2) ≡ d = omega arith in
    let below : d * 2 ≤ d * e = grind arith in ((d - 3) / 2, e, omega arith, le, rw same p)

pub IsSieved-skip :
    {i : ℕ} {bitmap : List ℕ}
    → i < bitmap_size
    → bitmap_get bitmap i ≡ true
    → IsSieved i bitmap
    → IsSieved (i + 1) bitmap
IsSieved-skip {i} {bitmap} lt marked v = record {
  two_words = v.two_words;
  only = v.only;
  all = λ a m k a_lt m_ge k_lt e. elim (Bool-cases (a == i)) [
    | inl here ↦
        through m k m_ge k_lt (rw ((==_iff a i).0 here) at e)
          (earlier_factor i (v.only i lt marked))
    | inr there ↦ v.all a m k (ground arith) m_ge k_lt e
  ];
}
  where
    through :
        (m k : ℕ)
        → 2 ≤ m
        → k < bitmap_size
        → 3 + 2 * k ≡ (3 + 2 * i) * m
        → (a : ℕ) × (e : ℕ) × (a < i) × (2 ≤ e) × (3 + 2 * i ≡ (3 + 2 * a) * e)
        → bitmap_get bitmap k ≡ true
    through m k m_ge k_lt p (a, e, a_lt, e_ge, q) =
        v.all a (e * m) k a_lt (grind arith) k_lt (omega (arith, ap (λ (t : ℕ). t * m) q))

pub IsSieved-mark :
    {i : ℕ} {before after : List ℕ}
    → IsMarked (3 + 2 * i) (2 * (3 + 2 * i)) before after
    → IsSieved i before
    → IsSieved (i + 1) after
IsSieved-mark {i} {after = after} m v = record {
  two_words = m.same_length ∙ v.two_words;
  only = λ k k_lt h. elim (m.sound k h) [
    | inl old ↦ v.only k k_lt old
    | inr (t, e) ↦ (t + 2, 3 + 2 * i, omega arith, omega arith, omega arith)
  ];
  all = λ a n k a_lt n_ge k_lt e. elim (Bool-cases (a == i)) [
    | inl here ↦ multiple n k n_ge k_lt (rw ((==_iff a i).0 here) at e)
    | inr there ↦ m.kept k (v.all a n k (ground arith) n_ge k_lt e)
  ];
}
  where
    multiple :
        (n k : ℕ)
        → 2 ≤ n
        → k < bitmap_size
        → 3 + 2 * k ≡ (3 + 2 * i) * n
        → bitmap_get after k ≡ true
    multiple n k n_ge k_lt e =
        let split : n ≡ n - 2 + 2 = omega arith in
        m.complete k (n - 2) k_lt (omega (arith, ap (λ (t : ℕ). (3 + 2 * i) * t) split))

-- When all rounds are over, a bit is marked exactly if its number is composite.
pub marked_iff-Composite :
    (bitmap : List ℕ) (k : ℕ)
    → IsSieved bitmap_size bitmap
    → k < bitmap_size
    → (bitmap_get bitmap k ≡ true) ↔ Composite (3 + 2 * k)
marked_iff-Composite bitmap k v lt = (v.only k lt, λ c. back (earlier_factor k c))
  where
    back :
        (a : ℕ) × (e : ℕ) × (a < k) × (2 ≤ e) × (3 + 2 * k ≡ (3 + 2 * a) * e)
        → bitmap_get bitmap k ≡ true
    back (a, e, a_lt, e_ge, p) = v.all a e k (omega arith) e_ge lt p

-- The same holds of the bit that round `k` tests.
pub IsSieved-Composite :
    (bitmap : List ℕ) (k : ℕ)
    → IsSieved k bitmap
    → k < bitmap_size
    → Composite (3 + 2 * k)
    → bitmap_get bitmap k ≡ true
IsSieved-Composite bitmap k v lt c = back (earlier_factor k c)
  where
    back :
        (a : ℕ) × (e : ℕ) × (a < k) × (2 ≤ e) × (3 + 2 * k ≡ (3 + 2 * a) * e)
        → bitmap_get bitmap k ≡ true
    back (a, e, a_lt, e_ge, p) = v.all a e k a_lt e_ge lt p
