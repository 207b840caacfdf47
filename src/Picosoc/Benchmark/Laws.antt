-- ===== src/Picosoc/Benchmark/Laws.antt =====
-- The second loop of the work of the benchmark, which compacts its buffer in place.
use picorv.Base.{ℕ, zero, suc, ◌+◌, ◌%◌, ◌^◌, ◌≤◌, ◌<◌, ◌≡◌, refl, ap, ◌∙◌, arith}
use picorv.Base.{[], ◌∷◌, ◌==◌, if◌then◌else◌, Bool-cases, inl, inr}
use picorv.Base.{length, get_or, set, length-set, get_or-set_self, get_or-set_ne}
use picorv.Base.Text.{Bytes}
use picorv.Picosoc.Benchmark.{compress}

-- The indices from `k` on, `left` of them, at which a buffer is not zero, as bytes.
abbrev pub nonzero_at : ℕ → ℕ → Bytes → Bytes
nonzero_at zero k bytes = []
nonzero_at (suc left) k bytes =
    let rest = nonzero_at left (k + 1) bytes in
    if get_or bytes k 0 == 0 then rest else (k % 2 ^ 8) ∷ rest

nonzero_at-set :
    (left k p v : ℕ) (bytes : Bytes)
    → p < k
    → nonzero_at left k (set bytes p v) ≡ nonzero_at left k bytes
nonzero_at-set zero k p v bytes h = refl
nonzero_at-set (suc left) k p v bytes h =
    rw
      (
        nonzero_at-set left (k + 1) p v bytes (omega arith),
        get_or-set_ne bytes p k v 0 (omega arith),
      )
      refl

-- What lies below the next store stays.
compress-below :
    (left k p : ℕ) (bytes : Bytes) (j : ℕ)
    → j < p
    → get_or (compress left k p bytes) j 0 ≡ get_or bytes j 0
unfolding compress
compress-below zero k p bytes j h = refl
compress-below (suc left) k p bytes j h = elim (Bool-cases (get_or bytes k 0 == 0)) [
  | inl z ↦ rw z (compress-below left (k + 1) p bytes j h)
  | inr n ↦ rw n (
      compress-below left (k + 1) (p + 1) (set bytes p (k % 2 ^ 8)) j (omega arith)
      ∙ get_or-set_ne bytes p j (k % 2 ^ 8) 0 (omega arith))
]

-- The index of a byte that is not zero goes to the place of the next store.
compress-store :
    (left k p : ℕ) (bytes : Bytes) (i a : ℕ)
    → p ≤ k
    → k < length bytes
    → a ≡ p + i
    → let after = set bytes p (k % 2 ^ 8) in
      let later = compress left (k + 1) (p + 1) after in
      ((i : ℕ)
        → a ≡ p + 1 + i
        → get_or later a 0 ≡ get_or (nonzero_at left (k + 1) after) i (get_or after a 0))
      → get_or later a 0 ≡ get_or ((k % 2 ^ 8) ∷ nonzero_at left (k + 1) bytes) i (get_or bytes a 0)
compress-store left k p bytes zero a h fits e above =
    compress-below left (k + 1) (p + 1) _ a (omega arith)
    ∙ ap (λ (q : ℕ). get_or (set bytes p (k % 2 ^ 8)) q 0) (omega arith)
    ∙ get_or-set_self bytes p (k % 2 ^ 8) 0 (omega arith)
compress-store left k p bytes (suc i) a h fits e above =
    above i (omega arith)
    ∙ rw
        (
          nonzero_at-set left (k + 1) p (k % 2 ^ 8) bytes (omega arith),
          get_or-set_ne bytes p a (k % 2 ^ 8) 0 (omega arith),
        )
        refl

-- The `i`-th index that is found goes to the place `a`; behind them stand the old bytes.
pub compress-above :
    (left k p : ℕ) (bytes : Bytes) (i a : ℕ)
    → p ≤ k
    → k + left ≤ length bytes
    → a ≡ p + i
    → get_or (compress left k p bytes) a 0 ≡ get_or (nonzero_at left k bytes) i (get_or bytes a 0)
unfolding compress
compress-above zero k p bytes i a h fits e = refl
compress-above (suc left) k p bytes i a h fits e = elim (Bool-cases (get_or bytes k 0 == 0)) [
  | inl z ↦ rw z (compress-above left (k + 1) p bytes i a (omega arith) (omega arith) e)
  | inr n ↦
      let room : k + 1 + left ≤ length (set bytes p (k % 2 ^ 8)) =
        omega (arith, length-set bytes p (k % 2 ^ 8)) in
      rw n (
        compress-store left k p bytes i a h (omega arith) e
          (λ i' e'. compress-above left (k + 1) (p + 1) _ i' a (omega arith) room e'))
]

pub compress-length :
    (left k p : ℕ) (bytes : Bytes) → length (compress left k p bytes) ≡ length bytes
unfolding compress
compress-length zero k p bytes = refl
compress-length (suc left) k p bytes = elim (Bool-cases (get_or bytes k 0 == 0)) [
  | inl z ↦ rw z (compress-length left (k + 1) p bytes)
  | inr n ↦ rw n (
      compress-length left (k + 1) (p + 1) (set bytes p (k % 2 ^ 8))
      ∙ length-set bytes p (k % 2 ^ 8))
]

-- The second loop of the benchmark works in place, on its buffer of 256 bytes: it leaves at the
-- front, in order, the indices at which the buffer was not zero, and behind them the old bytes.
pub compress_lem :
    (bytes : Bytes)
    → length bytes ≡ 256
    → (length (compress 256 0 0 bytes) ≡ 256)
      × ((j : ℕ)
          → get_or (compress 256 0 0 bytes) j 0
            ≡ get_or (nonzero_at 256 0 bytes) j (get_or bytes j 0))
compress_lem bytes size = (
  compress-length 256 0 0 bytes ∙ size,
  λ j. compress-above 256 0 0 bytes j j (omega arith) (omega arith) (omega arith),
)
