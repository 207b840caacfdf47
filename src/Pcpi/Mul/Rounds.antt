-- ===== src/Pcpi/Mul/Rounds.antt =====
-- The rounds of the multiplier: what its registers hold while it multiplies `x` by `y`.
use picorv.Base.{ℕ, zero, suc, ◌+◌, ◌*◌, ◌/◌, ◌%◌, ◌^◌, ◌≤◌, ◌<◌, ◌≡◌, refl, sym, ap, ◌∙◌, arith}
use picorv.Base.{◌==◌, if◌then◌else◌, Bool-cases, inl, inr, ==_iff}
use picorv.Pcpi.Mul.{Multiplier, carry_chains, multiply_bit}
use picorv.Pcpi.Mul.Carry.{
  IsCarries, IsZeroBelow, carry_chains-sum, carry_chains-lt, carry_chains-IsCarries,
}
use picorv.Pcpi.Mul.Carry.{
  carry_chains-IsZeroBelow, IsCarries-cut, IsZeroBelow-cut, IsZeroBelow-mul, IsZeroBelow-zero,
}
use native.Mathlib.Nat.{pow-suc, div-div-eq-div-mul, div-add-mod'}

-- After `k` rounds: `rd` and the saved carries hold the product of the lowest `k` bits of `x`, and
-- no carry is left in the chains below the next bit.
pub record IsMultiplying (x y k : ℕ) (s : Multiplier) : Type 0 where
  pub first : s.rs1 ≡ x / 2 ^ k
  pub second : s.rs2 ≡ y * 2 ^ k % 2 ^ 64
  pub so_far : (s.rd + s.rdx) % 2 ^ 64 ≡ x % 2 ^ k * y % 2 ^ 64
  pub rd_fits : s.rd < 2 ^ 64
  pub rdx_fits : s.rdx < 2 ^ 64
  pub saved : IsCarries 16 s.rdx
  pub settled : IsZeroBelow ((k + 3) / 4) s.rdx

IsZeroBelow-le : (j k x : ℕ) → j ≤ k → IsZeroBelow k x → IsZeroBelow j x
IsZeroBelow-le zero k x le h = tt
IsZeroBelow-le (suc j) zero x le h = absurd (omega arith)
IsZeroBelow-le (suc j) (suc k) x le (z, h) = (z, IsZeroBelow-le j k (x / 16) (omega arith) h)

IsZeroBelow-of_zero : (k : ℕ) → IsZeroBelow k 0
IsZeroBelow-of_zero zero = tt
IsZeroBelow-of_zero (suc k) = (refl, IsZeroBelow-of_zero k)

-- A shift by `k` bits leaves `k / 4` chains empty.
pow_chains : (k : ℕ) → (z : ℕ) × (2 ^ k ≡ z * 16 ^ (k / 4))
pow_chains zero = (1, refl)
pow_chains (suc zero) = (2, refl)
pow_chains (suc (suc zero)) = (4, refl)
pow_chains (suc (suc (suc zero))) = (8, refl)
pow_chains (suc (suc (suc (suc k)))) =
    let (z, e) = pow_chains k in
    let one_more : suc (suc (suc (suc k))) / 4 ≡ suc (k / 4) = omega arith in
    let sixteen : 2 ^ suc (suc (suc (suc k))) ≡ 2 ^ k * 16 = omega (
      arith,
      pow-suc 2 k,
      pow-suc 2 (suc k),
      pow-suc 2 (suc (suc k)),
      pow-suc 2 (suc (suc (suc k))),
    ) in
    (z, rw (one_more, sixteen, e) (omega (arith, ap (λ (t : ℕ). z * t) (pow-suc 16 (k / 4)))))

shifted-IsZeroBelow : (y k : ℕ) → k < 64 → IsZeroBelow (k / 4) (y * 2 ^ k % 2 ^ 64)
shifted-IsZeroBelow y k lt =
    let (z, e) = pow_chains k in
    let turned : y * 2 ^ k ≡ y * z * 16 ^ (k / 4) = rw e (grind arith) in
    IsZeroBelow-cut 16 (k / 4) (y * 2 ^ k) (omega arith)
      (rw turned (IsZeroBelow-mul (k / 4) (y * z)))

-- One more bit of `x`.
low_bits : (x k : ℕ) → x % 2 ^ suc k ≡ x / 2 ^ k % 2 * 2 ^ k + x % 2 ^ k
low_bits x k =
    let halved : x / 2 ^ k / 2 ≡ x / 2 ^ suc k =
      div-div-eq-div-mul x (2 ^ k) 2 ∙ ap (λ (t : ℕ). x / t) (sym (pow-suc 2 k)) in
    let digits : x / 2 ^ k ≡ x / 2 ^ suc k * 2 + x / 2 ^ k % 2 = omega arith in
    omega (
      arith,
      div-add-mod' x (2 ^ k),
      div-add-mod' x (2 ^ suc k),
      ap (λ (t : ℕ). t * 2 ^ k) digits,
      ap (λ (t : ℕ). x / 2 ^ suc k * t) (pow-suc 2 k),
    )

-- What a round adds.
abbrev addend : Multiplier → ℕ
addend s = if s.rs1 % 2 == 1 then s.rs2 else 0

module _ (x y k : ℕ) (s : Multiplier) (lt : k < 64) (h : IsMultiplying x y k s) where
  addend-lt : addend s < 2 ^ 64
  addend-lt = ground (arith, h.second)

  addend-IsZeroBelow : IsZeroBelow (k / 4) (addend s)
  addend-IsZeroBelow = elim (Bool-cases (s.rs1 % 2 == 1)) [
    | inl odd ↦ rw (odd, h.second) (shifted-IsZeroBelow y k lt)
    | inr even ↦ rw even (IsZeroBelow-of_zero (k / 4))
  ]

  addend-product : (x % 2 ^ k * y + addend s) % 2 ^ 64 ≡ x % 2 ^ suc k * y % 2 ^ 64
  addend-product = elim (Bool-cases (s.rs1 % 2 == 1)) [
    | inl odd ↦
        let bit : x / 2 ^ k % 2 ≡ 1 = rw (← h.first) ((==_iff (s.rs1 % 2) 1).0 odd) in
        let more : x % 2 ^ suc k * y ≡ y * 2 ^ k + x % 2 ^ k * y =
          rw (low_bits x k, bit) (grind arith) in
        rw (odd, h.second, more) (omega arith)
    | inr even ↦
        let bit : x / 2 ^ k % 2 ≡ 0 = rw (← h.first) (ground arith) in
        let same : x % 2 ^ suc k * y ≡ x % 2 ^ k * y = rw (low_bits x k, bit) (omega arith) in
        rw (even, same) (omega arith)
  ]

  sums :
      (carry_chains 16 s.rd s.rdx (addend s)).0 + 2 * (carry_chains 16 s.rd s.rdx (addend s)).1
      ≡ s.rd + s.rdx + addend s
  sums = carry_chains-sum 16 s.rd s.rdx (addend s) h.rd_fits h.rdx_fits addend-lt h.saved

  pub multiply_bit-IsMultiplying : (t : Multiplier) → IsMultiplying x y (suc k) (multiply_bit s t)
  unfolding multiply_bit
  multiply_bit-IsMultiplying t =
      let sum : ℕ = (carry_chains 16 s.rd s.rdx (addend s)).0 in
      let carries : ℕ = (carry_chains 16 s.rd s.rdx (addend s)).1 in
      let halved : x / 2 ^ k / 2 ≡ x / 2 ^ suc k =
        div-div-eq-div-mul x (2 ^ k) 2 ∙ ap (λ (t : ℕ). x / t) (sym (pow-suc 2 k)) in
      let next_chain : (suc k + 3) / 4 ≡ suc (k / 4) = omega arith in
      let twice : carries * 2 ≡ 2 * carries = omega arith in
      record {
        first = rw h.first halved;
        second = rw h.second (omega (arith, ap (λ (t : ℕ). y * t) (pow-suc 2 k)));
        so_far = omega (arith, sums, addend-product, h.so_far);
        rd_fits = carry_chains-lt 16 s.rd s.rdx (addend s);
        rdx_fits = omega arith;
        saved =
            rw twice
              (IsCarries-cut 16 (2 * carries) (carry_chains-IsCarries 16 s.rd s.rdx (addend s)));
        settled =
            rw (next_chain, twice)
              (IsZeroBelow-cut 16 (suc (k / 4)) (2 * carries) (omega arith) (
                carry_chains-IsZeroBelow 16 (k / 4) s.rd s.rdx (addend s) (omega arith)
                  (IsZeroBelow-le (k / 4) ((k + 3) / 4) s.rdx (omega arith) h.settled)
                  addend-IsZeroBelow));
      }

-- After all rounds the product stands in `rd`: its low half after 32 rounds, all of it after 64.
pub low_product :
    (x y : ℕ) (s : Multiplier)
    → x < 2 ^ 32
    → IsMultiplying x y 32 s
    → s.rd % 2 ^ 32 ≡ x * y % 2 ^ 32
low_product x y s lx h =
    let empty : s.rdx % 16 ^ 8 ≡ 0 = IsZeroBelow-zero 8 s.rdx h.settled in
    let whole : x % 2 ^ 32 * y ≡ x * y = ap (λ (t : ℕ). t * y) (omega arith) in
    omega (arith, h.so_far, whole)

pub full_product :
    (x y : ℕ) (s : Multiplier) → x < 2 ^ 64 → IsMultiplying x y 64 s → s.rd ≡ x * y % 2 ^ 64
full_product x y s lx h =
    let empty : s.rdx % 16 ^ 16 ≡ 0 = IsZeroBelow-zero 16 s.rdx h.settled in
    let whole : x % 2 ^ 64 * y ≡ x * y = ap (λ (t : ℕ). t * y) (omega arith) in
    omega (arith, h.so_far, h.rd_fits, h.rdx_fits, whole)
