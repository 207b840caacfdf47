-- ===== src/Pcpi/Mul/Carry.antt =====
-- The carry save accumulator of the multiplier: chains of four bits.
use picorv.Base.{ℕ, zero, suc, ◌+◌, ◌*◌, ◌/◌, ◌%◌, ◌^◌, ◌≤◌, ◌<◌, ◌≡◌, ap, ◌∙◌, arith}
use picorv.Pcpi.Mul.{carry_chains}
use mathlib.Core.Path.{subst}
use native.Mathlib.Nat.{pow-suc, div-div-eq-div-mul, div-add-mod'}

-- A saved carry for each of the `n` lowest chains, at most.
abbrev pub IsCarries : ℕ → ℕ → Type 0
IsCarries zero x = Unit
IsCarries (suc n) x = (x % 16 ≤ 1) × IsCarries n (x / 16)

-- Nothing in the `n` lowest chains.
abbrev pub IsZeroBelow : ℕ → ℕ → Type 0
IsZeroBelow zero x = Unit
IsZeroBelow (suc n) x = (x % 16 ≡ 0) × IsZeroBelow n (x / 16)

div-lt-pow : (n x : ℕ) → x < 16 ^ suc n → x / 16 < 16 ^ n
div-lt-pow n x h = omega (arith, pow-suc 16 n)

-- The sum and the carries together are the sum of the three.
pub carry_chains-sum :
    (n rd rdx t : ℕ)
    → rd < 16 ^ n
    → rdx < 16 ^ n
    → t < 16 ^ n
    → IsCarries n rdx
    → (carry_chains n rd rdx t).0 + 2 * (carry_chains n rd rdx t).1 ≡ rd + rdx + t
unfolding carry_chains
carry_chains-sum zero rd rdx t la lb lc h = omega arith
carry_chains-sum (suc n) rd rdx t la lb lc (one, h) = omega (
  arith,
  carry_chains-sum n (rd / 16) (rdx / 16) (t / 16) (div-lt-pow n rd la) (div-lt-pow n rdx lb)
      (div-lt-pow n t lc) h,
)

pub carry_chains-lt : (n rd rdx t : ℕ) → (carry_chains n rd rdx t).0 < 16 ^ n
unfolding carry_chains
carry_chains-lt zero rd rdx t = omega arith
carry_chains-lt (suc n) rd rdx t =
    omega (arith, carry_chains-lt n (rd / 16) (rdx / 16) (t / 16), pow-suc 16 n)

-- The carries, moved to the chains that they go to.
carry_chains-IsCarries_plus :
    (n k c rd rdx t : ℕ) → c ≤ 1 → k ≤ n → IsCarries k (c + 2 * (carry_chains n rd rdx t).1)
unfolding carry_chains
carry_chains-IsCarries_plus n zero c rd rdx t h le = tt
carry_chains-IsCarries_plus zero (suc k) c rd rdx t h le = absurd (omega arith)
carry_chains-IsCarries_plus (suc n) (suc k) c rd rdx t h le =
    let u : ℕ = (carry_chains n (rd / 16) (rdx / 16) (t / 16)).1 in
    let carry : ℕ = (rd % 16 + rdx % 16 + t % 16) % 32 / 16 in
    let moved : (c + 2 * (16 * u + 8 * carry)) / 16 ≡ carry + 2 * u = omega arith in
    (
      omega arith,
      rw moved (
          carry_chains-IsCarries_plus n k carry (rd / 16) (rdx / 16) (t / 16) (omega arith)
            (omega arith)),
    )

pub carry_chains-IsCarries : (n rd rdx t : ℕ) → IsCarries n (2 * (carry_chains n rd rdx t).1)
carry_chains-IsCarries n rd rdx t =
    let carries : ℕ = (carry_chains n rd rdx t).1 in
    let e : 0 + 2 * carries ≡ 2 * carries = omega arith in
    subst (IsCarries n) e (carry_chains-IsCarries_plus n n 0 rd rdx t (omega arith) (omega arith))

-- Where neither a carry nor an operand comes in below, no carry goes out, up to the next chain.
pub carry_chains-IsZeroBelow :
    (n k rd rdx t : ℕ)
    → k < n
    → IsZeroBelow k rdx
    → IsZeroBelow k t
    → IsZeroBelow (suc k) (2 * (carry_chains n rd rdx t).1)
unfolding carry_chains
carry_chains-IsZeroBelow zero k rd rdx t lt h g = absurd (omega arith)
carry_chains-IsZeroBelow (suc n) zero rd rdx t lt h g = (omega arith, tt)
carry_chains-IsZeroBelow (suc n) (suc k) rd rdx t lt (z, h) (y, g) =
    let u : ℕ = (carry_chains n (rd / 16) (rdx / 16) (t / 16)).1 in
    let moved : 2 * (16 * u + 8 * ((rd % 16 + rdx % 16 + t % 16) % 32 / 16)) / 16 ≡ 2 * u =
      omega arith in
    (
      omega arith,
      rw moved (carry_chains-IsZeroBelow n k (rd / 16) (rdx / 16) (t / 16) (omega arith) h g),
    )

-- The lowest chain of a number cut to `suc n` chains, and what is above it.
chain_cut : (n x : ℕ) → (x % 16 ^ suc n % 16 ≡ x % 16) × (x % 16 ^ suc n / 16 ≡ x / 16 % 16 ^ n)
chain_cut n x =
    let twice : x / 16 / 16 ^ n ≡ x / 16 ^ suc n =
      div-div-eq-div-mul x 16 (16 ^ n) ∙ ap (λ (t : ℕ). x / t) (omega (arith, pow-suc 16 n)) in
    let whole : x % 16 ^ suc n ≡ 16 * (x / 16 % 16 ^ n) + x % 16 = omega (
      arith,
      div-add-mod' (x / 16) (16 ^ n),
      div-add-mod' x (16 ^ suc n),
      ap (λ (t : ℕ). t * 16 ^ n) twice,
      ap (λ (t : ℕ). x / 16 ^ suc n * t) (pow-suc 16 n),
    ) in
    (omega arith, omega arith)

pub IsCarries-cut : (n x : ℕ) → IsCarries n x → IsCarries n (x % 16 ^ n)
IsCarries-cut zero x h = tt
IsCarries-cut (suc n) x (one, h) =
    let (low, high) = chain_cut n x in (rw low one, rw high (IsCarries-cut n (x / 16) h))

pub IsZeroBelow-cut : (n k x : ℕ) → k ≤ n → IsZeroBelow k x → IsZeroBelow k (x % 16 ^ n)
IsZeroBelow-cut n zero x le h = tt
IsZeroBelow-cut zero (suc k) x le h = absurd (omega arith)
IsZeroBelow-cut (suc n) (suc k) x le (z, h) =
    let (low, high) = chain_cut n x in
    (rw low z, rw high (IsZeroBelow-cut n k (x / 16) (omega arith) h))

-- A multiple of `16 ^ k`.
pub IsZeroBelow-mul : (k x : ℕ) → IsZeroBelow k (x * 16 ^ k)
IsZeroBelow-mul zero x = tt
IsZeroBelow-mul (suc k) x =
    let turned : x * 16 ^ suc k ≡ 16 * (x * 16 ^ k) =
      omega (arith, ap (λ (t : ℕ). x * t) (pow-suc 16 k)) in
    let divided : x * 16 ^ suc k / 16 ≡ x * 16 ^ k = omega arith in
    (omega arith, rw divided (IsZeroBelow-mul k x))

-- A number without digits below `16 ^ k` that is less than that is zero.
pub IsZeroBelow-zero : (k x : ℕ) → IsZeroBelow k x → x % 16 ^ k ≡ 0
IsZeroBelow-zero zero x h = omega arith
IsZeroBelow-zero (suc k) x (z, h) =
    let (low, high) = chain_cut k x in omega (arith, IsZeroBelow-zero k (x / 16) h)
