-- ===== src/Base/Bits.antt =====
-- The bitwise operators of C at variables: the law of each for the lowest digit, and what
-- follows from it for masks, disjoint fields and exclusive or.
mod Step
pub mod Digit
pub use Step.{bit_and_step, bit_or_step, bit_xor_step}
pub use Digit.{bit, bit_ext, bit-bit_and, bit-bit_or, bit-bit_xor, bit-pow, bit-zero, bit-lt}
use Prim.Native.Nat.{ℕ, zero, suc, ◌+◌, ◌-◌, ◌*◌, ◌/◌, ◌%◌, ◌^◌, ◌≤◌, ◌<◌, min, max}
use Prim.Native.Nat.{bit_and, bit_or, bit_xor}
use mathlib.Core.Path.{◌≡◌, refl, ap, ◌∙◌}
use native.Mathlib.Nat.{pow-suc, one-le-pow}
use native.Mathlib.Omega.{arith}

pub zero-bit_or : (b : ℕ) → bit_or 0 b ≡ b
zero-bit_or b = bit_ext _ b (λ k. omega (arith, bit-bit_or k 0 b, bit-zero k))

pub bit_or-zero : (a : ℕ) → bit_or a 0 ≡ a
bit_or-zero a = bit_ext _ a (λ k. omega (arith, bit-bit_or k a 0, bit-zero k))

pub bit_and-zero : (a : ℕ) → bit_and a 0 ≡ 0
bit_and-zero a = bit_ext _ 0 (λ k. omega (arith, bit-bit_and k a 0, bit-zero k))

pub bit_xor_comm : (a b : ℕ) → bit_xor a b ≡ bit_xor b a
bit_xor_comm a b = bit_ext _ _ (λ k. omega (arith, bit-bit_xor k a b, bit-bit_xor k b a))

pub bit_xor_assoc : (a b c : ℕ) → bit_xor (bit_xor a b) c ≡ bit_xor a (bit_xor b c)
bit_xor_assoc a b c = bit_ext _ _ (λ k. omega (
  arith,
  bit-bit_xor k (bit_xor a b) c,
  bit-bit_xor k a b,
  bit-bit_xor k a (bit_xor b c),
  bit-bit_xor k b c,
))

pub bit_xor-zero : (a : ℕ) → bit_xor a 0 ≡ a
bit_xor-zero a = bit_ext _ a (λ k. omega (arith, bit-bit_xor k a 0, bit-zero k, bit-lt k a))

pub bit_xor_self : (a : ℕ) → bit_xor a a ≡ 0
bit_xor_self a = bit_ext _ 0 (λ k. omega (arith, bit-bit_xor k a a, bit-zero k))

-- An exclusive or is undone by itself.
pub bit_xor_cancel : (a b : ℕ) → bit_xor (bit_xor a b) b ≡ a
bit_xor_cancel a b = bit_xor_assoc a b b ∙ ap (bit_xor a) (bit_xor_self b) ∙ bit_xor-zero a

pub eq_of_bit_xor : (a b : ℕ) → bit_xor a b ≡ 0 → a ≡ b
eq_of_bit_xor a b e =
    bit_ext a b
      (λ k. omega (arith, bit-bit_xor k a b, ap (bit k) e, bit-zero k, bit-lt k a, bit-lt k b))

-- No operator makes a number wider than its operands.
pub bit_xor-lt : (w a b : ℕ) → a < 2 ^ w → b < 2 ^ w → bit_xor a b < 2 ^ w
bit_xor-lt zero a b p q =
    let a0 : a ≡ 0 = omega arith in let b0 : b ≡ 0 = omega arith in rw (a0, b0) (omega arith)
bit_xor-lt (suc w) a b p q = omega (
  arith,
  bit_xor_step a b,
  pow-suc 2 w,
  bit_xor-lt w (a / 2) (b / 2) (omega (arith, pow-suc 2 w)) (omega (arith, pow-suc 2 w)),
)

pub bit_or-lt : (w a b : ℕ) → a < 2 ^ w → b < 2 ^ w → bit_or a b < 2 ^ w
bit_or-lt zero a b p q =
    let a0 : a ≡ 0 = omega arith in let b0 : b ≡ 0 = omega arith in rw (a0, b0) (omega arith)
bit_or-lt (suc w) a b p q = omega (
  arith,
  bit_or_step a b,
  pow-suc 2 w,
  bit_or-lt w (a / 2) (b / 2) (omega (arith, pow-suc 2 w)) (omega (arith, pow-suc 2 w)),
)

double_pow : (q k : ℕ) → q * 2 ^ suc k ≡ 2 * (q * 2 ^ k)
double_pow q k = omega (arith, ap (λ (t : ℕ). q * t) (pow-suc 2 k))

-- `(q << k) | r` is a sum when `r` fits `k` bits.
pub bit_or_fields : (k q r : ℕ) → r < 2 ^ k → bit_or (q * 2 ^ k) r ≡ q * 2 ^ k + r
bit_or_fields zero q r fits = ground (arith, bit_or-zero q)
bit_or_fields (suc k) q r fits = ground (
  arith,
  pow-suc 2 k,
  bit_or_step (q * 2 ^ suc k) r,
  double_pow q k,
  bit_or_fields k q (r / 2) (omega (arith, pow-suc 2 k)),
)

and_fields : (k q r : ℕ) → r < 2 ^ k → bit_and (q * 2 ^ k + r) (2 ^ k - 1) ≡ r
and_fields zero q r fits = rw bit_and-zero (omega arith)
and_fields (suc k) q r fits = ground (
  arith,
  one-le-pow k 2,
  bit_and_step (q * 2 ^ suc k + r) (2 ^ suc k - 1),
  double_pow q k,
  pow-suc 2 k,
  and_fields k q (r / 2) (omega (arith, pow-suc 2 k)),
)

-- `a & (2^k - 1)` keeps the `k` low digits.
pub bit_and_mask : (k a : ℕ) → bit_and a (2 ^ k - 1) ≡ a % 2 ^ k
bit_and_mask k a = ground (arith, one-le-pow k 2, and_fields k (a / 2 ^ k) (a % 2 ^ k))

-- `a & (1 << k)` is that digit in its place.
pub bit_and_pow : (k a : ℕ) → bit_and a (2 ^ k) ≡ bit k a * 2 ^ k
bit_and_pow zero a = omega (arith, bit_and_step a 1, bit_and-zero (a / 2))
bit_and_pow (suc k) a = ground (
  arith,
  bit_and_step a (2 ^ suc k),
  pow-suc 2 k,
  double_pow (bit k (a / 2)) k,
  bit_and_pow k (a / 2),
)

-- `&` works on two fields apart.
pub bit_and_fields :
    (k q r m n : ℕ)
    → r < 2 ^ k
    → n < 2 ^ k
    → bit_and (q * 2 ^ k + r) (m * 2 ^ k + n) ≡ bit_and q m * 2 ^ k + bit_and r n
bit_and_fields zero q r m n lr ln =
    let zr : r ≡ 0 = omega arith in
    let zn : n ≡ 0 = omega arith in rw (zr, zn, bit_and-zero) (ground arith)
bit_and_fields (suc k) q r m n lr ln = ground (
  arith,
  bit_and_step (q * 2 ^ suc k + r) (m * 2 ^ suc k + n),
  bit_and_step r n,
  double_pow q k,
  double_pow m k,
  double_pow (bit_and q m) k,
  bit_and_fields k q (r / 2) m (n / 2) (omega (arith, pow-suc 2 k)) (omega (arith, pow-suc 2 k)),
)

-- `|` works on two fields apart.
pub bit_or_two_fields :
    (k q r m n : ℕ)
    → r < 2 ^ k
    → n < 2 ^ k
    → bit_or (q * 2 ^ k + r) (m * 2 ^ k + n) ≡ bit_or q m * 2 ^ k + bit_or r n
bit_or_two_fields zero q r m n lr ln =
    let zr : r ≡ 0 = omega arith in
    let zn : n ≡ 0 = omega arith in rw (zr, zn, bit_or-zero) (ground arith)
bit_or_two_fields (suc k) q r m n lr ln = ground (
  arith,
  bit_or_step (q * 2 ^ suc k + r) (m * 2 ^ suc k + n),
  bit_or_step r n,
  double_pow q k,
  double_pow m k,
  double_pow (bit_or q m) k,
  bit_or_two_fields k q (r / 2) m (n / 2) (omega (arith, pow-suc 2 k)) (omega (arith, pow-suc 2 k)),
)
