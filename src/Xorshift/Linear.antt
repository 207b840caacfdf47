-- ===== src/Xorshift/Linear.antt =====
-- The generator permutes the 32-bit numbers and never leads to zero from another one.
use picorv.Base.{ℕ, zero, suc, ◌+◌, ◌*◌, ◌/◌, ◌%◌, ◌^◌, ◌<◌, ◌≡◌, ◌≢◌, arith, sym, ap, ◌∙◌, bit_xor}
use picorv.Base.Bits.{bit_xor_step, bit_xor_self, eq_of_bit_xor, bit_xor-lt}
use picorv.Xorshift.{xor_left, xor_right, xorshift32}
use native.Mathlib.Nat.{pow-suc, div-div-eq-div-mul, div-add-mod', mod-one}
use picorv.Base.{Bool-cases, inl, inr, ◌==◌, ==_iff}
use picorv.Base.Bits.{bit_ext, bit-bit_xor}

-- Shifts and cuts go through an exclusive or.
div-bit_xor : (k a b : ℕ) → bit_xor a b / 2 ^ k ≡ bit_xor (a / 2 ^ k) (b / 2 ^ k)
div-bit_xor zero a b =
    let e : (n : ℕ) → n / 2 ^ 0 ≡ n = λ n. omega arith in rw (e (bit_xor a b), e a, e b)
div-bit_xor (suc k) a b =
    rw (halves (bit_xor a b), halves a, halves b, halved) (div-bit_xor k (a / 2) (b / 2))
  where
    halves : (n : ℕ) → n / 2 ^ suc k ≡ n / 2 / 2 ^ k
    halves n =
        let e : 2 ^ suc k ≡ 2 * 2 ^ k = omega (arith, pow-suc 2 k) in
        rw e (sym (div-div-eq-div-mul n 2 (2 ^ k)))

    halved : bit_xor a b / 2 ≡ bit_xor (a / 2) (b / 2)
    halved = omega (arith, bit_xor_step a b)

mul-bit_xor : (k a b : ℕ) → bit_xor a b * 2 ^ k ≡ bit_xor (a * 2 ^ k) (b * 2 ^ k)
mul-bit_xor zero a b =
    let e : (n : ℕ) → n * 2 ^ 0 ≡ n = λ n. omega arith in rw (e (bit_xor a b), e a, e b)
mul-bit_xor (suc k) a b =
    rw (doubles (bit_xor a b), doubles a, doubles b)
      (omega (
        arith,
        bit_xor_step (a * 2 ^ k * 2) (b * 2 ^ k * 2),
        mul-bit_xor k a b,
        ap (λ x. bit_xor x (b * 2 ^ k * 2 / 2)) (half (a * 2 ^ k)),
        ap (bit_xor (a * 2 ^ k)) (half (b * 2 ^ k)),
      ))
  where
    doubles : (n : ℕ) → n * 2 ^ suc k ≡ n * 2 ^ k * 2
    doubles n = omega (arith, ap (λ (t : ℕ). n * t) (pow-suc 2 k))

    half : (n : ℕ) → n * 2 / 2 ≡ n
    half n = omega arith

mod_halves : (w n : ℕ) → n % 2 ^ suc w ≡ n / 2 % 2 ^ w * 2 + n % 2
mod_halves w n =
    let e : 2 ^ suc w ≡ 2 * 2 ^ w = omega (arith, pow-suc 2 w) in
    rw e (
      omega (
        arith,
        div-add-mod' n (2 * 2 ^ w),
        div-add-mod' (n / 2) (2 ^ w),
        ap (λ (t : ℕ). t * 2 ^ w) (div-div-eq-div-mul n 2 (2 ^ w)),
      ))

mod-bit_xor : (w a b : ℕ) → bit_xor a b % 2 ^ w ≡ bit_xor (a % 2 ^ w) (b % 2 ^ w)
mod-bit_xor zero a b = rw (mod-one, mod-one a, mod-one b)
mod-bit_xor (suc w) a b =
    rw (mod_halves w (bit_xor a b), halved, mod-bit_xor w (a / 2) (b / 2))
      (omega (
        arith,
        bit_xor_step a b,
        bit_xor_step (a % 2 ^ suc w) (b % 2 ^ suc w),
        mod_halves w a,
        mod_halves w b,
        ap (λ x. bit_xor x (b % 2 ^ suc w / 2)) (upper a),
        ap (bit_xor (a / 2 % 2 ^ w)) (upper b),
      ))
  where
    halved : bit_xor a b / 2 ≡ bit_xor (a / 2) (b / 2)
    halved = omega (arith, bit_xor_step a b)

    upper : (n : ℕ) → n % 2 ^ suc w / 2 ≡ n / 2 % 2 ^ w
    upper n = omega (arith, mod_halves w n)

regroup : (a b c d : ℕ) → bit_xor (bit_xor a b) (bit_xor c d) ≡ bit_xor (bit_xor a c) (bit_xor b d)
regroup a b c d = bit_ext _ _ (λ k. omega (
  arith,
  bit-bit_xor k (bit_xor a b) (bit_xor c d),
  bit-bit_xor k (bit_xor a c) (bit_xor b d),
  bit-bit_xor k a b,
  bit-bit_xor k c d,
  bit-bit_xor k a c,
  bit-bit_xor k b d,
))

xor_left-bit_xor : (k a b : ℕ) → xor_left k (bit_xor a b) ≡ bit_xor (xor_left k a) (xor_left k b)
unfolding xor_left
xor_left-bit_xor k a b =
    rw (mul-bit_xor k a b, mod-bit_xor 32 (a * 2 ^ k) (b * 2 ^ k)) (regroup a b _ _)

xor_right-bit_xor :
    (k a b : ℕ) → xor_right k (bit_xor a b) ≡ bit_xor (xor_right k a) (xor_right k b)
unfolding xor_right
xor_right-bit_xor k a b = rw (div-bit_xor k a b) (regroup a b _ _)

-- The state after a call is linear in the state before.
xorshift32-bit_xor : (a b : ℕ) → xorshift32 (bit_xor a b) ≡ bit_xor (xorshift32 a) (xorshift32 b)
unfolding xorshift32
xorshift32-bit_xor a b = rw (xor_left-bit_xor 13 a b, xor_right-bit_xor 17, xor_left-bit_xor 5)

-- Each of the three steps leads to zero only from zero.
xor_left_13-zero : (x : ℕ) → x < 2 ^ 32 → xor_left 13 x ≡ 0 → x ≡ 0
unfolding xor_left
xor_left_13-zero x h e = omega (arith, eq_of_bit_xor x (x * 2 ^ 13 % 2 ^ 32) e)

xor_right_17-zero : (x : ℕ) → xor_right 17 x ≡ 0 → x ≡ 0
unfolding xor_right
xor_right_17-zero x e = omega (arith, eq_of_bit_xor x (x / 2 ^ 17) e)

xor_left_5-zero : (x : ℕ) → x < 2 ^ 32 → xor_left 5 x ≡ 0 → x ≡ 0
unfolding xor_left
xor_left_5-zero x h e = omega (arith, eq_of_bit_xor x (x * 2 ^ 5 % 2 ^ 32) e)

xor_left-lt : (k x : ℕ) → x < 2 ^ 32 → xor_left k x < 2 ^ 32
unfolding xor_left
xor_left-lt k x h = bit_xor-lt 32 x _ h (omega arith)

xor_right_17-lt : (x : ℕ) → x < 2 ^ 32 → xor_right 17 x < 2 ^ 32
unfolding xor_right
xor_right_17-lt x h = bit_xor-lt 32 x _ h (omega arith)

-- The state stays a 32-bit number.
pub xorshift32-lt : (x : ℕ) → x < 2 ^ 32 → xorshift32 x < 2 ^ 32
unfolding xorshift32
xorshift32-lt x h = xor_left-lt 5 _ (xor_right_17-lt _ (xor_left-lt 13 x h))

-- A state other than zero never leads to zero.
pub xorshift32-ne-zero : (x : ℕ) → x < 2 ^ 32 → x ≢ 0 → xorshift32 x ≢ 0
unfolding xorshift32
xorshift32-ne-zero x h ne e = ne (
    xor_left_13-zero x h
      (xor_right_17-zero _ (xor_left_5-zero _ (xor_right_17-lt _ (xor_left-lt 13 x h)) e)))

-- Different 32-bit states lead to different ones, so that the generator permutes them: it runs in
-- cycles, and zero is a cycle of its own.
pub xorshift32_injective : (x y : ℕ) → x < 2 ^ 32 → y < 2 ^ 32 → xorshift32 x ≡ xorshift32 y → x ≡ y
xorshift32_injective x y hx hy e = elim (Bool-cases (bit_xor x y == 0)) [
  | inl same ↦ eq_of_bit_xor x y ((==_iff _ 0).0 same)
  | inr other ↦ absurd (
      xorshift32-ne-zero (bit_xor x y) (bit_xor-lt 32 x y hx hy) (ground arith)
        (xorshift32-bit_xor x y ∙ ap (λ z. bit_xor z (xorshift32 y)) e ∙ bit_xor_self _))
]
