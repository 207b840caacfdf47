-- ===== src/Pcpi/Mul/Laws.antt =====
-- The multiplier refines the C arithmetic of firmware/multest.c.
use picorv.Base.{ℕ, ◌-◌, ◌*◌, ◌/◌, ◌%◌, ◌^◌, ◌<◌, ◌≡◌, refl, arith}
use picorv.Base.{◌==◌, if◌then◌else◌, inl, inr, ◌⊎◌, some, none}
use picorv.Firmware.Multest.{soft_mul, soft_mulh, soft_mulhsu, soft_mulhu, extend}
use picorv.Pcpi.{Request, Requests}
use picorv.Pcpi.Mul.{Multiplier, answer, sign_extend}
use picorv.Pcpi.Mul.Rounds.{IsMultiplying, low_product, full_product}
use picorv.Pcpi.Mul.Clocks.{IsIdle, answer-given}

-- What the M extension asks for.
abbrev pub product : ℕ → ℕ → ℕ → ℕ
product f a b =
    if f == 0
    then soft_mul a b
    else if f == 1
    then soft_mulh a b
    else if f == 2
    then soft_mulhsu a b
    else soft_mulhu a b

-- The clocks that a multiplication takes: 32 or 64 rounds, and four clocks around them.
abbrev pub clocks : ℕ → ℕ
clocks f = if f == 0 then 36 else 68

module _ (a b : ℕ) (la : a < 2 ^ 32) (lb : b < 2 ^ 32) where
  half_mul : (t : Multiplier) → IsMultiplying a b 32 t → t.rd % 2 ^ 32 ≡ soft_mul a b
  unfolding soft_mul
  half_mul t m = low_product a b t la m

  high_half :
      (x y : ℕ) (t : Multiplier)
      → x < 2 ^ 64
      → IsMultiplying x y 64 t
      → t.rd / 2 ^ 32 % 2 ^ 32 ≡ x * y % 2 ^ 64 / 2 ^ 32
  high_half x y t lx m = omega (arith, full_product x y t lx m)

  sign_extend-extend : (x : ℕ) → x < 2 ^ 32 → sign_extend x ≡ extend x
  sign_extend-extend x h = ground arith

  sign_extend-lt : (x : ℕ) → x < 2 ^ 32 → sign_extend x < 2 ^ 64
  sign_extend-lt x h = ground arith

  half_mulh :
      (t : Multiplier)
      → IsMultiplying (sign_extend a) (sign_extend b) 64 t
      → t.rd / 2 ^ 32 % 2 ^ 32 ≡ soft_mulh a b
  unfolding soft_mulh
  half_mulh t m =
      rw (← sign_extend-extend a la, ← sign_extend-extend b lb)
        (high_half (sign_extend a) (sign_extend b) t (sign_extend-lt a la) m)

  half_mulhsu :
      (t : Multiplier)
      → IsMultiplying (sign_extend a) b 64 t
      → t.rd / 2 ^ 32 % 2 ^ 32 ≡ soft_mulhsu a b
  unfolding soft_mulhsu
  half_mulhsu t m =
      rw (← sign_extend-extend a la) (high_half (sign_extend a) b t (sign_extend-lt a la) m)

  half_mulhu : (t : Multiplier) → IsMultiplying a b 64 t → t.rd / 2 ^ 32 % 2 ^ 32 ≡ soft_mulhu a b
  unfolding soft_mulhu
  half_mulhu t m = high_half a b t (omega arith) m

-- For a request that the core holds, out of reset, for `mul`, `mulh`, `mulhsu` or `mulhu` (the values
-- 0 to 3 of funct3) on 32-bit operands, the multiplier, started with idle registers, answers with
-- the half of the product that the C code of firmware/multest.c computes: `mul` in its 36th clock,
-- the others in their 68th, and not before.
pub multiplier-multiplies :
    {i : Request} {f : ℕ} (s : Multiplier)
    → Requests i f
    → f < 4
    → i.rs1 < 2 ^ 32
    → i.rs2 < 2 ^ 32
    → IsIdle s
    → (answer (clocks f - 1) i s ≡ none) × (answer (clocks f) i s ≡ some (product f i.rs1 i.rs2))
multiplier-multiplies {i} {f} s r low la lb idle = elim (four f low) [
  | inl (inl e) ↦
      let at : Requests i 0 = rw e at r in
      rw e (
        answer-given at (omega arith) (i.rs1) (i.rs2) (soft_mul i.rs1 i.rs2)
          (half_mul i.rs1 i.rs2 la lb) 31 s refl refl refl la lb idle)
  | inl (inr e) ↦
      let at : Requests i 1 = rw e at r in
      rw e (
        answer-given at (omega arith) (sign_extend i.rs1) (sign_extend i.rs2)
          (soft_mulh i.rs1 i.rs2) (half_mulh i.rs1 i.rs2 la lb) 63 s refl refl refl la lb idle)
  | inr (inl e) ↦
      let at : Requests i 2 = rw e at r in
      rw e (
        answer-given at (omega arith) (sign_extend i.rs1) (i.rs2) (soft_mulhsu i.rs1 i.rs2)
          (half_mulhsu i.rs1 i.rs2 la lb) 63 s refl refl refl la lb idle)
  | inr (inr e) ↦
      let at : Requests i 3 = rw e at r in
      rw e (
        answer-given at (omega arith) (i.rs1) (i.rs2) (soft_mulhu i.rs1 i.rs2)
          (half_mulhu i.rs1 i.rs2 la lb) 63 s refl refl refl la lb idle)
]
  where
    four : (f : ℕ) → f < 4 → ((f ≡ 0) ⊎ (f ≡ 1)) ⊎ ((f ≡ 2) ⊎ (f ≡ 3))
    four f low = ground arith
