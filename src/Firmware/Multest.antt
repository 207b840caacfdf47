-- ===== src/Firmware/Multest.antt =====
-- firmware/multest.c: the multiplier and the divider of the core against C arithmetic.
pub mod Laws
use picorv.Base.{
  ℕ, zero, suc, ◌+◌, ◌-◌, ◌*◌, ◌/◌, ◌%◌, ◌^◌, Bool, true, false, not, ◌&&◌, ◌||◌, ltb, ◌==◌,
  if◌then◌else◌, [], ◌∷◌,
}
use picorv.Base.{bit_and, bit_or}
use picorv.Base.Text.{Bytes, codes}
use picorv.Console.{Io, ◌>>=◌, ◌>>◌, pure, ebreak}
use picorv.Firmware.Print.{print_chr, print_str, print_hex}
use picorv.Xorshift.{xorshift32}

-- `hard_mul` and its like, on 32-bit patterns: routines of firmware/start.S of one instruction
-- each, whose results are those of the core under test.
pub record Hard : Type 0 where
  pub mul : ℕ → ℕ → ℕ
  pub mulh : ℕ → ℕ → ℕ
  pub mulhsu : ℕ → ℕ → ℕ
  pub mulhu : ℕ → ℕ → ℕ
  pub div : ℕ → ℕ → ℕ
  pub divu : ℕ → ℕ → ℕ
  pub rem : ℕ → ℕ → ℕ
  pub remu : ℕ → ℕ → ℕ

-- `(int64_t)(int32_t)a` as a 64-bit pattern.
abbrev pub extend : ℕ → ℕ
extend a = if ltb a (2 ^ 31) then a else a + 2 ^ 64 - 2 ^ 32

-- The sign and the size of an int64_t, and the pattern of an integer with them.
abbrev pub negative : ℕ → Bool
negative a = not (ltb a (2 ^ 63))

abbrev pub magnitude : ℕ → ℕ
magnitude a = if ltb a (2 ^ 63) then a else 2 ^ 64 - a

abbrev pub signed : Bool → ℕ → ℕ
signed minus n = if minus then (2 ^ 64 - n) % 2 ^ 64 else n

-- `a / b` and `a % b` on int64_t: the quotient is cut towards zero, and the remainder has the
-- sign of `a`.
abbrev pub divide64 : ℕ → ℕ → ℕ
divide64 a b =
    signed (if negative a then not (negative b) else negative b) (magnitude a / magnitude b)

abbrev pub remainder64 : ℕ → ℕ → ℕ
remainder64 a b = signed (negative a) (magnitude a % magnitude b)

-- The `s_` variables.
unfoldable pub soft_mul : ℕ → ℕ → ℕ
soft_mul a b = a * b % 2 ^ 32

unfoldable pub soft_mulh : ℕ → ℕ → ℕ
soft_mulh a b = extend a * extend b % 2 ^ 64 / 2 ^ 32

unfoldable pub soft_mulhsu : ℕ → ℕ → ℕ
soft_mulhsu a b = extend a * b % 2 ^ 64 / 2 ^ 32

unfoldable pub soft_mulhu : ℕ → ℕ → ℕ
soft_mulhu a b = a * b % 2 ^ 64 / 2 ^ 32

unfoldable pub soft_div : ℕ → ℕ → ℕ
soft_div a b = if b == 0 then 0xffffffff else divide64 (extend a) (extend b) % 2 ^ 32

unfoldable pub soft_divu : ℕ → ℕ → ℕ
soft_divu a b = if b == 0 then 0xffffffff else a / b

unfoldable pub soft_rem : ℕ → ℕ → ℕ
soft_rem a b = if b == 0 then a else remainder64 (extend a) (extend b) % 2 ^ 32

unfoldable pub soft_remu : ℕ → ℕ → ℕ
soft_remu a b = if b == 0 then a else a % b

-- The operands of round `i`, from those that the generator gave.
pub operand_a : ℕ → ℕ → ℕ
operand_a i a =
    if i == 0
    then 0x80000000
    else if i == 1
    then 0
    else if i == 2
    then bit_or a 0x80000000
    else if i == 3
    then bit_and a 0x7FFFFFFF
    else a

pub operand_b : ℕ → ℕ → ℕ
operand_b i b = if i == 0 then 0xFFFFFFFF else if i == 1 || (i == 2 || i == 3) then 0 else b

-- Four numbers in a row, and what ends the row.
pub print_row : Bytes → ℕ → ℕ → ℕ → ℕ → Bytes → Io (Unit {0})
print_row name w x y z end = do
  print_str name
  print_hex w 8
  print_str (codes "  ")
  print_hex x 8
  print_str (codes "  ")
  print_hex y 8
  print_str (codes "  ")
  print_hex z 8
  print_str end

-- `if (...) { print_str("ERROR!\n"); ebreak; return; } print_str(" OK\n");`
pub verdict : Bool → Io (Unit {0})
verdict same = if same then print_str (codes " OK\n") else (print_str (codes "ERROR!\n") >> ebreak)

-- The body of the loop behind the `switch`.
unfoldable pub test_round : Hard → ℕ → ℕ → Io (Unit {0})
unfolding print_row verdict
test_round hard a b = do
  print_str (codes "input     [")
  print_hex (extend a / 2 ^ 32) 8
  print_str (codes "] ")
  print_hex a 8
  print_str (codes " [")
  print_hex (extend b / 2 ^ 32) 8
  print_str (codes "] ")
  print_hex b 8
  print_chr b'\n'
  print_row (codes "hard mul   ") (hard.mul a b) (hard.mulh a b) (hard.mulhsu a b) (hard.mulhu a b)
      (codes "\n")
  print_row (codes "soft mul   ") (soft_mul a b) (soft_mulh a b) (soft_mulhsu a b) (soft_mulhu a b)
      (codes "  ")
  verdict (
      soft_mul a b == hard.mul a b
      && (soft_mulh a b == hard.mulh a b
          && (soft_mulhsu a b == hard.mulhsu a b && soft_mulhu a b == hard.mulhu a b)))
  print_row (codes "hard div   ") (hard.div a b) (hard.divu a b) (hard.rem a b) (hard.remu a b)
      (codes "\n")
  print_row (codes "soft div   ") (soft_div a b) (soft_divu a b) (soft_rem a b) (soft_remu a b)
      (codes "  ")
  verdict (
      soft_div a b == hard.div a b
      && (soft_divu a b == hard.divu a b
          && (soft_rem a b == hard.rem a b && soft_remu a b == hard.remu a b)))

-- The loop, with the rounds to go and the static state of the generator, which it returns.
unfoldable pub test_rounds : Hard → ℕ → ℕ → ℕ → Io ℕ
unfolding operand_a operand_b
test_rounds hard zero i x = pure x
test_rounds hard (suc left) i x = do
  let a = xorshift32 x
  let b = xorshift32 (xorshift32 x)
  test_round hard (operand_a i a) (operand_b i b)
  test_rounds hard left (i + 1) (xorshift32 (xorshift32 x))

unfoldable pub multest : Hard → ℕ → Io ℕ
unfolding test_rounds
multest hard x = test_rounds hard 15 0 x
