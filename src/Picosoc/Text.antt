-- ===== src/Picosoc/Text.antt =====
-- `putchar`, `print`, `print_hex` and `print_dec` of picosoc/firmware.c.
pub mod Laws
pub mod Decimal
use picorv.Base.{
  ℕ, zero, suc, ◌+◌, ◌-◌, ◌*◌, ◌/◌, ◌%◌, ◌^◌, Bool, true, false, List, [], ◌∷◌, ◌++◌, not,
}
use picorv.Base.{ltb, leb, ◌==◌, ◌&&◌, if◌then◌else◌, get_or, bit_and, Option, none, some}
use picorv.Base.Text.{Bytes, codes}
use picorv.Base.Numeral.{lower_digits}
use picorv.Picosoc.Soc.{M, ◌>>=◌, ◌>>◌, pure, write_uart}

-- The call of `putchar` with '\r' inside only writes.
unfoldable pub putchar : ℕ → M (Unit {0})
putchar c = if c == b'\n' then (write_uart b'\r' >> write_uart c) else write_uart c

unfoldable pub print : Bytes → M (Unit {0})
unfolding putchar
print [] = pure tt
print (c ∷ p) = if not (c == 0) then (putchar c >> print p) else pure tt

-- The loop of `print_hex` with `left` rounds to go, so that `i` is `left - 1`.
unfoldable pub hex_rounds : ℕ → ℕ → ℕ → M (Unit {0})
unfolding putchar
hex_rounds zero v digits = pure tt
hex_rounds (suc i) v digits =
    let c : ℕ = get_or lower_digits (bit_and (v / 2 ^ (4 * i)) 15) 0 in
    let skip = hex_rounds i v digits in
    let show = putchar c >> hex_rounds i v i in if c == b'0' && leb digits i then skip else show

unfoldable pub print_hex : ℕ → ℕ → M (Unit {0})
unfolding hex_rounds
print_hex v digits = hex_rounds 8 v digits

-- One chain of tests of `print_dec`, from `v >= 9 * unit` down to `v >= 1 * unit`: the digit that
-- it prints, if any, and what is left of `v`.
unfoldable pub chain : ℕ → ℕ → ℕ → Option ℕ × ℕ
chain unit zero v = (none, v)
chain unit (suc k) v =
    if leb (suc k * unit) v then (some (b'0' + suc k), v - suc k * unit) else chain unit k v

unfoldable pub put_digit : Option ℕ → M (Unit {0})
unfolding putchar
put_digit none = pure tt
put_digit (some c) = putchar c

-- The last chain ends in `else putchar('0')`.
unfoldable pub put_last : Option ℕ → M (Unit {0})
unfolding putchar
put_last none = putchar b'0'
put_last (some c) = putchar c

unfoldable pub print_digits : ℕ → M (Unit {0})
unfolding chain put_digit put_last
print_digits v =
    let hundreds = chain 100 9 v in
    let tens = chain 10 9 hundreds.1 in
    let ones = chain 1 9 tens.1 in put_digit hundreds.0 >> put_digit tens.0 >> put_last ones.0

unfoldable pub print_dec : ℕ → M (Unit {0})
unfolding print print_digits
print_dec v = if leb 1000 v then print (codes ">=1000") else print_digits v
