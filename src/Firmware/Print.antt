-- ===== src/Firmware/Print.antt =====
-- firmware/print.c. A C string is the list of its bytes; the end of the list is a NUL too.
pub mod Laws
use picorv.Base.{ℕ, zero, suc, ◌+◌, ◌*◌, ◌/◌, ◌%◌, ◌^◌, Bool, true, false, List, [], ◌∷◌, not, ◌||◌}
use picorv.Base.{ltb, ◌==◌, if◌then◌else◌, get_or}
use picorv.Base.Text.{Bytes}
use picorv.Base.Numeral.{upper_digits}
use picorv.Console.{Io, ◌>>=◌, ◌>>◌, pure, put, fault}

unfoldable pub print_chr : ℕ → Io (Unit {0})
print_chr ch = put ch

unfoldable pub print_str : Bytes → Io (Unit {0})
print_str [] = pure tt
print_str (c ∷ p) = if not (c == 0) then (put c >> print_str p) else pure tt

abbrev is_empty : Bytes → Bool
is_empty [] = true
is_empty (c ∷ s) = false

-- The first loop of `print_dec`. The list is `buffer` up to `p`, its last byte first, and the
-- first argument is the number of bytes of `buffer` behind `p`: a store past them is undefined.
store_digits : ℕ → ℕ → Bytes → Io Bytes
store_digits zero val buffer = if not (val == 0) || is_empty buffer then fault else pure buffer
store_digits (suc room) val buffer =
    let rest = store_digits room (val / 10) (val % 10 ∷ buffer) in
    if not (val == 0) || is_empty buffer then rest else pure buffer

-- The second loop, `while (p != buffer)`.
write_digits : Bytes → Io (Unit {0})
write_digits [] = pure tt
write_digits (d ∷ buffer) = put (b'0' + d) >> write_digits buffer

unfoldable pub print_dec : ℕ → Io (Unit {0})
unfolding store_digits write_digits
print_dec val = do buffer ← store_digits 10 val []; write_digits buffer

-- The loop of `print_hex` with `i = 4 * j` in its next round. A shift by 32 or more is undefined.
hex_rounds : ℕ → ℕ → Io (Unit {0})
hex_rounds zero val = pure tt
hex_rounds (suc j) val =
    if ltb (4 * j) 32
    then (put (get_or upper_digits (val / 2 ^ (4 * j) % 16) 0) >> hex_rounds j val)
    else fault

unfoldable pub print_hex : ℕ → ℕ → Io (Unit {0})
unfolding hex_rounds
print_hex val digits = hex_rounds digits val
