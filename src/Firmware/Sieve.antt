-- ===== src/Firmware/Sieve.antt =====
-- firmware/sieve.c.
pub mod Bitmap
pub mod Marking
pub mod Primes
pub mod Output
use picorv.Base.{ℕ, zero, suc, ◌+◌, ◌-◌, ◌*◌, ◌/◌, ◌%◌, ◌^◌, Bool, true, false, List, [], ◌∷◌, not}
use picorv.Base.{
  Option, none, some, ltb, leb, ◌==◌, if◌then◌else◌, get_or, set, bit_and, bit_or, bit_xor,
}
use picorv.Base.Text.{Bytes, codes}
use picorv.Console.{Io, ◌>>=◌, ◌>>◌, pure, ebreak, fault}
use picorv.Firmware.Print.{print_str, print_dec, print_hex}

abbrev pub bitmap_size : ℕ
bitmap_size = 64

-- The two static variables. `bitmap` is an array of BITMAP_SIZE / 32 words.
pub record Statics : Type 0 where
  pub bitmap : List ℕ
  pub hash : ℕ

pub mkhash : ℕ → ℕ → ℕ
mkhash a b = bit_xor ((a * 2 ^ 5 % 2 ^ 32 + a) % 2 ^ 32) b

-- The callers keep `idx` below BITMAP_SIZE.
unfoldable pub bitmap_set : List ℕ → ℕ → List ℕ
bitmap_set bitmap idx = set bitmap (idx / 32) (bit_or (get_or bitmap (idx / 32) 0) (2 ^ (idx % 32)))

unfoldable pub bitmap_get : List ℕ → ℕ → Bool
bitmap_get bitmap idx = not (bit_and (get_or bitmap (idx / 32) 0) (2 ^ (idx % 32)) == 0)

-- The suffix that the `if` and the `switch` choose.
ordinal_suffix : ℕ → Bytes
ordinal_suffix idx =
    if idx / 10 == 1
    then codes "th"
    else if idx % 10 == 1
    then codes "st"
    else if idx % 10 == 2
    then codes "nd"
    else if idx % 10 == 3
    then codes "rd"
    else codes "th"

unfoldable pub print_prime : ℕ → ℕ → Statics → Io Statics
unfolding ordinal_suffix mkhash
print_prime idx val s = do
  if ltb idx 10 then print_str (codes " ") else pure tt
  print_dec idx
  print_str (ordinal_suffix idx)
  print_str (codes " prime is ")
  print_dec val
  print_str (codes ".\n")
  pure (record s { hash = mkhash (mkhash s.hash idx) val })

-- The inner loop of `sieve`, where `p` is `3 + 2 * i`. `none` means that the fuel ran out.
unfoldable pub mark_multiples : ℕ → ℕ → ℕ → List ℕ → Option (List ℕ)
mark_multiples zero p j bitmap = none
mark_multiples (suc fuel) p j bitmap =
    let skip = mark_multiples fuel p (j + p) bitmap in
    let k : ℕ = (j - 3) / 2 in
    let mark = mark_multiples fuel p (j + p) (bitmap_set bitmap k) in
    if j % 2 == 0 then skip else if leb bitmap_size k then some bitmap else mark

-- Enough for every `p` from 3 and `j` from `2 * p`.
abbrev pub mark_fuel : ℕ
mark_fuel = 134

or_fault : Option (List ℕ) → Io (List ℕ)
or_fault none = fault
or_fault (some bitmap) = pure bitmap

-- The outer loop of `sieve` with `left` rounds to go.
unfoldable pub sieve_rounds : ℕ → ℕ → ℕ → Statics → Io Statics
unfolding or_fault
sieve_rounds zero i idx s = pure s
sieve_rounds (suc left) i idx s = elim (bitmap_get s.bitmap i) [
  | true ↦ sieve_rounds left (i + 1) idx s
  | false ↦ do
    t ← print_prime idx (3 + 2 * i) s
    bitmap ← or_fault (mark_multiples mark_fuel (3 + 2 * i) (2 * (3 + 2 * i)) t.bitmap)
    sieve_rounds left (i + 1) (idx + 1) (record t { bitmap = bitmap })
]

unfoldable pub sieve : Statics → Io Statics
sieve s = do
  s1 ← print_prime 1 2 (record s { hash = 5381 })
  s2 ← sieve_rounds bitmap_size 0 2 s1
  print_str (codes "checksum: ")
  print_hex s2.hash 8
  if s2.hash == 0x1772A48F
      then (print_str (codes " OK\n") >> pure s2)
      else (print_str (codes " ERROR\n") >> ebreak)
