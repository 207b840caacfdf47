-- ===== src/Dhrystone/Stdlib.antt =====
-- dhrystone/stdlib.c: `malloc`, `printf` and `memcpy`.
pub mod Laws
pub mod Format
use picorv.Base.{
  ℕ, zero, suc, ◌+◌, ◌-◌, ◌*◌, ◌/◌, ◌%◌, ◌^◌, ◌≤◌, ◌<◌, Bool, true, false, not, ◌||◌, List, [], ◌∷◌,
}
use picorv.Base.{ltb, leb, ◌==◌, if◌then◌else◌}
use picorv.Base.Text.{Bytes, codes}
use picorv.Console.{Io, ◌>>=◌, ◌>>◌, pure, put, ebreak, fault}

-- `malloc`, as an offset into `heap_memory`, with the new `heap_memory_used`.
unfoldable pub malloc : ℕ → ℕ → Io (record { p : ℕ; used : ℕ })
malloc used size =
    if ltb 1024 (used + size) then ebreak else pure (record { p = used; used = used + size })

-- An `int`.
pub data SignMagnitude : Type 0 where
  nonneg : ℕ → SignMagnitude
  minus : ℕ → SignMagnitude

-- The int32_t range; `minus n` is -n.
abbrev pub IsInt32 : SignMagnitude → Type 0
IsInt32 (nonneg n) = n < 2 ^ 31
IsInt32 (minus n) = (1 ≤ n) × (n ≤ 2 ^ 31)

unfoldable pub printf_c : ℕ → Io (Unit {0})
printf_c c = put c

unfoldable pub printf_s : Bytes → Io (Unit {0})
printf_s [] = pure tt
printf_s (c ∷ p) = let rest = put c >> printf_s p in if c == 0 then pure tt else rest

abbrev is_empty : Bytes → Bool
is_empty [] = true
is_empty (c ∷ s) = false

-- The first loop of `printf_d`, for a value that is not negative; the list is `buffer` up to `p`,
-- its last byte first, and the first argument the room behind `p`.
store_digits : ℕ → ℕ → Bytes → Io Bytes
store_digits zero val buffer = if not (val == 0) || is_empty buffer then fault else pure buffer
store_digits (suc room) val buffer =
    let rest = store_digits room (val / 10) ((b'0' + val % 10) ∷ buffer) in
    if not (val == 0) || is_empty buffer then rest else pure buffer

write_back : Bytes → Io (Unit {0})
unfolding printf_c
write_back [] = pure tt
write_back (c ∷ buffer) = printf_c c >> write_back buffer

-- `val = -val` is undefined for the least int.
unfoldable pub printf_d : SignMagnitude → Io (Unit {0})
unfolding store_digits write_back printf_c
printf_d (nonneg val) = do buffer ← store_digits 32 val []; write_back buffer
printf_d (minus val) = do
  printf_c b'-'
  if leb (2 ^ 31) val then fault else (do buffer ← store_digits 32 val []; write_back buffer)

-- An argument behind the format.
pub data Arg : Type 0 where
  char : ℕ → Arg
  text : Bytes → Arg
  int : SignMagnitude → Arg

-- A conversion by its letter. An argument of another type, or none, is undefined.
convert : ℕ → List Arg → Io (List Arg)
unfolding printf_c printf_s printf_d
convert c [] = fault
convert c (char v ∷ args) = if c == b'c' then (do printf_c v; pure args) else fault
convert c (text p ∷ args) = if c == b's' then (do printf_s p; pure args) else fault
convert c (int v ∷ args) = if c == b'd' then (do printf_d v; pure args) else fault

abbrev is_conversion : ℕ → Bool
is_conversion c = c == b'c' || c == b's' || c == b'd'

-- The loop of `printf` over the rest of the format; true when it stands behind a '%' whose letter
-- has not come yet. If the format ends there, the outer loop steps over its NUL and reads on:
-- undefined.
scan : Bool → Bytes → List Arg → Io (Unit {0})
unfolding convert
scan false [] args = pure tt
scan true [] args = fault
scan false (c ∷ format) args =
    let conversion = scan true format args in
    let plain = printf_c c >> scan false format args in if c == b'%' then conversion else plain
scan true (c ∷ format) args =
    let next = (do rest ← convert c args; scan false format rest) in
    let skip = scan true format args in if is_conversion c then next else skip

-- The format without its NUL.
unfoldable pub printf : Bytes → List Arg → Io (Unit {0})
unfolding scan
printf format args = scan false format args

-- A memory of bytes, and `memcpy` with `n` bytes to go.
abbrev pub Memory : Type 0
Memory = ℕ → ℕ

abbrev pub store : Memory → ℕ → ℕ → Memory
store mem a v b = if a == b then v else mem b

unfoldable pub memcpy : ℕ → ℕ → ℕ → Memory → Memory
memcpy zero a b mem = mem
memcpy (suc n) a b mem = memcpy n (a + 1) (b + 1) (store mem a (mem b))
