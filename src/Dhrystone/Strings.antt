-- ===== src/Dhrystone/Strings.antt =====
-- `strcpy` and `strcmp` of dhrystone/stdlib.c: byte by byte while one of the pointers is not
-- aligned, then word by word. `none` means that the fuel ran out. Addresses stay below 2 ^ 32.
pub mod Zero
pub mod Compare
pub mod Copy
pub mod Laws
use picorv.Base.{ℕ, zero, suc, ◌+◌, ◌-◌, ◌*◌, ◌/◌, ◌%◌, ◌^◌, Bool, not, ltb, ◌==◌, if◌then◌else◌}
use picorv.Base.{Option, none, some, bit_and, bit_or}
use picorv.Dhrystone.Stdlib.{Memory, store, SignMagnitude, nonneg, minus}

-- `*(uint32_t*)a` on a little-endian machine, and `*(uint32_t*)a = v`.
unfoldable pub load_word : Memory → ℕ → ℕ
load_word mem a = mem a + 2 ^ 8 * mem (a + 1) + 2 ^ 16 * mem (a + 2) + 2 ^ 24 * mem (a + 3)

unfoldable pub store_word : Memory → ℕ → ℕ → Memory
store_word mem a v =
    store
      (store (store (store mem a (v % 2 ^ 8)) (a + 1) (v / 2 ^ 8 % 2 ^ 8)) (a + 2)
        (v / 2 ^ 16 % 2 ^ 8))
      (a + 3) (v / 2 ^ 24 % 2 ^ 8)

-- `((v - 0x01010101UL) & ~v & 0x80808080UL)` is not zero.
unfoldable pub has_zero : ℕ → Bool
has_zero v =
    not (bit_and (bit_and ((v + 2 ^ 32 - 0x01010101) % 2 ^ 32) (2 ^ 32 - 1 - v)) 0x80808080 == 0)

-- `((uint32_t)a | (uint32_t)b) & 3` is zero.
unfoldable pub both_aligned : ℕ → ℕ → Bool
both_aligned a b = bit_and (bit_or a b) 3 == 0

-- The last word of `strcpy`, with `left` bytes behind this one; the last byte is not tested.
unfoldable pub store_tail : ℕ → ℕ → ℕ → Memory → Memory
store_tail zero dst v mem = store mem dst (v % 2 ^ 8)
store_tail (suc left) dst v mem =
    let stored = store mem dst (v % 2 ^ 8) in
    let rest = store_tail left (dst + 1) (v / 2 ^ 8) stored in
    if v % 2 ^ 8 == 0 then stored else rest

unfoldable pub copy_words : ℕ → ℕ → ℕ → Memory → Option Memory
copy_words zero dst src mem = none
copy_words (suc fuel) dst src mem =
    let v : ℕ = load_word mem src in
    let rest = copy_words fuel (dst + 4) (src + 4) (store_word mem dst v) in
    if has_zero v then some (store_tail 3 dst v mem) else rest

-- The memory that `strcpy` leaves; it returns `dst`.
unfoldable pub strcpy : ℕ → ℕ → ℕ → Memory → Option Memory
strcpy zero dst src mem = none
strcpy (suc fuel) dst src mem =
    let stored = store mem dst (mem src) in
    let rest = strcpy fuel (dst + 1) (src + 1) stored in
    if both_aligned dst src
    then copy_words (suc fuel) dst src mem
    else if mem src == 0
    then some stored
    else rest

-- `c1 < c2 ? -1 : +1`, where `char` is unsigned as it is on RISC-V.
abbrev pub order : ℕ → ℕ → SignMagnitude
order c1 c2 = if ltb c1 c2 then minus 1 else nonneg 1

-- Two words that differ, with the bytes to go.
unfoldable pub compare_tail : ℕ → ℕ → ℕ → SignMagnitude
compare_tail zero v1 v2 = nonneg 0
compare_tail (suc left) v1 v2 =
    let rest = compare_tail left (v1 / 2 ^ 8) (v2 / 2 ^ 8) in
    if not (v1 % 2 ^ 8 == v2 % 2 ^ 8)
    then order (v1 % 2 ^ 8) (v2 % 2 ^ 8)
    else if v1 % 2 ^ 8 == 0
    then nonneg 0
    else rest

unfoldable pub compare_words : ℕ → ℕ → ℕ → Memory → Option SignMagnitude
compare_words zero s1 s2 mem = none
compare_words (suc fuel) s1 s2 mem =
    let rest = compare_words fuel (s1 + 4) (s2 + 4) mem in
    let v1 : ℕ = load_word mem s1 in
    let v2 : ℕ = load_word mem s2 in
    if not (v1 == v2)
    then some (compare_tail 4 v1 v2)
    else if has_zero v1
    then some (nonneg 0)
    else rest

unfoldable pub strcmp : ℕ → ℕ → ℕ → Memory → Option SignMagnitude
strcmp zero s1 s2 mem = none
strcmp (suc fuel) s1 s2 mem =
    let rest = strcmp fuel (s1 + 1) (s2 + 1) mem in
    if both_aligned s1 s2
    then compare_words (suc fuel) s1 s2 mem
    else if not (mem s1 == mem s2)
    then some (order (mem s1) (mem s2))
    else if mem s1 == 0
    then some (nonneg 0)
    else rest
