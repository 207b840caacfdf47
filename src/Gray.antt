-- ===== src/Gray.antt =====
-- scripts/icestorm/firmware.c: a counter shown in Gray code, by two encoders and a decoder that
-- check one another.
pub mod Laws
use picorv.Base.{
  ℕ, zero, suc, ◌+◌, ◌-◌, ◌*◌, ◌/◌, ◌%◌, ◌^◌, Bool, not, ◌||◌, ◌==◌, if◌then◌else◌, bit_and, bit_or,
  bit_xor,
}
use picorv.Console.{Io, ◌>>=◌, ◌>>◌, pure, put, ebreak}

unfoldable pub gray_encode_simple : ℕ → ℕ
gray_encode_simple c = bit_xor c (c / 2)

-- The loop of `gray_encode_bitwise` with its rounds to go.
encode_rounds : ℕ → ℕ → ℕ → ℕ → ℕ
encode_rounds zero in_buf out_buf bit = out_buf
encode_rounds (suc left) in_buf out_buf bit =
    let differ = bit_xor (bit_and in_buf 1) (bit_and (in_buf / 2) 1) in
    encode_rounds left (in_buf / 2) (if differ == 0 then out_buf else bit_or out_buf bit) (bit * 2)

unfoldable pub gray_encode_bitwise : ℕ → ℕ
unfolding encode_rounds
gray_encode_bitwise c = encode_rounds 8 c 0 1 % 2 ^ 8

-- The loop `while (t)` of `gray_decode`; eight rounds are enough for a byte.
decode_rounds : ℕ → ℕ → ℕ → ℕ
decode_rounds zero t c = c
decode_rounds (suc fuel) t c =
    let rest = decode_rounds fuel (t / 2) (bit_xor c t) in if t == 0 then c else rest

unfoldable pub gray_decode : ℕ → ℕ
unfolding decode_rounds
gray_decode c = decode_rounds 8 (c / 2) c

-- A failed check hangs at an `ebreak`; else the code is put out.
unfoldable pub gray : ℕ → Io (Unit {0})
gray c =
    let simple = gray_encode_simple c in
    let bitwise = gray_encode_bitwise c in
    let decoded = gray_decode simple in
    if not (simple == bitwise) || not (decoded == c) then ebreak else put simple

-- `n` rounds of the endless loop of `main`, from a counter on, for a value of SHIFT_COUNTER_BITS.
unfoldable pub main_rounds : ℕ → ℕ → ℕ → Io (Unit {0})
main_rounds bits zero counter = pure tt
main_rounds bits (suc n) counter = do
  if bit_and counter (2 ^ bits - 1) == 0 then gray (counter / 2 ^ bits % 2 ^ 8) else pure tt
  main_rounds bits n ((counter + 1) % 2 ^ 32)
