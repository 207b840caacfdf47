-- ===== src/Xorshift.antt =====
-- The generator of picosoc/firmware.c (`xorshift32`, and its copy in `cmd_benchmark`) and of
-- firmware/multest.c.
pub mod Linear
use picorv.Base.{ℕ, ◌*◌, ◌/◌, ◌%◌, ◌^◌, bit_xor}

-- `x ^= x << k` and `x ^= x >> k` on 32 bits.
unfoldable pub xor_left : ℕ → ℕ → ℕ
xor_left k x = bit_xor x (x * 2 ^ k % 2 ^ 32)

unfoldable pub xor_right : ℕ → ℕ → ℕ
xor_right k x = bit_xor x (x / 2 ^ k)

-- The state after a call, which is also what the call returns.
unfoldable pub xorshift32 : ℕ → ℕ
unfolding xor_left xor_right
xorshift32 x = xor_left 5 (xor_right 17 (xor_left 13 x))
