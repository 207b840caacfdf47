-- ===== src/Presyn/Laws.antt =====
-- The code of the message of scripts/presyn/firmware.c.
use picorv.Base.{ℕ, ◌≡◌, arith, true, ◌||◌}
use picorv.Presyn.{decode, within}

-- The code of letters is its own inverse: decoding a letter twice gives the letter.
pub decode-decode :
    (c : ℕ) → (within b'a' b'z' c || within b'A' b'Z' c) ≡ true → decode (decode c) ≡ c
decode-decode c h = ground arith
