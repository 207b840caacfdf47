-- ===== src/Picosoc/Memtest/Lanes.antt =====
-- The byte access of the memory test: a byte is a lane of a word.
use picorv.Base.{ℕ, zero, suc, ◌+◌, ◌/◌, ◌%◌, ◌^◌, ◌<◌, ◌≡◌, ◌≢◌, refl, ◌∙◌, arith}
use picorv.Base.{◌==◌, ==-true, ==_iff, Bool-cases, inl, inr, none}
use picorv.Picosoc.Soc.{Soc, ret}
use picorv.Picosoc.Memtest.{update, with_byte, byte_of, fill_bytes, check_bytes}

-- A byte that is written is read back, and the other lanes stay.
byte_of-with_byte : (l v w : ℕ) → l < 4 → v < 256 → byte_of l (with_byte l v w) ≡ v
byte_of-with_byte zero v w h lv = omega arith
byte_of-with_byte (suc zero) v w h lv = omega arith
byte_of-with_byte (suc (suc zero)) v w h lv = omega arith
byte_of-with_byte (suc (suc (suc zero))) v w h lv = omega arith
byte_of-with_byte (suc (suc (suc (suc l)))) v w h lv = absurd (omega arith)

byte_of-with_byte_ne :
    (l m v w : ℕ) → l < 4 → m < 4 → l ≢ m → v < 256 → byte_of l (with_byte m v w) ≡ byte_of l w
byte_of-with_byte_ne zero zero v w h g ne lv = absurd (ne refl)
byte_of-with_byte_ne zero (suc zero) v w h g ne lv = omega arith
byte_of-with_byte_ne zero (suc (suc zero)) v w h g ne lv = omega arith
byte_of-with_byte_ne zero (suc (suc (suc zero))) v w h g ne lv = omega arith
byte_of-with_byte_ne zero (suc (suc (suc (suc m)))) v w h g ne lv = absurd (omega arith)
byte_of-with_byte_ne (suc zero) zero v w h g ne lv = omega arith
byte_of-with_byte_ne (suc zero) (suc zero) v w h g ne lv = absurd (ne refl)
byte_of-with_byte_ne (suc zero) (suc (suc zero)) v w h g ne lv = omega arith
byte_of-with_byte_ne (suc zero) (suc (suc (suc zero))) v w h g ne lv = omega arith
byte_of-with_byte_ne (suc zero) (suc (suc (suc (suc m)))) v w h g ne lv = absurd (omega arith)
byte_of-with_byte_ne (suc (suc zero)) zero v w h g ne lv = omega arith
byte_of-with_byte_ne (suc (suc zero)) (suc zero) v w h g ne lv = omega arith
byte_of-with_byte_ne (suc (suc zero)) (suc (suc zero)) v w h g ne lv = absurd (ne refl)
byte_of-with_byte_ne (suc (suc zero)) (suc (suc (suc zero))) v w h g ne lv = omega arith
byte_of-with_byte_ne (suc (suc zero)) (suc (suc (suc (suc m)))) v w h g ne lv = absurd (omega arith)
byte_of-with_byte_ne (suc (suc (suc zero))) zero v w h g ne lv = omega arith
byte_of-with_byte_ne (suc (suc (suc zero))) (suc zero) v w h g ne lv = omega arith
byte_of-with_byte_ne (suc (suc (suc zero))) (suc (suc zero)) v w h g ne lv = omega arith
byte_of-with_byte_ne (suc (suc (suc zero))) (suc (suc (suc zero))) v w h g ne lv = absurd (ne refl)
byte_of-with_byte_ne (suc (suc (suc zero))) (suc (suc (suc (suc m)))) v w h g ne lv =
    absurd (omega arith)
byte_of-with_byte_ne (suc (suc (suc (suc l)))) m v w h g ne lv = absurd (omega arith)

-- A RAM with a byte written, and the byte read.
abbrev pub stored : ℕ → ℕ → (ℕ → ℕ) → ℕ → ℕ
stored byte v ram = update ram (byte / 4) (with_byte (byte % 4) v (ram (byte / 4)))

abbrev pub fetched : ℕ → (ℕ → ℕ) → ℕ
fetched byte ram = byte_of (byte % 4) (ram (byte / 4))

fetched-stored : (b v : ℕ) (ram : ℕ → ℕ) → v < 256 → fetched b (stored b v ram) ≡ v
fetched-stored b v ram h =
    rw (==-true (b / 4)) (byte_of-with_byte (b % 4) v (ram (b / 4)) (omega arith) h)

fetched-stored_ne :
    (a b v : ℕ) (ram : ℕ → ℕ) → a ≢ b → v < 256 → fetched a (stored b v ram) ≡ fetched a ram
fetched-stored_ne a b v ram ne h = elim (Bool-cases (b / 4 == a / 4)) [
  | inl same ↦
      let e : b / 4 ≡ a / 4 = (==_iff (b / 4) (a / 4)).0 same in
      rw (e, ==-true (a / 4))
        (byte_of-with_byte_ne (a % 4) (b % 4) v (ram (a / 4)) (omega arith) (omega arith)
          (other_lane a b ne e) h)
  | inr other ↦ rw other refl
]
  where
    other_lane : (a b : ℕ) → a ≢ b → b / 4 ≡ a / 4 → a % 4 ≢ b % 4
    other_lane a b ne e q = ne (omega arith)

-- The RAM after the bytes have been written, in cells that keep what they are given.
abbrev pub bytes_filled : ℕ → ℕ → (ℕ → ℕ) → ℕ → ℕ
bytes_filled zero byte ram = ram
bytes_filled (suc left) byte ram = bytes_filled left (byte + 1) (stored byte (byte % 2 ^ 8) ram)

pub fill_bytes-filled :
    (left byte : ℕ) (s : Soc)
    → ((a v : ℕ) → s.cell a v ≡ v)
    → fill_bytes left byte s ≡ ret tt (record s { ram = bytes_filled left byte s.ram })
unfolding fill_bytes
fill_bytes-filled zero byte s good = refl
fill_bytes-filled (suc left) byte s good =
    rw (good (byte / 4) (with_byte (byte % 4) (byte % 2 ^ 8) (s.ram (byte / 4))))
      (fill_bytes-filled left (byte + 1) (record s { ram = stored byte (byte % 2 ^ 8) s.ram }) good)

filled-keeps :
    (left byte : ℕ) (ram : ℕ → ℕ) (a : ℕ)
    → a < byte
    → fetched a (bytes_filled left byte ram) ≡ fetched a ram
filled-keeps zero byte ram a h = refl
filled-keeps (suc left) byte ram a h =
    filled-keeps left (byte + 1) (stored byte (byte % 2 ^ 8) ram) a (omega arith)
    ∙ fetched-stored_ne a byte (byte % 2 ^ 8) ram (λ e. absurd (omega arith)) (omega arith)

-- Each byte holds its address.
abbrev pub HoldsBytes : ℕ → ℕ → (ℕ → ℕ) → Type 0
HoldsBytes zero byte ram = Unit
HoldsBytes (suc left) byte ram = (fetched byte ram ≡ byte % 2 ^ 8) × HoldsBytes left (byte + 1) ram

pub filled-HoldsBytes :
    (left byte : ℕ) (ram : ℕ → ℕ) → HoldsBytes left byte (bytes_filled left byte ram)
filled-HoldsBytes zero byte ram = tt
filled-HoldsBytes (suc left) byte ram = (
  filled-keeps left (byte + 1) (stored byte (byte % 2 ^ 8) ram) byte (omega arith)
      ∙ fetched-stored byte (byte % 2 ^ 8) ram (omega arith),
  filled-HoldsBytes left (byte + 1) _,
)

pub check_bytes-passes :
    (left byte : ℕ) (s : Soc) → HoldsBytes left byte s.ram → check_bytes left byte s ≡ ret none s
unfolding check_bytes
check_bytes-passes zero byte s h = refl
check_bytes-passes (suc left) byte s (e, h) =
    rw (e, ==-true (byte % 2 ^ 8)) (check_bytes-passes left (byte + 1) s h)
