-- ===== src/Picosoc/Memtest/Words.antt =====
-- The word access of the memory test.
use picorv.Base.{ℕ, zero, suc, ◌+◌, ◌*◌, ◌<◌, ◌≡◌, ◌≢◌, refl, ap, ◌∙◌, arith}
use picorv.Base.{==-true, ==-false, none, some}
use picorv.Base.{◌^◌, sym}
use picorv.Xorshift.Linear.{xorshift32-lt, xorshift32-ne-zero}
use picorv.Xorshift.{xorshift32}
use picorv.Picosoc.Soc.{Soc, ret}
use picorv.Picosoc.Memtest.{update, stride, fill_words, check_words}

-- The RAM after the words have been written, where a cell holds `cell a v` after a write of `v`.
abbrev pub filled : (ℕ → ℕ → ℕ) → ℕ → ℕ → ℕ → (ℕ → ℕ) → ℕ → ℕ
filled cell zero word state ram = ram
filled cell (suc left) word state ram =
    filled cell left (word + stride) (xorshift32 state)
      (update ram word (cell word (xorshift32 state)))

pub fill_words-filled :
    (left word state : ℕ) (s : Soc)
    → fill_words left word state s ≡ ret tt (record s { ram = filled s.cell left word state s.ram })
unfolding fill_words
fill_words-filled zero word state s = refl
fill_words-filled (suc left) word state s =
    fill_words-filled left (word + stride) (xorshift32 state)
      (record s { ram = update s.ram word (s.cell word (xorshift32 state)) })

-- The words below those that are written stay.
filled-below :
    (cell : ℕ → ℕ → ℕ) (left word state : ℕ) (ram : ℕ → ℕ) (a : ℕ)
    → a < word
    → filled cell left word state ram a ≡ ram a
filled-below cell zero word state ram a h = refl
filled-below cell (suc left) word state ram a h =
    filled-below cell left (word + stride) (xorshift32 state) _ a (omega arith)
    ∙ rw (==-false word a (omega arith)) refl

-- The words that the generator gives stand in the RAM.
abbrev pub Holds : ℕ → ℕ → ℕ → (ℕ → ℕ) → Type 0
Holds zero word state ram = Unit
Holds (suc left) word state ram =
    (ram word ≡ xorshift32 state) × Holds left (word + stride) (xorshift32 state) ram

pub filled-Holds :
    (cell : ℕ → ℕ → ℕ) (left word state : ℕ) (ram : ℕ → ℕ)
    → ((j v : ℕ) → j < left → cell (word + j * stride) v ≡ v)
    → Holds left word state (filled cell left word state ram)
filled-Holds cell zero word state ram good = tt
filled-Holds cell (suc left) word state ram good = (
  filled-below cell left (word + stride) (xorshift32 state) _ word (omega arith)
      ∙ rw (==-true word) (
          ap (λ (a : ℕ). cell a (xorshift32 state)) (omega arith)
          ∙ good 0 (xorshift32 state) (omega arith)),
  filled-Holds cell left (word + stride) (xorshift32 state) _
      (λ j v lt. ap (λ (a : ℕ). cell a v) (omega arith) ∙ good (suc j) v (omega arith)),
)

-- The check passes over them.
pub check_words-passes :
    (left word state : ℕ) (s : Soc)
    → Holds left word state s.ram
    → check_words left word state s ≡ ret none s
unfolding check_words
check_words-passes zero word state s h = refl
check_words-passes (suc left) word state s (e, h) =
    rw (e, ==-true (xorshift32 state))
      (check_words-passes left (word + stride) (xorshift32 state) s h)

-- Word `k` holds zero, and those before it what the generator gives.
abbrev pub HoldsUntil : ℕ → ℕ → ℕ → (ℕ → ℕ) → Type 0
HoldsUntil zero word state ram = ram word ≡ 0
HoldsUntil (suc k) word state ram =
    (ram word ≡ xorshift32 state) × HoldsUntil k (word + stride) (xorshift32 state) ram

pub filled-HoldsUntil :
    (cell : ℕ → ℕ → ℕ) (k left word state : ℕ) (ram : ℕ → ℕ)
    → k < left
    → ((v : ℕ) → cell (word + k * stride) v ≡ 0)
    → ((j v : ℕ) → j < k → cell (word + j * stride) v ≡ v)
    → HoldsUntil k word state (filled cell left word state ram)
filled-HoldsUntil cell k zero word state ram lt stuck good = absurd (omega arith)
filled-HoldsUntil cell zero (suc left) word state ram lt stuck good =
    filled-below cell left (word + stride) (xorshift32 state) _ word (omega arith)
    ∙ rw (==-true word)
        (ap (λ (a : ℕ). cell a (xorshift32 state)) (omega arith) ∙ stuck (xorshift32 state))
filled-HoldsUntil cell (suc k) (suc left) word state ram lt stuck good = (
  filled-below cell left (word + stride) (xorshift32 state) _ word (omega arith)
      ∙ rw (==-true word) (
          ap (λ (a : ℕ). cell a (xorshift32 state)) (omega arith)
          ∙ good 0 (xorshift32 state) (omega arith)),
  filled-HoldsUntil cell k left (word + stride) (xorshift32 state) _ (omega arith)
      (λ v. ap (λ (a : ℕ). cell a v) (omega arith) ∙ stuck v)
      (λ j v below. ap (λ (a : ℕ). cell a v) (omega arith) ∙ good (suc j) v (omega arith)),
)

-- The check stops at that word: the generator never gives zero.
pub check_words-stops :
    (k left word state : ℕ) (s : Soc)
    → k < left
    → state < 2 ^ 32
    → state ≢ 0
    → HoldsUntil k word state s.ram
    → check_words left word state s ≡ ret (some (word + k * stride)) s
unfolding check_words
check_words-stops k zero word state s lt fits ne h = absurd (omega arith)
check_words-stops zero (suc left) word state s lt fits ne e =
    let nz = xorshift32-ne-zero state fits ne in
    rw (e, ==-false 0 (xorshift32 state) (λ z. nz (sym z)))
      (ap (λ (a : ℕ). ret (some a) s) (omega arith))
check_words-stops (suc k) (suc left) word state s lt fits ne (e, h) =
    rw (e, ==-true (xorshift32 state))
      (check_words-stops k left (word + stride) (xorshift32 state) s (omega arith)
          (xorshift32-lt state fits) (xorshift32-ne-zero state fits ne) h
        ∙ ap (λ (a : ℕ). ret (some a) s) (omega arith))
