-- ===== src/Console.antt =====
-- The output port of the simulation test bench, 0x10000000, to which firmware/print.c,
-- dhrystone/stdlib.c, dhrystone/syscalls.c and scripts/icestorm/firmware.c write.
--
-- A routine is a function of the text written so far. It returns, or it stops at an `ebreak`
-- with the text written until then, or it does something that C leaves undefined.
use picorv.Base.{ℕ, ◌≡◌, ◌≢◌, [], ◌∷◌, ◌++◌, All}
use picorv.Base.Text.{Bytes}

pub data Outcome {ℓ} (A : Type ℓ) : Type ℓ where
  done : A → Bytes → Outcome A
  trapped : Bytes → Outcome A
  undefined : Outcome A

abbrev pub Io {ℓ} : Type ℓ → Type ℓ
Io A = Bytes → Outcome A

infixl 5 ◌>>=◌ ◌>>◌
abbrev pub bind {ℓ κ} : {A : Type ℓ} {B : Type κ} → Outcome A → (A → Io B) → Outcome B
bind (done a out) f = f a out
bind (trapped out) f = trapped out
bind undefined f = undefined

abbrev pub ◌>>=◌ {ℓ κ} : {A : Type ℓ} {B : Type κ} → Io A → (A → Io B) → Io B
◌>>=◌ m f out = bind (m out) f

abbrev pub ◌>>◌ {ℓ} : {B : Type ℓ} → Io (Unit {0}) → Io B → Io B
m >> k = m >>= λ _. k

abbrev pub pure {ℓ} : {A : Type ℓ} → A → Io A
pure a out = done a out

-- One write to the port.
abbrev pub put : ℕ → Io (Unit {0})
put c out = done tt (out ++ c ∷ [])

-- `__asm__ volatile ("ebreak")`
abbrev pub ebreak {ℓ} : {A : Type ℓ} → Io A
ebreak out = trapped out

abbrev pub fault {ℓ} : {A : Type ℓ} → Io A
fault out = undefined

-- A routine that always returns and writes a text.
abbrev pub Writes : Io (Unit {0}) → Bytes → Type 0
Writes m text = (out : Bytes) → m out ≡ done tt (out ++ text)

abbrev pub IsText : Bytes → Type 0
IsText s = All (λ c. c ≢ 0) s
