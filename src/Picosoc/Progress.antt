-- ===== src/Picosoc/Progress.antt =====
-- Every routine of picosoc/firmware.c ends: it returns, or it waits for the UART with all input
-- taken. `Steady` routines take no value back, and `Hungry` ones take at least one.
pub mod Commands
pub mod Loop
use picorv.Base.{
  ℕ, zero, suc, ◌+◌, ◌≤◌, ◌<◌, ◌≡◌, refl, arith, Bool, true, false, List, [], ◌∷◌, length,
  if◌then◌else◌,
}
use picorv.Base.{Option, none, some}
use picorv.Base.Text.{Bytes, codes}
use picorv.Picosoc.Soc.{Soc, M, Result, ret, waiting, ◌>>=◌, ◌>>◌, bind, pure}

abbrev pub Takes {ℓ} : {A : Type ℓ} → ℕ → Result A → Type 0
Takes n (ret a t) = length t.rx ≤ n
Takes n (waiting t) = t.rx ≡ []

pub record Steady {ℓ} {A : Type ℓ} (m : M A) : Type ℓ where
  pub at : (s : Soc) → Takes (length s.rx) (m s)

-- `Hungry m`: if `m` returns, it has taken at least one value.
abbrev pub TakesSome {ℓ} : {A : Type ℓ} → ℕ → Result A → Type 0
TakesSome n (ret a t) = length t.rx < n
TakesSome n (waiting t) = t.rx ≡ []

pub TakesSome-weaken {ℓ} :
    {A : Type ℓ} (n k : ℕ) (r : Result A) → n ≤ k → TakesSome n r → TakesSome k r
TakesSome-weaken n k (ret a t) le h = omega arith
TakesSome-weaken n k (waiting t) le h = h

Takes-TakesSome {ℓ} : {A : Type ℓ} (n k : ℕ) (r : Result A) → n < k → Takes n r → TakesSome k r
Takes-TakesSome n k (ret a t) le h = omega arith
Takes-TakesSome n k (waiting t) le h = h

TakesSome-Takes {ℓ} : {A : Type ℓ} (n : ℕ) (r : Result A) → TakesSome n r → Takes n r
TakesSome-Takes n (ret a t) h = omega arith
TakesSome-Takes n (waiting t) h = h

pub record Hungry {ℓ} {A : Type ℓ} (m : M A) : Type ℓ where
  pub at : (s : Soc) → TakesSome (length s.rx) (m s)

pub Takes-weaken {ℓ} : {A : Type ℓ} (n k : ℕ) (r : Result A) → n ≤ k → Takes n r → Takes k r
Takes-weaken n k (ret a t) le h = omega arith
Takes-weaken n k (waiting t) le h = h

pub bind-Takes {ℓ κ} :
    {A : Type ℓ} {B : Type κ} (n : ℕ) (r : Result A) (f : A → M B)
    → Takes n r
    → ((a : A) → Steady (f a))
    → Takes n (bind r f)
bind-Takes n (ret a t) f h q = Takes-weaken (length t.rx) n (f a t) h ((q a).at t)
bind-Takes n (waiting t) f h q = h

pub Steady-bind {ℓ κ} :
    {A : Type ℓ} {B : Type κ} {m : M A} {f : A → M B}
    → Steady m
    → ((a : A) → Steady (f a))
    → Steady (m >>= f)
Steady-bind {m} {f} p q = record { at = λ s. bind-Takes (length s.rx) (m s) f (p.at s) q }

pub Hungry-Steady {ℓ} : {A : Type ℓ} {m : M A} → Hungry m → Steady m
Hungry-Steady {m} h = record { at = λ s. TakesSome-Takes (length s.rx) (m s) (h.at s) }

bind-left {ℓ κ} :
    {A : Type ℓ} {B : Type κ} (n : ℕ) (r : Result A) (f : A → M B)
    → TakesSome n r
    → ((a : A) → Steady (f a))
    → TakesSome n (bind r f)
bind-left n (ret a t) f h q = Takes-TakesSome (length t.rx) n (f a t) h ((q a).at t)
bind-left n (waiting t) f h q = h

bind-right {ℓ κ} :
    {A : Type ℓ} {B : Type κ} (n : ℕ) (r : Result A) (f : A → M B)
    → Takes n r
    → ((a : A) → Hungry (f a))
    → TakesSome n (bind r f)
bind-right n (ret a t) f h q = TakesSome-weaken (length t.rx) n (f a t) h ((q a).at t)
bind-right n (waiting t) f h q = h

pub Hungry-left {ℓ κ} :
    {A : Type ℓ} {B : Type κ} {m : M A} {f : A → M B}
    → Hungry m
    → ((a : A) → Steady (f a))
    → Hungry (m >>= f)
Hungry-left {m} {f} p q = record { at = λ s. bind-left (length s.rx) (m s) f (p.at s) q }

pub Hungry-right {ℓ κ} :
    {A : Type ℓ} {B : Type κ} {m : M A} {f : A → M B}
    → Steady m
    → ((a : A) → Hungry (f a))
    → Hungry (m >>= f)
Hungry-right {m} {f} p q = record { at = λ s. bind-right (length s.rx) (m s) f (p.at s) q }

pub Steady-if {ℓ} :
    {A : Type ℓ} (b : Bool) {m k : M A} → Steady m → Steady k → Steady (if b then m else k)
Steady-if true p q = p
Steady-if false p q = q
