-- ===== src/Firmware/Returns.antt =====
-- Routines that always return, having written some text, and routines that always trap.
use picorv.Base.{
  ℕ, ◌^◌, ◌≤◌, ◌<◌, ◌≡◌, refl, arith, sym, ap, ◌∙◌, Bool, true, false, [], ◌∷◌, ◌++◌, append-nil,
  append_assoc,
}
use picorv.Base.{if◌then◌else◌, ◌==◌, not}
use picorv.Base.Text.{Bytes}
use picorv.Base.Numeral.{decimal, hexadecimal, upper_digits}
use picorv.Console.{Io, done, trapped, bind, ◌>>=◌, pure, put, ebreak}
use picorv.Firmware.Print.{print_chr, print_str, print_dec, print_hex}
use picorv.Firmware.Print.Laws.{print_dec-Writes, print_hex-Writes}

pub record Returns {ℓ} {A : Type ℓ} (m : Io A) : Type ℓ where
  pub at : (out : Bytes) → (a : A) × (text : Bytes) × (m out ≡ done a (out ++ text))

pub record Traps {ℓ} {A : Type ℓ} (m : Io A) : Type ℓ where
  pub at : (out : Bytes) → (text : Bytes) × (m out ≡ trapped (out ++ text))

pub Returns-bind {ℓ κ} :
    {A : Type ℓ} {B : Type κ} {m : Io A} {f : A → Io B}
    → Returns m
    → ((a : A) → Returns (f a))
    → Returns (m >>= f)
Returns-bind {m} {f} p q = record { at = λ out. join out (p.at out) }
  where
    join :
        (out : Bytes)
        → (a : _) × (text : Bytes) × (m out ≡ done a (out ++ text))
        → (b : _) × (text : Bytes) × ((m >>= f) out ≡ done b (out ++ text))
    join out (a, text, e) =
        let (b, more, e') = (q a).at (out ++ text) in
        (b, text ++ more, ap (λ r. bind r f) e ∙ e' ∙ ap (done b) (append_assoc out text more))

pub Traps-bind {ℓ κ} :
    {A : Type ℓ} {B : Type κ} {m : Io A} {f : A → Io B}
    → Returns m
    → ((a : A) → Traps (f a))
    → Traps (m >>= f)
Traps-bind {m} {f} p q = record { at = λ out. join out (p.at out) }
  where
    join :
        (out : Bytes)
        → (a : _) × (text : Bytes) × (m out ≡ done a (out ++ text))
        → (text : Bytes) × ((m >>= f) out ≡ trapped (out ++ text))
    join out (a, text, e) =
        let (more, e') = (q a).at (out ++ text) in
        (text ++ more, ap (λ r. bind r f) e ∙ e' ∙ ap trapped (append_assoc out text more))

pub Traps-first {ℓ κ} :
    {A : Type ℓ} {B : Type κ} {m : Io A} (f : A → Io B) → Traps m → Traps (m >>= f)
Traps-first f p = record { at = λ out. let (text, e) = p.at out in (text, ap (λ r. bind r f) e) }

pub Returns-pure {ℓ} : {A : Type ℓ} (a : A) → Returns (pure a)
Returns-pure a = record { at = λ out. (a, [], ap (done a) (sym (append-nil out))) }

pub Traps-ebreak {ℓ} : {A : Type ℓ} → Traps (ebreak {A = A})
Traps-ebreak = record { at = λ out. ([], ap trapped (sym (append-nil out))) }

pub Returns-put : (c : ℕ) → Returns (put c)
Returns-put c = record { at = λ out. (tt, c ∷ [], refl) }

pub Returns-print_chr : (c : ℕ) → Returns (print_chr c)
unfolding print_chr
Returns-print_chr c = Returns-put c

pub Returns-if {ℓ} :
    {A : Type ℓ} (b : Bool) {m k : Io A} → Returns m → Returns k → Returns (if b then m else k)
Returns-if true p q = p
Returns-if false p q = q

pub Returns-print_str : (s : Bytes) → Returns (print_str s)
unfolding print_str
Returns-print_str [] = Returns-pure tt
Returns-print_str (c ∷ s) =
    Returns-if (not (c == 0)) (Returns-bind (Returns-put c) (λ _. Returns-print_str s))
      (Returns-pure tt)

pub Returns-print_hex : (val digits : ℕ) → digits ≤ 8 → Returns (print_hex val digits)
Returns-print_hex val digits h = record {
  at = λ out. (tt, hexadecimal upper_digits digits val, print_hex-Writes val digits h out);
}

pub Returns-hex_8 : (val : ℕ) → Returns (print_hex val 8)
Returns-hex_8 val = Returns-print_hex val 8 (omega arith)

pub Returns-print_dec : (val : ℕ) → val < 2 ^ 32 → Returns (print_dec val)
Returns-print_dec val h = record { at = λ out. (tt, decimal val, print_dec-Writes val h out) }

pub ruleset returning = (
  Returns-bind, Returns-pure, Returns-put, Returns-print_chr, Returns-if, Returns-print_str,
  Returns-hex_8,
)
