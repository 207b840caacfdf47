-- ===== src/Presyn.antt =====
-- scripts/presyn/firmware.c, which scripts/vivado and scripts/quartus have copies of: it decodes a
-- message and prints it.
pub mod Laws
use picorv.Base.{ℕ, ◌+◌, ◌-◌, Bool, ◌&&◌, ◌||◌, leb, ◌==◌, if◌then◌else◌, List, [], ◌∷◌, ◌++◌, map}
use picorv.Base.Text.{Bytes, codes}
use picorv.Console.{Io, ◌>>=◌, ◌>>◌, pure, put}

-- `case first ... last:`
abbrev pub within : ℕ → ℕ → ℕ → Bool
within first last c = leb first c && leb c last

-- The `switch` for one character.
abbrev pub decode : ℕ → ℕ
decode c =
    if within b'a' b'm' c || within b'A' b'M' c
    then c + 13
    else if within b'n' b'z' c || within b'N' b'Z' c
    then c - 13
    else if c == b'$'
    then b'\n'
    else if c == b'+'
    then b' '
    else c

abbrev puts : Bytes → Io (Unit {0})
puts [] = pure tt
puts (c ∷ s) = let rest = put c >> puts s in if c == 0 then pure tt else rest

-- The initial value of `message`.
abbrev message : Bytes
message =
    codes "$Uryyb+Jbeyq!+Vs+lbh+pna+ernq+guvf+zrffntr+gura$gur+CvpbEI32+PCH"
    ++ codes "+frrzf+gb+or+jbexvat+whfg+svar.$$++++++++++++++++GRFG+CNFFRQ!$$"

-- `main`: the loop changes every character of `message`, none of which becomes or is a NUL.
abbrev show_message : Io (Unit {0})
show_message = puts (map decode message)
