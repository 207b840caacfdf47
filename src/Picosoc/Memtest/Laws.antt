-- ===== src/Picosoc/Memtest/Laws.antt =====
-- What the memory test reports: it passes a good RAM, and names the first word that does not keep
-- what it is given.
use picorv.Base.{◌^◌, ℕ, zero, suc, ◌+◌, ◌*◌, ◌<◌, ◌≡◌, refl, sym, ap, ◌∙◌, arith}
use picorv.Base.{true, false, [], ◌∷◌, ◌++◌, append_assoc, append-nil}
use mathlib.Core.Path.{subst}
use picorv.Base.Text.{Bytes, codes}
use picorv.Console.{IsText}
use picorv.Picosoc.Soc.{Soc, M, ret, bind, ◌>>=◌, pure, send}
use picorv.Picosoc.Flash.{Config, icebreaker, hx8kdemo}
use picorv.Picosoc.Text.{print, print_hex}
use picorv.Picosoc.Text.Laws.{crlf, print-Prints, print_hex-Prints, IsWidth}
use picorv.Base.Numeral.{hexadecimal, lower_digits}
use picorv.Picosoc.Memtest.{stride, word_rounds, check_words, word_verdict, word_cycles}
use picorv.Picosoc.Memtest.{check_bytes, byte_verdict, byte_access, cmd_memtest}
use picorv.Picosoc.Memtest.Words.{filled, fill_words-filled, filled-Holds, check_words-passes}
use picorv.Picosoc.Memtest.Words.{check_words-stops, filled-HoldsUntil}
use picorv.Picosoc.Memtest.Lanes.{
  bytes_filled, fill_bytes-filled, filled-HoldsBytes, check_bytes-passes,
}

-- The routine returns `a`, having printed a text, and the cells of the RAM are what they were.
abbrev pub Ends {ℓ} : {A : Type ℓ} → M A → Soc → A → Bytes → Type ℓ
Ends m s a text = (t : Soc) × (m s ≡ ret a t) × (t.sent ≡ s.sent ++ text) × (t.cell ≡ s.cell)

Ends-bind {ℓ κ} :
    {A : Type ℓ} {B : Type κ} (m : M A) (f : A → M B) {s : Soc} {a : A} {b : B}
    (before after : Bytes)
    → Ends m s a before
    → ((t : Soc) → t.cell ≡ s.cell → Ends (f a) t b after)
    → Ends (m >>= f) s b (before ++ after)
Ends-bind m f {s} before after (t, e, printed, cells) k =
    let (u, e', printed', cells') = k t cells in
    (
      u,
      ap (λ r. bind r f) e ∙ e',
      printed' ∙ ap (λ p. p ++ after) printed ∙ append_assoc s.sent before after,
      cells' ∙ cells,
    )

Ends-print : (text : Bytes) (s : Soc) → IsText text → Ends (print text) s tt (crlf text)
Ends-print text s h = (send (crlf text) s, print-Prints text h s, refl, refl)

-- All cells keep what they are given.
abbrev pub IsGood : (ℕ → ℕ → ℕ) → Type 0
IsGood cell = (a v : ℕ) → cell a v ≡ v

-- A check that finds no fault.
abbrev wrote : Config → ℕ → Soc → Soc
wrote config i s = record s { ram = filled s.cell (word_rounds config) 0 i s.ram }

abbrev dots : ℕ → Bytes
dots zero = []
dots (suc n) = b'.' ∷ dots n

word_cycles-passes :
    (left i : ℕ) (config : Config) (s : Soc)
    → IsGood s.cell
    → Ends (word_cycles left i config) s true (dots left)
unfolding word_cycles word_verdict crlf
word_cycles-passes zero i config s good = (s, refl, sym (append-nil s.sent), refl)
word_cycles-passes (suc left) i config s good =
    let t = wrote config i s in
    let next = word_cycles left (i + 1) config in
    let (u, e, printed, cells) =
      Ends-bind (print (codes ".")) (λ _. next) {s = t} (b'.' ∷ []) (dots left)
        (Ends-print (codes ".") t (omega arith))
        (λ t' c. word_cycles-passes left (i + 1) config t' (subst IsGood (sym c) good)) in
    (
      u,
      ap (λ r. bind r (λ _. check_words (word_rounds config) 0 i >>= word_verdict next))
            (fill_words-filled (word_rounds config) 0 i s)
          ∙ ap (λ r. bind r (word_verdict next))
              (check_words-passes (word_rounds config) 0 i t
                (filled-Holds s.cell (word_rounds config) 0 i s.ram (λ j v lt. good _ v)))
          ∙ e,
      printed,
      cells,
    )

byte_access-passes :
    (s : Soc) → IsGood s.cell → Ends (byte_access true) s tt (crlf (codes " passed\n"))
unfolding byte_access byte_verdict
byte_access-passes s good =
    let ram = bytes_filled 128 0 s.ram in
    let t = record s { ram = ram } in
    let (u, e, printed, cells) = Ends-print (codes " passed\n") t (omega arith) in
    (
      u,
      ap (λ r. bind r (λ _. check_bytes 128 0 >>= byte_verdict)) (fill_bytes-filled 128 0 s good)
          ∙ ap (λ r. bind r byte_verdict)
              (check_bytes-passes 128 0 t (filled-HoldsBytes 128 0 s.ram))
          ∙ e,
      printed,
      cells,
    )

-- On a RAM whose cells all keep what they are given, in both configurations and from every state,
-- `cmd_memtest` returns, having printed a dot for each of its five cycles and ` passed`.
pub cmd_memtest-passes :
    (config : Config) (s : Soc)
    → ((a v : ℕ) → s.cell a v ≡ v)
    → (t : Soc) × (cmd_memtest config s ≡ ret tt t)
      × (t.sent ≡ s.sent ++ crlf (codes "Running memtest ..... passed\n"))
      × (t.cell ≡ s.cell)
unfolding cmd_memtest crlf
cmd_memtest-passes config s good =
    Ends-bind (print (codes "Running memtest ")) _ (codes "Running memtest ") _
      (Ends-print (codes "Running memtest ") s (omega arith))
      λ t c.
        Ends-bind (word_cycles 5 1 config) byte_access (dots 5) (crlf (codes " passed\n"))
          (word_cycles-passes 5 1 config t (subst IsGood (sym c) good))
          λ u c'. byte_access-passes u (subst IsGood (sym (c' ∙ c)) good)

-- The text for a faulty word, at an address of `digits` hexadecimal digits.
abbrev pub fault_report : ℕ → ℕ → Bytes
fault_report digits word =
    codes "Running memtest "
    ++ codes " ***FAILED WORD*** at "
    ++ hexadecimal lower_digits digits (4 * word)
    ++ crlf (codes "\n")

word_cycles-fails :
    (config : Config) (s : Soc) (k : ℕ)
    → k < word_rounds config
    → ((v : ℕ) → s.cell (0 + k * stride) v ≡ 0)
    → ((j v : ℕ) → j < k → s.cell (0 + j * stride) v ≡ v)
    → (digits : ℕ) × IsWidth (4 * (0 + k * stride)) 4 digits
      × Ends (word_cycles 5 1 config) s false (
          codes " ***FAILED WORD*** at "
          ++ hexadecimal lower_digits digits (4 * (0 + k * stride))
          ++ crlf (codes "\n"))
unfolding word_cycles word_verdict crlf
word_cycles-fails config s k lt stuck good =
    let t = wrote config 1 s in
    let word : ℕ = 0 + k * stride in
    let (digits, le, width, prints) =
      print_hex-Prints (4 * word) 4 (small config k lt) (omega arith) in
    let text = hexadecimal lower_digits digits (4 * word) in
    let next = word_cycles 4 2 config in
    let (u, e, printed, cells) =
      Ends-bind (print (codes " ***FAILED WORD*** at ")) _ {s = t} (codes " ***FAILED WORD*** at ")
        (text ++ crlf (codes "\n")) (Ends-print (codes " ***FAILED WORD*** at ") t (omega arith))
        λ u c.
          Ends-bind (print_hex (4 * word) 4) _ {s = u} text (crlf (codes "\n"))
            (send text u, prints u, refl, refl)
            λ u' c'. (
              send (crlf (codes "\n")) u',
              ap (λ r. bind r (λ _. pure false)) (print-Prints (codes "\n") (omega arith) u'),
              refl,
              refl,
            ) in
    (
      digits,
      width,
      (
        u,
        ap (λ r. bind r (λ _. check_words (word_rounds config) 0 1 >>= word_verdict next))
              (fill_words-filled (word_rounds config) 0 1 s)
            ∙ ap (λ r. bind r (word_verdict next))
                (check_words-stops k (word_rounds config) 0 1 t lt (omega arith) (omega arith)
                  (filled-HoldsUntil s.cell k (word_rounds config) 0 1 s.ram lt stuck good))
            ∙ e,
        printed,
        cells,
      ),
    )
  where
    small : (config : Config) (k : ℕ) → k < word_rounds config → 4 * (0 + k * stride) < 2 ^ 32
    small icebreaker k lt = omega arith
    small hx8kdemo k lt = omega arith

-- A RAM with one faulty cell among those that the word access tests, number `k` of them, which holds
-- zero whatever it is given, while the tested cells before it are good: `cmd_memtest` returns after
-- its first cycle, having printed the address of that word, in at least four hexadecimal digits.
pub cmd_memtest-fails :
    (config : Config) (s : Soc) (k : ℕ)
    → k < word_rounds config
    → ((v : ℕ) → s.cell (0 + k * stride) v ≡ 0)
    → ((j v : ℕ) → j < k → s.cell (0 + j * stride) v ≡ v)
    → (digits : ℕ) × IsWidth (4 * (0 + k * stride)) 4 digits
      × (t : Soc) × (cmd_memtest config s ≡ ret tt t)
      × (t.sent ≡ s.sent ++ fault_report digits (0 + k * stride))
      × (t.cell ≡ s.cell)
unfolding cmd_memtest byte_access crlf
cmd_memtest-fails config s k lt stuck good =
    let t = send (codes "Running memtest ") s in
    let (digits, width, ends) = word_cycles-fails config t k lt stuck good in
    let (u, e, printed, cells) = ends in
    (
      digits,
      width,
      u,
      ap (λ r. bind r (λ _. word_cycles 5 1 config >>= byte_access))
            (print-Prints (codes "Running memtest ") (omega arith) s)
          ∙ ap (λ r. bind r byte_access) e,
      printed ∙ append_assoc s.sent (codes "Running memtest ") _,
      cells,
    )
