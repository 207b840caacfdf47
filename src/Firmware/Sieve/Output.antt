-- ===== src/Firmware/Sieve/Output.antt =====
-- What `sieve` prints: every prime below 131, and the checksum.
use picorv.Base.{
  ℕ, zero, suc, ◌+◌, ◌-◌, ◌*◌, ◌/◌, ◌%◌, ◌^◌, ◌≤◌, ◌<◌, ◌≡◌, refl, arith, sym, ap, ◌∙◌,
}
use picorv.Base.{Bool, true, false, List, [], ◌∷◌, ◌++◌, append_assoc, append-nil, leb, ◌==◌}
use picorv.Base.{Bool-cases, inl, inr, ◌↔◌, some, ◌&&◌, ◌||◌, if◌then◌else◌, ltb}
use native.Mathlib.Nat.{div-add-mod', mul-mod_right}
use picorv.Base.Text.{Bytes, codes}
use picorv.Base.Numeral.{decimal}
use picorv.Console.{done, Writes, IsText, pure}
use picorv.Firmware.Print.Laws.{print_str-Writes, print_dec-Writes, print_hex-Writes}
use picorv.Firmware.Print.{print_str}
use picorv.Firmware.Sieve.{Statics, bitmap_get, bitmap_size, mark_multiples, mark_fuel, mkhash}
use picorv.Firmware.Sieve.{ordinal_suffix, print_prime, sieve_rounds, sieve}
use picorv.Firmware.Sieve.Marking.{mark_multiples_lem}
use picorv.Firmware.Sieve.Primes.{
  Composite, IsSieved, IsSieved-skip, IsSieved-mark, IsSieved-Composite,
}

-- Trial division of `n` by the numbers from 2 up to `d`.
has_factor : ℕ → ℕ → Bool
has_factor n zero = false
has_factor n (suc d) = (leb 2 (suc d) && n % suc d == 0) || has_factor n d

-- A test for compositeness that has nothing to do with the sieve.
unfoldable pub is_composite : ℕ → Bool
unfolding has_factor
is_composite n = has_factor n (n - 1)

cofactor : (n s : ℕ) → 2 ≤ s → s < n → n % s ≡ 0 → (2 ≤ n / s) × (n ≡ s * (n / s))
cofactor n s two lt divides =
    let whole : n / s * s ≡ n = omega (arith, div-add-mod' n s) in (grind arith, omega arith)

multiple_mod : (n a e : ℕ) → n ≡ a * e → n % a ≡ 0
multiple_mod n a e p = rw p (mul-mod_right a e)

has_factor_sound : (n d : ℕ) → d < n → has_factor n d ≡ true → Composite n
unfolding has_factor
has_factor_sound n zero lt h = absurd (cc)
has_factor_sound n (suc d) lt h = elim (Bool-cases (leb 2 (suc d) && n % suc d == 0)) [
  | inl divides ↦
      let (two, whole) = cofactor n (suc d) (ground arith) lt (ground arith) in
      (suc d, n / suc d, ground arith, two, whole)
  | inr not_d ↦ has_factor_sound n d (omega arith) (ground arith)
]

has_factor_complete : (n d : ℕ) (a e : ℕ) → 2 ≤ a → a ≤ d → n ≡ a * e → has_factor n d ≡ true
unfolding has_factor
has_factor_complete n zero a e two le p = absurd (omega arith)
has_factor_complete n (suc d) a e two le p = elim (Bool-cases (a == suc d)) [
  | inl here ↦ ground (arith, multiple_mod n a e p)
  | inr there ↦ ground (arith, has_factor_complete n d a e)
]

pub is_composite_iff : (n : ℕ) → (is_composite n ≡ true) ↔ Composite n
unfolding is_composite
is_composite_iff n = (sound n, complete)
  where
    sound : (n : ℕ) → has_factor n (n - 1) ≡ true → Composite n
    sound zero h = absurd (cc)
    sound (suc m) h = has_factor_sound (suc m) (suc m - 1) (omega arith) h

    complete : Composite n → has_factor n (n - 1) ≡ true
    complete (d, e, ld, le, p) =
        let below : d * 2 ≤ d * e = grind arith in
        has_factor_complete n (n - 1) d e ld (omega arith) p

-- The odd primes among `3 + 2 * i` and the `left - 1` odd numbers behind it.
unfoldable pub odd_primes : ℕ → ℕ → List ℕ
odd_primes zero i = []
odd_primes (suc left) i =
    if is_composite (3 + 2 * i)
    then odd_primes left (i + 1)
    else (3 + 2 * i) ∷ odd_primes left (i + 1)

-- The line for the prime number `idx`, and the lines for a list of primes.
pub line : ℕ → ℕ → Bytes
line idx val =
    (if ltb idx 10 then codes " " else [])
    ++ decimal idx
    ++ ordinal_suffix idx
    ++ codes " prime is "
    ++ decimal val
    ++ codes ".\n"

unfoldable pub lines : ℕ → List ℕ → Bytes
lines idx [] = []
lines idx (p ∷ ps) = line idx p ++ lines (idx + 1) ps

unfoldable pub hash_of : ℕ → ℕ → List ℕ → ℕ
hash_of h idx [] = h
hash_of h idx (p ∷ ps) = hash_of (mkhash (mkhash h idx) p) (idx + 1) ps

ordinal_suffix-IsText : (idx : ℕ) → IsText (ordinal_suffix idx)
unfolding ordinal_suffix
ordinal_suffix-IsText idx = ground arith

print_prime-Writes :
    (idx val : ℕ) (s : Statics) (out : Bytes)
    → idx < 2 ^ 32
    → val < 2 ^ 32
    → print_prime idx val s out
      ≡ done (record s { hash = mkhash (mkhash s.hash idx) val }) (out ++ line idx val)
unfolding print_prime line
print_prime-Writes idx val s out hi hv =
    rw
      (
        indent out,
        print_dec-Writes idx hi _,
        print_str-Writes (ordinal_suffix idx) (ordinal_suffix-IsText idx) _,
        print_str-Writes (codes " prime is ") (omega arith) _,
        print_dec-Writes val hv _,
        print_str-Writes (codes ".\n") (omega arith) _,
      )
      (simp append_assoc)
  where
    indent :
        Writes
          (if ltb idx 10 then print_str (codes " ") else pure tt)
          (if ltb idx 10 then codes " " else [])
    indent o = elim (Bool-cases (ltb idx 10)) [
      | inl small ↦ rw small (print_str-Writes (codes " ") (omega arith) o)
      | inr large ↦ rw large (ap (done tt) (sym (append-nil o)))
    ]

-- A round on a marked number passes on; one on an unmarked number announces and marks.
module _ (left i idx : ℕ) (s : Statics) (out : Bytes) where
  round_marked :
      bitmap_get s.bitmap i ≡ true
      → sieve_rounds (suc left) i idx s out ≡ sieve_rounds left (i + 1) idx s out
  unfolding sieve_rounds
  round_marked h = rw (h, sieve_rounds)

  round_prime :
      (after : List ℕ)
      → bitmap_get s.bitmap i ≡ false
      → idx < 2 ^ 32
      → 3 + 2 * i < 2 ^ 32
      → mark_multiples mark_fuel (3 + 2 * i) (2 * (3 + 2 * i)) s.bitmap ≡ some after
      → sieve_rounds (suc left) i idx s out
        ≡ sieve_rounds left
            (i + 1)
            (idx + 1)
            (record { bitmap = after; hash = mkhash (mkhash s.hash idx) (3 + 2 * i) })
            (out ++ line idx (3 + 2 * i))
  unfolding sieve_rounds
  round_prime after h hi hv m =
      rw (h, sieve_rounds) (rw (print_prime-Writes idx (3 + 2 * i) s out hi hv, m))

-- The rounds of the outer loop: the odd primes are announced in order and enter the hash.
sieve_rounds_lem :
    (left i idx : ℕ) (s : Statics) (out : Bytes)
    → i + left ≡ bitmap_size
    → idx + left < 2 ^ 32
    → IsSieved i s.bitmap
    → (t : Statics) × (sieve_rounds left i idx s out
        ≡ done t (out ++ lines idx (odd_primes left i)))
      × (t.hash ≡ hash_of s.hash idx (odd_primes left i))
      × IsSieved bitmap_size t.bitmap
unfolding odd_primes lines hash_of
sieve_rounds_lem zero i idx s out e small v =
    let at_end : i ≡ 64 = omega arith in
    (s, unfold sieve_rounds in ap (done s) (sym (append-nil out)), refl, rw at_end at v)
sieve_rounds_lem (suc left) i idx s out e small v = elim (Bool-cases (bitmap_get s.bitmap i)) [
  | inl marked ↦
      let (t, returns, hashed, sieved) =
        sieve_rounds_lem left (i + 1) idx s out (omega arith) (omega arith)
          (IsSieved-skip (omega arith) marked v) in
      let c : is_composite (3 + 2 * i) ≡ true =
        (is_composite_iff (3 + 2 * i)).1 (v.only i (omega arith) marked) in
      (t, rw c (round_marked left i idx s out marked ∙ returns), rw c hashed, sieved)
  | inr unmarked ↦
      let (after, marks, m) =
        mark_multiples_lem mark_fuel (3 + 2 * i) (2 * (3 + 2 * i)) s.bitmap (omega arith)
          (omega arith) (omega arith) v.two_words (omega arith) (omega arith) in
      let (t, returns, hashed, sieved) =
        sieve_rounds_lem left (i + 1) (idx + 1)
          (record { bitmap = after; hash = mkhash (mkhash s.hash idx) (3 + 2 * i) })
          (out ++ line idx (3 + 2 * i)) (omega arith) (omega arith) (IsSieved-mark m v) in
      let c : is_composite (3 + 2 * i) ≡ false =
        not_composite i s.bitmap v (omega arith) unmarked in
      (
        t,
        rw c (
            round_prime left i idx s out after unmarked (omega arith) (omega arith) marks
            ∙ returns
            ∙ ap (done t) (append_assoc out (line idx (3 + 2 * i)) _)),
        rw c hashed,
        sieved,
      )
]
  where
    not_composite :
        (i : ℕ) (bitmap : List ℕ)
        → IsSieved i bitmap
        → i < bitmap_size
        → bitmap_get bitmap i ≡ false
        → is_composite (3 + 2 * i) ≡ false
    not_composite i bitmap v lt unmarked = elim (Bool-cases (is_composite (3 + 2 * i))) [
      | inl c ↦
          let set = IsSieved-Composite bitmap i v lt ((is_composite_iff (3 + 2 * i)).0 c) in
          absurd (cc)
      | inr no_factor ↦ no_factor
    ]

-- All primes below 131.
abbrev pub primes : List ℕ
primes = 2 ∷ odd_primes bitmap_size 0

primes_hash : hash_of 5381 1 primes ≡ 0x1772A48F
unfolding hash_of odd_primes mkhash is_composite
primes_hash = refl

-- Started with any bitmap of two words in which at most composite numbers are marked, such as the
-- zeroes of program start or what an earlier run left, `sieve` does not reach its `ebreak`: it
-- prints a line for every prime below 131 in order, and the checksum with `OK`, and leaves exactly
-- the composite numbers marked.
pub sieve-prints-primes :
    (s : Statics) (out : Bytes)
    → IsSieved 0 s.bitmap
    → (t : Statics) × (sieve s out
        ≡ done t (out ++ lines 1 primes ++ codes "checksum: 1772A48F OK\n"))
      × IsSieved bitmap_size t.bitmap
sieve-prints-primes s out v =
    finish (sieve_rounds_lem bitmap_size 0 2 begun _ (omega arith) (omega arith) v)
  where
    begun : Statics
    begun = record { bitmap = s.bitmap; hash = mkhash (mkhash 5381 1) 2 }

    finish :
        (t : Statics) × (sieve_rounds bitmap_size 0 2 begun (out ++ line 1 2)
            ≡ done t (out ++ line 1 2 ++ lines 2 (odd_primes bitmap_size 0)))
          × (t.hash ≡ hash_of begun.hash 2 (odd_primes bitmap_size 0))
          × IsSieved bitmap_size t.bitmap
        → (t : Statics) × (sieve s out
            ≡ done t (out ++ lines 1 primes ++ codes "checksum: 1772A48F OK\n"))
          × IsSieved bitmap_size t.bitmap
    finish (t, returns, hashed, sieved) = (t, ends, sieved)
      where
        ok : t.hash ≡ 0x1772A48F
        ok = unfold hash_of in (hashed ∙ primes_hash)

        ends : sieve s out ≡ done t (out ++ lines 1 primes ++ codes "checksum: 1772A48F OK\n")
        ends =
            unfold sieve lines in
            rw
              (
                print_prime-Writes 1 2 (record s { hash = 5381 }) out (omega arith) (omega arith),
                returns,
                print_str-Writes (codes "checksum: ") (omega arith) _,
                ok,
                print_hex-Writes 0x1772A48F 8 (omega arith) _,
                print_str-Writes (codes " OK\n") (omega arith) _,
              )
              (simp append_assoc)
