-- ===== src/Interp/Pieces.antt =====
-- On interp/variables.go: the references that are found in a string, and the bytes between them.
use go_sieve.Interp.Expand.{
  Piece, plain_byte, reference, checked_name, name_until, reference_at, pieces, replaced, value_of,
  expand_vars,
}
use go_sieve.Interp.References.{IsReference, reference_at-IsReference, reference_at_sound}
use go_sieve.Interp.Runtime.{RuntimeData, ExecError}
use go_sieve.Interp.Script.{requires_extension}
use go_sieve.Prelude.{
  ℕ, zero, suc, ◌≡◌, refl, sym, ap, ◌∙◌, ◌==◌, List, [], ◌∷◌, ◌++◌, Bytes, codes, none, some, true,
  false, Result, ok, err, out_of_fuel, ◌>>=◌, All, append-nil, arith, Option-cases, Bool-cases, inl,
  inr, length,
}

-- A piece as it stands in the string.
unfoldable pub written : List Piece → Bytes
written [] = []
written (plain_byte b ∷ ps) = b ∷ written ps
written (reference n ∷ ps) = 36 ∷ 123 ∷ n ++ 125 ∷ written ps

unfoldable drop : ℕ → Bytes → Bytes
drop zero s = s
drop (suc n) [] = []
drop (suc n) (b ∷ s) = drop n s

drop-append : (n rest : Bytes) → drop (suc (length n)) (n ++ 125 ∷ rest) ≡ rest
unfolding drop
drop-append [] rest = refl
drop-append (b ∷ n) rest = drop-append n rest

-- The name is read up to a closing brace.
name_until-append : (s n : Bytes) → name_until s ≡ some n → (rest : Bytes) × (s ≡ n ++ 125 ∷ rest)
unfolding name_until
name_until-append [] n h = cc
name_until-append (b ∷ s) n h = elim (Bool-cases (b == 125)) [
  | inl e ↦ (s, ground arith)
  | inr e ↦ elim (Option-cases (name_until s)) [
    | inl f ↦ ground arith
    | inr (m, f) ↦ let (rest, g) = name_until-append s m f in (rest, ground arith)
  ]
]

reference_at-append :
    (s n : Bytes) → reference_at s ≡ some n → (rest : Bytes) × (s ≡ 36 ∷ 123 ∷ n ++ 125 ∷ rest)
unfolding reference_at checked_name
reference_at-append [] n h = cc
reference_at-append (b ∷ []) n h = cc
reference_at-append (b ∷ c ∷ s) n h = elim (Option-cases (name_until s)) [
  | inl f ↦ ground arith
  | inr (m, f) ↦ let (rest, g) = name_until-append s m f in (rest, ground arith)
]

written-pieces : (skip : ℕ) (s : Bytes) → written (pieces skip s) ≡ drop skip s
unfolding written pieces drop
written-pieces zero [] = refl
written-pieces (suc skip) [] = refl
written-pieces (suc skip) (b ∷ s) = written-pieces skip s
written-pieces zero (b ∷ s) = elim (Option-cases (reference_at (b ∷ s))) [
  | inl e ↦ rw (e, written, pieces) (ap (λ t. b ∷ t) (written-pieces zero s))
  | inr (n, e) ↦
      let (rest, g) = reference_at-append (b ∷ s) n e in
      let dropped =
        written-pieces (suc (suc (length n))) s
        ∙ ap (drop (suc (suc (suc (length n))))) g
        ∙ drop-append n rest in
      rw (e, written, pieces) (ap (λ t. 36 ∷ 123 ∷ n ++ 125 ∷ t) dropped ∙ sym g)
]

abbrev then_prepend : Result ExecError Bytes → Bytes → Result ExecError Bytes
then_prepend r p = r >>= λ rest. ok (p ++ rest)

then_prepend-nil : (r : Result ExecError Bytes) → then_prepend r [] ≡ r
then_prepend-nil (ok t) = refl
then_prepend-nil (err x) = refl
then_prepend-nil out_of_fuel = refl

then_prepend-cons :
    (r : Result ExecError Bytes) (b : ℕ) (p : Bytes)
    → (then_prepend r p >>= λ rest. ok (b ∷ rest)) ≡ then_prepend r (b ∷ p)
then_prepend-cons (ok t) b p = refl
then_prepend-cons (err x) b p = refl
then_prepend-cons out_of_fuel b p = refl

then_prepend-append :
    (v r : Result ExecError Bytes) (p : Bytes)
    → then_prepend (v >>= λ value. r >>= λ rest. ok (value ++ rest)) p
      ≡ (v >>= λ value. r >>= λ rest. ok (p ++ (value ++ rest)))
then_prepend-append (ok value) (ok rest) p = refl
then_prepend-append (ok value) (err x) p = refl
then_prepend-append (ok value) out_of_fuel p = refl
then_prepend-append (err x) r p = refl
then_prepend-append out_of_fuel r p = refl

-- No dollar sign.
abbrev pub IsPlain : Bytes → Type 0
IsPlain = All (λ b. (b == 36) ≡ false)

reference_at-plain : (b : ℕ) (s : Bytes) → (b == 36) ≡ false → reference_at (b ∷ s) ≡ none
unfolding reference_at
reference_at-plain b [] h = refl
reference_at-plain b (c ∷ s) h = rw h refl

replaced-plain :
    (d : RuntimeData) (p s : Bytes)
    → IsPlain p
    → replaced d (pieces 0 (p ++ s)) ≡ then_prepend (replaced d (pieces 0 s)) p
unfolding pieces replaced
replaced-plain d [] s h = sym (then_prepend-nil (replaced d (pieces 0 s)))
replaced-plain d (b ∷ p) s (h, hs) =
    rw (reference_at-plain b (p ++ s) h, pieces, replaced)
      (rw (replaced-plain d p s hs) (then_prepend-cons (replaced d (pieces 0 s)) b p))

pieces-skip : (n : Bytes) (b : ℕ) (s : Bytes) → pieces (suc (length n)) (n ++ b ∷ s) ≡ pieces 0 s
unfolding pieces
pieces-skip [] b s = refl
pieces-skip (c ∷ n) b s = pieces-skip n b s

pieces-reference :
    (n s : Bytes) → IsReference n → pieces 0 (36 ∷ 123 ∷ n ++ 125 ∷ s) ≡ reference n ∷ pieces 0 s
unfolding pieces
pieces-reference n s h =
    rw (reference_at-IsReference n s h, pieces) (ap (λ ps. reference n ∷ ps) (pieces-skip n 125 s))

-- A reference that is found is one of the grammar.
abbrev pub InGrammar : Piece → Type 0
InGrammar (plain_byte b) = Unit
InGrammar (reference n) = IsReference n

pieces-InGrammar : (skip : ℕ) (s : Bytes) → All InGrammar (pieces skip s)
unfolding pieces
pieces-InGrammar zero [] = tt
pieces-InGrammar (suc skip) [] = tt
pieces-InGrammar (suc skip) (b ∷ s) = pieces-InGrammar skip s
pieces-InGrammar zero (b ∷ s) = elim (Option-cases (reference_at (b ∷ s))) [
  | inl e ↦ rw (e, pieces) (tt, pieces-InGrammar zero s)
  | inr (n, e) ↦
      rw (e, pieces) (reference_at_sound (b ∷ s) n e, pieces-InGrammar (suc (suc (length n))) s)
]

-- Under the extension `variables`, a string without a dollar sign expands to itself; and bytes without one, a
-- reference of the grammar and any text behind it expand to these bytes, the value of the reference and what
-- the text expands to. The pieces of every string are the whole string, in its order, and its references are ones
-- of the grammar.
pub expand_vars-append :
    (d : RuntimeData) (p n s : Bytes)
    → requires_extension d.script (codes "variables") ≡ true
    → IsPlain p
    → IsReference n
    → (expand_vars d p ≡ ok p)
      × (expand_vars d (p ++ (36 ∷ 123 ∷ n ++ 125 ∷ s))
          ≡ (value_of d n >>= λ value. expand_vars d s >>= λ rest. ok (p ++ (value ++ rest))))
      × (written (pieces 0 s) ≡ s)
      × All InGrammar (pieces 0 s)
unfolding expand_vars drop pieces replaced
expand_vars-append d p n s e h k = (
  rw e (
      ap (λ t. replaced d (pieces 0 t)) (sym (append-nil p))
      ∙ replaced-plain d p [] h
      ∙ ap ok (append-nil p)),
  rw e (
      replaced-plain d p (36 ∷ 123 ∷ n ++ 125 ∷ s) h
      ∙ ap (λ ps. then_prepend (replaced d ps) p) (pieces-reference n s k)
      ∙ then_prepend-append (value_of d n) (replaced d (pieces 0 s)) p),
  written-pieces 0 s,
  pieces-InGrammar 0 s,
)
