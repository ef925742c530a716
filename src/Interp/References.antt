-- ===== src/Interp/References.antt =====
-- On interp/variables.go: the grammar of the references that the expression matches.
use go_sieve.Interp.Expand.{
  all_digits, is_num_variable, is_word, is_segment, all_segments, is_reference, name_until,
  checked_name, reference_at,
}
use go_sieve.Lexer.Scan.{is_letter, is_digit, is_identifier_byte, all_identifier_bytes}
use mathlib.Core.Path.{subst}
use go_sieve.Prelude.{
  Option, none, Bool-cases, inl, inr, ℕ, ◌≡◌, refl, sym, ap, ◌∙◌, true, false, ◌||◌, ◌==◌, [], ◌∷◌,
  ◌++◌, append_assoc, append-nil, Bytes, some, All, arith,
}

-- An identifier, which may start with `_`.
pub data IsWord : Bytes → Type 0 where
  word :
      (b : ℕ) (s : Bytes)
      → (is_letter b || b == 95) ≡ true
      → All (λ c. is_identifier_byte c ≡ true) s
      → IsWord (b ∷ s)

-- An identifier or a number.
pub data IsSegment : Bytes → Type 0 where
  name : (s : Bytes) → IsWord s → IsSegment s
  digits : (b : ℕ) (s : Bytes) → All (λ c. is_digit c ≡ true) (b ∷ s) → IsSegment (b ∷ s)

-- Segments, each behind a dot.
pub data AreSegments : Bytes → Type 0 where
  no_segments : AreSegments []
  dot : (seg s : Bytes) → IsSegment seg → AreSegments s → AreSegments (46 ∷ seg ++ s)

-- A segment; or an identifier and segments behind it.
pub data IsReference : Bytes → Type 0 where
  alone : (s : Bytes) → IsSegment s → IsReference s
  qualified : (w s : Bytes) → IsWord w → AreSegments s → IsReference (w ++ s)

-- The bytes of names: no closing brace is one.
abbrev InName : ℕ → Type 0
InName b = (is_identifier_byte b || b == 46) ≡ true

-- The bytes of segments, without the dot.
abbrev InSegment : ℕ → Type 0
InSegment b = is_identifier_byte b ≡ true

identifier_bytes :
    (s : Bytes) → All (λ c. is_identifier_byte c ≡ true) s → all_identifier_bytes s ≡ true
unfolding all_identifier_bytes
identifier_bytes [] h = refl
identifier_bytes (b ∷ s) (h, hs) = rw h (identifier_bytes s hs)

digit_bytes : (s : Bytes) → All (λ c. is_digit c ≡ true) s → all_digits s ≡ true
unfolding all_digits
digit_bytes [] h = refl
digit_bytes (b ∷ s) (h, hs) = rw h (digit_bytes s hs)

digits-InSegment : (s : Bytes) → All (λ c. is_digit c ≡ true) s → All InSegment s
unfolding is_identifier_byte
digits-InSegment [] h = tt
digits-InSegment (b ∷ s) (h, hs) = (ground arith, digits-InSegment s hs)

IsWord-is_word : (s : Bytes) → IsWord s → is_word s ≡ true
unfolding is_word
IsWord-is_word _ (word b s h hs) = rw h (identifier_bytes s hs)

IsWord-InSegment : (s : Bytes) → IsWord s → All InSegment s
unfolding is_identifier_byte
IsWord-InSegment _ (word b s h hs) = (ground arith, hs)

IsSegment-is_segment : (s : Bytes) → IsSegment s → is_segment s ≡ true
unfolding is_segment is_num_variable
IsSegment-is_segment _ (name s w) = rw (IsWord-is_word s w) refl
IsSegment-is_segment _ (digits b s h) = ground (arith, digit_bytes (b ∷ s) h)

IsSegment-InSegment : (s : Bytes) → IsSegment s → All InSegment s
IsSegment-InSegment _ (name s w) = IsWord-InSegment s w
IsSegment-InSegment _ (digits b s h) = digits-InSegment (b ∷ s) h

segment_byte : (b : ℕ) → InSegment b → (b == 46) ≡ false
unfolding is_identifier_byte is_letter is_digit
segment_byte b h = ground arith

-- The scans go on to the end of a segment.
all_segments-append :
    (seg w t : Bytes) → All InSegment w → all_segments seg (w ++ t) ≡ all_segments (seg ++ w) t
unfolding all_segments
all_segments-append seg [] t h = rw (append-nil seg) refl
all_segments-append seg (b ∷ w) t (h, hs) = rw (segment_byte b h) (
    all_segments-append (seg ++ b ∷ []) w t hs
    ∙ ap (λ u. all_segments u t) (append_assoc seg (b ∷ []) w))

is_reference-append :
    (seg w t : Bytes) → All InSegment w → is_reference seg (w ++ t) ≡ is_reference (seg ++ w) t
unfolding is_reference
is_reference-append seg [] t h = rw (append-nil seg) refl
is_reference-append seg (b ∷ w) t (h, hs) = rw (segment_byte b h) (
    is_reference-append (seg ++ b ∷ []) w t hs
    ∙ ap (λ u. is_reference u t) (append_assoc seg (b ∷ []) w))

-- Segments behind one that is read.
all_segments-AreSegments :
    (seg s : Bytes) → is_segment seg ≡ true → AreSegments s → all_segments seg s ≡ true
unfolding all_segments
all_segments-AreSegments seg _ h no_segments = h
all_segments-AreSegments seg _ h (dot next s k ks) = rw h (
    all_segments-append [] next s (IsSegment-InSegment next k)
    ∙ all_segments-AreSegments next s (IsSegment-is_segment next k) ks)

is_reference-AreSegments : (w s : Bytes) → IsWord w → AreSegments s → is_reference w s ≡ true
unfolding is_reference is_segment
is_reference-AreSegments w _ h no_segments = rw (IsWord-is_word w h) refl
is_reference-AreSegments w _ h (dot next s k ks) = rw (IsWord-is_word w h) (
    all_segments-append [] next s (IsSegment-InSegment next k)
    ∙ all_segments-AreSegments next s (IsSegment-is_segment next k) ks)

is_reference-IsReference : (n : Bytes) → IsReference n → is_reference [] n ≡ true
unfolding is_reference
is_reference-IsReference _ (alone s h) =
    ap (is_reference []) (sym (append-nil s))
    ∙ is_reference-append [] s [] (IsSegment-InSegment s h)
    ∙ IsSegment-is_segment s h
is_reference-IsReference _ (qualified w s h hs) =
    is_reference-append [] w s (IsWord-InSegment w h) ∙ is_reference-AreSegments w s h hs

-- The bytes of a name are read up to its brace.
name_until-InSegment :
    (w t n : Bytes) → All InSegment w → name_until t ≡ some n → name_until (w ++ t) ≡ some (w ++ n)
unfolding name_until is_identifier_byte is_letter is_digit
name_until-InSegment [] t n h e = e
name_until-InSegment (b ∷ w) t n (h, hs) e = ground (arith, name_until-InSegment w t n hs e)

name_until-AreSegments : (s rest : Bytes) → AreSegments s → name_until (s ++ 125 ∷ rest) ≡ some s
unfolding name_until is_identifier_byte
name_until-AreSegments _ rest no_segments = refl
name_until-AreSegments _ rest (dot seg s h hs) = rw (append_assoc seg s (125 ∷ rest)) (
    rw
      (name_until-InSegment seg (s ++ 125 ∷ rest) s (IsSegment-InSegment seg h)
        (name_until-AreSegments s rest hs))
      refl)

name_until-IsReference : (n rest : Bytes) → IsReference n → name_until (n ++ 125 ∷ rest) ≡ some n
unfolding name_until
name_until-IsReference _ rest (alone s h) =
    name_until-InSegment s (125 ∷ rest) [] (IsSegment-InSegment s h) refl ∙ ap some (append-nil s)
name_until-IsReference _ rest (qualified w s h hs) = rw (append_assoc w s (125 ∷ rest)) (
    name_until-InSegment w (s ++ 125 ∷ rest) s (IsWord-InSegment w h)
      (name_until-AreSegments s rest hs))

-- A reference of the grammar is matched.
pub reference_at-IsReference :
    (n rest : Bytes) → IsReference n → reference_at (36 ∷ 123 ∷ n ++ 125 ∷ rest) ≡ some n
unfolding reference_at checked_name
reference_at-IsReference n rest h =
    rw (name_until-IsReference n rest h) (rw (is_reference-IsReference n h) refl)

identifier_bytes-All :
    (s : Bytes) → all_identifier_bytes s ≡ true → All (λ c. is_identifier_byte c ≡ true) s
unfolding all_identifier_bytes
identifier_bytes-All [] h = tt
identifier_bytes-All (b ∷ s) h = (ground arith, identifier_bytes-All s (ground arith))

digit_bytes-All : (s : Bytes) → all_digits s ≡ true → All (λ c. is_digit c ≡ true) s
unfolding all_digits
digit_bytes-All [] h = tt
digit_bytes-All (b ∷ s) h = (ground arith, digit_bytes-All s (ground arith))

is_word-IsWord : (s : Bytes) → is_word s ≡ true → IsWord s
unfolding is_word
is_word-IsWord [] h = cc
is_word-IsWord (b ∷ s) h = word b s (ground arith) (identifier_bytes-All s (ground arith))

is_num_variable-IsSegment : (s : Bytes) → is_num_variable s ≡ true → IsSegment s
unfolding is_num_variable
is_num_variable-IsSegment [] h = cc
is_num_variable-IsSegment (b ∷ s) h = digits b s (digit_bytes-All (b ∷ s) h)

is_segment-IsSegment : (s : Bytes) → is_segment s ≡ true → IsSegment s
unfolding is_segment
is_segment-IsSegment s h = elim (Bool-cases (is_word s)) [
  | inl e ↦ name s (is_word-IsWord s e)
  | inr e ↦ is_num_variable-IsSegment s (ground arith)
]

-- What the scan accepts, with the part of the current segment in front of it, is a segment and others behind dots.
all_segments_sound :
    (seg s : Bytes)
    → all_segments seg s ≡ true
    → (t : Bytes) × (u : Bytes) × (seg ++ s ≡ t ++ u) × IsSegment t × AreSegments u
unfolding all_segments
all_segments_sound seg [] h = (seg, [], refl, is_segment-IsSegment seg h, no_segments)
all_segments_sound seg (b ∷ s) h = elim (Bool-cases (b == 46)) [
  | inl e ↦
      let (t, u, q, k, ks) = all_segments_sound [] s (ground arith) in
      let same : b ≡ 46 = ground arith in
      (
        seg,
        46 ∷ (t ++ u),
        ap (λ r. seg ++ r) (ap (λ c. c ∷ s) same ∙ ap (λ r. 46 ∷ r) q),
        is_segment-IsSegment seg (ground arith),
        dot t u k ks,
      )
  | inr e ↦
      let (t, u, q, k, ks) = all_segments_sound (seg ++ b ∷ []) s (ground arith) in
      (t, u, sym (append_assoc seg (b ∷ []) s) ∙ q, k, ks)
]

is_reference_sound : (seg s : Bytes) → is_reference seg s ≡ true → IsReference (seg ++ s)
unfolding is_reference
is_reference_sound seg [] h =
    subst IsReference (sym (append-nil seg)) (alone seg (is_segment-IsSegment seg h))
is_reference_sound seg (b ∷ s) h = elim (Bool-cases (b == 46)) [
  | inl e ↦
      let (t, u, q, k, ks) = all_segments_sound [] s (ground arith) in
      let same : b ≡ 46 = ground arith in
      subst IsReference (ap (λ r. seg ++ r) (sym (ap (λ c. c ∷ s) same ∙ ap (λ r. 46 ∷ r) q)))
        (qualified seg (46 ∷ (t ++ u)) (is_word-IsWord seg (ground arith)) (dot t u k ks))
  | inr e ↦
      subst IsReference (append_assoc seg (b ∷ []) s)
        (is_reference_sound (seg ++ b ∷ []) s (ground arith))
]

checked_name_sound :
    (o : Option Bytes) (n : Bytes) → checked_name o ≡ some n → is_reference [] n ≡ true
unfolding checked_name
checked_name_sound none n h = cc
checked_name_sound (some m) n h = ground arith

-- What is matched is a reference of the grammar.
pub reference_at_sound : (s n : Bytes) → reference_at s ≡ some n → IsReference n
unfolding reference_at
reference_at_sound [] n h = cc
reference_at_sound (b ∷ []) n h = cc
reference_at_sound (b ∷ c ∷ s) n h =
    is_reference_sound [] n (checked_name_sound (name_until s) n (ground arith))
