-- ===== src/Lexer/Bounds.antt =====
-- On the routines of lexer/lex.go, each by itself: their results and the bytes they leave.
use go_sieve.Lexer.Strings.{
  append_string_bytes, Quoting, quoting, quoted_byte, quoted_read, quoted_round, quoted_string,
  Multiline, multiline, multiline_break, multiline_byte, multiline_read, multiline_round,
  multiline_string,
}
use go_sieve.Lexer.Scan.{
  Options, cr, lf, advance, next_line, consume_crlf, is_identifier_byte, all_identifier_bytes,
  is_valid_identifier, scan_identifier, max_int, scan_digits, scan_number, hash_comment,
  multiline_comment, skip_text_line,
}
use go_sieve.Lexer.Token.{Position, Quantifier}
use go_sieve.Prelude.{
  ℕ, suc, ◌≤◌, ◌<◌, ◌≡◌, refl, sym, ap, ◌⊎◌, inr, Bool, true, [], ◌∷◌, ◌++◌, ◌==◌, arith, Bytes,
  length, length-append, Flow, Ends, Round, Ends-loop,
}

-- At most the bytes `r` are left.
abbrev pub LeavesLe : {A : Type 0} → Bytes → A × Bytes × Position → Type 0
LeavesLe r (_, r', _) = length r' ≤ length r

-- A string that `MaxStringBytes` allows.
abbrev pub FitsString : Options → Bytes → Type 0
FitsString o s = (o.max_string_bytes ≡ 0) ⊎ (length s ≤ o.max_string_bytes)

abbrev pub StringEnds : Options → Bytes → Bytes × Bytes × Position → Type 0
StringEnds o r (s, r', _) = FitsString o s × (length r' ≤ length r)

pub consume_crlf-Ends :
    (b : ℕ) (r : Bytes) (p : Position) → Ends (LeavesLe r) (consume_crlf (b ∷ r) p)
unfolding consume_crlf
consume_crlf-Ends b [] p = ground arith
consume_crlf-Ends b (c ∷ r) p = ground arith

pub hash_comment-Ends : (r : Bytes) (p : Position) → Ends (LeavesLe r) (hash_comment r p)
unfolding hash_comment
hash_comment-Ends [] p = omega arith
hash_comment-Ends (b ∷ r) p =
    ground (arith, consume_crlf-Ends b r (advance p), hash_comment-Ends r (advance p))

pub multiline_comment-Ends :
    (star : Bool) (r : Bytes) (p : Position) → Ends (LeavesLe r) (multiline_comment star r p)
unfolding multiline_comment
multiline_comment-Ends star [] p = tt
multiline_comment-Ends star (b ∷ r) p = ground (
  arith,
  multiline_comment-Ends (b == b'*') r (next_line (advance p)),
  multiline_comment-Ends (b == b'*') r (advance p),
)

pub skip_text_line-Ends : (r : Bytes) (p : Position) → Ends (LeavesLe r) (skip_text_line r p)
unfolding skip_text_line
skip_text_line-Ends [] p = tt
skip_text_line-Ends (b ∷ r) p = ground (
  arith,
  skip_text_line-Ends r (advance p),
  hash_comment-Ends r (advance p),
  consume_crlf-Ends b r (advance p),
)

all_identifier_bytes-concat :
    (id : Bytes) (b : ℕ)
    → all_identifier_bytes id ≡ true
    → is_identifier_byte b ≡ true
    → all_identifier_bytes (id ++ b ∷ []) ≡ true
unfolding all_identifier_bytes
all_identifier_bytes-concat [] b h k = ground arith
all_identifier_bytes-concat (c ∷ id) b h k = ground (arith, all_identifier_bytes-concat id b)

is_valid_identifier-concat :
    (id : Bytes) (b : ℕ)
    → is_valid_identifier id ≡ true
    → is_identifier_byte b ≡ true
    → is_valid_identifier (id ++ b ∷ []) ≡ true
unfolding is_valid_identifier
is_valid_identifier-concat [] b h k = cc
is_valid_identifier-concat (c ∷ id) b h k = ground (arith, all_identifier_bytes-concat id b)

abbrev pub IdentifierEnds : Bytes → Bytes × Bytes × Position → Type 0
IdentifierEnds r (id, r', _) = (is_valid_identifier id ≡ true) × (length r' ≤ length r)

pub scan_identifier-Ends :
    (id r : Bytes) (p : Position)
    → is_valid_identifier id ≡ true
    → Ends (IdentifierEnds r) (scan_identifier id r p)
unfolding scan_identifier
scan_identifier-Ends id [] p h = (h, omega arith)
scan_identifier-Ends id (b ∷ r) p h =
    ground
      (arith, is_valid_identifier-concat id b h, scan_identifier-Ends (id ++ b ∷ []) r (advance p))

scan_digits-le : (num r : Bytes) (p : Position) → length (scan_digits num r p).1 ≤ length r
unfolding scan_digits
scan_digits-le num [] p = omega arith
scan_digits-le num (b ∷ r) p = ground (arith, scan_digits-le (num ++ b ∷ []) r (advance p))

abbrev pub NumberEnds : Bytes → (ℕ × Quantifier) × Bytes × Position → Type 0
NumberEnds r ((v, _), r', _) = (v ≤ max_int) × (length r' ≤ length r)

pub scan_number-Ends : (num r : Bytes) (p : Position) → Ends (NumberEnds r) (scan_number num r p)
unfolding scan_number
scan_number-Ends num r p = ground (arith, scan_digits-le num r p)

pub append_string_bytes-Ends :
    (o : Options) (dst bs : Bytes) → Ends (FitsString o) (append_string_bytes o dst bs)
unfolding append_string_bytes
append_string_bytes-Ends o dst bs = ground (arith, length-append dst bs)

-- The loop of `quotedString`: the string so far fits, and at most `r` is left.
abbrev QuotingInv : Options → Bytes → Quoting → Type 0
QuotingInv o r s = FitsString o s.str × (length s.input ≤ length r)

abbrev QuotedRound : Options → Bytes → Quoting → Flow Quoting (Bytes × Bytes × Position) → Type 0
QuotedRound o r = Round (QuotingInv o r) (λ s. length s.input) (StringEnds o r)

quoted_read-Ends :
    (o : Options) (r : Bytes) (s : Quoting)
    → QuotingInv o r s
    → (i : Bytes) → i ≡ s.input
    → Ends (QuotedRound o r s) (quoted_read o s i)
unfolding quoted_read quoted_byte
quoted_read-Ends o r s h [] e = tt
quoted_read-Ends o r s h (b ∷ i) e = ground (
  arith,
  ap length e,
  consume_crlf-Ends b i (advance s.pos),
  append_string_bytes-Ends o s.str (cr ∷ lf ∷ []),
  append_string_bytes-Ends o s.str (b ∷ []),
)

FitsString-nil : (o : Options) → FitsString o []
FitsString-nil o = inr (omega arith)

pub quoted_string-Ends :
    (o : Options) (r : Bytes) (p : Position) → Ends (StringEnds o r) (quoted_string o r p)
unfolding quoted_string
quoted_string-Ends o r p =
    Ends-loop (QuotingInv o r) (λ s. length s.input) (StringEnds o r) (quoted_round o)
      (λ s h. quoted_read-Ends o r s h s.input refl) (suc (length r)) (quoting r p) (omega arith)
      (FitsString-nil o, omega arith)

-- The loop of `multilineString`.
abbrev MultilineInv : Options → Bytes → Multiline → Type 0
MultilineInv o r s = FitsString o s.text × (length s.input ≤ length r)

abbrev MultilineRound :
    Options → Bytes → Multiline → Flow Multiline (Bytes × Bytes × Position) → Type 0
MultilineRound o r = Round (MultilineInv o r) (λ s. length s.input) (StringEnds o r)

multiline_break-Ends :
    (o : Options) (r : Bytes) (s : Multiline)
    → MultilineInv o r s
    → (r' : Bytes) (p : Position) → length r' < length s.input
    → Ends (MultilineRound o r s) (multiline_break o s r' p)
unfolding multiline_break
multiline_break-Ends o r s h r' p l =
    ground (arith, append_string_bytes-Ends o s.text (cr ∷ lf ∷ []))

multiline_byte-Ends :
    (o : Options) (r : Bytes) (s : Multiline)
    → MultilineInv o r s
    → (b : ℕ) (i : Bytes) (p : Position) → length s.input ≡ suc (length i)
    → Ends (MultilineRound o r s) (multiline_byte o s b i p)
unfolding multiline_byte
multiline_byte-Ends o r s h b i p e =
    let dotted = s.text ++ b'.' ∷ [] in
    ground (
      arith,
      e,
      consume_crlf-Ends b i p,
      append_string_bytes-Ends o s.text (cr ∷ lf ∷ []),
      append_string_bytes-Ends o s.text (b'.' ∷ []),
      append_string_bytes-Ends o s.text (b ∷ []),
      append_string_bytes-Ends o dotted (b ∷ []),
    )

multiline_read-Ends :
    (o : Options) (r : Bytes) (s : Multiline)
    → MultilineInv o r s
    → (i : Bytes) → i ≡ s.input
    → Ends (MultilineRound o r s) (multiline_read o s i)
unfolding multiline_read
multiline_read-Ends o r s h [] e = tt
multiline_read-Ends o r s h (b ∷ i) e =
    multiline_byte-Ends o r s h b i (advance s.pos) (ap length (sym e))

pub multiline_string-Ends :
    (o : Options) (r : Bytes) (p : Position) → Ends (StringEnds o r) (multiline_string o r p)
unfolding multiline_string
multiline_string-Ends o r p =
    Ends-loop (MultilineInv o r) (λ s. length s.input) (StringEnds o r) (multiline_round o)
      (λ s h. multiline_read-Ends o r s h s.input refl) (suc (length r)) (multiline r p)
      (omega arith) (FitsString-nil o, omega arith)
