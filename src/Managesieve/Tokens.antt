-- ===== src/Managesieve/Tokens.antt =====
-- On the decoder of managesieve/internal/wire/codec.go at an atom, a quoted string and a literal.
use mathlib.Core.Path.{subst}
use go_sieve.Lexer.Scan.{backslash, quote, is_digit}
use go_sieve.Lexer.Words.{AllDigits, IsDecimal, decimal_digits-IsDecimal}
use go_sieve.Lexer.Write.{decimal_digits}
use go_sieve.Managesieve.Decode.{
  Decoder, WireError, eof, unexpected_eof, full, expect_crlf, skip_sp, is_atom_char,
  add_command_bytes, atom_bytes, read_atom, quoted_bytes, literal_size, parse_int, read_full,
  max_uint32, check_size, some_digits, literal_bytes, string_bytes, read_string, token_bytes,
  read_token,
}
use go_sieve.Managesieve.Total.{Within}
use go_sieve.Managesieve.Encode.{escape_quoted}
use go_sieve.Prelude.{
  ℕ, suc, ◌+◌, ◌≤◌, ◌<◌, ◌≡◌, refl, sym, ap, ◌∙◌, inl, inr, Bool, true, false, not, ◌&&◌, ◌||◌, [],
  ◌∷◌, ◌++◌, append-nil, append_assoc, some, ◌==◌, arith, Bool-cases, Bytes, length, length-append,
  ok,
}

add_command_bytes-Within :
    (d : Decoder) (n k : ℕ)
    → Within d.max_non_literal_command_len (n + k)
    → add_command_bytes d (some n) k ≡ ok (some (n + k))
unfolding add_command_bytes
add_command_bytes-Within d n k h = ground arith

pub full-Within : (limit n k : ℕ) → Within limit (n + suc k) → full limit n ≡ false
full-Within limit n k h = ground arith

-- A byte that goes into the string.
quoted_bytes-next :
    (d : Decoder) (b : Bytes) (escaped : Bool) (x : ℕ) (r : Bytes) (n k : ℕ)
    → (not escaped && x == quote) ≡ false
    → (not escaped && x == backslash) ≡ false
    → Within d.max_quoted_bytes (length b + suc k)
    → Within d.max_non_literal_command_len (n + suc k)
    → quoted_bytes d b escaped (x ∷ r, some n)
      ≡ quoted_bytes d (b ++ x ∷ []) false (r, some (n + 1))
unfolding quoted_bytes
quoted_bytes-next d b escaped x r n k h₁ h₂ q c = rw h₁ (
    rw h₂ (
      rw (full-Within d.max_quoted_bytes (length b) k q)
        (rw (add_command_bytes-Within d n 1 (λ p. ground arith)) refl)))

-- A quoted string is read up to its closing quote.
quoted_bytes-escape_quoted :
    (d : Decoder) (s b rest : Bytes) (n : ℕ)
    → Within d.max_quoted_bytes (length b + length s)
    → Within d.max_non_literal_command_len (n + length s)
    → quoted_bytes d b false (escape_quoted s ++ quote ∷ rest, some n)
      ≡ ok (b ++ s, (rest, some (n + length s)))
unfolding escape_quoted
quoted_bytes-escape_quoted d [] b rest n q c = unfold quoted_bytes in rw append-nil (ground arith)
quoted_bytes-escape_quoted d (x ∷ s) b rest n q c =
    let ih =
      quoted_bytes-escape_quoted d s (b ++ x ∷ []) rest (n + 1)
        (λ p. ground (arith, length-append b (x ∷ []))) (λ p. ground arith) in
    elim (Bool-cases (x == quote || x == backslash)) [
      | inl special ↦
          rw special
            (backslash_first ∙ quoted_bytes-next d b true x r n (length s) refl refl q c ∙ more ih)
      | inr plain ↦
          rw plain (
            quoted_bytes-next d b false x r n (length s) (ground arith) (ground arith) q c
            ∙ more ih)
    ]
  where
    r : Bytes
    r = escape_quoted s ++ quote ∷ rest

    backslash_first :
        quoted_bytes d b false (backslash ∷ x ∷ r, some n) ≡ quoted_bytes d b true (x ∷ r, some n)
    backslash_first = unfold quoted_bytes in refl

    more :
        quoted_bytes d (b ++ x ∷ []) false (r, some (n + 1))
          ≡ ok (b ++ x ∷ [] ++ s, (rest, some (n + 1 + length s)))
        → quoted_bytes d (b ++ x ∷ []) false (r, some (n + 1))
          ≡ ok (b ++ x ∷ s, (rest, some (n + suc (length s))))
    more ih = ih ∙ rw append_assoc (ap (λ m. ok (b ++ x ∷ s, (rest, some m))) (omega arith))

literal_size-digits :
    (num ds rest : Bytes)
    → AllDigits ds
    → literal_size num (ds ++ (b'+' ∷ b'}' ∷ rest)) ≡ ok (num ++ ds, rest)
unfolding literal_size is_digit
literal_size-digits num [] rest h = rw append-nil refl
literal_size-digits num (c ∷ ds) rest h =
    rw (h.0) (literal_size-digits (num ++ c ∷ []) ds rest h.1 ∙ rw append_assoc)

read_full-append :
    (e : WireError) (s rest : Bytes) → read_full e (length s) (s ++ rest) ≡ ok (s, rest)
unfolding read_full
read_full-append e [] rest = refl
read_full-append e (c ∷ s) rest = rw (read_full-append unexpected_eof s rest)

-- The byte at the front ends an atom.
abbrev pub Stops : Bytes → Type 0
Stops [] = ⊥
Stops (c ∷ r) = is_atom_char c ≡ false

-- The text `t`, behind a space, is read as the string `v`.
abbrev pub ReadsAs : Decoder → Bytes → Bytes → Type 0
ReadsAs d v t =
    (n : ℕ) (rest : Bytes)
    → Within d.max_non_literal_command_len (n + length v)
    → Stops rest
    → read_token d (b' ' ∷ t ++ rest, some n) ≡ ok (v, (rest, some (n + length v)))

pub quoted-ReadsAs :
    (d : Decoder) (s : Bytes)
    → Within d.max_quoted_bytes (length s)
    → ReadsAs d s (quote ∷ escape_quoted s ++ quote ∷ [])
unfolding read_token skip_sp token_bytes read_string string_bytes
quoted-ReadsAs d s q n rest c stops =
    rw append_assoc (quoted_bytes-escape_quoted d s [] rest n (λ p. ground (arith, q p)) c)

-- A literal that the decoder admits.
abbrev pub FitsLiteral : Decoder → ℕ → Type 0
FitsLiteral d size = (size ≤ max_uint32) × Within d.max_literal_bytes size

some_digits-decimal : {n : ℕ} {s : Bytes} → IsDecimal n s → some_digits s ≡ ok tt
some_digits-decimal d = rw d.splits refl

pub AllDigits-decimal : {n : ℕ} {s : Bytes} → IsDecimal n s → AllDigits s
AllDigits-decimal d = subst AllDigits (sym d.splits) (d.first_digit, d.other_digits)

parse_int-decimal : {n : ℕ} {s : Bytes} → IsDecimal n s → n ≤ max_uint32 → parse_int s ≡ ok n
unfolding parse_int
parse_int-decimal d h = rw d.value (ground arith)

check_size-FitsLiteral : (d : Decoder) (sz : ℕ) → FitsLiteral d sz → check_size d sz ≡ ok tt
unfolding check_size
check_size-FitsLiteral d sz h = ground arith

literal_bytes-digits :
    (d : Decoder) (s rest : Bytes) (n : ℕ)
    → FitsLiteral d (length s)
    → Within d.max_non_literal_command_len (n + length s)
    → literal_bytes d (decimal_digits (length s) ++ (b'+' ∷ b'}' ∷ 13 ∷ 10 ∷ s ++ rest), some n)
      ≡ ok (s, (rest, some (n + length s)))
unfolding literal_bytes expect_crlf
literal_bytes-digits d s rest n fits c =
    let dec = decimal_digits-IsDecimal (length s) in
    rw
      (literal_size-digits [] (decimal_digits (length s)) (13 ∷ 10 ∷ s ++ rest)
        (AllDigits-decimal dec))
      (rw (some_digits-decimal dec) (
        rw (parse_int-decimal dec fits.0) (
          rw (check_size-FitsLiteral d (length s) fits) (
            rw (add_command_bytes-Within d n (length s) c)
              (rw (read_full-append eof s rest) refl)))))

-- The header of a literal that a client writes, and the literal.
abbrev pub literal_text : Bytes → Bytes
literal_text s = b'{' ∷ decimal_digits (length s) ++ (b'+' ∷ b'}' ∷ 13 ∷ 10 ∷ s)

pub literal-ReadsAs :
    (d : Decoder) (s : Bytes) → FitsLiteral d (length s) → ReadsAs d s (literal_text s)
unfolding read_token skip_sp token_bytes read_string string_bytes
literal-ReadsAs d s fits n rest c stops = rw append_assoc (literal_bytes-digits d s rest n fits c)

-- All bytes are those of an atom.
abbrev pub AllAtom : Bytes → Type 0
AllAtom [] = Unit
AllAtom (c ∷ s) = (is_atom_char c ≡ true) × AllAtom s

atom_bytes-append :
    (d : Decoder) (s b rest : Bytes) (n : ℕ)
    → AllAtom s
    → Stops rest
    → 0 < length b + length s
    → Within d.max_atom_bytes (length b + length s)
    → Within d.max_non_literal_command_len (n + length s)
    → atom_bytes d b (s ++ rest, some n) ≡ ok (b ++ s, (rest, some (n + length s)))
unfolding atom_bytes
atom_bytes-append d [] b [] n h stops l q m = absurd stops
atom_bytes-append d [] [] (c ∷ r) n h stops l q m = absurd (omega arith)
atom_bytes-append d [] (x ∷ b) (c ∷ r) n h stops l q m = rw stops (rw append-nil (ground arith))
atom_bytes-append d (c ∷ s) b rest n h stops l q m = rw h.0 (
    rw (full-Within d.max_atom_bytes (length b) (length s) q) (
      rw (add_command_bytes-Within d n 1 (λ p. ground arith)) (
        atom_bytes-append d s (b ++ c ∷ []) rest (n + 1) h.1 stops
          (omega (arith, length-append b (c ∷ []))) (λ p. ground (arith, length-append b (c ∷ [])))
          (λ p. ground arith)
        ∙ rw append_assoc (ap (λ k. ok (b ++ c ∷ s, (rest, some k))) (omega arith)))))

-- The text of an atom: not empty, and within the limit.
pub record FitsAtom (d : Decoder) (s : Bytes) : Type 0 where
  pub nonempty : 0 < length s
  pub all : AllAtom s
  pub fits : Within d.max_atom_bytes (length s)

is_atom_char-ne :
    (c : ℕ) → is_atom_char c ≡ true → ((c == quote || c == b'{') ≡ false) × ((c == b' ') ≡ false)
unfolding is_atom_char
is_atom_char-ne c h = (ground arith, ground arith)

pub read_atom-append :
    (d : Decoder) (s rest : Bytes) (n : ℕ)
    → FitsAtom d s
    → Stops rest
    → Within d.max_non_literal_command_len (n + length s)
    → read_atom d (s ++ rest, some n) ≡ ok (s, (rest, some (n + length s)))
unfolding read_atom skip_sp
read_atom-append d [] rest n a stops m = absurd (let l = a.nonempty in omega arith)
read_atom-append d (c ∷ s) rest n a stops m = rw ((is_atom_char-ne c (a.all.0)).1) (
    atom_bytes-append d (c ∷ s) [] rest n a.all stops (let l = a.nonempty in omega arith)
      (λ p. ground (arith, a.fits p)) m)

pub atom-ReadsAs : (d : Decoder) (s : Bytes) → FitsAtom d s → ReadsAs d s s
unfolding read_token skip_sp token_bytes
atom-ReadsAs d [] a n rest m stops = absurd (let l = a.nonempty in omega arith)
atom-ReadsAs d (c ∷ s) a n rest m stops =
    let (other, space) = is_atom_char-ne c (a.all.0) in
    rw space (rw other (read_atom-append d (c ∷ s) rest n a stops m))
