-- ===== src/Interp/Load/Hexed.antt =====
-- On interp/strings.go: bytes that are written as hexadecimal digits.
use go_sieve.Interp.Load.Encoded.{
  is_blank, is_hex, hex_value, words_from, all_hex, all_digit_words, is_digit_text, without,
  prepend, hex_decode, behind, hex_item, encoded_item, encoded_at, replaced_by, decode_from,
  decode_encoded_chars,
}
use go_sieve.Interp.Text.{cut, lower_byte}
use go_sieve.Prelude.{
  ◌≡◌, refl, ap, ℕ, suc, ◌+◌, ◌/◌, ◌%◌, ◌<◌, true, false, List, [], ◌∷◌, ◌++◌, append_assoc, Option,
  some, ltb, ◌==◌, if◌then◌else◌, Bytes, codes, length, All, arith,
}

-- A digit, and a byte as two digits.
unfoldable pub digit_byte : ℕ → ℕ
digit_byte n = if ltb n 10 then n + 48 else n + 87

-- The digits of bytes, with a blank between two bytes.
unfoldable pub hex_text : Bytes → Bytes
hex_text [] = []
hex_text (b ∷ []) = digit_byte (b / 16) ∷ digit_byte (b % 16) ∷ []
hex_text (b ∷ c ∷ s) = digit_byte (b / 16) ∷ digit_byte (b % 16) ∷ 32 ∷ hex_text (c ∷ s)

abbrev IsByte : ℕ → Type 0
IsByte b = b < 256

-- A digit is one to the expression, stands for its value, and is no blank and no brace.
digit_byte_lem :
    (n : ℕ)
    → n < 16
    → (is_hex (digit_byte n) ≡ true)
      × (hex_value (digit_byte n) ≡ n)
      × (is_blank (digit_byte n) ≡ false)
      × ((digit_byte n == 125) ≡ false)
unfolding is_hex hex_value is_blank digit_byte
digit_byte_lem n h = (ground arith, ground arith, ground arith, ground arith)

space-IsBlank : is_blank 32 ≡ true
unfolding is_blank
space-IsBlank = refl

abbrev digits : ℕ → Bytes
digits b = digit_byte (b / 16) ∷ digit_byte (b % 16) ∷ []

abbrev digit_words : Bytes → List Bytes
digit_words [] = []
digit_words (b ∷ s) = digits b ∷ digit_words s

abbrev all_digits_of : Bytes → Bytes
all_digits_of [] = []
all_digits_of (b ∷ s) = digit_byte (b / 16) ∷ digit_byte (b % 16) ∷ all_digits_of s

high-lt : (b : ℕ) → IsByte b → b / 16 < 16
high-lt b h = omega arith

low-lt : (b : ℕ) → b % 16 < 16
low-lt b = omega arith

words_from-hex_text :
    (b : ℕ) (s : Bytes)
    → All IsByte (b ∷ s)
    → words_from is_blank [] (hex_text (b ∷ s)) ≡ digit_words (b ∷ s)
unfolding words_from hex_text
words_from-hex_text b [] (h, hs) =
    rw (digit_byte_lem (b / 16) (high-lt b h)).2 (rw (digit_byte_lem (b % 16) (low-lt b)).2 refl)
words_from-hex_text b (c ∷ s) (h, hs) = rw (digit_byte_lem (b / 16) (high-lt b h)).2 (
    rw (digit_byte_lem (b % 16) (low-lt b)).2
      (rw space-IsBlank (rw (words_from-hex_text c s hs) refl)))

all_digit_words_lem : (s : Bytes) → All IsByte s → all_digit_words (some 2) (digit_words s) ≡ true
unfolding all_digit_words all_hex
all_digit_words_lem [] h = refl
all_digit_words_lem (b ∷ s) (h, hs) =
    rw (digit_byte_lem (b / 16) (high-lt b h)).0
      (rw (digit_byte_lem (b % 16) (low-lt b)).0 (all_digit_words_lem s hs))

without-hex_text : (s : Bytes) → All IsByte s → without is_blank (hex_text s) ≡ all_digits_of s
unfolding without hex_text
without-hex_text [] h = refl
without-hex_text (b ∷ []) (h, hs) =
    rw (digit_byte_lem (b / 16) (high-lt b h)).2 (rw (digit_byte_lem (b % 16) (low-lt b)).2 refl)
without-hex_text (b ∷ c ∷ s) (h, hs) = rw (digit_byte_lem (b / 16) (high-lt b h)).2 (
    rw (digit_byte_lem (b % 16) (low-lt b)).2
      (rw space-IsBlank (rw (without-hex_text (c ∷ s) hs) refl)))

hex_decode_lem : (s : Bytes) → All IsByte s → hex_decode (all_digits_of s) ≡ some s
unfolding hex_decode
hex_decode_lem [] h = refl
hex_decode_lem (b ∷ s) (h, hs) = rw (digit_byte_lem (b / 16) (high-lt b h)).1 (
    rw (digit_byte_lem (b % 16) (low-lt b)).1
      (rw (hex_decode_lem s hs) (ap (λ (n : ℕ). some (n ∷ s)) (omega arith))))

-- The closing brace is the first one.
cut-hex_text :
    (s rest : Bytes) → All IsByte s → cut 125 (hex_text s ++ 125 ∷ rest) ≡ some (hex_text s, rest)
unfolding cut hex_text
cut-hex_text [] rest h = refl
cut-hex_text (b ∷ []) rest (h, hs) =
    rw (digit_byte_lem (b / 16) (high-lt b h)).3 (rw (digit_byte_lem (b % 16) (low-lt b)).3 refl)
cut-hex_text (b ∷ c ∷ s) rest (h, hs) =
    rw (digit_byte_lem (b / 16) (high-lt b h)).3
      (rw (digit_byte_lem (b % 16) (low-lt b)).3 (rw (cut-hex_text (c ∷ s) rest hs) refl))

decode_from-skip :
    (p : Bytes) (c : ℕ) (s : Bytes) → decode_from (suc (length p)) (p ++ c ∷ s) ≡ decode_from 0 s
unfolding decode_from
decode_from-skip [] c s = refl
decode_from-skip (b ∷ p) c s = decode_from-skip p c s

decode_from-behind :
    (p s : Bytes) → decode_from (length p + 2) (123 ∷ p ++ 125 ∷ s) ≡ decode_from 0 s
unfolding decode_from
decode_from-behind p s =
    let e : length p + 2 ≡ suc (suc (length p)) = omega arith in rw e (decode_from-skip p 125 s)

-- Text in the encoding of the expression: the prefix, the digits and the closing brace.
unfoldable pub encoded : Bytes → Bytes
encoded s = codes "${hex:" ++ hex_text s ++ 125 ∷ []

is_digit_text-hex_text :
    (b : ℕ) (s : Bytes) → All IsByte (b ∷ s) → is_digit_text (some 2) (hex_text (b ∷ s)) ≡ true
unfolding is_digit_text
is_digit_text-hex_text b s h =
    rw (words_from-hex_text b s h, is_digit_text) (all_digit_words_lem (b ∷ s) h)

hex_item-hex_text :
    (b : ℕ) (s : Bytes) → All IsByte (b ∷ s) → hex_item (hex_text (b ∷ s)) ≡ some (some (b ∷ s))
hex_item-hex_text b s h =
    rw (is_digit_text-hex_text b s h)
      (rw (without-hex_text (b ∷ s) h) (rw (hex_decode_lem (b ∷ s) h) refl))

encoded_item-hex_text :
    (b : ℕ) (s : Bytes)
    → All IsByte (b ∷ s)
    → encoded_item (codes "hex:" ++ hex_text (b ∷ s)) ≡ some (some (b ∷ s))
unfolding encoded_item behind lower_byte
encoded_item-hex_text b s h = hex_item-hex_text b s h

cut-hex :
    (s rest : Bytes)
    → All IsByte s
    → cut 125 (codes "hex:" ++ hex_text s ++ 125 ∷ rest) ≡ some (codes "hex:" ++ hex_text s, rest)
unfolding cut
cut-hex s rest h = rw (cut-hex_text s rest h) refl

encoded_at-encoded :
    (b : ℕ) (s rest : Bytes)
    → All IsByte (b ∷ s)
    → encoded_at (codes "${hex:" ++ hex_text (b ∷ s) ++ 125 ∷ rest)
      ≡ some (length (codes "hex:" ++ hex_text (b ∷ s)) + 2, some (b ∷ s))
unfolding encoded_at
encoded_at-encoded b s rest h = rw (cut-hex (b ∷ s) rest h) (rw (encoded_item-hex_text b s h) refl)

decode_from-replaced :
    (b : ℕ) (s : Bytes) (n : ℕ) (r : Option Bytes)
    → encoded_at (b ∷ s) ≡ some (n, r)
    → decode_from 0 (b ∷ s) ≡ replaced_by r (decode_from n s)
unfolding decode_from
decode_from-replaced b s n r e = rw (e, decode_from) refl

-- Bytes that are written as pairs of hexadecimal digits with blanks between the pairs are read back as these
-- bytes, whatever follows; an error behind them stays one.
pub decode_encoded_chars-encoded :
    (b : ℕ) (s rest : Bytes)
    → All IsByte (b ∷ s)
    → decode_encoded_chars (encoded (b ∷ s) ++ rest) ≡ prepend (b ∷ s) (decode_encoded_chars rest)
unfolding decode_encoded_chars encoded
decode_encoded_chars-encoded b s rest h =
    let inner = codes "hex:" ++ hex_text (b ∷ s) in
    rw (append_assoc (hex_text (b ∷ s)) (125 ∷ []) rest) (
      rw (decode_from-replaced 36 (123 ∷ inner ++ 125 ∷ rest) _ _ (encoded_at-encoded b s rest h))
        (ap (prepend (b ∷ s)) (decode_from-behind inner rest)))
