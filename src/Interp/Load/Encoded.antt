-- ===== src/Interp/Load/Encoded.antt =====
-- interp/strings.go: the encoded characters of a string, with the regular expression as a scanner.
use go_sieve.Interp.Text.{cut, lower_byte, word}
use go_sieve.Prelude.{
  ℕ, zero, suc, ◌+◌, ◌-◌, ◌*◌, ◌/◌, ◌%◌, ◌^◌, Bool, true, false, ◌&&◌, ◌||◌, not, List, [], ◌∷◌,
  ◌++◌, Option, none, some, ltb, leb, ◌==◌, if◌then◌else◌, within, Bytes, codes, length,
}

-- A blank of the expression.
unfoldable pub is_blank : ℕ → Bool
is_blank b = b == 32 || b == 9 || b == 13 || b == 10

unfoldable pub is_hex : ℕ → Bool
is_hex b = within 48 57 b || within 65 70 b || within 97 102 b

unfoldable pub hex_value : ℕ → ℕ
hex_value b = if leb b 57 then b - 48 else if leb b 70 then b - 55 else b - 87

-- The words between bytes of a kind, `w` being the word so far.
unfoldable pub words_from : (ℕ → Bool) → Bytes → Bytes → List Bytes
words_from sep w [] = word w []
words_from sep w (b ∷ s) =
    if sep b then word w (words_from sep [] s) else words_from sep (w ++ b ∷ []) s

unfoldable pub all_hex : Bytes → Bool
all_hex [] = true
all_hex (b ∷ s) = is_hex b && all_hex s

-- The digits of the expression: words of at most `most` digits, if there is a limit.
unfoldable pub all_digit_words : Option ℕ → List Bytes → Bool
all_digit_words most [] = true
all_digit_words none (w ∷ ws) = all_hex w && all_digit_words none ws
all_digit_words (some n) (w ∷ ws) = leb (length w) n && all_hex w && all_digit_words (some n) ws

unfoldable pub is_digit_text : Option ℕ → Bytes → Bool
is_digit_text most s = elim (words_from is_blank [] s) [
  | [] ↦ false
  | w ∷ ws ↦ all_digit_words most (w ∷ ws)
]

-- A replacer that drops the bytes of a kind.
unfoldable pub without : (ℕ → Bool) → Bytes → Bytes
without drops [] = []
without drops (b ∷ s) = let rest = without drops s in if drops b then rest else b ∷ rest

abbrev pub prepend : Bytes → Option Bytes → Option Bytes
prepend s none = none
prepend s (some t) = some (s ++ t)

-- `hex.DecodeString`, on digits.
unfoldable pub hex_decode : Bytes → Option Bytes
hex_decode [] = some []
hex_decode (a ∷ []) = none
hex_decode (a ∷ b ∷ s) = prepend ((hex_value a * 16 + hex_value b) ∷ []) (hex_decode s)

unfoldable pub hex_number : ℕ → Bytes → ℕ
hex_number n [] = n
hex_number n (b ∷ s) = hex_number (n * 16 + hex_value b) s

-- `WriteRune`, of a valid character.
unfoldable pub encode_rune : ℕ → Bytes
encode_rune c =
    if ltb c 128
    then c ∷ []
    else if ltb c 2048
    then (192 + c / 64) ∷ (128 + c % 64) ∷ []
    else if ltb c 65536
    then (224 + c / 4096) ∷ (128 + c / 64 % 64) ∷ (128 + c % 64) ∷ []
    else (240 + c / 262144) ∷ (128 + c / 4096 % 64) ∷ (128 + c / 64 % 64) ∷ (128 + c % 64) ∷ []

-- `strconv.ParseInt(part, 16, 32)`, and the check of the range.
unfoldable pub code_point : Bytes → Option ℕ
code_point part =
    let value = hex_number 0 part in
    if leb (2 ^ 31) value
    then none
    else if not (leb value 0xD7FF) && not (within 0xE000 0x10FFFF value)
    then none
    else some value

unfoldable pub encode_parts : List Bytes → Option Bytes
encode_parts [] = some []
encode_parts (part ∷ parts) = elim (code_point part) [
  | none ↦ none
  | some c ↦ prepend (encode_rune c) (encode_parts parts)
]

-- What stands behind a prefix in any case.
unfoldable pub behind : Bytes → Bytes → Option Bytes
behind [] s = some s
behind (p ∷ prefix) [] = none
behind (p ∷ prefix) (b ∷ s) = if lower_byte b == p then behind prefix s else none

abbrev pub hex_item : Bytes → Option (Option Bytes)
hex_item digits =
    if is_digit_text (some 2) digits then some (hex_decode (without is_blank digits)) else none

abbrev pub is_dropped : ℕ → Bool
is_dropped b = b == 9 || b == 13 || b == 10

abbrev pub unicode_item : Bytes → Option (Option Bytes)
unicode_item digits =
    if is_digit_text none digits
    then some (encode_parts (words_from (λ b. b == 32) [] (without is_dropped digits)))
    else none

-- What stands for the text between the braces: nothing if it is no match, and then its replacement, or
-- an error.
unfoldable pub encoded_item : Bytes → Option (Option Bytes)
encoded_item s = elim (behind (codes "hex:") s) [
  | some digits ↦ hex_item digits
  | none ↦ elim (behind (codes "unicode:") s) [ some digits ↦ unicode_item digits | none ↦ none ]
]

-- A match at the front of a text: the number of bytes behind its first one, and its replacement.
unfoldable pub encoded_at : Bytes → Option (ℕ × Option Bytes)
encoded_at (a ∷ b ∷ s) =
    if a == 36 && b == 123
    then elim (cut 125 s) [
      | none ↦ none
      | some p ↦ elim (encoded_item p.0) [ none ↦ none | some r ↦ some (length p.0 + 2, r) ]
    ]
    else none
encoded_at _ = none

abbrev pub replaced_by : Option Bytes → Option Bytes → Option Bytes
replaced_by none rest = none
replaced_by (some r) rest = prepend r rest

-- The text behind the first `n` bytes, with each match replaced; there is none where a match is an error.
unfoldable pub decode_from : ℕ → Bytes → Option Bytes
decode_from n [] = some []
decode_from (suc n) (b ∷ s) = decode_from n s
decode_from zero (b ∷ s) = elim (encoded_at (b ∷ s)) [
  | none ↦ prepend (b ∷ []) (decode_from zero s)
  | some m ↦ replaced_by (m.1) (decode_from (m.0) s)
]

-- `decodeEncodedChars`
unfoldable pub decode_encoded_chars : Bytes → Option Bytes
decode_encoded_chars s = decode_from 0 s
