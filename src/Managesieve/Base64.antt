-- ===== src/Managesieve/Base64.antt =====
-- Go's `base64.StdEncoding`, which managesieve/server/conn.go exchanges SASL messages in.
use go_sieve.Prelude.{
  ℕ, ◌+◌, ◌-◌, ◌*◌, ◌/◌, ◌%◌, ◌||◌, [], ◌∷◌, Option, none, some, ltb, ◌==◌, if◌then◌else◌, within,
  Bytes,
}

-- The character of a value below 64.
unfoldable pub base64_char : ℕ → ℕ
base64_char v =
    if ltb v 26
    then v + 65
    else if ltb v 52
    then v + 71
    else if ltb v 62
    then v - 4
    else if v == 62
    then 43
    else 47

unfoldable pub base64_value : ℕ → Option ℕ
base64_value c =
    if within 65 90 c
    then some (c - 65)
    else if within 97 122 c
    then some (c - 71)
    else if within 48 57 c
    then some (c + 4)
    else if c == 43
    then some 62
    else if c == 47
    then some 63
    else none

-- `EncodeToString`
unfoldable pub base64_encode : Bytes → Bytes
base64_encode [] = []
base64_encode (a ∷ []) = base64_char (a / 4) ∷ base64_char (a % 4 * 16) ∷ 61 ∷ 61 ∷ []
base64_encode (a ∷ b ∷ []) =
    base64_char (a / 4) ∷ base64_char (a % 4 * 16 + b / 16) ∷ base64_char (b % 16 * 4) ∷ 61 ∷ []
base64_encode (a ∷ b ∷ c ∷ s) =
    base64_char (a / 4)
    ∷ base64_char (a % 4 * 16 + b / 16)
    ∷ base64_char (b % 16 * 4 + c / 64)
    ∷ base64_char (c % 64)
    ∷ base64_encode s

-- The decoder skips line breaks.
unfoldable pub without_breaks : Bytes → Bytes
without_breaks [] = []
without_breaks (c ∷ s) =
    let rest = without_breaks s in if c == 13 || c == 10 then rest else c ∷ rest

-- One, two and three bytes, from the values of two, three and four characters.
abbrev one_byte : Option ℕ → Option ℕ → Option Bytes
one_byte (some a) (some b) = some ((a * 4 + b / 16) ∷ [])
one_byte _ _ = none

abbrev two_bytes : Option ℕ → Option ℕ → Option ℕ → Option Bytes
two_bytes (some a) (some b) (some c) = some ((a * 4 + b / 16) ∷ (b % 16 * 16 + c / 4) ∷ [])
two_bytes _ _ _ = none

abbrev three_bytes : Option ℕ → Option ℕ → Option ℕ → Option ℕ → Option Bytes → Option Bytes
three_bytes (some a) (some b) (some c) (some d) (some rest) =
    some ((a * 4 + b / 16) ∷ (b % 16 * 16 + c / 4) ∷ (c % 4 * 64 + d) ∷ rest)
three_bytes _ _ _ _ _ = none

-- The padded end of the text.
abbrev decode_end : ℕ → ℕ → ℕ → Option Bytes
decode_end a b c =
    if c == 61
    then one_byte (base64_value a) (base64_value b)
    else two_bytes (base64_value a) (base64_value b) (base64_value c)

-- `DecodeString`, without the line breaks.
unfoldable pub decode_quads : Bytes → Option Bytes
decode_quads [] = some []
decode_quads (a ∷ []) = none
decode_quads (a ∷ b ∷ []) = none
decode_quads (a ∷ b ∷ c ∷ []) = none
decode_quads (a ∷ b ∷ c ∷ d ∷ []) =
    if d == 61
    then decode_end a b c
    else three_bytes (base64_value a) (base64_value b) (base64_value c) (base64_value d) (some [])
decode_quads (a ∷ b ∷ c ∷ d ∷ e ∷ s) =
    three_bytes (base64_value a) (base64_value b) (base64_value c) (base64_value d)
      (decode_quads (e ∷ s))

unfoldable pub base64_decode : Bytes → Option Bytes
base64_decode s = decode_quads (without_breaks s)

-- `decodeB64`: the empty string is the nil slice, an outer `none` an error.
unfoldable pub decode_b64 : Bytes → Option (Option Bytes)
decode_b64 [] = some none
decode_b64 (c ∷ s) = elim (base64_decode (c ∷ s)) [ none ↦ none | some b ↦ some (some b) ]
