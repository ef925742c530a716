-- ===== src/Interp/Pattern.antt =====
-- interp/match.go, `patternToRegex`, and interp/value_modifiers.go. A loop over the runes of a string that writes
-- them again is one over the bytes of `rewritten`, since a byte of a character beyond ASCII is no special one. The
-- regular expressions are those of libraries.
use go_sieve.Interp.Address.{has_byte}
use go_sieve.Prelude.{
  ℕ, ◌+◌, ◌-◌, ◌/◌, ◌%◌, Bool, true, false, ◌&&◌, ◌||◌, [], ◌∷◌, ◌++◌, Option, none, some, ltb,
  ◌==◌, if◌then◌else◌, within, Bytes, codes, length,
}
use go_sieve.Lexer.Write.{decimal_digits}
use go_sieve.Lexer.Scan.{is_digit}
use go_sieve.Interp.Script.{Options}
use go_sieve.Interp.Text.{take}
use go_sieve.Interp.Variables.{back_off}
use go_sieve.Managesieve.Runes.{runes, rewritten}

-- A character that stands for something else in a regular expression.
abbrev pub is_meta : ℕ → Bool
is_meta c = has_byte c (codes ".+()|[]{}^$")

abbrev pub is_wild : ℕ → Bool
is_wild c = has_byte c (codes "\\?*")

abbrev pub escaped_byte : ℕ → Bytes
escaped_byte c = if is_meta c || is_wild c then 92 ∷ c ∷ [] else c ∷ []

-- What stands for a character of the pattern that no backslash precedes.
abbrev pub pattern_byte : ℕ → Bytes
pattern_byte c =
    if c == 63
    then codes "(.)"
    else if c == 42
    then codes "((?s:.*?))"
    else if is_meta c
    then 92 ∷ c ∷ []
    else c ∷ []

-- The loop; the pattern ends in `$` unless a backslash is left.
unfoldable pub pattern_from : Bool → Bytes → Bytes
pattern_from true [] = []
pattern_from false [] = codes "$"
pattern_from true (c ∷ s) = escaped_byte c ++ pattern_from false s
pattern_from false (c ∷ s) =
    let escaped = pattern_from true s in
    let rest = pattern_from false s in if c == 92 then escaped else pattern_byte c ++ rest

-- `patternToRegex`
unfoldable pub pattern_to_regex : Bytes → Bool → Bytes
pattern_to_regex pattern case_fold =
    (if case_fold then codes "(?i)" else []) ++ 94 ∷ pattern_from false (rewritten pattern)

-- The loop of `modQuoteWildcard`.
unfoldable pub quote_wild : Bytes → Bytes
quote_wild [] = []
quote_wild (c ∷ s) = let rest = quote_wild s in if is_wild c then 92 ∷ c ∷ rest else c ∷ rest

-- `modQuoteWildcard`
unfoldable pub mod_quote_wildcard : Bytes → Bytes
mod_quote_wildcard s = quote_wild (rewritten s)

-- `string(first)` of a byte, the encoding of the character with this number.
abbrev string_of_byte : ℕ → Bytes
string_of_byte b = if ltb b 128 then b ∷ [] else (192 + b / 64) ∷ (128 + b % 64) ∷ []

-- `modUpperFirst`
unfoldable pub mod_upper_first : Bytes → Bytes
mod_upper_first [] = []
mod_upper_first (b ∷ s) = string_of_byte (if within 97 122 b then b - 32 else b) ++ s

-- `modLowerFirst`
unfoldable pub mod_lower_first : Bytes → Bytes
mod_lower_first [] = []
mod_lower_first (b ∷ s) = string_of_byte (if within 65 90 b then b + 32 else b) ++ s

-- The modifier `:length`.
unfoldable pub mod_length : Bytes → Bytes
mod_length s = decimal_digits (length (runes s))

abbrev hex_digit : ℕ → ℕ
hex_digit n = if ltb n 10 then n + 48 else n + 55

-- `isURIUnreserved`
abbrev pub is_unreserved : ℕ → Bool
is_unreserved c =
    within 65 90 c || within 97 122 c || is_digit c || c == 45 || c == 46 || c == 95 || c == 126

-- `percentEncode`
unfoldable pub percent_encode : Bytes → Bytes
percent_encode [] = []
percent_encode (c ∷ s) =
    let rest = percent_encode s in
    if is_unreserved c then c ∷ rest else 37 ∷ hex_digit (c / 16) ∷ hex_digit (c % 16) ∷ rest

-- The modifiers that were given, by their precedence.
pub record Modifiers : Type 0 where
  pub at_40 : Option (Bytes → Bytes)
  pub at_30 : Option (Bytes → Bytes)
  pub at_20 : Option (Bytes → Bytes)
  pub at_15 : Option (Bytes → Bytes)
  pub at_10 : Option (Bytes → Bytes)

abbrev apply_at : Option (Bytes → Bytes) → Bytes → Bytes
apply_at none s = s
apply_at (some f) s = f s

-- Whether the modifier of precedence 20 is the last one.
unfoldable pub ends_quoted : Modifiers → Bool
ends_quoted m = elim m.at_20 [
  | none ↦ false
  | some f ↦ elim m.at_15 [ some g ↦ false | none ↦ elim m.at_10 [ some g ↦ false | none ↦ true ] ]
]

-- Without a backslash at the end.
unfoldable pub drop_backslash : Bytes → Bytes
drop_backslash [] = []
drop_backslash (c ∷ []) = if c == 92 then [] else c ∷ []
drop_backslash (c ∷ d ∷ s) = c ∷ drop_backslash (d ∷ s)

-- `buildValueModifier`
unfoldable pub build_value_modifier : Options → Modifiers → Bytes → Bytes
build_value_modifier opts m s =
    let modified =
      apply_at m.at_10
        (apply_at m.at_15 (apply_at m.at_20 (apply_at m.at_30 (apply_at m.at_40 s)))) in
    if ends_quoted m && ltb opts.max_variable_len (length modified)
    then drop_backslash (take (back_off modified opts.max_variable_len) modified)
    else modified
