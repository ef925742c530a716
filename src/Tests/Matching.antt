-- ===== src/Tests/Matching.antt =====
-- The theorems on comparisons at concrete values.
use go_sieve.Interp.Address.{cut_last, split, has_byte}
use go_sieve.Interp.Compare.{match_is, octet, Libraries}
use go_sieve.Interp.Expand.{
  all_digits, is_num_variable, is_word, is_segment, all_segments, is_reference, name_until,
  checked_name, reference_at, pieces, match_number, value_at, replaced, expand_vars,
}
use go_sieve.Interp.Matcher.{Services, MatcherTest, match_key, try_match, match_keys}
use go_sieve.Interp.Pattern.{
  Modifiers, pattern_to_regex, quote_wild, mod_quote_wildcard, build_value_modifier, ends_quoted,
  drop_backslash,
}
use go_sieve.Interp.Quoted.{
  literal_regex, IsText, no_text, ascii, beyond, pattern_to_regex-mod_quote_wildcard,
}
use go_sieve.Interp.Relational.{gt}
use go_sieve.Interp.Runtime.{RuntimeData, panicked}
use go_sieve.Interp.Script.{requires_extension, namespace_named, variable_in, variable_of}
use go_sieve.Interp.Split.{split-append}
use go_sieve.Interp.Text.{member, to_lower, lower_byte, cut, take}
use go_sieve.Interp.Variables.{match_variable, var, var_in, back_off, continues_at, is_continuation}
use go_sieve.Lexer.Scan.{
  all_identifier_bytes, is_valid_identifier, is_letter, is_digit, is_identifier_byte, decimal,
}
use go_sieve.Managesieve.Decode.{to_upper}
use go_sieve.Managesieve.Runes.{decode_rune, rewritten_from, rewritten}
use go_sieve.Prelude.{
  arith, ◌≡◌, refl, true, false, [], ◌∷◌, ◌++◌, none, some, err, Bytes, codes, equal, if◌then◌else◌,
}
use go_sieve.Tests.Branches.{start, small_limits}

split-append_example :
    (codes "a@b@c" ≡ codes "a@b" ++ 64 ∷ codes "c") × (has_byte 64 (codes "c") ≡ false)
unfolding split cut_last to_upper equal
split-append_example = split-append (codes "a@b@c") (codes "a@b") (codes "c") refl refl

-- `a*`, a character of two bytes and an opening parenthesis.
abbrev starred : Bytes
starred = 97 ∷ 42 ∷ 195 ∷ 169 ∷ 40 ∷ []

starred-IsText : IsText starred
unfolding decode_rune
starred-IsText = ascii 97 (42 ∷ 195 ∷ 169 ∷ 40 ∷ []) (omega arith) (
    ascii 42 (195 ∷ 169 ∷ 40 ∷ []) (omega arith) (
      beyond 195 233 (169 ∷ []) (40 ∷ []) (omega arith) (omega arith, tt) (λ r. refl)
        (ascii 40 [] (omega arith) no_text)))

pattern_to_regex-mod_quote_wildcard_example :
    pattern_to_regex (mod_quote_wildcard starred) true
    ≡ (if true then codes "(?i)" else []) ++ 94 ∷ literal_regex starred
pattern_to_regex-mod_quote_wildcard_example =
    pattern_to_regex-mod_quote_wildcard starred true starred-IsText

abbrev libraries : Libraries
libraries = record {
  compile_binary = λ text. none;
  compile_unicode = λ text. none;
  unicode_lower = to_lower;
  unicode_fold = λ a b. equal (to_lower a) (to_lower b);
  unicode_digit = is_digit;
}

abbrev pub services : Services
services = record { libraries = libraries; list_contains = none; parse_address_list = λ text. none }

abbrev is_first : MatcherTest
is_first = record {
  comparator = octet;
  match = match_is;
  relational = gt;
  keys = (codes "${1}", none) ∷ [];
}

-- What a header may have left in the match variables.
abbrev matched : RuntimeData
matched = record start { match_variables = codes "all" ∷ codes "${no.such}" ∷ [] }

-- The test panics on it.
first_panics : try_match services matched is_first (codes "x") ≡ err (panicked (codes "no.such"))
unfolding try_match match_keys match_key expand_vars requires_extension member equal replaced pieces
    reference_at checked_name name_until is_reference all_segments is_word all_identifier_bytes
    is_segment is_num_variable all_digits is_valid_identifier is_letter is_digit is_identifier_byte
    match_number decimal value_at match_variable var var_in variable_of variable_in namespace_named
    to_lower lower_byte cut
first_panics = refl

abbrev quoting : Modifiers
quoting = record {
  at_40 = none;
  at_30 = none;
  at_20 = some mod_quote_wildcard;
  at_15 = none;
  at_10 = none;
}

-- The limit falls behind a whole pair of backslashes, of which one is left.
half_pair : build_value_modifier small_limits quoting (codes "abc\\d") ≡ codes "abc\\"
unfolding build_value_modifier ends_quoted mod_quote_wildcard quote_wild rewritten rewritten_from
    decode_rune has_byte take back_off continues_at is_continuation drop_backslash
half_pair = refl
