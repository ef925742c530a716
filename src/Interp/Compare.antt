-- ===== src/Interp/Compare.antt =====
-- interp/test_string.go and interp/relational.go: the comparators, and what compares a value with a key. The
-- regular expressions are those of libraries.
use go_sieve.Interp.Pattern.{pattern_to_regex}
use go_sieve.Interp.Relational.{Relational, gt, ge, lt, le, eq, ne, other, compare_numeric_value}
use go_sieve.Interp.Runtime.{ExecError, panicked, unsupported_match, host_error}
use go_sieve.Interp.Text.{has_prefix, to_lower}
use go_sieve.Lexer.Scan.{decimal}
use go_sieve.Managesieve.Memory.{less}
use go_sieve.Managesieve.Runes.{runes}
use go_sieve.Prelude.{
  ℕ, ◌^◌, Bool, true, false, not, ◌&&◌, ◌||◌, List, [], ◌∷◌, Option, none, some, ltb, if◌then◌else◌,
  within, Bytes, codes, equal, Result, ok, err,
}

pub data Match : Type 0 where
  match_contains match_is match_matches match_value match_count match_regex match_list : Match

-- The comparators that `setKey` admits; none is given with `:list`.
pub data Comparator : Type 0 where
  octet ascii_casemap ascii_numeric unicode_casemap no_comparator : Comparator

-- `IsOctet`
unfoldable pub is_octet : Comparator → Bool
is_octet octet = true
is_octet ascii_casemap = true
is_octet ascii_numeric = false
is_octet unicode_casemap = false
is_octet no_comparator = false

-- `IsCaseMap`
unfoldable pub is_case_map : Comparator → Bool
is_case_map octet = false
is_case_map ascii_casemap = true
is_case_map ascii_numeric = false
is_case_map unicode_casemap = true
is_case_map no_comparator = false

-- A compiled expression: `FindStringSubmatch`, with no list where nothing is found.
abbrev pub Regexp : Type 0
Regexp = Bytes → Option (List Bytes)

-- The libraries: `Compile` on bytes and on characters, with no expression for a malformed one; and Go's Unicode:
-- `ToLower`, `EqualFold` and `IsDigit`.
pub record Libraries : Type 0 where
  pub compile_binary : Bytes → Option Regexp
  pub compile_unicode : Bytes → Option Regexp
  pub unicode_lower : Bytes → Bytes
  pub unicode_fold : Bytes → Bytes → Bool
  pub unicode_digit : ℕ → Bool

-- Whether a value matches, and the match variables that it sets.
abbrev pub Found : Type 0
Found = Bool × Option (List Bytes)

-- `strings.Contains`
unfoldable pub contains : Bytes → Bytes → Bool
contains [] key = has_prefix [] key
contains (b ∷ value) key = has_prefix (b ∷ value) key || contains value key

-- `CompareString`
unfoldable pub compare_string : Relational → Bytes → Bytes → Bool
compare_string gt l r = less r l
compare_string ge l r = not (less l r)
compare_string lt l r = less l r
compare_string le l r = not (less r l)
compare_string eq l r = equal l r
compare_string ne l r = not (equal l r)
compare_string (other s) l r = false

-- The digits at the front.
unfoldable pub leading_digits : Libraries → List (ℕ × Bool) → Bytes
leading_digits lib [] = []
leading_digits lib ((r, valid) ∷ l) =
    let rest = leading_digits lib l in if lib.unicode_digit r then r ∷ rest else []

unfoldable pub all_ascii_digits : Bytes → Bool
all_ascii_digits [] = true
all_ascii_digits (r ∷ l) = within 48 57 r && all_ascii_digits l

-- `strconv.ParseUint(s, 10, 64)` on characters.
unfoldable pub parse_uint : Bytes → Option ℕ
parse_uint [] = none
parse_uint (r ∷ l) =
    if all_ascii_digits (r ∷ l) && ltb (decimal 0 (r ∷ l)) (2 ^ 64)
    then some (decimal 0 (r ∷ l))
    else none

-- `numericValue`
unfoldable pub numeric_value : Libraries → Bytes → Option ℕ
numeric_value lib s = parse_uint (leading_digits lib (runes s))

-- What an expression finds.
abbrev found : Option (List Bytes) → Found
found none = (false, none)
found (some matches) = (true, some matches)

abbrev match_compiled : Bytes → Bytes → Option Regexp → Result ExecError Found
match_compiled pattern value none = err (host_error pattern)
match_compiled pattern value (some find) = ok (found (find value))

-- `matchRegex`
unfoldable pub match_regex_with : Libraries → Bytes → Bytes → Result ExecError Found
match_regex_with lib pattern value = match_compiled pattern value (lib.compile_binary pattern)

-- `matchOctet`
unfoldable pub match_octet : Libraries → Bytes → Bytes → Bool → Result ExecError Found
match_octet lib pattern value case_fold =
    match_compiled pattern value (lib.compile_binary (pattern_to_regex pattern case_fold))

-- `matchUnicode`
unfoldable pub match_unicode : Libraries → Bytes → Bytes → Bool → Result ExecError Found
match_unicode lib pattern value case_fold =
    match_compiled pattern value (lib.compile_unicode (pattern_to_regex pattern case_fold))

abbrev plain : Bool → Result ExecError Found
plain b = ok (b, none)

-- The case of `i;octet`.
unfoldable pub test_octet : Libraries → Match → Relational → Bytes → Bytes → Result ExecError Found
test_octet lib match_contains rel value key = plain (contains value key)
test_octet lib match_is rel value key = plain (equal value key)
test_octet lib match_matches rel value key = match_octet lib key value false
test_octet lib match_regex rel value key = match_regex_with lib key value
test_octet lib match_value rel value key = plain (compare_string rel value key)
test_octet lib match_count rel value key = err (panicked (codes "count"))
test_octet lib match_list rel value key = plain false

-- The case of `i;ascii-numeric`.
unfoldable pub test_numeric :
    Libraries → Match → Relational → Bytes → Bytes → Result ExecError Found
test_numeric lib match_contains rel value key = err unsupported_match
test_numeric lib match_is rel value key =
    plain (compare_numeric_value eq (numeric_value lib value) (numeric_value lib key))
test_numeric lib match_matches rel value key = err unsupported_match
test_numeric lib match_regex rel value key = err unsupported_match
test_numeric lib match_value rel value key =
    plain (compare_numeric_value rel (numeric_value lib value) (numeric_value lib key))
test_numeric lib match_count rel value key = err (panicked (codes "count"))
test_numeric lib match_list rel value key = plain false

-- The case of `i;ascii-casemap`; `to_lower` is `toLowerASCII`.
unfoldable pub test_ascii : Libraries → Match → Relational → Bytes → Bytes → Result ExecError Found
test_ascii lib match_contains rel value key = plain (contains (to_lower value) (to_lower key))
test_ascii lib match_is rel value key = plain (equal (to_lower value) (to_lower key))
test_ascii lib match_matches rel value key = match_octet lib key value true
test_ascii lib match_regex rel value key = match_regex_with lib key (to_lower value)
test_ascii lib match_value rel value key =
    plain (compare_string rel (to_lower value) (to_lower key))
test_ascii lib match_count rel value key = err (panicked (codes "count"))
test_ascii lib match_list rel value key = plain false

-- The case of `i;unicode-casemap`.
unfoldable pub test_unicode :
    Libraries → Match → Relational → Bytes → Bytes → Result ExecError Found
test_unicode lib match_contains rel value key =
    plain (contains (lib.unicode_lower value) (lib.unicode_lower key))
test_unicode lib match_is rel value key = plain (lib.unicode_fold value key)
test_unicode lib match_matches rel value key = match_unicode lib key value true
test_unicode lib match_regex rel value key = match_regex_with lib key (lib.unicode_lower value)
test_unicode lib match_value rel value key =
    plain (compare_string rel (to_lower value) (to_lower key))
test_unicode lib match_count rel value key = err (panicked (codes "count"))
test_unicode lib match_list rel value key = plain false

-- `testString`
unfoldable pub test_string :
    Libraries → Comparator → Match → Relational → Bytes → Bytes → Result ExecError Found
test_string lib octet = test_octet lib
test_string lib ascii_numeric = test_numeric lib
test_string lib ascii_casemap = test_ascii lib
test_string lib unicode_casemap = test_unicode lib
test_string lib no_comparator = λ match rel value key. plain false
