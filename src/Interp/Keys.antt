-- ===== src/Interp/Keys.antt =====
-- interp/matchertest.go, `setKey`: the check of a test that was loaded, and its compiled keys.
use go_sieve.Interp.Compare.{
  Match, match_contains, match_is, match_matches, match_value, match_count, match_regex, match_list,
  Comparator, octet, ascii_casemap, ascii_numeric, unicode_casemap, no_comparator, is_octet,
  is_case_map, Regexp, Libraries,
}
use go_sieve.Interp.Expand.{used_vars}
use go_sieve.Interp.Matcher.{Key, MatcherTest, is_count}
use go_sieve.Interp.Pattern.{pattern_to_regex}
use go_sieve.Interp.Relational.{Relational, gt, ge, lt, le, eq, ne, other}
use go_sieve.Interp.Script.{Script, requires_extension}
use go_sieve.Prelude.{
  ℕ, Bool, true, false, List, [], ◌∷◌, Option, none, some, ltb, if◌then◌else◌, Bytes, codes, equal,
  Result, ok, err, ◌>>=◌,
}

pub data KeyError : Type 0 where
  several_matches comparator_with_list count_comparator : KeyError
  missing_extension : Bytes → KeyError
  unknown_relational : Bytes → KeyError
  unknown_comparator : Bytes → KeyError
  malformed_key : Bytes → KeyError

-- What the tags leave: the name of the comparator, the match type, and how many match types were given.
pub record Given : Type 0 where
  pub comparator : Bytes
  pub match : Match
  pub relational : Relational
  pub matches : ℕ

unfoldable pub need : Script → Bytes → Result KeyError Unit
need s ext = if requires_extension s ext then ok tt else err (missing_extension ext)

unfoldable pub check_relational : Relational → Result KeyError Unit
check_relational gt = ok tt
check_relational ge = ok tt
check_relational lt = ok tt
check_relational le = ok tt
check_relational eq = ok tt
check_relational ne = ok tt
check_relational (other s) = err (unknown_relational s)

unfoldable pub need_relational : Script → Relational → Match → Result KeyError Unit
need_relational s rel match_count = need s (codes "relational") >>= λ _. check_relational rel
need_relational s rel match_value = need s (codes "relational") >>= λ _. check_relational rel
need_relational s rel match_contains = ok tt
need_relational s rel match_is = ok tt
need_relational s rel match_matches = ok tt
need_relational s rel match_regex = ok tt
need_relational s rel match_list = ok tt

-- The comparator of a name; without one, numbers are counted and text is compared without its case.
unfoldable pub comparator_of : Bytes → Match → Result KeyError Comparator
comparator_of name match =
    if equal name []
    then ok (if is_count match then ascii_numeric else ascii_casemap)
    else if equal name (codes "i;octet")
    then ok octet
    else if equal name (codes "i;unicode-casemap")
    then ok unicode_casemap
    else if equal name (codes "i;ascii-casemap")
    then ok ascii_casemap
    else if equal name (codes "i;ascii-numeric")
    then ok ascii_numeric
    else err (unknown_comparator name)

abbrev compile_with : Libraries → Bool → Bytes → Option Regexp
compile_with lib octets text = if octets then lib.compile_binary text else lib.compile_unicode text

abbrev compiled : Bytes → Option Regexp → Result KeyError Key
compiled key none = err (malformed_key key)
compiled key (some find) = ok (key, some find)

-- A key that uses variables is compiled when it is compared.
unfoldable pub compile_keys :
    Script → (Bytes → Option Regexp) → List Bytes → Result KeyError (List Key)
compile_keys s compile [] = ok []
compile_keys s compile (key ∷ keys) = do
  first ← elim (used_vars s key) [ [] ↦ compiled key (compile key) | v ∷ vs ↦ ok (key, none) ]
  rest ← compile_keys s compile keys
  ok (first ∷ rest)

unfoldable pub plain_keys : List Bytes → List Key
plain_keys [] = []
plain_keys (key ∷ keys) = (key, none) ∷ plain_keys keys

unfoldable pub keys_of :
    Libraries → Script → Comparator → Match → List Bytes → Result KeyError (List Key)
keys_of lib s c match_matches keys =
    compile_keys s (λ key. compile_with lib (is_octet c) (pattern_to_regex key (is_case_map c)))
      keys
keys_of lib s c match_regex keys =
    need s (codes "regex") >>= λ _. compile_keys s (compile_with lib (is_octet c)) keys
keys_of lib s c match_contains keys = ok (plain_keys keys)
keys_of lib s c match_is keys = ok (plain_keys keys)
keys_of lib s c match_value keys = ok (plain_keys keys)
keys_of lib s c match_count keys = ok (plain_keys keys)
keys_of lib s c match_list keys = ok (plain_keys keys)

-- Only numbers are counted.
unfoldable pub check_count : Match → Comparator → Result KeyError Unit
check_count match_count ascii_numeric = ok tt
check_count match_count _ = err count_comparator
check_count _ c = ok tt

abbrev tested : Comparator → Given → List Key → MatcherTest
tested c g keys = record { comparator = c; match = g.match; relational = g.relational; keys = keys }

-- The test of an external list.
unfoldable pub set_list_key : Script → Given → List Bytes → Result KeyError MatcherTest
set_list_key s g keys = do
  _ ← need s (codes "extlists")
  if equal g.comparator []
      then ok (tested no_comparator g (plain_keys keys))
      else err comparator_with_list

unfoldable pub set_text_key : Libraries → Script → Given → List Bytes → Result KeyError MatcherTest
set_text_key lib s g keys = do
  _ ← need_relational s g.relational g.match
  c ← comparator_of g.comparator g.match
  compiled_keys ← keys_of lib s c g.match keys
  _ ← check_count g.match c
  ok (tested c g compiled_keys)

abbrev is_list : Match → Bool
is_list match_list = true
is_list _ = false

-- `setKey`
unfoldable pub set_key : Libraries → Script → Given → List Bytes → Result KeyError MatcherTest
set_key lib s g keys =
    if ltb 1 g.matches
    then err several_matches
    else if is_list g.match
    then set_list_key s g keys
    else set_text_key lib s g keys
