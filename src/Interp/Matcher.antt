-- ===== src/Interp/Matcher.antt =====
-- interp/matchertest.go: the keys and the loops of a `matcherTest`.
use go_sieve.Interp.Action.{expand_list_name}
use go_sieve.Interp.Compare.{
  Match, match_contains, match_is, match_matches, match_value, match_count, match_regex, match_list,
  Comparator, Regexp, Libraries, Found, parse_uint, test_string,
}
use go_sieve.Interp.Expand.{expand_vars}
use go_sieve.Interp.Relational.{Relational, compare_uint64}
use go_sieve.Interp.Runtime.{RuntimeData, ExecError, host_error}
use go_sieve.Interp.Script.{requires_extension}
use go_sieve.Prelude.{
  ℕ, Bool, true, false, List, [], ◌∷◌, Option, none, some, if◌then◌else◌, Bytes, codes, Result, ok,
  err, ◌>>=◌, Flow, next, done,
}

-- The libraries with the host's lists and the parser of addresses.
pub record Services : Type 0 where
  pub libraries : Libraries
  pub list_contains : Option (Bytes → Bytes → Result ExecError Bool)
  pub parse_address_list : Bytes → Option (List Bytes)

-- A key, with its compiled expression if it has one.
abbrev pub Key : Type 0
Key = Bytes × Option Regexp

-- `matcherTest`, behind `setKey`.
pub record MatcherTest : Type 0 where
  pub comparator : Comparator
  pub match : Match
  pub relational : Relational
  pub keys : List Key

abbrev pub is_count : Match → Bool
is_count match_count = true
is_count match_contains = false
is_count match_is = false
is_count match_matches = false
is_count match_value = false
is_count match_regex = false
is_count match_list = false

abbrev pub sets_variables : Match → Bool
sets_variables match_matches = true
sets_variables match_regex = true
sets_variables match_contains = false
sets_variables match_is = false
sets_variables match_value = false
sets_variables match_count = false
sets_variables match_list = false

-- The result of `Match` on a compiled key.
abbrev compiled_found : Option (List Bytes) → Found
compiled_found none = (false, none)
compiled_found (some matches) = (true, some matches)

-- One key. A key that is not compiled has its variables expanded, and then once more.
unfoldable pub match_key :
    Services → RuntimeData → MatcherTest → Bytes → Key → Result ExecError Found
match_key services d t source (key, some find) = ok (compiled_found (find source))
match_key services d t source (key, none) = do
  once ← expand_vars d key
  twice ← expand_vars d once
  test_string services.libraries t.comparator t.match t.relational source twice

-- The match variables of a key that matches.
abbrev pub kept_matches : MatcherTest → Found → Found
kept_matches t (b, matches) = (b, if sets_variables t.match then matches else none)

unfoldable pub match_keys :
    Services → RuntimeData → MatcherTest → Bytes → List Key → Result ExecError Found
match_keys services d t source [] = ok (false, none)
match_keys services d t source (k ∷ ks) =
    let rest = match_keys services d t source ks in
    match_key services d t source k >>= λ r. if r.0 then ok (kept_matches t r) else rest

-- `tryMatch`
unfoldable pub try_match : Services → RuntimeData → MatcherTest → Bytes → Result ExecError Found
try_match services d t source = match_keys services d t source t.keys

-- What is set where an external list has the value.
abbrev pub listed : RuntimeData → Bytes → Found
listed d source =
    (true, if requires_extension d.script (codes "variables") then some (source ∷ []) else none)

unfoldable pub match_lists :
    (Bytes → Bytes → Result ExecError Bool)
    → RuntimeData
    → Bytes
    → List Key
    → Result ExecError Found
match_lists list_contains d source [] = ok (false, none)
match_lists list_contains d source ((name, compiled) ∷ ks) =
    let rest = match_lists list_contains d source ks in
    expand_vars d name >>= λ expanded. list_contains (expand_list_name expanded) source >>= λ b.
    if b then ok (listed d source) else rest

-- `tryMatchList`
unfoldable pub try_match_list :
    Services → RuntimeData → MatcherTest → Bytes → Result ExecError Found
try_match_list services d t source = elim services.list_contains [
  | none ↦ err (host_error (codes "extlists"))
  | some list_contains ↦ match_lists list_contains d source t.keys
]

unfoldable pub count_keys : RuntimeData → Relational → ℕ → List Key → Result ExecError Bool
count_keys d rel n [] = ok false
count_keys d rel n ((key, compiled) ∷ ks) =
    let rest = count_keys d rel n ks in
    expand_vars d key >>= λ text. elim (parse_uint text) [
      | none ↦ rest
      | some k ↦ if compare_uint64 rel n k then ok true else rest
    ]

-- `countMatches`
unfoldable pub count_matches : RuntimeData → MatcherTest → ℕ → Result ExecError Found
count_matches d t n = count_keys d t.relational n t.keys >>= λ b. ok (b, none)

-- One value of a loop: it is counted, or compared; the loop ends where it matches.
abbrev pub Visit : Type 0
Visit = Result ExecError (Flow ℕ Found)

abbrev pub decided : ℕ → Found → Visit
decided n (true, matches) = ok (done (true, matches))
decided n (false, matches) = ok (next n)

-- The loop over values.
unfoldable pub each : {A : Type 0} → (A → ℕ → Visit) → List A → ℕ → Visit
each visit [] n = ok (next n)
each visit (a ∷ l) n = visit a n >>= λ w. elim w [ done r ↦ ok (done r) | next m ↦ each visit l m ]

-- The end of a test: the count, or no match.
abbrev pub count_end : RuntimeData → MatcherTest → Flow ℕ Found → Result ExecError Found
count_end d t (done r) = ok r
count_end d t (next n) = if is_count t.match then count_matches d t n else ok (false, none)

abbrev pub list_or :
    Services
    → RuntimeData
    → MatcherTest
    → (Bytes → Result ExecError Found)
    → Bytes
    → Result ExecError Found
list_or services d t compare value = elim t.match [
  | match_list ↦ try_match_list services d t value
  | match_contains ↦ compare value
  | match_is ↦ compare value
  | match_matches ↦ compare value
  | match_value ↦ compare value
  | match_count ↦ compare value
  | match_regex ↦ compare value
]
