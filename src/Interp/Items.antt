-- ===== src/Interp/Items.antt =====
-- interp/test.go, `EnvironmentTest` and `HasFlagTest`.
use go_sieve.Interp.Action.{elements}
use go_sieve.Interp.Compare.{Found}
use go_sieve.Interp.Expand.{expand_vars}
use go_sieve.Interp.Flags.{canonical_flags}
use go_sieve.Interp.Matcher.{
  Services, MatcherTest, is_count, try_match, count_matches, Visit, decided, each, count_end,
}
use go_sieve.Interp.Runtime.{RuntimeData, ExecError}
use go_sieve.Interp.Text.{fields, to_lower}
use go_sieve.Interp.Variables.{var}
use go_sieve.Prelude.{
  ℕ, suc, ◌+◌, Bool, true, false, ◌&&◌, List, [], ◌∷◌, Option, none, some, if◌then◌else◌, Bytes,
  equal, length, Result, ok, ◌>>=◌, next,
}

-- The value of an item that the host knows.
unfoldable pub environment_item : RuntimeData → Bytes → Option Bytes
environment_item d name = elim d.env [
  | none ↦ none
  | some get_environment ↦
      if (get_environment name).1 then some ((get_environment name).0) else none
]

-- The body for the value of an item, `n` being `entryCount`, and `rest` what follows it.
unfoldable pub check_known :
    Services
    → MatcherTest
    → RuntimeData
    → (ℕ → Bool → Result ExecError Found)
    → Bytes
    → ℕ
    → Result ExecError Found
check_known services t d rest value n =
    if is_count t.match
    then rest (if equal value [] then n else suc n) true
    else try_match services d t value >>= λ r. if r.0 then ok r else rest n true

-- The body for a name, `any` being `anyKnown`.
unfoldable pub check_item :
    Services
    → MatcherTest
    → RuntimeData
    → (ℕ → Bool → Result ExecError Found)
    → Option Bytes
    → ℕ
    → Bool
    → Result ExecError Found
check_item services t d rest none n any = rest n any
check_item services t d rest (some value) n any = check_known services t d rest value n

-- The loop over the names, and what follows it.
unfoldable pub check_items :
    Services → MatcherTest → RuntimeData → List Bytes → ℕ → Bool → Result ExecError Found
check_items services t d [] n any =
    if is_count t.match && any then count_matches d t n else ok (false, none)
check_items services t d (name ∷ names) n any = expand_vars d name >>= λ expanded.
    check_item services t d (check_items services t d names)
      (environment_item d (to_lower expanded)) n any

-- `EnvironmentTest.Check`
unfoldable pub check_environment :
    Services → MatcherTest → List Bytes → RuntimeData → Result ExecError Found
check_environment services t names d = check_items services t d names 0 false

unfoldable pub visit_flag : Services → RuntimeData → MatcherTest → Bytes → ℕ → Visit
visit_flag services d t flag n = try_match services d t flag >>= decided n

-- Flags: all of them are counted, or each is compared.
unfoldable pub visit_flags : Services → RuntimeData → MatcherTest → List Bytes → ℕ → Visit
visit_flags services d t flags n =
    if is_count t.match
    then ok (next (n + length flags))
    else each (visit_flag services d t) flags n

-- The flags in the value of a variable.
unfoldable pub variable_flags : RuntimeData → Bytes → List Bytes
variable_flags d value = elements (canonical_flags (fields value) [] d.flag_aliases)

unfoldable pub visit_variable : Services → RuntimeData → MatcherTest → Bytes → ℕ → Visit
visit_variable services d t v n =
    var d v >>= λ value. visit_flags services d t (variable_flags d value) n

-- `HasFlagTest.Check`
unfoldable pub check_has_flag :
    Services → MatcherTest → List Bytes → RuntimeData → Result ExecError Found
check_has_flag services t [] d = visit_flags services d t (elements d.flags) 0 >>= count_end d t
check_has_flag services t (v ∷ variables) d =
    each (visit_variable services d t) (v ∷ variables) 0 >>= count_end d t
