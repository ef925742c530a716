-- ===== src/Interp/Unknown.antt =====
-- On interp/test.go, `EnvironmentTest`: items that the host does not know.
use go_sieve.Interp.Expand.{expand_vars}
use go_sieve.Interp.Items.{environment_item, check_item, check_items, check_environment}
use go_sieve.Interp.Matcher.{Services, MatcherTest, is_count, count_matches}
use go_sieve.Interp.Runtime.{RuntimeData}
use go_sieve.Interp.Text.{to_lower}
use mathlib.Core.Path.{fun_ext}
use go_sieve.Prelude.{
  ◌≡◌, refl, true, false, Bool, ℕ, List, [], ◌∷◌, ◌++◌, ◌&&◌, All, Bytes, none, ok, if◌then◌else◌,
}

-- A name without invalid references, of an item that the host does not know.
abbrev pub IsUnknown : RuntimeData → Bytes → Type 0
IsUnknown d name =
    (expanded : Bytes) × (expand_vars d name ≡ ok expanded)
    × (environment_item d (to_lower expanded) ≡ none)

module _ (services : Services) (t : MatcherTest) (d : RuntimeData) where
  check_items-skip :
      (name : Bytes) (after : List Bytes) (n : ℕ) (any : Bool)
      → IsUnknown d name
      → check_items services t d (name ∷ after) n any ≡ check_items services t d after n any
  unfolding check_items check_item
  check_items-skip name after n any (expanded, e, u) = rw e (rw u refl)

  no_item :
      (b : Bool) → (if b && false then count_matches d t 0 else ok (false, none)) ≡ ok (false, none)
  no_item true = refl
  no_item false = refl

  check_items-unknown :
      (before : List Bytes) (name : Bytes) (after : List Bytes)
      → IsUnknown d name
      → check_items services t d (before ++ name ∷ after)
        ≡ check_items services t d (before ++ after)
  unfolding check_items
  check_items-unknown [] name after u =
      fun_ext (λ n. fun_ext (λ any. check_items-skip name after n any u))
  check_items-unknown (b ∷ before) name after u =
      fun_ext (λ n. fun_ext (λ any. rw (check_items-unknown before name after u) refl))

  check_items-none :
      (names : List Bytes)
      → All (IsUnknown d) names
      → check_items services t d names 0 false ≡ ok (false, none)
  unfolding check_items
  check_items-none [] us = no_item (is_count t.match)
  check_items-none (name ∷ names) (u, us) =
      rw (check_items-skip name names 0 false u) (check_items-none names us)

  -- A name without invalid references, of an item that the host does not know, makes no difference to the test,
  -- wherever it stands; and a test of such names alone is false, also with `:count`.
  pub check_environment-IsUnknown :
      (before : List Bytes) (name : Bytes) (after names : List Bytes)
      → IsUnknown d name
      → All (IsUnknown d) names
      → (check_environment services t (before ++ name ∷ after) d
          ≡ check_environment services t (before ++ after) d)
        × (check_environment services t names d ≡ ok (false, none))
  unfolding check_environment
  check_environment-IsUnknown before name after names u us =
      (rw (check_items-unknown before name after u) refl, check_items-none names us)
