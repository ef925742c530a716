-- ===== src/Interp/Flagged.antt =====
-- On interp/test.go, `HasFlagTest`: which flags it finds.
use go_sieve.Interp.Compare.{match_is, octet, Found, test_string, test_octet}
use go_sieve.Interp.Expand.{expand_vars}
use go_sieve.Interp.Action.{elements}
use go_sieve.Interp.Items.{visit_flag, visit_flags, variable_flags, visit_variable, check_has_flag}
use go_sieve.Interp.Matcher.{
  count_end, Services, MatcherTest, try_match, match_keys, match_key, each, decided, Visit,
}
use go_sieve.Interp.Relational.{Relational}
use go_sieve.Interp.Runtime.{RuntimeData, ExecError}
use go_sieve.Interp.Text.{member}
use go_sieve.Interp.Variables.{var}
use mathlib.Core.Bool.{or_assoc}
use mathlib.Core.Path.{sym}
use go_sieve.Prelude.{
  ◌≡◌, refl, true, false, Bool, ℕ, List, [], ◌∷◌, ◌||◌, ◌++◌, map, All, Bytes, none, Result, ok,
  equal, if◌then◌else◌, ◌>>=◌, next, done,
}

-- `:is` with `i;octet` and one key.
abbrev pub is_key : Relational → Bytes → MatcherTest
is_key rel key = record {
  comparator = octet;
  match = match_is;
  relational = rel;
  keys = (key, none) ∷ [];
}

-- A variable with its value, and the flags in the values of several.
abbrev pub IsRead : RuntimeData → Bytes × Bytes → Type 0
IsRead d p = var d p.0 ≡ ok p.1

abbrev pub all_flags : RuntimeData → List (Bytes × Bytes) → List Bytes
all_flags d [] = []
all_flags d (p ∷ l) = variable_flags d p.1 ++ all_flags d l

-- The flags that the test compares.
abbrev pub tested_flags : RuntimeData → List (Bytes × Bytes) → List Bytes
tested_flags d [] = elements d.flags
tested_flags d (p ∷ l) = all_flags d (p ∷ l)

member-append : (s : Bytes) (l m : List Bytes) → member s (l ++ m) ≡ (member s l || member s m)
unfolding member
member-append s [] m = refl
member-append s (t ∷ l) m =
    rw (member-append s l m) (sym (or_assoc (equal t s) (member s l) (member s m)))

-- One value that is found or not, and a loop over such values.
abbrev answered : Bool → Result ExecError Found
answered b = ok (b, none)

abbrev visited : Bool → ℕ → Visit
visited b n = ok (if b then done (true, none) else next n)

choose : (b : Bool) → (if b then ok (b, none) else answered false) ≡ answered b
choose true = refl
choose false = refl

decided-answered : (b : Bool) (n : ℕ) → (answered b >>= decided n) ≡ visited b n
decided-answered true n = refl
decided-answered false n = refl

-- A value that is found ends the loop.
after-visited :
    (rest : ℕ → Visit) (b c : Bool) (n : ℕ)
    → rest n ≡ visited c n
    → (visited b n >>= λ w. elim w [ done r ↦ ok (done r) | next m ↦ rest m ]) ≡ visited (b || c) n
after-visited rest true c n e = refl
after-visited rest false c n e = e

ended :
    (d : RuntimeData) (rel : Relational) (key : Bytes) (b : Bool)
    → (visited b 0 >>= count_end d (is_key rel key)) ≡ answered b
ended d rel key true = refl
ended d rel key false = refl

module _ (services : Services) (d : RuntimeData) (rel : Relational) (key : Bytes) where
  try_match-is_key :
      (value : Bytes)
      → expand_vars d key ≡ ok key
      → try_match services d (is_key rel key) value ≡ ok (equal value key, none)
  unfolding try_match match_keys match_key test_string test_octet
  try_match-is_key value e = rw e (rw e (choose (equal value key)))

  each-visit_flag :
      (flags : List Bytes) (n : ℕ)
      → expand_vars d key ≡ ok key
      → each (visit_flag services d (is_key rel key)) flags n ≡ visited (member key flags) n
  unfolding each visit_flag member
  each-visit_flag [] n e = refl
  each-visit_flag (f ∷ flags) n e = rw (try_match-is_key f e) (
      rw (decided-answered (equal f key) n)
        (after-visited _ (equal f key) (member key flags) n (each-visit_flag flags n e)))

  each-visit_variable :
      (l : List (Bytes × Bytes)) (n : ℕ)
      → expand_vars d key ≡ ok key
      → All (IsRead d) l
      → each (visit_variable services d (is_key rel key)) (map (λ p. p.0) l) n
        ≡ visited (member key (all_flags d l)) n
  unfolding each visit_variable visit_flags member
  each-visit_variable [] n e h = refl
  each-visit_variable ((v, value) ∷ l) n e (h, hs) =
      let b = member key (variable_flags d value) in
      rw h (
        rw (each-visit_flag (variable_flags d value) n e) (
          rw (member-append key (variable_flags d value) (all_flags d l))
            (after-visited _ b (member key (all_flags d l)) n (each-visit_variable l n e hs))))

  -- With `:is`, `i;octet` and one key that its expansion leaves as it is, and variables that can all be read, the
  -- test finds the key exactly where it is one of the flags in their values, or, without variables, one of the
  -- internal flags.
  pub check_has_flag-member :
      (l : List (Bytes × Bytes))
      → expand_vars d key ≡ ok key
      → All (IsRead d) l
      → check_has_flag services (is_key rel key) (map (λ p. p.0) l) d
        ≡ ok (member key (tested_flags d l), none)
  unfolding check_has_flag visit_flags
  check_has_flag-member [] e h =
      rw (each-visit_flag (elements d.flags) 0 e) (ended d rel key (member key (elements d.flags)))
  check_has_flag-member (p ∷ l) e h =
      rw (each-visit_variable (p ∷ l) 0 e h) (ended d rel key (member key (all_flags d (p ∷ l))))
