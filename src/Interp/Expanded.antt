-- ===== src/Interp/Expanded.antt =====
-- On interp/variables.go: the references of a string that `usedVarsAreValid` accepts.
use go_sieve.Interp.Expand.{
  Piece, plain_byte, reference, all_digits, is_num_variable, pieces, names, used_vars, match_number,
  is_readable, readable_at, value_at, all_readable, used_vars_are_valid, or_panic, value_of,
  replaced, expand_vars,
}
use go_sieve.Interp.Runtime.{RuntimeData, ExecError}
use go_sieve.Interp.Script.{
  requires_extension, Namespace, env_space, envelope_space, global_space, user_space, unknown_space,
  variable_in, variable_of, usable_in, is_var_usable,
}
use go_sieve.Interp.Text.{lower_byte, to_lower}
use go_sieve.Interp.Variables.{var_in, var}
use go_sieve.Lexer.Scan.{is_digit}
use go_sieve.Prelude.{
  ℕ, ◌≡◌, refl, ap, sym, ◌∙◌, Option, true, List, [], ◌∷◌, ◌++◌, Bytes, codes, Result, ok, err,
  out_of_fuel, ◌>>=◌, none, some, arith, Bool-cases, inl, inr,
}

-- The run has a value.
abbrev pub IsOk : {A : Type 0} → Result ExecError A → Type 0
IsOk (ok a) = Unit
IsOk (err x) = ⊥
IsOk out_of_fuel = ⊥

pub to_lower-to_lower : (s : Bytes) → to_lower (to_lower s) ≡ to_lower s
unfolding to_lower lower_byte
to_lower-to_lower [] = refl
to_lower-to_lower (b ∷ s) = ground (arith, to_lower-to_lower s)

all_digits-to_lower : (s : Bytes) → all_digits (to_lower s) ≡ all_digits s
unfolding to_lower all_digits lower_byte is_digit
all_digits-to_lower [] = refl
all_digits-to_lower (b ∷ s) = ground (arith, all_digits-to_lower s)

to_lower-all_digits : (s : Bytes) → all_digits s ≡ true → to_lower s ≡ s
unfolding to_lower all_digits lower_byte is_digit
to_lower-all_digits [] h = refl
to_lower-all_digits (b ∷ s) h = ground (arith, to_lower-all_digits s)

match_number-to_lower : (n : Bytes) → match_number (to_lower n) ≡ match_number n
unfolding match_number is_num_variable to_lower
match_number-to_lower [] = refl
match_number-to_lower (b ∷ n) =
    ground (arith, all_digits-to_lower (b ∷ n), to_lower-all_digits (b ∷ n))

variable_of-to_lower : (n : Bytes) → variable_of (to_lower n) ≡ variable_of n
unfolding variable_of
variable_of-to_lower n = ap variable_in (to_lower-to_lower n)

var_in-IsOk :
    (d : RuntimeData) (slot : Namespace × Bytes)
    → (usable_in d.script slot).1 ≡ true
    → IsOk (var_in d slot)
unfolding var_in usable_in
var_in-IsOk d (env_space, name) h = ground arith
var_in-IsOk d (envelope_space, name) h = ground arith
var_in-IsOk d (global_space, name) h = ground arith
var_in-IsOk d (user_space, name) h = tt
var_in-IsOk d (unknown_space, name) h = cc

is_var_usable-IsOk :
    (d : RuntimeData) (n : Bytes) → (is_var_usable d.script (to_lower n)).1 ≡ true → IsOk (var d n)
unfolding is_var_usable var
is_var_usable-IsOk d n h = var_in-IsOk d (variable_of n) (ground (arith, variable_of-to_lower n))

or_panic-IsOk : (n : Bytes) (r : Result ExecError Bytes) → IsOk r → IsOk (or_panic n r)
or_panic-IsOk n (ok v) h = tt
or_panic-IsOk n (err x) h = h
or_panic-IsOk n out_of_fuel h = h

value_at-IsOk :
    (d : RuntimeData) (n : Bytes) (o : Option ℕ)
    → readable_at d.script (to_lower n) o ≡ true
    → IsOk (value_at d n o)
unfolding value_at readable_at
value_at-IsOk d n none h = or_panic-IsOk n (var d n) (is_var_usable-IsOk d n h)
value_at-IsOk d n (some i) h = tt

value_of-IsOk :
    (d : RuntimeData) (n : Bytes) → is_readable d.script (to_lower n) ≡ true → IsOk (value_of d n)
value_of-IsOk d n h =
    value_at-IsOk d n (match_number n)
      (ap (readable_at d.script (to_lower n)) (sym (match_number-to_lower n)) ∙ h)

IsOk-append :
    (r t : Result ExecError Bytes)
    → IsOk r
    → IsOk t
    → IsOk (r >>= λ value. t >>= λ rest. ok (value ++ rest))
IsOk-append (ok v) (ok w) h k = tt
IsOk-append (ok v) (err x) h k = k
IsOk-append (ok v) out_of_fuel h k = k
IsOk-append (err x) t h k = h
IsOk-append out_of_fuel t h k = h

IsOk-cons : (b : ℕ) (t : Result ExecError Bytes) → IsOk t → IsOk (t >>= λ rest. ok (b ∷ rest))
IsOk-cons b (ok w) k = tt
IsOk-cons b (err x) k = k
IsOk-cons b out_of_fuel k = k

replaced-IsOk :
    (d : RuntimeData) (ps : List Piece)
    → all_readable d.script (names ps) ≡ true
    → IsOk (replaced d ps)
unfolding replaced names all_readable
replaced-IsOk d [] h = tt
replaced-IsOk d (plain_byte b ∷ ps) h = IsOk-cons b (replaced d ps) (replaced-IsOk d ps h)
replaced-IsOk d (reference n ∷ ps) h =
    IsOk-append (value_of d n) (replaced d ps) (value_of-IsOk d n (ground arith))
      (replaced-IsOk d ps (ground arith))

IsOk_lem : {A : Type 0} (r : Result ExecError A) → IsOk r → (a : A) × (r ≡ ok a)
IsOk_lem (ok a) h = (a, refl)
IsOk_lem (err x) h = absurd h
IsOk_lem out_of_fuel h = absurd h

-- A string whose references `usedVarsAreValid` accepts for the script of the runtime data is expanded to a
-- string: the expansion does not panic.
pub expand_vars-used_vars_are_valid :
    (d : RuntimeData) (s : Bytes)
    → used_vars_are_valid d.script s ≡ true
    → (t : Bytes) × (expand_vars d s ≡ ok t)
unfolding used_vars_are_valid used_vars expand_vars
expand_vars-used_vars_are_valid d s h =
    elim (Bool-cases (requires_extension d.script (codes "variables"))) [
      | inl e ↦
          rw e (IsOk_lem (replaced d (pieces 0 s)) (replaced-IsOk d (pieces 0 s) (ground arith)))
      | inr e ↦ rw e (s, refl)
    ]
