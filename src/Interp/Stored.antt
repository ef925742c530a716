-- ===== src/Interp/Stored.antt =====
-- On interp/runtime.go, `SetVar`: the variable that is set, the others, and the value that is kept.
use go_sieve.Interp.Runtime.{RuntimeData, missing_require}
use go_sieve.Interp.Script.{
  Namespace, env_space, envelope_space, global_space, user_space, unknown_space, variable_of,
  requires_extension,
}
use go_sieve.Interp.Text.{member}
use go_sieve.Interp.Variables.{
  get, or_empty, user_value, set_global, set_user, var_in, var, truncate, set_var_in, set_var,
}
use go_sieve.Interp.Runs.{After, After-if}
use mathlib.Core.Path.{subst}
use go_sieve.Prelude.{
  StringMap, ◌≡◌, ◌≢◌, refl, ap, sym, ◌∙◌, Bool, true, false, Bytes, codes, ok, err, length, ltb,
  if◌then◌else◌, insert, lookup-insert, lookup-insert_other, equal_ne,
}

-- The map and the key that a name stands for: a declared name is a global one.
unfoldable pub slot : RuntimeData → Namespace × Bytes → Namespace × Bytes
slot d (env_space, name) = (env_space, name)
slot d (envelope_space, name) = (envelope_space, name)
slot d (global_space, name) = (global_space, name)
slot d (user_space, name) =
    (if member name d.global_var_decls then global_space else user_space, name)
slot d (unknown_space, name) = (unknown_space, name)

-- What setting a variable does to the variables: this one has the value, and every other one is as before.
abbrev IsStored : RuntimeData → Namespace × Bytes → Bytes → RuntimeData → Type 0
IsStored d v value d' =
    (var_in d' v ≡ ok value)
    × ((w : Namespace × Bytes) → slot d w ≢ slot d v → var_in d' w ≡ var_in d w)

get-insert_ne : (i k v : Bytes) (m : StringMap) → k ≢ i → get (insert k v m) i ≡ get m i
get-insert_ne i k v m h = ap or_empty (lookup-insert_other i k v m (equal_ne k i h))

get-insert : (k v : Bytes) (m : StringMap) → get (insert k v m) k ≡ v
get-insert k v m = ap or_empty (lookup-insert k v m)

-- A user variable in another place.
user_value-others :
    (name value : Bytes) (d : RuntimeData) (n : Bytes) (b : Bool)
    → member n d.global_var_decls ≡ b
    → slot d (user_space, n) ≢ (global_space, name)
    → user_value b (set_global name value d) n ≡ user_value b d n
unfolding slot
user_value-others name value d n true e h =
    get-insert_ne n name value d.global_vars λ f. h (rw (e, f) refl)
user_value-others name value d n false e h = refl

user_value-locals :
    (name value : Bytes) (d : RuntimeData) (n : Bytes) (b : Bool)
    → member n d.global_var_decls ≡ b
    → slot d (user_space, n) ≢ (user_space, name)
    → user_value b (set_user false name value d) n ≡ user_value b d n
unfolding slot
user_value-locals name value d n true e h = refl
user_value-locals name value d n false e h =
    get-insert_ne n name value d.variables λ f. h (rw (e, f) refl)

set_global-others :
    (name value : Bytes) (d : RuntimeData) (w : Namespace × Bytes)
    → slot d w ≢ (global_space, name)
    → var_in (set_global name value d) w ≡ var_in d w
unfolding var_in slot
set_global-others name value d (env_space, n) h = refl
set_global-others name value d (envelope_space, n) h = refl
set_global-others name value d (global_space, n) h =
    ap
      (λ t.
        if requires_extension d.script (codes "include")
        then ok t
        else err (missing_require (codes "include")))
      (get-insert_ne n name value d.global_vars λ e. h (ap (λ x. (global_space, x)) (sym e)))
set_global-others name value d (user_space, n) h =
    ap ok (user_value-others name value d n (member n d.global_var_decls) refl h)
set_global-others name value d (unknown_space, n) h = refl

set_local-others :
    (name value : Bytes) (d : RuntimeData) (w : Namespace × Bytes)
    → slot d w ≢ (user_space, name)
    → var_in (record d { variables = insert name value d.variables }) w ≡ var_in d w
unfolding var_in slot
set_local-others name value d (env_space, n) h = refl
set_local-others name value d (envelope_space, n) h = refl
set_local-others name value d (global_space, n) h = refl
set_local-others name value d (user_space, n) h =
    ap ok (user_value-locals name value d n (member n d.global_var_decls) refl h)
set_local-others name value d (unknown_space, n) h = refl

set_user-IsStored :
    (declared : Bool) (name value : Bytes) (d : RuntimeData)
    → member name d.global_var_decls ≡ declared
    → IsStored d (user_space, name) value (set_user declared name value d)
unfolding var_in slot
set_user-IsStored true name value d e = (
  ap ok (
      ap (λ b. user_value b (set_global name value d) name) e
      ∙ get-insert name value d.global_vars),
  λ w h.
      set_global-others name value d w
        λ f. h (f ∙ ap (λ b. (if b then global_space else user_space, name)) (sym e)),
)
set_user-IsStored false name value d e = (
  ap ok (
      ap (λ b. user_value b (set_user false name value d) name) e
      ∙ get-insert name value d.variables),
  λ w h.
      set_local-others name value d w
        λ f. h (f ∙ ap (λ b. (if b then global_space else user_space, name)) (sym e)),
)

set_var_in-IsStored :
    (v : Namespace × Bytes) (value : Bytes) (d : RuntimeData)
    → After (IsStored d v value) (λ d'. ⊥) (set_var_in v value d)
unfolding set_var_in var_in slot
set_var_in-IsStored (env_space, name) value d = tt
set_var_in-IsStored (envelope_space, name) value d = tt
set_var_in-IsStored (global_space, name) value d =
    After-if _ _ (requires_extension d.script (codes "include")) _ _
      (λ e. (rw e (ap ok (get-insert name value d.global_vars)), set_global-others name value d))
      λ e. tt
set_var_in-IsStored (user_space, name) value d =
    set_user-IsStored (member name d.global_var_decls) name value d refl
set_var_in-IsStored (unknown_space, name) value d = tt

-- A variable that `SetVar` sets without an error has the value, cut to `MaxVariableLen`, when `Var` reads it
-- again under the same name, and every variable of another place reads as before. A name declared global and
-- the same name behind `global.` have one place.
pub set_var-var :
    (name value : Bytes) (d d' : RuntimeData)
    → set_var name value d ≡ (ok tt, d')
    → (var d' name ≡ ok (truncate d.script.opts.max_variable_len value))
      × ((other : Bytes)
          → slot d (variable_of other) ≢ slot d (variable_of name)
          → var d' other ≡ var d other)
unfolding set_var var
set_var-var name value d d' e =
    let most = d.script.opts.max_variable_len in
    let v = variable_of name in
    let all : After (IsStored d v (truncate most value)) (λ x. ⊥) (set_var name value d) =
      After-if _ _ (ltb d.script.opts.max_variable_name_len (length name)) _ _ (λ h. tt)
        λ h. set_var_in-IsStored v (truncate most value) d in
    let is_set : IsStored d v (truncate most value) d' =
      subst (After (IsStored d v (truncate most value)) (λ x. ⊥)) e all in
    (is_set.0, λ other. is_set.1 (variable_of other))
