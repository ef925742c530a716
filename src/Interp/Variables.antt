-- ===== src/Interp/Variables.antt =====
-- interp/runtime.go: `MatchVariable`, `Var` and `SetVar`, and interp/include.go: `CmdGlobal`.
use go_sieve.Interp.Runtime.{
  RuntimeData, Envelope, ExecError, missing_require, name_too_long, read_only, unknown_variable,
  prefixed_global, Exec,
}
use go_sieve.Interp.Script.{
  requires_extension, Namespace, env_space, envelope_space, global_space, user_space, unknown_space,
  variable_of,
}
use go_sieve.Interp.Text.{member, to_lower, replace_byte, take, cut}
use go_sieve.Prelude.{
  ℕ, zero, suc, Bool, true, false, List, [], ◌∷◌, Option, none, some, ltb, if◌then◌else◌, within,
  Bytes, codes, equal, length, lookup, insert, StringMap, Result, ok, err,
}

-- `MatchVariable`
unfoldable pub match_variable : List Bytes → ℕ → Bytes
match_variable [] i = []
match_variable (v ∷ vs) zero = v
match_variable (v ∷ vs) (suc i) = match_variable vs i

-- `m[name]`, with the empty string for a missing key.
abbrev pub or_empty : Option Bytes → Bytes
or_empty none = []
or_empty (some v) = v

abbrev pub get : StringMap → Bytes → Bytes
get m name = or_empty (lookup name m)

-- A user variable, which is a global one where its name is declared.
abbrev pub user_value : Bool → RuntimeData → Bytes → Bytes
user_value true d name = get d.global_vars name
user_value false d name = get d.variables name

unfoldable pub envelope_item : Envelope → Bytes → Bytes
envelope_item e name =
    if equal name (codes "from")
    then e.envelope_from
    else if equal name (codes "to")
    then e.envelope_to
    else if equal name (codes "auth")
    then e.auth_username
    else []

-- Hyphens are underscores in the name of a variable.
unfoldable pub environment_item : Option (Bytes → Bytes × Bool) → Bytes → Bytes
environment_item none name = []
environment_item (some get_environment) name = (get_environment (replace_byte 95 45 name)).0

unfoldable pub var_in : RuntimeData → Namespace × Bytes → Result ExecError Bytes
var_in d (env_space, name) =
    if requires_extension d.script (codes "vnd.yarilo.environment")
    then ok (environment_item d.env name)
    else err (missing_require (codes "vnd.yarilo.environment"))
var_in d (envelope_space, name) =
    if requires_extension d.script (codes "envelope")
    then ok (envelope_item d.envelope name)
    else err (missing_require (codes "envelope"))
var_in d (global_space, name) =
    if requires_extension d.script (codes "include")
    then ok (get d.global_vars name)
    else err (missing_require (codes "include"))
var_in d (user_space, name) = ok (user_value (member name d.global_var_decls) d name)
var_in d (unknown_space, name) = err (unknown_variable name)

-- `Var`
unfoldable pub var : RuntimeData → Bytes → Result ExecError Bytes
var d name = var_in d (variable_of name)

-- A second or further octet of a character in UTF-8.
unfoldable pub is_continuation : ℕ → Bool
is_continuation b = within 128 191 b

-- Whether `value[i]` is one, for an `i` below the length.
unfoldable pub continues_at : Bytes → ℕ → Bool
continues_at [] i = false
continues_at (b ∷ value) zero = is_continuation b
continues_at (b ∷ value) (suc i) = continues_at value i

-- The loop that steps back to the start of a character.
unfoldable pub back_off : Bytes → ℕ → ℕ
back_off value zero = zero
back_off value (suc n) =
    let back = back_off value n in if continues_at value (suc n) then back else suc n

unfoldable pub truncate : ℕ → Bytes → Bytes
truncate most value = if ltb most (length value) then take (back_off value most) value else value

abbrev pub set_global : Bytes → Bytes → RuntimeData → RuntimeData
set_global name value d = record d { global_vars = insert name value d.global_vars }

abbrev pub set_user : Bool → Bytes → Bytes → RuntimeData → RuntimeData
set_user true name value d = set_global name value d
set_user false name value d = record d { variables = insert name value d.variables }

unfoldable pub set_var_in : Namespace × Bytes → Bytes → Exec Unit
set_var_in (envelope_space, name) value d = (err (read_only name), d)
set_var_in (global_space, name) value d =
    if requires_extension d.script (codes "include")
    then (ok tt, set_global name value d)
    else (err (missing_require (codes "include")), d)
set_var_in (user_space, name) value d =
    (ok tt, set_user (member name d.global_var_decls) name value d)
set_var_in (env_space, name) value d = (err (unknown_variable name), d)
set_var_in (unknown_space, name) value d = (err (unknown_variable name), d)

-- `SetVar`
unfoldable pub set_var : Bytes → Bytes → Exec Unit
set_var name value d =
    if ltb d.script.opts.max_variable_name_len (length name)
    then (err (name_too_long name), d)
    else set_var_in (variable_of name) (truncate d.script.opts.max_variable_len value) d

-- `strings.Contains(name, ".")`
abbrev pub has_dot : Bytes → Bool
has_dot name = elim (cut 46 name) [ none ↦ false | some p ↦ true ]

-- A key of the map of declarations, once.
abbrev declare_name : Bytes → List Bytes → List Bytes
declare_name name decls = if member name decls then decls else name ∷ decls

-- `CmdGlobal`
unfoldable pub cmd_global : List Bytes → Exec Unit
cmd_global [] d = (ok tt, d)
cmd_global (name ∷ names) d =
    if has_dot name
    then (err (prefixed_global name), d)
    else cmd_global names
        (record d { global_var_decls = declare_name (to_lower name) d.global_var_decls })
