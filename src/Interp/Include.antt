-- ===== src/Interp/Include.antt =====
-- interp/include.go: `CmdInclude`, over what loads the named script.
use go_sieve.Interp.Runtime.{IncludeState, RuntimeData, ExecError, host_error, Exec}
use go_sieve.Interp.Script.{Script, Options}
use go_sieve.Interp.Text.{member}
use go_sieve.Prelude.{
  ℕ, Bool, ◌&&◌, List, [], ◌∷◌, ◌++◌, Option, none, some, if◌then◌else◌, leb, length, Bytes, codes,
  equal, Result, ok, err, out_of_fuel,
}

-- `CmdInclude`
pub record Include : Type 0 where
  pub location : Bytes
  pub once : Bool
  pub optional : Bool
  pub name : Bytes

unfoldable pub new_include_state : IncludeState
new_include_state = record { stack = []; once = [] }

-- The state, made on first use.
abbrev pub state_of : RuntimeData → IncludeState
state_of d = elim d.include_state [ none ↦ new_include_state | some s ↦ s ]

unfoldable pub is_pending : IncludeState → Bytes → Bool
is_pending s key = member key s.stack

unfoldable pub push : Bytes → IncludeState → IncludeState
push key s = record s { stack = s.stack ++ key ∷ [] }

abbrev pub drop_last : List Bytes → List Bytes
drop_last [] = []
drop_last (k ∷ []) = []
drop_last (k ∷ l ∷ ls) = k ∷ drop_last (l ∷ ls)

unfoldable pub pop : IncludeState → IncludeState
pop s = record s { stack = drop_last s.stack }

abbrev pub include_max_depth : ℕ
include_max_depth = 4

abbrev pub include_key : Include → Bytes
include_key c = c.location ++ codes ":" ++ c.name

unfoldable pub mark_once : Include → IncludeState → IncludeState
mark_once c s = if c.once then record s { once = include_key c ∷ s.once } else s

abbrev pub with_state : IncludeState → RuntimeData → RuntimeData
with_state s d = record d { include_state = some s }

-- What the guards before the load decide: the end of the command, with the state behind it, or the
-- load.
pub data Guard : Type 0 where
  ended : Result ExecError Unit → IncludeState → Guard
  loads : Guard

unfoldable pub guard : Include → IncludeState → Guard
guard c s =
    if c.once && member (include_key c) s.once
    then ended (ok tt) s
    else if is_pending s (include_key c)
    then (if c.once
        then ended (ok tt) (mark_once c s)
        else ended (err (host_error (codes "recursive"))) s)
    else if leb include_max_depth (length s.stack)
    then ended (err (host_error (codes "depth"))) s
    else loads

-- A loaded script, and what it does.
abbrev pub Loaded : Type 0
Loaded = Script × Exec Unit

-- What a loader opens: an error of the loader, no script, or a text, with what reads it and makes a
-- script of it.
abbrev pub Opened : Type 0
Opened = Result ExecError (Option (Result ExecError Loaded))

-- `ScriptLoader`, under the options of the script that includes.
pub record ScriptLoader : Type 0 where
  pub load_personal_script : Options → Bytes → Opened
  pub load_global_script : Options → Bytes → Opened

-- The script runs in a scope of its own.
unfoldable pub entered : Include → Script → RuntimeData → RuntimeData
entered c script d = record d {
  script = script;
  variables = [];
  global_var_decls = [];
  match_variables = [];
  include_state = some (push (include_key c) (state_of d));
}

unfoldable pub left : Include → RuntimeData → RuntimeData → RuntimeData
left c saved d = record d {
  script = saved.script;
  variables = saved.variables;
  global_var_decls = saved.global_var_decls;
  match_variables = saved.match_variables;
  include_state = some (mark_once c (pop (state_of d)));
}

unfoldable pub run_included : Include → Loaded → Exec Unit
run_included c (script, run) d = let r = run (entered c script d) in (r.0, left c d (r.1))

-- A text of which no script can be made is an error, also where the script is optional.
unfoldable pub after_open : Include → Result ExecError Loaded → Exec Unit
after_open c (ok l) d = run_included c l d
after_open c (err x) d = (err x, d)
after_open c out_of_fuel d = (out_of_fuel, d)

-- An optional script may be missing, and its loader may fail.
unfoldable pub after_load : Include → Opened → Exec Unit
after_load c (ok (some r)) d = after_open c r d
after_load c (ok none) d = (if c.optional then ok tt else err (host_error (codes "not found")), d)
after_load c (err x) d = (if c.optional then ok tt else err x, d)
after_load c out_of_fuel d = (out_of_fuel, d)

unfoldable pub load_script : ScriptLoader → Include → Exec Unit
load_script loader c d =
    if equal c.location (codes "personal")
    then after_load c (loader.load_personal_script d.script.opts c.name) d
    else if equal c.location (codes "global")
    then after_load c (loader.load_global_script d.script.opts c.name) d
    else (err (host_error (codes "location")), d)

unfoldable pub after_guard : ScriptLoader → Include → Guard → Exec Unit
after_guard loader c (ended r s) d = (r, with_state s d)
after_guard loader c loads d = load_script loader c (with_state (state_of d) d)

-- `CmdInclude.Execute`; the policy may be no loader.
unfoldable pub cmd_include : Option ScriptLoader → Include → Exec Unit
cmd_include none c d = (err (host_error (codes "loader")), d)
cmd_include (some loader) c d = after_guard loader c (guard c (state_of d)) d
