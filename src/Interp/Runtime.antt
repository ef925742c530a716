-- ===== src/Interp/Runtime.antt =====
-- interp/applied_action.go and interp/runtime.go: the actions that a script applies, the runtime data
-- and the runs on them.
use go_sieve.Interp.Script.{Script}
use go_sieve.Prelude.{
  ℕ, Bool, true, false, ◌&&◌, ◌||◌, not, List, [], ◌∷◌, ◌++◌, map, Option, none, some, ltb,
  if◌then◌else◌, Bytes, StringMap, length, Result, ok, err, out_of_fuel,
}

-- A nil slice is `none`.
abbrev pub Flags : Type 0
Flags = Option (List Bytes)

pub record ActionFileInto : Type 0 where
  pub mailbox : Bytes
  pub flags : Flags
  pub copy : Bool
  pub create : Bool
  pub special_use : Bytes
  pub mailbox_id : Bytes

pub record ActionRedirect : Type 0 where
  pub address : Bytes
  pub copy : Bool
  pub list_name : Bytes

pub record ActionPipe : Type 0 where
  pub program_name : Bytes
  pub args : List Bytes
  pub copy : Bool
  pub try : Bool

pub record ActionNotify : Type 0 where
  pub method : Bytes
  pub sender : Bytes
  pub importance : Bytes
  pub options : List Bytes
  pub message : Bytes

pub record ActionReport : Type 0 where
  pub feedback_type : Bytes
  pub message : Bytes
  pub target : Bytes
  pub headers_only : Bool

-- `AppliedAction`; the Boolean of `action_keep` is `Implicit`.
pub data AppliedAction : Type 0 where
  action_keep : Bool → Flags → AppliedAction
  action_discard : AppliedAction
  action_file_into : ActionFileInto → AppliedAction
  action_redirect : ActionRedirect → AppliedAction
  action_reject : Bytes → AppliedAction
  action_e_reject : Bytes → AppliedAction
  action_pipe : ActionPipe → AppliedAction
  action_notify : ActionNotify → AppliedAction
  action_report : ActionReport → AppliedAction

unfoldable pub cancels_implicit_keep : AppliedAction → Bool
cancels_implicit_keep (action_keep b flags) = true
cancels_implicit_keep action_discard = true
cancels_implicit_keep (action_file_into a) = not a.copy
cancels_implicit_keep (action_redirect a) = not a.copy
cancels_implicit_keep (action_reject reason) = true
cancels_implicit_keep (action_e_reject reason) = true
cancels_implicit_keep (action_pipe a) = not a.copy && not a.try
cancels_implicit_keep (action_notify a) = false
cancels_implicit_keep (action_report a) = false

-- Whether an applied action cancels the implicit keep.
unfoldable pub any_cancels : List AppliedAction → Bool
any_cancels [] = false
any_cancels (act ∷ acts) = cancels_implicit_keep act || any_cancels acts

pub record Envelope : Type 0 where
  pub envelope_from : Bytes
  pub envelope_to : Bytes
  pub auth_username : Bytes

-- The errors of a run; `panicked` is the panic of `expandVars`, `host_error` an error of the
-- host's code or of a library.
pub data ExecError : Type 0 where
  stop_called : ExecError
  return_called : ExecError
  panicked : Bytes → ExecError
  missing_require : Bytes → ExecError
  name_too_long : Bytes → ExecError
  read_only : Bytes → ExecError
  unknown_variable : Bytes → ExecError
  prefixed_global : Bytes → ExecError
  too_many_actions : ℕ → ExecError
  unsupported_match : ExecError
  host_error : Bytes → ExecError

-- The message, of the host: `HeaderGet` and `MessageSize`.
pub record Message : Type 0 where
  pub header_get : Bytes → Result ExecError (List Bytes)
  pub message_size : ℕ

-- `IncludeState`; the keys of `once` with a true value.
pub record IncludeState : Type 0 where
  pub stack : List Bytes
  pub once : List Bytes

-- `RuntimeData`, with the fields that the modelled code reads. A nil map has no entry.
pub record RuntimeData : Type 0 where
  pub script : Script
  pub envelope : Envelope
  pub msg : Message
  pub env : Option (Bytes → Bytes × Bool)
  pub if_result : Bool
  pub applied_actions : List AppliedAction
  pub redirect_addr : List Bytes
  pub mailboxes : List Bytes
  pub flags : Flags
  pub keep : Bool
  pub implicit_keep : Bool
  pub flag_aliases : StringMap
  pub match_variables : List Bytes
  pub variables : StringMap
  pub global_vars : StringMap
  pub global_var_decls : List Bytes
  pub include_state : Option IncludeState

unfoldable pub new_runtime_data : Script → Envelope → Message → RuntimeData
new_runtime_data s e m = record {
  script = s;
  envelope = e;
  msg = m;
  env = none;
  if_result = false;
  applied_actions = [];
  redirect_addr = [];
  mailboxes = [];
  flags = none;
  keep = false;
  implicit_keep = true;
  flag_aliases = [];
  match_variables = [];
  variables = [];
  global_vars = [];
  global_var_decls = [];
  include_state = none;
}

-- `Copy`: the copy, and what it leaves of the original.
unfoldable pub copy_runtime_data : RuntimeData → RuntimeData × RuntimeData
copy_runtime_data d = (
  record d {
    if_result = false;
    flags = none;
    global_vars = [];
    global_var_decls = [];
    include_state = none;
  },
  record d { flags = elim d.flags [ none ↦ none | some l ↦ some (map (λ f. []) l) ] },
)

-- What runs on the runtime data, with its result or its error and the data behind it.
abbrev pub Exec : Type 0 → Type 0
Exec A = RuntimeData → Result ExecError A × RuntimeData

-- An error is returned at once, with the data as they are.
abbrev pub then_run :
    {A B : Type 0}
    → Result ExecError A × RuntimeData
    → (A → Exec B)
    → Result ExecError B × RuntimeData
then_run (ok a, d) k = k a d
then_run (err x, d) k = (err x, d)
then_run (out_of_fuel, d) k = (out_of_fuel, d)

-- A result that is computed from the data and leaves them as they are.
abbrev pub reading : {A B : Type 0} → Result ExecError A → (A → Exec B) → Exec B
reading r k d = then_run (r, d) k

unfoldable pub default_on_action : AppliedAction → Exec Unit
default_on_action action d =
    let acts = d.applied_actions ++ action ∷ [] in
    let most = d.script.opts.max_actions in
    (
      if ltb 0 most && ltb most (length acts) then err (too_many_actions most) else ok tt,
      record d { applied_actions = acts },
    )
