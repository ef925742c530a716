-- ===== src/Interp/Action.antt =====
-- interp/action.go: the commands that apply actions and set flags. The policy and the handler of actions
-- are the host's.
use go_sieve.Interp.Flags.{canonical_flags}
use go_sieve.Interp.Expand.{expand_vars, expand_vars_list}
use go_sieve.Interp.Runtime.{
  Flags, AppliedAction, action_keep, action_discard, action_file_into, action_redirect,
  action_reject, action_e_reject, RuntimeData, ExecError, stop_called, Exec, then_run, reading,
}
use go_sieve.Interp.Text.{fields, join, member, has_prefix}
use go_sieve.Interp.Variables.{var, set_var}
use go_sieve.Prelude.{
  Bool, true, false, List, [], ◌∷◌, ◌++◌, Option, none, some, if◌then◌else◌, Bytes, codes, Result,
  ok, err, ◌>>=◌,
}

-- `PolicyReader` with the optional `MailboxIDChecker` and `SpecialUseChecker`, and `OnAction`.
pub record Host : Type 0 where
  pub on_action : AppliedAction → Exec Unit
  pub redirect_allowed : RuntimeData → Bytes → Result ExecError Bool
  pub mailbox_by_id : Option (Bytes → Option Bytes)
  pub special_use_mailbox : Option (Bytes → Option Bytes)

-- `CmdFileInto`
pub record FileInto : Type 0 where
  pub mailbox : Bytes
  pub flags : Flags
  pub copy : Bool
  pub create : Bool
  pub special_use : Bytes
  pub mailbox_id : Bytes

-- `CmdRedirect`
pub record Redirect : Type 0 where
  pub addr : Bytes
  pub copy : Bool
  pub list : Bool

-- What an optional checker says of an argument that is not empty.
unfoldable pub checked_mailbox :
    Option (Bytes → Option Bytes) → RuntimeData → Bytes → Result ExecError (Option Bytes)
checked_mailbox none d arg = ok none
checked_mailbox (some find) d [] = ok none
checked_mailbox (some find) d (b ∷ arg) = do name ← expand_vars d (b ∷ arg); ok (find name)

unfoldable pub special_use_mailbox_of :
    Host → RuntimeData → FileInto → Bytes → Option Bytes → Result ExecError Bytes
special_use_mailbox_of host d c mailbox (some m) = ok m
special_use_mailbox_of host d c mailbox none = do
  found ← checked_mailbox host.special_use_mailbox d c.special_use
  ok (elim found [ none ↦ mailbox | some m ↦ m ])

-- The mailbox of a `fileinto`.
unfoldable pub resolve_mailbox : Host → RuntimeData → FileInto → Result ExecError Bytes
resolve_mailbox host d c = do
  mailbox ← expand_vars d c.mailbox
  found ← checked_mailbox host.mailbox_by_id d c.mailbox_id
  special_use_mailbox_of host d c mailbox found

-- The elements of a slice.
abbrev pub elements : Flags → List Bytes
elements none = []
elements (some l) = l

-- The flags of the command, or those of the data.
abbrev pub flags_or : Flags → Flags → List Bytes
flags_or none ambient = elements ambient
flags_or (some l) ambient = l

-- `canonicalFlags(expandVarsList(d, flags), nil, d.FlagAliases)`
unfoldable pub expanded_flags : RuntimeData → List Bytes → Result ExecError Flags
expanded_flags d l = do
  expanded ← expand_vars_list d l
  ok (canonical_flags expanded [] d.flag_aliases)

-- The end of a command that has acted.
abbrev pub clear_keep : Bool → Exec Unit
clear_keep copy d = (ok tt, record d { implicit_keep = if copy then d.implicit_keep else false })

abbrev pub add_mailbox : Bytes → Bool → Exec Unit
add_mailbox mailbox copy d = clear_keep copy (record d { mailboxes = d.mailboxes ++ mailbox ∷ [] })

abbrev pub add_redirect : Bytes → Bool → Exec Unit
add_redirect addr copy d =
    clear_keep copy (record d { redirect_addr = d.redirect_addr ++ addr ∷ [] })

-- The flags, the special use and the id of an `ActionFileInto`.
unfoldable pub file_parts : RuntimeData → FileInto → Result ExecError (Flags × Bytes × Bytes)
file_parts d c = do
  flags ← expanded_flags d (flags_or c.flags d.flags)
  special ← expand_vars d c.special_use
  id ← expand_vars d c.mailbox_id
  ok (flags, special, id)

abbrev pub file_action : FileInto → Bytes → Flags × Bytes × Bytes → AppliedAction
file_action c mailbox (flags, special, id) = action_file_into (record {
  mailbox = mailbox;
  flags = flags;
  copy = c.copy;
  create = c.create;
  special_use = special;
  mailbox_id = id;
})

-- A mailbox that has been filed into is left.
unfoldable pub file_unless_done : Host → FileInto → Bytes → Bool → Exec Unit
file_unless_done host c mailbox true d = (ok tt, d)
file_unless_done host c mailbox false d =
    reading (file_parts d c)
      (λ parts d'.
        then_run (host.on_action (file_action c mailbox parts) d') λ _. add_mailbox mailbox c.copy)
      d

unfoldable pub file_into : Host → FileInto → Bytes → Exec Unit
file_into host c mailbox d = file_unless_done host c mailbox (member mailbox d.mailboxes) d

-- `CmdFileInto.Execute`
unfoldable pub cmd_file_into : Host → FileInto → Exec Unit
cmd_file_into host c d = reading (resolve_mailbox host d c) (file_into host c) d

-- `expandListName`
unfoldable pub expand_list_name : Bytes → Bytes
expand_list_name name =
    if has_prefix name (codes ":") then codes "urn:ietf:params:sieve" ++ name else name

abbrev pub target_of : Redirect → Bytes → Bytes
target_of c addr = if c.list then expand_list_name addr else addr

unfoldable pub redirect_to : Host → Redirect → Bytes → Bool → Exec Unit
redirect_to host c addr true d =
    then_run
      (host.on_action
        (action_redirect (record { address = []; copy = c.copy; list_name = target_of c addr })) d)
      λ _. clear_keep c.copy
redirect_to host c addr false d =
    then_run
      (host.on_action (action_redirect (record { address = addr; copy = c.copy; list_name = [] }))
        d)
      λ _. add_redirect addr c.copy

unfoldable pub redirect_if : Host → Redirect → Bytes → Bool → Exec Unit
redirect_if host c addr true d = redirect_to host c addr c.list d
redirect_if host c addr false d = (ok tt, d)

-- `CmdRedirect.Execute`
unfoldable pub cmd_redirect : Host → Redirect → Exec Unit
cmd_redirect host c d =
    reading (expand_vars d c.addr)
      (λ addr d'.
        reading (host.redirect_allowed d' (target_of c addr)) (redirect_if host c addr) d')
      d

abbrev pub set_keep : Exec Unit
set_keep d = (ok tt, record d { keep = true })

-- `CmdKeep.Execute`
unfoldable pub cmd_keep : Host → Flags → Exec Unit
cmd_keep host flags d =
    reading (expanded_flags d (flags_or flags d.flags))
      (λ expanded d'. then_run (host.on_action (action_keep false expanded) d') λ _. set_keep) d

abbrev pub discarded : Exec Unit
discarded d = (ok tt, record d { implicit_keep = false; flags = some [] })

-- `CmdDiscard.Execute`
unfoldable pub cmd_discard : Host → Exec Unit
cmd_discard host d = then_run (host.on_action action_discard d) λ _. discarded

-- The flags go to the variable, or to the data where no variable is named.
unfoldable pub store_flags : Bytes → Flags → Exec Unit
store_flags [] flags d = (ok tt, record d { flags = flags })
store_flags (b ∷ name) flags d = set_var (b ∷ name) (join (codes " ") (elements flags)) d

-- `srcFlags`
unfoldable pub source_flags : RuntimeData → Bytes → Result ExecError Flags
source_flags d [] = ok d.flags
source_flags d (b ∷ name) = do value ← var d (b ∷ name); ok (some (fields value))

-- `CmdSetFlag.Execute`
unfoldable pub cmd_set_flag : Bytes → Flags → Exec Unit
cmd_set_flag variable none d = (ok tt, d)
cmd_set_flag variable (some flags) d = reading (expanded_flags d flags) (store_flags variable) d

unfoldable pub added_flags : RuntimeData → List Bytes → Flags → Flags
added_flags d new none = some new
added_flags d new (some old) = canonical_flags (old ++ new) [] d.flag_aliases

unfoldable pub removed_flags : RuntimeData → List Bytes → Flags → Flags
removed_flags d remove none = none
removed_flags d remove (some old) = canonical_flags old remove d.flag_aliases

abbrev pub Change : Type 0
Change = RuntimeData → List Bytes → Flags → Flags

unfoldable pub changed_flags : Change → RuntimeData → Bytes → List Bytes → Result ExecError Flags
changed_flags change d variable l = do
  flags ← expand_vars_list d l
  source ← source_flags d variable
  ok (change d flags source)

unfoldable pub change_flags : Change → Bytes → Flags → Exec Unit
change_flags change variable none d = (ok tt, d)
change_flags change variable (some l) d =
    reading (changed_flags change d variable l) (store_flags variable) d

-- `CmdAddFlag.Execute`
unfoldable pub cmd_add_flag : Bytes → Flags → Exec Unit
cmd_add_flag variable flags d = change_flags added_flags variable flags d

-- `CmdRemoveFlag.Execute`
unfoldable pub cmd_remove_flag : Bytes → Flags → Exec Unit
cmd_remove_flag variable flags d = change_flags removed_flags variable flags d

-- `CmdReject.Execute`
unfoldable pub cmd_reject : Host → Bytes → Exec Unit
cmd_reject host reason d =
    reading (expand_vars d reason)
      (λ text d'. then_run (host.on_action (action_reject text) d') λ _. clear_keep false) d

-- `CmdEReject.Execute`
unfoldable pub cmd_e_reject : Host → Bytes → Exec Unit
cmd_e_reject host reason d =
    reading (expand_vars d reason)
      (λ text d'. then_run (host.on_action (action_e_reject text) d') λ _. clear_keep false) d

-- `CmdStop.Execute`
unfoldable pub cmd_stop : Exec Unit
cmd_stop d = (err stop_called, d)
