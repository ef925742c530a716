-- ===== src/Interp/Acted.antt =====
-- On interp/: an invariant of the applied actions and the implicit keep, through every command of a
-- script.
use go_sieve.Interp.Action.{
  Host, FileInto, Redirect, resolve_mailbox, file_parts, file_action, file_unless_done, file_into,
  cmd_file_into, target_of, redirect_to, redirect_if, cmd_redirect, expanded_flags, flags_or,
  cmd_keep, cmd_discard, added_flags, removed_flags, cmd_add_flag, clear_keep, add_mailbox,
  add_redirect, set_keep, discarded, cmd_remove_flag, cmd_reject, cmd_e_reject, cmd_stop,
}
use go_sieve.Interp.Checks.{check}
use go_sieve.Interp.Control.{run_block, run_if, cmd_if, unless_done, cmd_elsif, cmd_else}
use go_sieve.Interp.Execute.{
  Cmd, Cmds, stop, return, fileinto, redirect, keep, discard, setflag, addflag, removeflag, reject,
  ereject, set, global, if_cmd, elsif_cmd, else_cmd, no_cmds, more_cmds, cmd_return, execute_cmd,
  block_of,
}
use go_sieve.Interp.Expand.{expand_vars}
use go_sieve.Interp.Kept.{
  Holds, cmd_set-keeps, cmd_global-keeps, cmd_set_flag-keeps, change_flags-keeps, check-keeps,
}
use go_sieve.Interp.Runs.{After, After-then_run, After-reading}
use go_sieve.Interp.Runtime.{
  Flags, AppliedAction, action_keep, action_discard, action_reject, action_e_reject,
  cancels_implicit_keep, RuntimeData, Exec, then_run,
}
use go_sieve.Interp.Script.{Script}
use go_sieve.Interp.Text.{member}
use go_sieve.Prelude.{◌≡◌, refl, ◌⊎◌, inl, inr, Bool, true, false, not, List, Bytes, if◌then◌else◌}

-- What holds behind an action whose command leaves or clears the implicit keep.
abbrev pub Acted : (Script → Bool → List AppliedAction → Type 0) → Bool → RuntimeData → Type 0
Acted J copy d = J d.script (if copy then d.implicit_keep else false) d.applied_actions

-- The handler, for an action that cancels the keep where its command does.
abbrev pub Handles : (Script → Bool → List AppliedAction → Type 0) → Host → Type 0
Handles J host =
    (action : AppliedAction) (copy : Bool) (d : RuntimeData)
    → (copy ≡ true) ⊎ (cancels_implicit_keep action ≡ true)
    → Holds J d
    → After (Acted J copy) (Holds J) (host.on_action action d)

not-copy : (copy : Bool) → (copy ≡ true) ⊎ (not copy ≡ true)
not-copy true = inl refl
not-copy false = inr refl

module _ (J : Script → Bool → List AppliedAction → Type 0) (host : Host)
    (handles : Handles J host) where
  -- An action, and the end of its command.
  acts :
      (action : AppliedAction) (copy : Bool) (k : Exec Unit) (d : RuntimeData)
      → (copy ≡ true) ⊎ (cancels_implicit_keep action ≡ true)
      → ((d' : RuntimeData) → Acted J copy d' → After (Holds J) (Holds J) (k d'))
      → Holds J d
      → After (Holds J) (Holds J) (then_run (host.on_action action d) λ _. k)
  acts action copy k d e f h =
      After-then_run (Acted J copy) (Holds J) (Holds J) (host.on_action action d) (λ _. k)
        (handles action copy d e h) λ u. f

  file_unless_done-keeps :
      (c : FileInto) (mailbox : Bytes) (is_done : Bool) (d : RuntimeData)
      → Holds J d
      → After (Holds J) (Holds J) (file_unless_done host c mailbox is_done d)
  unfolding file_unless_done cancels_implicit_keep
  file_unless_done-keeps c mailbox true d h = h
  file_unless_done-keeps c mailbox false d h =
      After-reading (Holds J) (file_parts d c) _ d h λ parts.
        acts (file_action c mailbox parts) c.copy (add_mailbox mailbox c.copy) d (not-copy c.copy)
          (λ d' h'. h') h

  file_into-keeps :
      (c : FileInto) (mailbox : Bytes) (d : RuntimeData)
      → Holds J d
      → After (Holds J) (Holds J) (file_into host c mailbox d)
  unfolding file_into
  file_into-keeps c mailbox d h = file_unless_done-keeps c mailbox (member mailbox d.mailboxes) d h

  cmd_file_into-keeps :
      (c : FileInto) (d : RuntimeData)
      → Holds J d
      → After (Holds J) (Holds J) (cmd_file_into host c d)
  unfolding cmd_file_into
  cmd_file_into-keeps c d h =
      After-reading (Holds J) (resolve_mailbox host d c) (file_into host c) d h
        λ mailbox. file_into-keeps c mailbox d h

  redirect_to-keeps :
      (c : Redirect) (addr : Bytes) (list : Bool) (d : RuntimeData)
      → Holds J d
      → After (Holds J) (Holds J) (redirect_to host c addr list d)
  unfolding redirect_to cancels_implicit_keep
  redirect_to-keeps c addr true d h =
      acts _ c.copy (clear_keep c.copy) d (not-copy c.copy) (λ d' h'. h') h
  redirect_to-keeps c addr false d h =
      acts _ c.copy (add_redirect addr c.copy) d (not-copy c.copy) (λ d' h'. h') h

  redirect_if-keeps :
      (c : Redirect) (addr : Bytes) (allowed : Bool) (d : RuntimeData)
      → Holds J d
      → After (Holds J) (Holds J) (redirect_if host c addr allowed d)
  unfolding redirect_if
  redirect_if-keeps c addr true d h = redirect_to-keeps c addr c.list d h
  redirect_if-keeps c addr false d h = h

  cmd_redirect-keeps :
      (c : Redirect) (d : RuntimeData)
      → Holds J d
      → After (Holds J) (Holds J) (cmd_redirect host c d)
  unfolding cmd_redirect
  cmd_redirect-keeps c d h = After-reading (Holds J) (expand_vars d c.addr) _ d h λ addr.
      After-reading (Holds J) (host.redirect_allowed d (target_of c addr)) (redirect_if host c addr)
        d h λ allowed. redirect_if-keeps c addr allowed d h

  cmd_keep-keeps :
      (flags : Flags) (d : RuntimeData)
      → Holds J d
      → After (Holds J) (Holds J) (cmd_keep host flags d)
  unfolding cmd_keep
  cmd_keep-keeps flags d h =
      After-reading (Holds J) (expanded_flags d (flags_or flags d.flags)) _ d h
        λ expanded. acts (action_keep false expanded) true set_keep d (inl refl) (λ d' h'. h') h

  cmd_discard-keeps : (d : RuntimeData) → Holds J d → After (Holds J) (Holds J) (cmd_discard host d)
  unfolding cmd_discard cancels_implicit_keep
  cmd_discard-keeps d h = acts action_discard false discarded d (inr refl) (λ d' h'. h') h

  cmd_reject-keeps :
      (reason : Bytes) (d : RuntimeData)
      → Holds J d
      → After (Holds J) (Holds J) (cmd_reject host reason d)
  unfolding cmd_reject cancels_implicit_keep
  cmd_reject-keeps reason d h =
      After-reading (Holds J) (expand_vars d reason) _ d h
        λ text. acts (action_reject text) false (clear_keep false) d (inr refl) (λ d' h'. h') h

  cmd_e_reject-keeps :
      (reason : Bytes) (d : RuntimeData)
      → Holds J d
      → After (Holds J) (Holds J) (cmd_e_reject host reason d)
  unfolding cmd_e_reject cancels_implicit_keep
  cmd_e_reject-keeps reason d h =
      After-reading (Holds J) (expand_vars d reason) _ d h
        λ text. acts (action_e_reject text) false (clear_keep false) d (inr refl) (λ d' h'. h') h

  run_if-keeps :
      (block : List (Exec Unit))
      → ((d : RuntimeData) → Holds J d → After (Holds J) (Holds J) (run_block block d))
      → (b : Bool) (d : RuntimeData) → Holds J d
      → After (Holds J) (Holds J) (run_if block b d)
  unfolding run_if
  run_if-keeps block k true d h =
      After-then_run (Holds J) (Holds J) (Holds J) (run_block block d) _ (k d h) λ u d' h'. h'
  run_if-keeps block k false d h = h

  unless_done-keeps :
      (k : Exec Unit)
      → ((d : RuntimeData) → Holds J d → After (Holds J) (Holds J) (k d))
      → (b : Bool) (d : RuntimeData) → Holds J d
      → After (Holds J) (Holds J) (unless_done b k d)
  unfolding unless_done
  unless_done-keeps k f true d h = h
  unless_done-keeps k f false d h = f d h

  mutual
    unfolding execute_cmd block_of run_block cmd_if cmd_elsif cmd_else cmd_stop cmd_return
        cmd_add_flag cmd_remove_flag

    pub execute_cmd-keeps :
        (c : Cmd) (d : RuntimeData) → Holds J d → After (Holds J) (Holds J) (execute_cmd host c d)
    execute_cmd-keeps stop d h = h
    execute_cmd-keeps return d h = h
    execute_cmd-keeps (fileinto c) d h = cmd_file_into-keeps c d h
    execute_cmd-keeps (redirect c) d h = cmd_redirect-keeps c d h
    execute_cmd-keeps (keep flags) d h = cmd_keep-keeps flags d h
    execute_cmd-keeps discard d h = cmd_discard-keeps d h
    execute_cmd-keeps (setflag variable flags) d h = cmd_set_flag-keeps J variable flags d h
    execute_cmd-keeps (addflag variable flags) d h =
        change_flags-keeps J added_flags variable flags d h
    execute_cmd-keeps (removeflag variable flags) d h =
        change_flags-keeps J removed_flags variable flags d h
    execute_cmd-keeps (reject reason) d h = cmd_reject-keeps reason d h
    execute_cmd-keeps (ereject reason) d h = cmd_e_reject-keeps reason d h
    execute_cmd-keeps (set name value modify) d h = cmd_set-keeps J name value modify d h
    execute_cmd-keeps (global names) d h = cmd_global-keeps J names d h
    execute_cmd-keeps (if_cmd test block) d h =
        After-then_run (Holds J) (Holds J) (Holds J) (check test d) (run_if (block_of host block))
          (check-keeps J test d h) (run_if-keeps (block_of host block) (run_block-keeps block))
    execute_cmd-keeps (elsif_cmd test block) d h =
        unless_done-keeps _
          (λ d' h'.
            After-then_run (Holds J) (Holds J) (Holds J) (check test d')
              (run_if (block_of host block)) (check-keeps J test d' h')
              (run_if-keeps (block_of host block) (run_block-keeps block)))
          d.if_result d h
    execute_cmd-keeps (else_cmd block) d h =
        unless_done-keeps _ (run_block-keeps block) d.if_result d h

    pub run_block-keeps :
        (cs : Cmds) (d : RuntimeData)
        → Holds J d
        → After (Holds J) (Holds J) (run_block (block_of host cs) d)
    run_block-keeps no_cmds d h = h
    run_block-keeps (more_cmds c cs) d h =
        After-then_run (Holds J) (Holds J) (Holds J) (execute_cmd host c d) _
          (execute_cmd-keeps c d h) λ u. run_block-keeps cs
