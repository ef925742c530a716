-- ===== src/Interp/Finished.antt =====
-- On interp/script.go: an invariant of the applied actions and the implicit keep, through `Execute`.
use go_sieve.Interp.Action.{Host}
use go_sieve.Interp.Acted.{Handles, run_block-keeps}
use go_sieve.Interp.Control.{run_block}
use go_sieve.Interp.Execute.{Cmds, block_of, implicit_keep_action, finish, execute}
use go_sieve.Interp.Kept.{Holds}
use go_sieve.Interp.Runs.{After, After-if}
use go_sieve.Interp.Runtime.{
  AppliedAction, action_keep, any_cancels, RuntimeData, ExecError, stop_called, return_called,
  panicked, missing_require, name_too_long, read_only, unknown_variable, prefixed_global,
  too_many_actions, host_error, unsupported_match,
}
use go_sieve.Interp.Script.{Script}
use go_sieve.Prelude.{inl, refl, true, Bool, List, not, ◌&&◌, Result, ok, err, out_of_fuel}

module _ (J : Script → Bool → List AppliedAction → Type 0) (host : Host)
    (handles : Handles J host) where
  implicit_keep_action-keeps :
      (d : RuntimeData) → Holds J d → After (Holds J) (Holds J) (implicit_keep_action host d)
  unfolding implicit_keep_action
  implicit_keep_action-keeps d h =
      After-if (Holds J) (Holds J) (d.implicit_keep && not (any_cancels d.applied_actions)) _ _
        (λ e. handles (action_keep true d.flags) true d (inl refl) h) λ e. h

  finish-keeps :
      (r : Result ExecError Unit × RuntimeData)
      → After (Holds J) (Holds J) r
      → After (Holds J) (Holds J) (finish host r)
  unfolding finish
  finish-keeps (ok u, d) h = implicit_keep_action-keeps d h
  finish-keeps (err stop_called, d) h = h
  finish-keeps (err return_called, d) h = h
  finish-keeps (err (panicked s), d) h = tt
  finish-keeps (err (missing_require s), d) h = tt
  finish-keeps (err (name_too_long s), d) h = tt
  finish-keeps (err (read_only s), d) h = tt
  finish-keeps (err (unknown_variable s), d) h = tt
  finish-keeps (err (prefixed_global s), d) h = tt
  finish-keeps (err (too_many_actions n), d) h = tt
  finish-keeps (err unsupported_match, d) h = tt
  finish-keeps (err (host_error s), d) h = tt
  finish-keeps (out_of_fuel, d) h = tt

  pub execute-keeps :
      (cmds : Cmds) (d : RuntimeData) → Holds J d → After (Holds J) (Holds J) (execute host cmds d)
  unfolding execute
  execute-keeps cmds d h =
      finish-keeps (run_block (block_of host cmds) d) (run_block-keeps J host handles cmds d h)
