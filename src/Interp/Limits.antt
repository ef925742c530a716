-- ===== src/Interp/Limits.antt =====
-- On interp/runtime.go, `DefaultOnAction`: the limit of actions through an execution.
use go_sieve.Interp.Accounted.{IsAppended}
use go_sieve.Interp.Action.{Host}
use go_sieve.Interp.Acted.{Acted, Handles}
use go_sieve.Interp.Execute.{Cmds, execute}
use go_sieve.Interp.Finished.{execute-keeps}
use go_sieve.Interp.Kept.{Holds}
use go_sieve.Interp.Runs.{After}
use go_sieve.Interp.Runtime.{AppliedAction, RuntimeData, default_on_action}
use go_sieve.Interp.Script.{Script}
use go_sieve.Prelude.{◌≤◌, ◌≡◌, ◌⊎◌, Bool, List, ok, arith, length}
use mathlib.Core.Path.{subst, sym}

-- Zero is no limit.
abbrev pub AtMost : Script → Bool → List AppliedAction → Type 0
AtMost s keep acts = (s.opts.max_actions ≡ 0) ⊎ (length acts ≤ s.opts.max_actions)

default_on_action-AtMost :
    (action : AppliedAction) (copy : Bool) (d : RuntimeData)
    → After (Acted AtMost copy) (Holds AtMost) (default_on_action action d)
unfolding default_on_action
default_on_action-AtMost action copy d = ground arith

-- The default handler has appended the action where it returns.
pub default_on_action-Appends :
    (action : AppliedAction) (d : RuntimeData)
    → After (IsAppended action d) (λ d'. ⊥) (default_on_action action d)
unfolding default_on_action
default_on_action-Appends action d = ground arith

-- With the default handler of actions, an execution that ends without an error has applied no more than
-- `MaxActions` actions, the keep at its end included, if there were no more before it; zero is no limit.
pub execute-AtMost :
    (host : Host) (cmds : Cmds) (d d' : RuntimeData)
    → host.on_action ≡ default_on_action
    → (d.script.opts.max_actions ≡ 0) ⊎ (length d.applied_actions ≤ d.script.opts.max_actions)
    → execute host cmds d ≡ (ok tt, d')
    → (d'.script.opts.max_actions ≡ 0) ⊎ (length d'.applied_actions ≤ d'.script.opts.max_actions)
execute-AtMost host cmds d d' same h e =
    let handles : Handles AtMost host = λ action copy d0 c h0.
      subst (λ f. After (Acted AtMost copy) (Holds AtMost) (f action d0)) (sym same)
        (default_on_action-AtMost action copy d0) in
    subst (After (Holds AtMost) (Holds AtMost)) e (execute-keeps AtMost host handles cmds d h)
