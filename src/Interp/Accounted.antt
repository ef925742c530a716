-- ===== src/Interp/Accounted.antt =====
-- On interp/script.go: what a script that has been executed leaves in the applied actions.
use go_sieve.Interp.Action.{Host}
use go_sieve.Interp.Acted.{Acted, Handles, run_block-keeps}
use go_sieve.Interp.Control.{run_block}
use go_sieve.Interp.Execute.{Cmds, block_of, implicit_keep_action, finish, execute}
use go_sieve.Interp.Kept.{Holds}
use go_sieve.Interp.Runs.{After, After-weaken}
use go_sieve.Interp.Runtime.{
  AppliedAction, action_keep, cancels_implicit_keep, any_cancels, RuntimeData,
}
use go_sieve.Interp.Script.{Script}
use mathlib.Core.Path.{subst}
use go_sieve.Interp.Finished.{execute-keeps}
use go_sieve.Prelude.{
  sym, ap, ◌∙◌, not, ◌&&◌, Bool-cases, ◌≡◌, ◌⊎◌, inl, inr, Bool, true, ◌||◌, List, [], ◌∷◌, ◌++◌,
  ok, arith,
}

abbrev pub IsAppended : AppliedAction → RuntimeData → RuntimeData → Type 0
IsAppended action d d' = d' ≡ record d { applied_actions = d.applied_actions ++ action ∷ [] }

-- A handler that, where it returns, has appended the action and has changed nothing else; no
-- error of it is `ErrStop` or `ErrReturn`.
abbrev pub Appends : Host → Type 0
Appends host =
    (action : AppliedAction) (d : RuntimeData)
    → After (IsAppended action d) (λ d'. ⊥) (host.on_action action d)

-- The implicit keep is still due, or an action has cancelled it.
abbrev pub Accounted : Script → Bool → List AppliedAction → Type 0
Accounted s keep acts = (keep ≡ true) ⊎ (any_cancels acts ≡ true)

any_cancels-append :
    (acts : List AppliedAction) (a : AppliedAction)
    → any_cancels (acts ++ a ∷ []) ≡ any_cancels acts || cancels_implicit_keep a
unfolding any_cancels
any_cancels-append [] a = ground arith
any_cancels-append (b ∷ acts) a = ground (arith, any_cancels-append acts a)

appended_keep :
    (d : RuntimeData) → any_cancels (d.applied_actions ++ action_keep true d.flags ∷ []) ≡ true
unfolding cancels_implicit_keep
appended_keep d = ground (arith, any_cancels-append d.applied_actions (action_keep true d.flags))

Appends-Handles : (host : Host) → Appends host → Handles Accounted host
Appends-Handles host appends action copy d e h =
    After-weaken (IsAppended action d) (λ d'. ⊥) (Acted Accounted copy) (Holds Accounted)
      (host.on_action action d)
      (λ d' same.
        subst (Acted Accounted copy) (sym same)
          (ground (arith, any_cancels-append d.applied_actions action)))
      (λ d' none. absurd none) (appends action d)

abbrev IsCancelled : RuntimeData → Type 0
IsCancelled d = any_cancels d.applied_actions ≡ true

implicit_keep_action-IsCancelled :
    (host : Host)
    → Appends host
    → (d : RuntimeData) → Holds Accounted d
    → After IsCancelled (λ d'. ⊥) (implicit_keep_action host d)
unfolding implicit_keep_action
implicit_keep_action-IsCancelled host appends d h =
    elim (Bool-cases (d.implicit_keep && not (any_cancels d.applied_actions))) [
      | inl e ↦ rw e (
          After-weaken (IsAppended (action_keep true d.flags) d) (λ d'. ⊥) IsCancelled (λ d'. ⊥)
            (host.on_action (action_keep true d.flags) d)
            (λ d' same. subst IsCancelled (sym same) (appended_keep d)) (λ d' none. none)
            (appends (action_keep true d.flags) d))
      | inr e ↦ rw e (ground arith)
    ]

-- An execution that ends without an error, at the end of the script, at a `stop` or at a `return`, leaves the
-- implicit keep due or an applied action that cancels it, whatever the commands and the tests, if this held
-- before and the handler of actions appends them. In the runtime data of a new execution it holds.
pub execute-Accounted :
    (host : Host) (cmds : Cmds) (d d' : RuntimeData)
    → Appends host
    → (d.implicit_keep ≡ true) ⊎ (any_cancels d.applied_actions ≡ true)
    → execute host cmds d ≡ (ok tt, d')
    → (d'.implicit_keep ≡ true) ⊎ (any_cancels d'.applied_actions ≡ true)
execute-Accounted host cmds d d' appends h e =
    subst (After (Holds Accounted) (Holds Accounted)) e
      (execute-keeps Accounted host (Appends-Handles host appends) cmds d h)

-- A script whose commands all run, and whose execution ends without an error, has applied an action that
-- cancels the implicit keep, which may be the keep that the end of the execution adds: the message is kept,
-- filed, redirected, rejected or discarded.
pub execute-any_cancels :
    (host : Host) (cmds : Cmds) (d ran d' : RuntimeData)
    → Appends host
    → (d.implicit_keep ≡ true) ⊎ (any_cancels d.applied_actions ≡ true)
    → run_block (block_of host cmds) d ≡ (ok tt, ran)
    → execute host cmds d ≡ (ok tt, d')
    → any_cancels d'.applied_actions ≡ true
unfolding execute finish
execute-any_cancels host cmds d ran d' appends h r e =
    let holds : Holds Accounted ran =
      subst (After (Holds Accounted) (Holds Accounted)) r
        (run_block-keeps Accounted host (Appends-Handles host appends) cmds d h) in
    subst (After IsCancelled (λ x. ⊥)) (sym (ap (finish host) r) ∙ e)
      (implicit_keep_action-IsCancelled host appends ran holds)
