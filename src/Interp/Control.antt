-- ===== src/Interp/Control.antt =====
-- interp/control.go. A command and a test are what their `Execute` and `Check` do to the runtime
-- data, any implementation of the interfaces.
use go_sieve.Interp.Runtime.{Exec, then_run}
use go_sieve.Prelude.{Bool, true, false, List, [], ◌∷◌, ok}

abbrev pub set_if_result : Bool → Exec Unit
set_if_result b d = (ok tt, record d { if_result = b })

-- The loop over a block.
unfoldable pub run_block : List (Exec Unit) → Exec Unit
run_block [] d = (ok tt, d)
run_block (c ∷ block) d = then_run (c d) λ _. run_block block

-- The block, if the test holds, and then `d.ifResult = res`.
unfoldable pub run_if : List (Exec Unit) → Bool → Exec Unit
run_if block true d = then_run (run_block block d) λ _. set_if_result true
run_if block false d = set_if_result false d

-- `CmdIf`
unfoldable pub cmd_if : Exec Bool → List (Exec Unit) → Exec Unit
cmd_if test block d = then_run (test d) (run_if block)

unfoldable pub unless_done : Bool → Exec Unit → Exec Unit
unless_done true k d = (ok tt, d)
unless_done false k d = k d

-- `CmdElsif`
unfoldable pub cmd_elsif : Exec Bool → List (Exec Unit) → Exec Unit
cmd_elsif test block d = unless_done d.if_result (λ d'. then_run (test d') (run_if block)) d

-- `CmdElse`
unfoldable pub cmd_else : List (Exec Unit) → Exec Unit
cmd_else block d = unless_done d.if_result (run_block block) d
