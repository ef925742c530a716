-- ===== src/Interp/Execute.antt =====
-- interp/script.go: `Execute` and `executeIncluded`, and the commands of a script.
use go_sieve.Interp.Action.{
  Host, FileInto, Redirect, cmd_stop, cmd_file_into, cmd_redirect, cmd_keep, cmd_discard,
  cmd_set_flag, cmd_add_flag, cmd_remove_flag, cmd_reject, cmd_e_reject,
}
use go_sieve.Interp.Checks.{Test, check}
use go_sieve.Interp.Control.{run_block, cmd_if, cmd_elsif, cmd_else}
use go_sieve.Interp.Expand.{cmd_set}
use go_sieve.Interp.Runtime.{
  Flags, action_keep, any_cancels, RuntimeData, ExecError, stop_called, return_called, Exec,
}
use go_sieve.Interp.Variables.{cmd_global}
use go_sieve.Prelude.{
  true, ◌&&◌, not, List, [], ◌∷◌, if◌then◌else◌, Bytes, Result, ok, err, out_of_fuel,
}

-- The commands of the script, as the loader leaves them.
mutual
  pub data Cmd : Type 0 where
    stop : Cmd
    return : Cmd
    fileinto : FileInto → Cmd
    redirect : Redirect → Cmd
    keep : Flags → Cmd
    discard : Cmd
    setflag : Bytes → Flags → Cmd
    addflag : Bytes → Flags → Cmd
    removeflag : Bytes → Flags → Cmd
    reject : Bytes → Cmd
    ereject : Bytes → Cmd
    set : Bytes → Bytes → (Bytes → Bytes) → Cmd
    global : List Bytes → Cmd
    if_cmd : Test → Cmds → Cmd
    elsif_cmd : Test → Cmds → Cmd
    else_cmd : Cmds → Cmd

  pub data Cmds : Type 0 where
    no_cmds : Cmds
    more_cmds : Cmd → Cmds → Cmds

-- `CmdReturn.Execute`
unfoldable pub cmd_return : Exec Unit
cmd_return d = (err return_called, d)

unfoldable mutual
  pub execute_cmd : Host → Cmd → Exec Unit
  execute_cmd host stop = cmd_stop
  execute_cmd host return = cmd_return
  execute_cmd host (fileinto c) = cmd_file_into host c
  execute_cmd host (redirect c) = cmd_redirect host c
  execute_cmd host (keep flags) = cmd_keep host flags
  execute_cmd host discard = cmd_discard host
  execute_cmd host (setflag variable flags) = cmd_set_flag variable flags
  execute_cmd host (addflag variable flags) = cmd_add_flag variable flags
  execute_cmd host (removeflag variable flags) = cmd_remove_flag variable flags
  execute_cmd host (reject reason) = cmd_reject host reason
  execute_cmd host (ereject reason) = cmd_e_reject host reason
  execute_cmd host (set name value modify) = cmd_set name value modify
  execute_cmd host (global names) = cmd_global names
  execute_cmd host (if_cmd test block) = cmd_if (check test) (block_of host block)
  execute_cmd host (elsif_cmd test block) = cmd_elsif (check test) (block_of host block)
  execute_cmd host (else_cmd block) = cmd_else (block_of host block)

  pub block_of : Host → Cmds → List (Exec Unit)
  block_of host no_cmds = []
  block_of host (more_cmds c cs) = execute_cmd host c ∷ block_of host cs

-- The keep that stands for the actions that were not applied.
unfoldable pub implicit_keep_action : Host → Exec Unit
implicit_keep_action host d =
    if d.implicit_keep && not (any_cancels d.applied_actions)
    then host.on_action (action_keep true d.flags) d
    else (ok tt, d)

-- The end of `Execute`, behind the loop over the commands.
unfoldable pub finish :
    Host → Result ExecError Unit × RuntimeData → Result ExecError Unit × RuntimeData
finish host (ok u, d) = implicit_keep_action host d
finish host (err stop_called, d) = (ok tt, d)
finish host (err return_called, d) = (ok tt, d)
finish host (err x, d) = (err x, d)
finish host (out_of_fuel, d) = (out_of_fuel, d)

-- `Execute`
unfoldable pub execute : Host → Cmds → Exec Unit
execute host cmds d = finish host (run_block (block_of host cmds) d)

unfoldable pub finish_included :
    Result ExecError Unit × RuntimeData → Result ExecError Unit × RuntimeData
finish_included (err return_called, d) = (ok tt, d)
finish_included (r, d) = (r, d)

-- `executeIncluded`
unfoldable pub execute_included : Host → Cmds → Exec Unit
execute_included host cmds d = finish_included (run_block (block_of host cmds) d)
