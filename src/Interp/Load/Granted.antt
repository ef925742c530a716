-- ===== src/Interp/Load/Granted.antt =====
-- On interp/load.go: the extensions that the commands of a loaded script want.
use go_sieve.Interp.Execute.{
  Cmd, Cmds, no_cmds, stop, discard, setflag, addflag, removeflag, reject, ereject, if_cmd,
  elsif_cmd,
}
use go_sieve.Interp.Load.Actions.{LoadedCmd}
use go_sieve.Interp.Load.Blocks.{
  BlockGated, IsGatedBlock, load_require-IsGated, load_else-IsGated, load_cond_block-IsGated,
  if_cmd-IsCondition, elsif_cmd-IsCondition,
}
use go_sieve.Interp.Load.Commands.{Loading}
use go_sieve.Interp.Load.Dispatch.{
  other_commands, cmd_named, load_cmd, given_block, load_block, new_script, load_script,
  more_loaded,
}
use go_sieve.Interp.Load.Gated.{
  Gated, IsGated, load_bare-IsGated, load_reason-IsGated, load_file_into-IsGated,
  load_redirect-IsGated, load_keep-IsGated, load_flags-IsGated, load_set-IsGated,
  load_return-IsGated, load_global-IsGated,
}
use go_sieve.Interp.Load.Permitted.{
  IsPermitted, IsGuarded, IsSupported, CmdHolds, CmdsHold, Grows-refl, Grows-trans, IsGuarded-Grows,
  IsPermitted-Grows, CmdHolds-weaken,
}
use go_sieve.Interp.Load.Spec.{Given}
use go_sieve.Interp.Script.{Options, Script}
use go_sieve.Interp.Text.{member}
use go_sieve.Parser.Syntax
use go_sieve.Prelude.{
  ◌≡◌, Bool, true, false, none, some, Option, if◌then◌else◌, Bytes, codes, equal, ok, Yields,
  yields, fails, Yields-bind, Yields-ok, All,
}

both :
    (s : Script) (b : Bool) {x y : LoadedCmd}
    → IsGated s x
    → IsGated s y
    → IsGated s (if b then x else y)
both s true p q = p
both s false p q = q

module _ (loading : Loading) where
  cmd_named-IsGated :
      (name : Bytes) (s : Script) (ts : Syntax.Tests) (given : Given)
      → IsGuarded s
      → IsGatedBlock given.block
      → IsGated s (cmd_named loading name s ts given)
  unfolding cmd_named CmdHolds
  cmd_named-IsGated name s ts given g h =
      both s (equal name (codes "require")) (load_require-IsGated s given) (
        both s (equal name (codes "if"))
          (load_cond_block-IsGated loading.services if_cmd s ts given if_cmd-IsCondition g h)
          (both s (equal name (codes "elsif"))
            (load_cond_block-IsGated loading.services elsif_cmd s ts given elsif_cmd-IsCondition g
              h)
            (both s (equal name (codes "else")) (load_else-IsGated s given g h) (
              both s (equal name (codes "stop")) (load_bare-IsGated s g given stop tt) (
                both s (equal name (codes "fileinto")) (load_file_into-IsGated s g given) (
                  both s (equal name (codes "redirect")) (load_redirect-IsGated s g given) (
                    both s (equal name (codes "keep")) (load_keep-IsGated s g given) (
                      both s (equal name (codes "discard")) (load_bare-IsGated s g given discard tt)
                        (both s (equal name (codes "setflag"))
                          (load_flags-IsGated s g given setflag (λ v f p. p))
                          (both s (equal name (codes "addflag"))
                            (load_flags-IsGated s g given addflag (λ v f p. p))
                            (both s (equal name (codes "removeflag"))
                              (load_flags-IsGated s g given removeflag (λ v f p. p))
                              (both s (equal name (codes "set"))
                                (load_set-IsGated s g given loading.text)
                                (both s (equal name (codes "reject"))
                                  (load_reason-IsGated s g given (codes "reject") reject (λ r p. p))
                                  (both s (equal name (codes "ereject"))
                                    (load_reason-IsGated s g given (codes "ereject") ereject
                                      (λ r p. p))
                                    (both s (equal name (codes "return"))
                                      (load_return-IsGated s g given)
                                      (both s (equal name (codes "global"))
                                        (load_global-IsGated s g given)
                                        (both s (member name other_commands) fails
                                          fails)))))))))))))))))

-- The commands of a block, behind its first one.
more_loaded-BlockGated :
    (s t u : Script) (c : Option Cmd) (cs : Cmds)
    → Gated s (c, t)
    → BlockGated t (cs, u)
    → BlockGated s (more_loaded c cs, u)
unfolding CmdsHold
more_loaded-BlockGated s t u none cs (a, b) (e, f) = (Grows-trans s t u a e, f)
more_loaded-BlockGated s t u (some c) cs (a, b) (e, f) = (
  Grows-trans s t u a e,
  (CmdHolds-weaken (IsPermitted t) (IsPermitted u) (IsPermitted-Grows t u e) c b, f),
)

no_cmds-Hold : (s : Script) → CmdsHold (IsPermitted s) no_cmds
unfolding CmdsHold
no_cmds-Hold s = tt

mutual
  unfolding load_cmd given_block load_block

  load_cmd-IsGated :
      (loading : Loading) (c : Syntax.Cmd) (s : Script)
      → IsGuarded s
      → IsGated s (load_cmd loading c s)
  load_cmd-IsGated loading (Syntax.cmd p name args ts b) s g =
      cmd_named-IsGated loading _ s ts _ g (given_block-IsGatedBlock loading b)

  given_block-IsGatedBlock :
      (loading : Loading) (b : Syntax.Block) → IsGatedBlock (given_block loading b)
  given_block-IsGatedBlock loading Syntax.no_block = tt
  given_block-IsGatedBlock loading (Syntax.block cs) = load_block-BlockGated loading cs

  load_block-BlockGated :
      (loading : Loading) (cs : Syntax.Cmds) (s : Script)
      → IsGuarded s
      → Yields (BlockGated s) (load_block loading cs s)
  load_block-BlockGated loading Syntax.no_cmds s g = yields (Grows-refl s, no_cmds-Hold s)
  load_block-BlockGated loading (Syntax.more_cmds c cs) s g =
      Yields-bind (load_cmd-IsGated loading c s g) (λ r k.
        Yields-bind (load_block-BlockGated loading cs (r.1) (IsGuarded-Grows s (r.1) (k.0) g))
          (λ rest m. yields (more_loaded-BlockGated s (r.1) (rest.1) (r.0) (rest.0) k m)))

-- Each command of a loaded script, at any depth, wants only extensions that the script has required, or that an
-- ihave may report under the options of the host; and the required ones are in the table of supported
-- extensions. Loading leaves the options as they were, and no extension guarded.
pub load_script-IsPermitted :
    (loading : Loading) (cs : Syntax.Cmds) (opts : Options) (loaded : Cmds) (s : Script)
    → load_script loading cs opts ≡ ok (loaded, s)
    → CmdsHold (IsPermitted s) loaded
      × All IsSupported s.extensions
      × (s.opts ≡ opts)
      × ((ext : Bytes) → s.guarded ext ≡ 0)
unfolding load_script
load_script-IsPermitted loading cs opts loaded s e =
    let ((a, b, c, d), h) =
      Yields-ok (load_block-BlockGated loading cs (new_script opts) (λ ext k. cc)) e in
    (h, d tt, b, a)
