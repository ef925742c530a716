-- ===== src/Interp/Load/Actions.antt =====
-- interp/load_action.go and interp/load_control.go: the loaders of commands that have no tests and no block.
use go_sieve.Interp.Action.{FileInto, Redirect}
use go_sieve.Interp.Execute
use go_sieve.Interp.Flags.{canonical_flags}
use go_sieve.Interp.Load.Shape.{
  LoadError, Spec, plain_spec, bool_tag, str_tag, str_arg, first, need, need_if,
}
use go_sieve.Interp.Load.Shape.{match_str, missing_flags, one_variable_name}
use go_sieve.Interp.Load.Spec.{Given, load_spec}
use go_sieve.Interp.Runtime.{Flags}
use go_sieve.Interp.Script.{Script}
use go_sieve.Prelude.{
  Bool, true, false, not, List, [], ◌∷◌, Option, none, some, Bytes, codes, equal, Result, ok, err,
  ◌>>=◌,
}

-- A loaded command, with the script behind it.
abbrev pub LoadedCmd : Type 0
LoadedCmd = Result LoadError (Option Execute.Cmd × Script)

abbrev pub is_given : Flags → Bool
is_given none = false
is_given (some l) = true

abbrev pub file_into_spec : Spec FileInto
file_into_spec =
    plain_spec
      ((codes "flags", str_tag 1 0 (λ l c. record c { flags = canonical_flags l [] [] }))
        ∷ (codes "copy", bool_tag (λ c. record c { copy = true }))
        ∷ (codes "create", bool_tag (λ c. record c { create = true }))
        ∷ (codes "specialuse", str_tag 1 1 (λ l c. record c { special_use = first l }))
        ∷ (codes "mailboxid", str_tag 1 1 (λ l c. record c { mailbox_id = first l }))
        ∷ [])
      (str_arg 1 1 (λ l c. record c { mailbox = first l }) ∷ [])

abbrev pub new_file_into : FileInto
new_file_into = record {
  mailbox = [];
  flags = none;
  copy = false;
  create = false;
  special_use = [];
  mailbox_id = [];
}

-- The extensions that the arguments want.
unfoldable pub check_file_into : Script → FileInto → Result LoadError Unit
check_file_into s c = do
  _ ← need_if (is_given c.flags) s (codes "imap4flags")
  _ ← need_if c.copy s (codes "copy")
  _ ← need_if c.create s (codes "mailbox")
  _ ← need_if (not (equal c.special_use [])) s (codes "special-use")
  need_if (not (equal c.mailbox_id [])) s (codes "mailboxid")

-- `loadFileInto`
unfoldable pub load_file_into : Script → Given → LoadedCmd
load_file_into s given = do
  _ ← need s (codes "fileinto")
  r ← load_spec s file_into_spec given new_file_into
  _ ← check_file_into s r.0
  ok (some (Execute.fileinto r.0), s)

abbrev pub redirect_spec : Spec Redirect
redirect_spec =
    plain_spec
      ((codes "copy", bool_tag (λ c. record c { copy = true }))
        ∷ (codes "list", bool_tag (λ c. record c { list = true }))
        ∷ [])
      (str_arg 1 1 (λ l c. record c { addr = first l }) ∷ [])

-- `loadRedirect`
unfoldable pub load_redirect : Script → Given → LoadedCmd
load_redirect s given = do
  r ← load_spec s redirect_spec given (record { addr = []; copy = false; list = false })
  _ ← need_if (r.0).copy s (codes "copy")
  _ ← need_if (r.0).list s (codes "extlists")
  ok (some (Execute.redirect r.0), s)

abbrev pub keep_spec : Spec Flags
keep_spec = plain_spec ((codes "flags", str_tag 1 0 (λ l c. canonical_flags l [] [])) ∷ []) []

-- `loadKeep`
unfoldable pub load_keep : Script → Given → LoadedCmd
load_keep s given = do
  r ← load_spec s keep_spec given none
  _ ← need_if (is_given r.0) s (codes "imap4flags")
  ok (some (Execute.keep r.0), s)

abbrev pub empty_spec : Spec Unit
empty_spec = plain_spec [] []

-- A command without arguments: `loadDiscard`, `loadStop`.
unfoldable pub load_bare : Execute.Cmd → Script → Given → LoadedCmd
load_bare c s given = do _ ← load_spec s empty_spec given tt; ok (some c, s)

abbrev pub reason_spec : Spec Bytes
reason_spec = plain_spec [] (str_arg 1 1 (λ l c. first l) ∷ [])

-- `loadReject` and `loadEReject`
unfoldable pub load_reason : Bytes → (Bytes → Execute.Cmd) → Script → Given → LoadedCmd
load_reason ext make s given = do
  _ ← need s ext
  r ← load_spec s reason_spec given []
  ok (some (make r.0), s)

-- The arguments `arg1` and `arg2` of a flag command.
abbrev pub flag_spec : Spec (List Bytes × List Bytes)
flag_spec = plain_spec [] (
    str_arg 0 0 (λ l c. (l, c.1))
    ∷ record {
      optional = true;
      matcher = match_str (λ l c. (c.0, l));
      min_str_count = 0;
      max_str_count = 0;
    }
    ∷ [])

-- The variable and the flags of a flag command.
unfoldable pub flag_args : List Bytes → List Bytes → Result LoadError (Bytes × Flags)
flag_args [] [] = err missing_flags
flag_args (f ∷ fs) [] = ok ([], canonical_flags (f ∷ fs) [] [])
flag_args (v ∷ []) (f ∷ fs) = ok (v, canonical_flags (f ∷ fs) [] [])
flag_args [] (f ∷ fs) = err one_variable_name
flag_args (v ∷ w ∷ vs) (f ∷ fs) = err one_variable_name

-- `loadFlagCmd`
unfoldable pub load_flag_cmd : Script → Given → Result LoadError (Bytes × Flags)
load_flag_cmd s given = do r ← load_spec s flag_spec given ([], []); flag_args (r.0).0 (r.0).1

-- `loadSetFlag`, `loadAddFlag` and `loadRemoveFlag`
unfoldable pub load_flags : (Bytes → Flags → Execute.Cmd) → Script → Given → LoadedCmd
load_flags make s given = do
  _ ← need s (codes "imap4flags")
  r ← load_flag_cmd s given
  ok (some (make r.0 r.1), s)
