-- ===== src/Interp/Load/Print.antt =====
-- A printer of loaded commands, and the commands that the loaders give back, for the theorem of Interp/Load/RoundTrip.
use go_sieve.Interp.Action.{FileInto, Redirect}
use go_sieve.Interp.Checks
use go_sieve.Interp.Checks.{SizeTest}
use go_sieve.Interp.Execute
use go_sieve.Interp.Flags.{canonical_flags}
use go_sieve.Interp.Load.Spec.{decoded, decoded_list}
use go_sieve.Interp.Load.Settings.{check_names}
use go_sieve.Interp.Load.Tests.{same}
use go_sieve.Interp.Runtime.{Flags}
use go_sieve.Interp.Script.{Script, requires_extension}
use go_sieve.Lexer.Token.{Position}
use go_sieve.Parser.Syntax.{
  Arg, number_arg, string_arg, string_list_arg, tag_arg, Test, test, Tests, no_tests, more_tests,
  Cmd, cmd, no_block, block, Cmds, no_cmds, more_cmds,
}
use go_sieve.Prelude.{
  ◌≡◌, ◌≢◌, Bool, true, false, List, [], ◌∷◌, ◌++◌, none, some, Bytes, codes, ok,
}

abbrev pub nowhere : Position
nowhere = record { file = []; line = 0; col = 0 }

abbrev pub string_of : Bytes → Arg
string_of v = string_arg v nowhere

abbrev pub tag_of : Bytes → Arg
tag_of v = tag_arg v nowhere

-- A tag that is given or not.
abbrev pub tag_if : Bool → Bytes → List Arg
tag_if true v = tag_of v ∷ []
tag_if false v = []

abbrev pub flags_args : Flags → List Arg
flags_args none = []
flags_args (some l) = tag_of (codes "flags") ∷ string_list_arg l nowhere ∷ []

-- A tag with its value, unless that is empty.
abbrev pub value_args : Bytes → Bytes → List Arg
value_args name [] = []
value_args name (b ∷ v) = tag_of name ∷ string_of (b ∷ v) ∷ []

abbrev pub file_into_args : FileInto → List Arg
file_into_args c =
    flags_args c.flags
    ++ (tag_if c.copy (codes "copy")
        ++ (tag_if c.create (codes "create")
            ++ (value_args (codes "specialuse") c.special_use
                ++ (value_args (codes "mailboxid") c.mailbox_id ++ string_of c.mailbox ∷ []))))

abbrev pub redirect_args : Redirect → List Arg
redirect_args c =
    tag_if c.copy (codes "copy") ++ (tag_if c.list (codes "list") ++ string_of c.addr ∷ [])

abbrev pub size_args : SizeTest → List Arg
size_args t =
    tag_if t.over (codes "over")
    ++ (tag_if t.under (codes "under") ++ number_arg t.size nowhere ∷ [])

-- The flags of a flag command, with the name of its variable if there is one.
abbrev pub flag_command_args : Bytes → Flags → List Arg
flag_command_args v none = []
flag_command_args [] (some l) = string_list_arg l nowhere ∷ []
flag_command_args (b ∷ v) (some l) = string_of (b ∷ v) ∷ string_list_arg l nowhere ∷ []

abbrev pub plain_test : Bytes → List Arg → Test
plain_test name args = test nowhere name args no_tests

abbrev pub plain_cmd : Bytes → List Arg → Cmd
plain_cmd name args = cmd nowhere name args no_tests no_block

unfoldable mutual
  pub print_test : Checks.Test → Test
  print_test Checks.true_test = plain_test (codes "true") []
  print_test Checks.false_test = plain_test (codes "false") []
  print_test (Checks.not_test t) =
      test nowhere (codes "not") [] (more_tests (print_test t) no_tests)
  print_test (Checks.all_of ts) = test nowhere (codes "allof") [] (print_tests ts)
  print_test (Checks.any_of ts) = test nowhere (codes "anyof") [] (print_tests ts)
  print_test (Checks.size_test t) = plain_test (codes "size") (size_args t)
  print_test (Checks.exists_test l) = plain_test (codes "exists") (string_list_arg l nowhere ∷ [])
  print_test (Checks.matching f) = plain_test [] []

  pub print_tests : Checks.Tests → Tests
  print_tests Checks.no_tests = no_tests
  print_tests (Checks.more_tests t ts) = more_tests (print_test t) (print_tests ts)

unfoldable mutual
  pub print_cmd : Execute.Cmd → Cmd
  print_cmd Execute.stop = plain_cmd (codes "stop") []
  print_cmd Execute.return = plain_cmd (codes "return") []
  print_cmd (Execute.fileinto c) = plain_cmd (codes "fileinto") (file_into_args c)
  print_cmd (Execute.redirect c) = plain_cmd (codes "redirect") (redirect_args c)
  print_cmd (Execute.keep flags) = plain_cmd (codes "keep") (flags_args flags)
  print_cmd Execute.discard = plain_cmd (codes "discard") []
  print_cmd (Execute.setflag v flags) = plain_cmd (codes "setflag") (flag_command_args v flags)
  print_cmd (Execute.addflag v flags) = plain_cmd (codes "addflag") (flag_command_args v flags)
  print_cmd (Execute.removeflag v flags) =
      plain_cmd (codes "removeflag") (flag_command_args v flags)
  print_cmd (Execute.reject r) = plain_cmd (codes "reject") (string_of r ∷ [])
  print_cmd (Execute.ereject r) = plain_cmd (codes "ereject") (string_of r ∷ [])
  print_cmd (Execute.set n v m) = plain_cmd [] []
  print_cmd (Execute.global names) = plain_cmd (codes "global") (string_list_arg names nowhere ∷ [])
  print_cmd (Execute.if_cmd t cs) =
      cmd nowhere (codes "if") [] (more_tests (print_test t) no_tests) (block (print_cmds cs))
  print_cmd (Execute.elsif_cmd t cs) =
      cmd nowhere (codes "elsif") [] (more_tests (print_test t) no_tests) (block (print_cmds cs))
  print_cmd (Execute.else_cmd cs) = cmd nowhere (codes "else") [] no_tests (block (print_cmds cs))

  pub print_cmds : Execute.Cmds → Cmds
  print_cmds Execute.no_cmds = no_cmds
  print_cmds (Execute.more_cmds c cs) = more_cmds (print_cmd c) (print_cmds cs)

abbrev pub IsFilled : List Bytes → Type 0
IsFilled [] = ⊥
IsFilled (v ∷ l) = Unit

module _ (s : Script) where
  -- Text that is none of the encoded characters, where these are read.
  abbrev pub IsPlain : Bytes → Type 0
  IsPlain v = decoded s v ≡ ok v

  abbrev pub ArePlain : List Bytes → Type 0
  ArePlain l = IsFilled l × (decoded_list s l ≡ ok l)

  abbrev pub IsRequired : Bytes → Type 0
  IsRequired ext = requires_extension s ext ≡ true

  abbrev pub AreFlags : Flags → Type 0
  AreFlags none = Unit
  AreFlags (some l) =
      ArePlain l × (canonical_flags l [] [] ≡ some l) × IsRequired (codes "imap4flags")

  -- A value that is empty, or plain text under an extension.
  abbrev pub IsValue : Bytes → Bytes → Type 0
  IsValue ext [] = Unit
  IsValue ext (b ∷ v) = IsPlain (b ∷ v) × IsRequired ext

  abbrev pub IsRequiredIf : Bool → Bytes → Type 0
  IsRequiredIf true ext = IsRequired ext
  IsRequiredIf false ext = Unit

  abbrev pub HasFlags : Bytes → Flags → Type 0
  HasFlags v none = ⊥
  HasFlags v (some l) = IsPlain v × AreFlags (some l)

  unfoldable mutual
    pub IsTest : Checks.Test → Type 0
    IsTest Checks.true_test = Unit
    IsTest Checks.false_test = Unit
    IsTest (Checks.not_test t) = IsTest t
    IsTest (Checks.all_of ts) = AreTests ts × (ts ≢ Checks.no_tests)
    IsTest (Checks.any_of ts) = AreTests ts × (ts ≢ Checks.no_tests)
    IsTest (Checks.size_test t) = same t.under t.over ≡ false
    IsTest (Checks.exists_test l) = ArePlain l
    IsTest (Checks.matching f) = ⊥

    pub AreTests : Checks.Tests → Type 0
    AreTests Checks.no_tests = Unit
    AreTests (Checks.more_tests t ts) = IsTest t × AreTests ts

  -- The commands with tests that compare no values, all but `set`, whose extensions are required and whose flags
  -- are canonical.
  unfoldable mutual
    pub IsLoadable : Execute.Cmd → Type 0
    IsLoadable Execute.stop = Unit
    IsLoadable Execute.return = IsRequired (codes "include")
    IsLoadable (Execute.fileinto c) =
        IsRequired (codes "fileinto")
        × AreFlags c.flags
        × IsRequiredIf c.copy (codes "copy")
        × IsRequiredIf c.create (codes "mailbox")
        × IsValue (codes "special-use") c.special_use
        × IsValue (codes "mailboxid") c.mailbox_id
        × IsPlain c.mailbox
    IsLoadable (Execute.redirect c) =
        IsRequiredIf c.copy (codes "copy") × IsRequiredIf c.list (codes "extlists") × IsPlain c.addr
    IsLoadable (Execute.keep flags) = AreFlags flags
    IsLoadable Execute.discard = Unit
    IsLoadable (Execute.setflag v flags) = HasFlags v flags
    IsLoadable (Execute.addflag v flags) = HasFlags v flags
    IsLoadable (Execute.removeflag v flags) = HasFlags v flags
    IsLoadable (Execute.reject r) = IsRequired (codes "reject") × IsPlain r
    IsLoadable (Execute.ereject r) = IsRequired (codes "ereject") × IsPlain r
    IsLoadable (Execute.set n v m) = ⊥
    IsLoadable (Execute.global names) =
        IsRequired (codes "include")
        × IsRequired (codes "variables")
        × ArePlain names
        × (check_names names ≡ ok tt)
    IsLoadable (Execute.if_cmd t cs) = IsTest t × AreLoadable cs
    IsLoadable (Execute.elsif_cmd t cs) = IsTest t × AreLoadable cs
    IsLoadable (Execute.else_cmd cs) = AreLoadable cs

    pub AreLoadable : Execute.Cmds → Type 0
    AreLoadable Execute.no_cmds = Unit
    AreLoadable (Execute.more_cmds c cs) = IsLoadable c × AreLoadable cs
