-- ===== src/Interp/Load/Blocks.antt =====
-- On interp/load.go: what a loaded script wants, and what loading leaves as it was.
use go_sieve.Interp.Checks
use go_sieve.Interp.Execute.{Cmd, Cmds, no_cmds, if_cmd, elsif_cmd, else_cmd}
use go_sieve.Interp.Load.Commands.{
  add_extension, add_required, require_all, load_require, Branch, branch_spec, load_branch,
  sole_ihave, occurrences, guard_more, guard_less, decoded_args, load_guarded, load_cond_block,
  else_spec, load_else,
}
use go_sieve.Interp.Load.Gated.{IsGated}
use go_sieve.Interp.Load.Permitted.{
  reported, IsPermitted, IsGuarded, IsSupported, Grows, CmdHolds, CmdsHold, Grows-refl, Grows-trans,
}
use go_sieve.Interp.Load.Shape.{need}
use go_sieve.Interp.Load.Spec.{
  Given, GivenTests, GivenBlock, load_spec, load_args, load_given_tests, load_given_block,
}
use go_sieve.Interp.Load.Tables.{supported_requires}
use go_sieve.Interp.Load.Tests.{capabilities_spec, all_available, load_ihave, ihave_test}
use go_sieve.Interp.Load.TestTable.{given_tests}
use go_sieve.Interp.Matcher.{Services}
use go_sieve.Interp.Script.{Script, available}
use go_sieve.Interp.Text.{member}
use go_sieve.Parser.Syntax
use go_sieve.Parser.Syntax.{Arg}
use go_sieve.Prelude.{
  ◌≡◌, refl, ◌∙◌, Bool, true, false, ltb, List, [], ◌∷◌, Option, none, some, if◌then◌else◌, Bytes,
  codes, equal, equal_iff, ok, ◌>>=◌, Yields, yields, fails, Yields-bind, Yields-if, Yields-any,
  Yields-weaken, arith,
}

add_extension-Grows : (ext : Bytes) (s : Script) → IsSupported ext → Grows s (add_extension ext s)
unfolding add_extension member
add_extension-Grows ext s h = on_member (member ext s.extensions)
  where
    on_member : (b : Bool) → Grows s (if b then s else record s { extensions = ext ∷ s.extensions })
    on_member true = Grows-refl s
    on_member false = (λ e. refl, refl, λ e k. ground arith, λ k. (h, k))

imap4flags-IsSupported : IsSupported (codes "imap4flags")
unfolding member supported_requires equal
imap4flags-IsSupported = refl

vacation-IsSupported : IsSupported (codes "vacation")
unfolding member supported_requires equal
vacation-IsSupported = refl

if_both : {A : Type 0} (P : A → Type 0) (b : Bool) {x y : A} → P x → P y → P (if b then x else y)
if_both P true p q = p
if_both P false p q = q

add_required-Grows : (ext : Bytes) (s : Script) → IsSupported ext → Grows s (add_required ext s)
unfolding add_required
add_required-Grows ext s h =
    if_both (Grows s) (equal ext (codes "imapflags"))
      (twice (codes "imap4flags") imap4flags-IsSupported)
      (if_both (Grows s) (equal ext (codes "vacation-seconds"))
        (twice (codes "vacation") vacation-IsSupported) (add_extension-Grows ext s h))
  where
    twice :
        (other : Bytes) → IsSupported other → Grows s (add_extension other (add_extension ext s))
    twice other k =
        Grows-trans s (add_extension ext s) _ (add_extension-Grows ext s h)
          (add_extension-Grows other (add_extension ext s) k)

require_all-Grows : (exts : List Bytes) (s : Script) → Yields (Grows s) (require_all exts s)
unfolding require_all
require_all-Grows [] s = yields (Grows-refl s)
require_all-Grows (ext ∷ exts) s =
    Yields-if (member ext supported_requires)
      (λ h.
        Yields-weaken (λ t k. Grows-trans s (add_required ext s) t (add_required-Grows ext s h) k)
          (require_all-Grows exts (add_required ext s)))
      (λ h. fails)

pub load_require-IsGated : (s : Script) (given : Given) → IsGated s (load_require s given)
unfolding load_require
load_require-IsGated s given =
    Yields-any (load_spec s capabilities_spec given [])
      (λ r. Yields-bind (require_all-Grows (r.0) s) (λ t h. yields {a = (none, t)} (h, tt)))

-- What the load of a block gives.
abbrev pub BlockGated : Script → Cmds × Script → Type 0
BlockGated s r = Grows s r.1 × CmdsHold (IsPermitted r.1) r.0

abbrev pub IsGatedBlock : GivenBlock → Type 0
IsGatedBlock none = Unit
IsGatedBlock (some load) = (s : Script) → IsGuarded s → Yields (BlockGated s) (load s)

module _ (s : Script) (g : IsGuarded s) where
  load_spec-branch :
      (args : List Arg) (tests : GivenTests) (b : GivenBlock) (c : Branch)
      → IsGatedBlock b
      → Yields
          (λ r. BlockGated s ((r.0).block, r.1))
          (load_spec s branch_spec (record { args = args; tests = tests; block = b }) c)
  unfolding load_spec load_given_block
  load_spec-branch args tests none c h =
      Yields-any (load_args s branch_spec args c)
        (λ x. Yields-any (load_given_tests s branch_spec tests x) (λ y. fails))
  load_spec-branch args tests (some load) c h = Yields-any (load_args s branch_spec args c) (λ x.
      Yields-any (load_given_tests s branch_spec tests x)
        (λ y. Yields-bind (h s g) (λ r k. yields k)))

  load_spec-else :
      (args : List Arg) (tests : GivenTests) (b : GivenBlock) (c : Cmds)
      → IsGatedBlock b
      → Yields
          (BlockGated s)
          (load_spec s else_spec (record { args = args; tests = tests; block = b }) c)
  unfolding load_spec load_given_block
  load_spec-else args tests none c h =
      Yields-any (load_args s else_spec args c)
        (λ x. Yields-any (load_given_tests s else_spec tests x) (λ y. fails))
  load_spec-else args tests (some load) c h = Yields-any (load_args s else_spec args c) (λ x.
      Yields-any (load_given_tests s else_spec tests x)
        (λ y. Yields-bind (h s g) (λ r k. yields k)))

-- A command with a test and a block wants what its block wants.
abbrev pub IsCondition : (Checks.Test → Cmds → Cmd) → Type 1
IsCondition make =
    (P : Bytes → Type 0) (t : Checks.Test) (cs : Cmds) → CmdsHold P cs → CmdHolds P (make t cs)

pub if_cmd-IsCondition : IsCondition if_cmd
unfolding CmdHolds
if_cmd-IsCondition P t cs h = h

pub elsif_cmd-IsCondition : IsCondition elsif_cmd
unfolding CmdHolds
elsif_cmd-IsCondition P t cs h = h

load_branch-IsGated :
    (make : Checks.Test → Cmds → Cmd) (s : Script) (given : Given)
    → IsCondition make
    → IsGuarded s
    → IsGatedBlock given.block
    → IsGated s (load_branch make s given)
unfolding load_branch
load_branch-IsGated make s given m g h =
    Yields-bind (load_spec-branch s g given.args given.tests given.block _ h)
      (λ r k. yields (k.0, m _ _ _ (k.1)))

pub load_else-IsGated :
    (s : Script) (given : Given)
    → IsGuarded s
    → IsGatedBlock given.block
    → IsGated s (load_else s given)
unfolding load_else CmdHolds
load_else-IsGated s given g h =
    Yields-bind (load_spec-else s g given.args given.tests given.block _ h)
      (λ r k. yields {a = (some (else_cmd (r.0)), r.1)} k)

available-reported : (s : Script) (c : Bytes) → available supported_requires s c ≡ reported s.opts c
unfolding available
available-reported s c = refl

all_available-reported :
    (s : Script) (ext : Bytes) (caps : List Bytes)
    → all_available s caps ≡ true
    → ltb 0 (occurrences ext caps) ≡ true
    → reported s.opts ext ≡ true
unfolding all_available occurrences
all_available-reported s ext [] h k = cc
all_available-reported s ext (c ∷ caps) h k =
    ground (arith, equal_iff c ext, available-reported s c, all_available-reported s ext caps)

guard_more-IsGuarded :
    (s : Script) (caps : List Bytes)
    → IsGuarded s
    → all_available s caps ≡ true
    → IsGuarded (guard_more caps s)
unfolding guard_more
guard_more-IsGuarded s caps g h ext k = ground (arith, g ext, all_available-reported s ext caps h)

guard_less-Grows :
    (s t : Script) (caps : List Bytes) → Grows (guard_more caps s) t → Grows s (guard_less caps t)
unfolding guard_more guard_less
guard_less-Grows s t caps (a, b, c, d) = (λ ext. omega (arith, a ext), b, c, d)

load_ihave-available :
    (s : Script) (given : Given) → Yields (λ r. all_available s r.0 ≡ r.1) (load_ihave s given)
unfolding load_ihave
load_ihave-available s given = Yields-any (need s (codes "ihave")) (λ u.
    Yields-any (load_spec s capabilities_spec given [])
      (λ r. yields {a = (r.0, all_available s (r.0))} refl))

load_guarded-IsGated :
    (make : Checks.Test → Cmds → Cmd) (s : Script) (given ihave : Given) (caps : List Bytes)
    → IsCondition make
    → IsGuarded s
    → all_available s caps ≡ true
    → IsGatedBlock given.block
    → IsGated s (load_guarded make s given ihave caps)
unfolding load_guarded guard_less
load_guarded-IsGated make s given ihave caps m g a h =
    Yields-any (decoded_args s ihave.args) (λ again.
      Yields-bind
        (load_branch-IsGated make (guard_more caps s) _ m (guard_more-IsGuarded s caps g a) h)
        (λ r k. yields {a = (r.0, guard_less caps r.1)} (guard_less-Grows s r.1 caps k.0, k.1)))

pub load_cond_block-IsGated :
    (services : Services) (make : Checks.Test → Cmds → Cmd) (s : Script) (ts : Syntax.Tests)
    (given : Given)
    → IsCondition make
    → IsGuarded s
    → IsGatedBlock given.block
    → IsGated s (load_cond_block services make s ts given)
unfolding load_cond_block CmdsHold
load_cond_block-IsGated services make s ts given m g h = on_sole (sole_ihave ts)
  where
    on_sole :
        (o : Option (List Arg × Syntax.Tests))
        → IsGated s (elim o [
          | none ↦ load_branch make s given
          | some p ↦
              let ihave : Given = record {
                args = p.0;
                tests = given_tests services (p.1);
                block = none;
              } in
              load_ihave s ihave >>= λ r.
              if r.1
              then load_guarded make s given ihave r.0
              else ok (some (make (ihave_test false) no_cmds), s)
        ])
    on_sole none = load_branch-IsGated make s given m g h
    on_sole (some p) = Yields-bind (load_ihave-available s _) (λ r a.
        Yields-if (r.1) (λ b. load_guarded-IsGated make s given _ (r.0) m g (a ∙ b) h)
          (λ b. yields (Grows-refl s, m _ _ _ tt)))
