-- ===== src/Interp/Load/Permitted.antt =====
-- On interp/load.go: what a loaded command may do, by the extensions of the script and of the host.
use go_sieve.Interp.Execute.{
  Cmd, Cmds, no_cmds, more_cmds, stop, return, fileinto, redirect, keep, discard, setflag, addflag,
  removeflag, reject, ereject, set, global, if_cmd, elsif_cmd, else_cmd,
}
use go_sieve.Interp.Load.Actions.{is_given}
use go_sieve.Interp.Load.Dispatch.{new_script}
use go_sieve.Interp.Load.Shape.{need, need_if}
use go_sieve.Interp.Load.Tables.{supported_requires}
use go_sieve.Interp.Script.{Options, Script, requires_extension, available}
use go_sieve.Interp.Text.{member}
use mathlib.Core.Path.{subst}
use go_sieve.Prelude.{
  ◌≡◌, refl, sym, ◌∙◌, Bool, true, false, not, ◌||◌, ltb, [], Bytes, codes, equal, Yields, yields,
  fails, Yields-if, Yields-weaken, All, arith,
}

-- An extension that an ihave may report to be there.
abbrev pub reported : Options → Bytes → Bool
reported opts = available supported_requires (new_script opts)

-- The extensions of a script, and those that an ihave may report.
abbrev pub IsPermitted : Script → Bytes → Type 0
IsPermitted s ext = (member ext s.extensions || reported s.opts ext) ≡ true

-- Only extensions that may be reported are guarded.
abbrev pub IsGuarded : Script → Type 0
IsGuarded s = (ext : Bytes) → ltb 0 (s.guarded ext) ≡ true → reported s.opts ext ≡ true

abbrev pub IsSupported : Bytes → Type 0
IsSupported ext = member ext supported_requires ≡ true

-- The script behind a load: it has the same guards and options and no fewer extensions, and new ones
-- only from the table.
abbrev pub Grows : Script → Script → Type 0
Grows s t =
    ((ext : Bytes) → t.guarded ext ≡ s.guarded ext)
    × (t.opts ≡ s.opts)
    × ((ext : Bytes) → member ext s.extensions ≡ true → member ext t.extensions ≡ true)
    × (All IsSupported s.extensions → All IsSupported t.extensions)

-- The extensions that a command, and each command in its block, wants.
unfoldable mutual
  pub CmdHolds : (Bytes → Type 0) → Cmd → Type 0
  CmdHolds P stop = Unit
  CmdHolds P return = P (codes "include")
  CmdHolds P (fileinto c) =
      P (codes "fileinto")
      × (is_given c.flags ≡ true → P (codes "imap4flags"))
      × (c.copy ≡ true → P (codes "copy"))
      × (c.create ≡ true → P (codes "mailbox"))
      × (not (equal c.special_use []) ≡ true → P (codes "special-use"))
      × (not (equal c.mailbox_id []) ≡ true → P (codes "mailboxid"))
  CmdHolds P (redirect c) =
      (c.copy ≡ true → P (codes "copy")) × (c.list ≡ true → P (codes "extlists"))
  CmdHolds P (keep flags) = is_given flags ≡ true → P (codes "imap4flags")
  CmdHolds P discard = Unit
  CmdHolds P (setflag v flags) = P (codes "imap4flags")
  CmdHolds P (addflag v flags) = P (codes "imap4flags")
  CmdHolds P (removeflag v flags) = P (codes "imap4flags")
  CmdHolds P (reject r) = P (codes "reject")
  CmdHolds P (ereject r) = P (codes "ereject")
  CmdHolds P (set n v m) = P (codes "variables")
  CmdHolds P (global names) = P (codes "include") × P (codes "variables")
  CmdHolds P (if_cmd t cs) = CmdsHold P cs
  CmdHolds P (elsif_cmd t cs) = CmdsHold P cs
  CmdHolds P (else_cmd cs) = CmdsHold P cs

  pub CmdsHold : (Bytes → Type 0) → Cmds → Type 0
  CmdsHold P no_cmds = Unit
  CmdsHold P (more_cmds c cs) = CmdHolds P c × CmdsHold P cs

module _ (P Q : Bytes → Type 0) (h : (ext : Bytes) → P ext → Q ext) where
  mutual
    unfolding CmdHolds CmdsHold

    pub CmdHolds-weaken : (c : Cmd) → CmdHolds P c → CmdHolds Q c
    CmdHolds-weaken stop k = tt
    CmdHolds-weaken return k = h _ k
    CmdHolds-weaken (fileinto c) (a, b, c1, d, e, f) =
        (h _ a, λ x. h _ (b x), λ x. h _ (c1 x), λ x. h _ (d x), λ x. h _ (e x), λ x. h _ (f x))
    CmdHolds-weaken (redirect c) (a, b) = (λ x. h _ (a x), λ x. h _ (b x))
    CmdHolds-weaken (keep flags) k = λ x. h _ (k x)
    CmdHolds-weaken discard k = tt
    CmdHolds-weaken (setflag v flags) k = h _ k
    CmdHolds-weaken (addflag v flags) k = h _ k
    CmdHolds-weaken (removeflag v flags) k = h _ k
    CmdHolds-weaken (reject r) k = h _ k
    CmdHolds-weaken (ereject r) k = h _ k
    CmdHolds-weaken (set n v m) k = h _ k
    CmdHolds-weaken (global names) (a, b) = (h _ a, h _ b)
    CmdHolds-weaken (if_cmd t cs) k = CmdsHold-weaken cs k
    CmdHolds-weaken (elsif_cmd t cs) k = CmdsHold-weaken cs k
    CmdHolds-weaken (else_cmd cs) k = CmdsHold-weaken cs k

    pub CmdsHold-weaken : (cs : Cmds) → CmdsHold P cs → CmdsHold Q cs
    CmdsHold-weaken no_cmds k = tt
    CmdsHold-weaken (more_cmds c cs) (k, ks) = (CmdHolds-weaken c k, CmdsHold-weaken cs ks)

or_left : (a b c : Bool) → (a ≡ true → b ≡ true) → (a || c) ≡ true → (b || c) ≡ true
or_left true b c h k = rw (h refl) refl
or_left false b c h k = ground arith

or_right : (a b c : Bool) → (b ≡ true → c ≡ true) → (a || b) ≡ true → (a || c) ≡ true
or_right true b c h k = refl
or_right false b c h k = h k

pub Grows-refl : (s : Script) → Grows s s
Grows-refl s = (λ ext. refl, refl, λ ext h. h, λ h. h)

pub Grows-trans : (s t u : Script) → Grows s t → Grows t u → Grows s u
Grows-trans s t u (a, b, c, d) (e, f, g, h) =
    (λ ext. e ext ∙ a ext, f ∙ b, λ ext m. g ext (c ext m), λ m. h (d m))

pub IsGuarded-Grows : (s t : Script) → Grows s t → IsGuarded s → IsGuarded t
IsGuarded-Grows s t (a, b, c, d) h ext k =
    subst (λ o. reported o ext ≡ true) (sym b) (h ext (subst (λ n. ltb 0 n ≡ true) (a ext) k))

pub IsPermitted-Grows :
    (s t : Script) → Grows s t → (ext : Bytes) → IsPermitted s ext → IsPermitted t ext
IsPermitted-Grows s t (a, b, c, d) ext h =
    subst (λ o. (member ext t.extensions || reported o ext) ≡ true) (sym b)
      (or_left _ _ _ (c ext) h)

pub requires_extension-IsPermitted :
    (s : Script) (ext : Bytes) → IsGuarded s → requires_extension s ext ≡ true → IsPermitted s ext
unfolding requires_extension
requires_extension-IsPermitted s ext g h = or_right _ _ _ (g ext) h

pub need-IsPermitted :
    (s : Script) (ext : Bytes) → IsGuarded s → Yields (λ _. IsPermitted s ext) (need s ext)
unfolding need
need-IsPermitted s ext g =
    Yields-if (requires_extension s ext) (λ e. yields (requires_extension-IsPermitted s ext g e))
      (λ e. fails)

pub need_if-IsPermitted :
    (b : Bool) (s : Script) (ext : Bytes)
    → IsGuarded s
    → Yields (λ _. b ≡ true → IsPermitted s ext) (need_if b s ext)
unfolding need_if
need_if-IsPermitted true s ext g = Yields-weaken (λ u h k. h) (need-IsPermitted s ext g)
need_if-IsPermitted false s ext g = yields (λ k. cc)
