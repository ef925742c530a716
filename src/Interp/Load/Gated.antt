-- ===== src/Interp/Load/Gated.antt =====
-- On the loaders of commands without a block: what they want of the script.
use go_sieve.Interp.Action.{FileInto}
use go_sieve.Interp.Execute.{Cmd, fileinto, return, set, global}
use go_sieve.Interp.Load.Settings.{
  TextLibrary, set_spec, new_setting, check_setting, load_set, load_return, names_spec, check_names,
  load_global,
}
use go_sieve.Interp.Load.Actions.{
  LoadedCmd, is_given, check_file_into, load_file_into, load_redirect, load_keep, load_bare,
  load_reason, load_flags,
}
use go_sieve.Interp.Load.Permitted.{
  IsPermitted, IsGuarded, Grows, CmdHolds, Grows-refl, need-IsPermitted, need_if-IsPermitted,
}
use go_sieve.Interp.Pattern.{build_value_modifier}
use go_sieve.Interp.Runtime.{Flags}
use go_sieve.Interp.Load.Shape.{need}
use go_sieve.Interp.Load.Spec.{Given, load_spec}
use go_sieve.Interp.Script.{Script}
use go_sieve.Prelude.{
  not, Option, none, some, Bytes, codes, equal, ◌>>=◌, [], Yields, yields, Yields-bind, Yields-any,
  Yields-weaken, [],
}

abbrev pub OptionHolds : (Bytes → Type 0) → Option Cmd → Type 0
OptionHolds P none = Unit
OptionHolds P (some c) = CmdHolds P c

-- What a load gives: a script that has grown, and a command that it permits.
abbrev pub Gated : Script → Option Cmd × Script → Type 0
Gated s r = Grows s r.1 × OptionHolds (IsPermitted r.1) r.0

abbrev pub IsGated : Script → LoadedCmd → Type 0
IsGated s r = Yields (Gated s) r

module _ (s : Script) (g : IsGuarded s) (given : Given) where
  needed :
      (ext : Bytes) (f : Unit → LoadedCmd)
      → (IsPermitted s ext → IsGated s (f tt))
      → IsGated s (need s ext >>= f)
  needed ext f h = Yields-bind (need-IsPermitted s ext g) (λ u p. h p)

  pub load_bare-IsGated : (c : Cmd) → CmdHolds (IsPermitted s) c → IsGated s (load_bare c s given)
  unfolding load_bare
  load_bare-IsGated c h = Yields-any _ (λ r. yields (Grows-refl s, h))

  pub load_reason-IsGated :
      (ext : Bytes) (make : Bytes → Cmd)
      → ((r : Bytes) → IsPermitted s ext → CmdHolds (IsPermitted s) (make r))
      → IsGated s (load_reason ext make s given)
  unfolding load_reason
  load_reason-IsGated ext make h =
      needed ext _ (λ p. Yields-any _ (λ r. yields (Grows-refl s, h (r.0) p)))

  check_file_into-Holds :
      (c : FileInto)
      → IsPermitted s (codes "fileinto")
      → Yields (λ _. CmdHolds (IsPermitted s) (fileinto c)) (check_file_into s c)
  unfolding check_file_into CmdHolds
  check_file_into-Holds c p =
      Yields-bind (need_if-IsPermitted (is_given c.flags) s (codes "imap4flags") g) (λ u1 h1.
        Yields-bind (need_if-IsPermitted c.copy s (codes "copy") g) (λ u2 h2.
          Yields-bind (need_if-IsPermitted c.create s (codes "mailbox") g) (λ u3 h3.
            Yields-bind
              (need_if-IsPermitted (not (equal c.special_use [])) s (codes "special-use") g)
              (λ u4 h4.
                Yields-weaken (λ u5 h5. (p, h1, h2, h3, h4, h5))
                  (need_if-IsPermitted (not (equal c.mailbox_id [])) s (codes "mailboxid") g)))))

  pub load_file_into-IsGated : IsGated s (load_file_into s given)
  unfolding load_file_into
  load_file_into-IsGated = needed (codes "fileinto") _ (λ p.
      Yields-any _
        (λ r. Yields-bind (check_file_into-Holds (r.0) p) (λ u h. yields (Grows-refl s, h))))

  pub load_redirect-IsGated : IsGated s (load_redirect s given)
  unfolding load_redirect CmdHolds
  load_redirect-IsGated = Yields-any _ (λ r.
      Yields-bind (need_if-IsPermitted (r.0).copy s (codes "copy") g) (λ u1 h1.
        Yields-bind (need_if-IsPermitted (r.0).list s (codes "extlists") g)
          (λ u2 h2. yields (Grows-refl s, (h1, h2)))))

  pub load_keep-IsGated : IsGated s (load_keep s given)
  unfolding load_keep CmdHolds
  load_keep-IsGated = Yields-any _ (λ r.
      Yields-bind (need_if-IsPermitted (is_given (r.0)) s (codes "imap4flags") g)
        (λ u1 h1. yields (Grows-refl s, h1)))

  pub load_flags-IsGated :
      (make : Bytes → Flags → Cmd)
      → ((v : Bytes) (flags : Flags)
          → IsPermitted s (codes "imap4flags")
          → CmdHolds (IsPermitted s) (make v flags))
      → IsGated s (load_flags make s given)
  unfolding load_flags
  load_flags-IsGated make h =
      needed (codes "imap4flags") _
        (λ p. Yields-any _ (λ r. yields (Grows-refl s, h (r.0) (r.1) p)))

  pub load_set-IsGated : (lib : TextLibrary) → IsGated s (load_set lib s given)
  unfolding load_set CmdHolds
  load_set-IsGated lib = needed (codes "variables") _ (λ p.
      Yields-any (load_spec s (set_spec lib) given new_setting) (λ r.
        Yields-any (check_setting s (r.0)) (λ u.
          yields
            {a = (
              some (set (r.0).name (r.0).value (build_value_modifier s.opts (r.0).modifiers)),
              s,
            )}
            (Grows-refl s, p))))

  pub load_return-IsGated : IsGated s (load_return s given)
  unfolding load_return CmdHolds
  load_return-IsGated = needed (codes "include") _ (λ p. load_bare-IsGated return p)

  pub load_global-IsGated : IsGated s (load_global s given)
  unfolding load_global CmdHolds
  load_global-IsGated = needed (codes "include") _ (λ p. needed (codes "variables") _ (λ q.
      Yields-any (load_spec s names_spec given []) (λ r.
        Yields-any (check_names (r.0))
          (λ u. yields {a = (some (global r.0), s)} (Grows-refl s, (p, q))))))
