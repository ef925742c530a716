-- ===== src/Interp/Load/Plain.antt =====
-- On interp/load_action.go: printed commands that have no tests and no block.
use go_sieve.Interp.Action.{FileInto, Redirect}
use go_sieve.Interp.Checks
use go_sieve.Interp.Execute
use go_sieve.Interp.Load.Actions.{
  file_into_spec, new_file_into, check_file_into, load_file_into, redirect_spec, load_redirect,
  keep_spec, load_keep, load_bare, reason_spec, load_reason, flag_spec, flag_args, load_flag_cmd,
  load_flags, is_given,
}
use go_sieve.Interp.Load.Binds.{
  waiting, bind_args-tag_list, bind_args-tag_if, bind_args-value, bind_args-flags, bind_args-string,
  bind_args-list,
}
use go_sieve.Interp.Load.Print.{
  nowhere, string_of, flags_args, file_into_args, redirect_args, flag_command_args, IsPlain,
  IsRequired, IsRequiredIf, IsValue, AreFlags, HasFlags, IsLoadable,
}
use go_sieve.Interp.Load.Reloaded.{load_spec-plain}
use go_sieve.Interp.Load.Settings.{names_spec, load_return, load_global}
use go_sieve.Interp.Load.Shape.{LoadError, SpecPosArg, match_str, first, need, need_if}
use go_sieve.Interp.Load.Spec.{Given, all_optional, bind_args, tag_named}
use go_sieve.Interp.Runtime.{Flags}
use go_sieve.Interp.Script.{Script}
use go_sieve.Interp.Text.{to_lower, lower_byte}
use go_sieve.Parser.Syntax.{Arg, string_list_arg}
use go_sieve.Prelude.{
  ◌≡◌, refl, ap, ◌∙◌, Bool, true, false, not, List, [], ◌∷◌, none, some, Bytes, codes, equal,
  Result, ok,
}

-- Arguments without tests and without a block.
abbrev pub bare : (Script → Result LoadError Checks.Tests) → List Arg → Given
bare load args = record { args = args; tests = record { number = 0; load = load }; block = none }

-- The second argument of a flag command.
abbrev optional_list : SpecPosArg (List Bytes × List Bytes)
optional_list = record {
  optional = true;
  matcher = match_str (λ l c. (c.0, l));
  min_str_count = 0;
  max_str_count = 0;
}

module _ (s : Script) (load : Script → Result LoadError Checks.Tests) where
  need-IsRequired : (ext : Bytes) → IsRequired s ext → need s ext ≡ ok tt
  unfolding need
  need-IsRequired ext h = rw h refl

  need_if-IsRequiredIf : (b : Bool) (ext : Bytes) → IsRequiredIf s b ext → need_if b s ext ≡ ok tt
  unfolding need_if
  need_if-IsRequiredIf true ext h = need-IsRequired ext h
  need_if-IsRequiredIf false ext h = refl

  need_if-IsValue : (v ext : Bytes) → IsValue s ext v → need_if (not (equal v [])) s ext ≡ ok tt
  unfolding need_if equal
  need_if-IsValue [] ext h = refl
  need_if-IsValue (b ∷ v) ext (_, h) = need-IsRequired ext h

  need_if-AreFlags :
      (f : Flags) → AreFlags s f → need_if (is_given f) s (codes "imap4flags") ≡ ok tt
  unfolding need_if
  need_if-AreFlags none h = refl
  need_if-AreFlags (some l) (_, _, h) = need-IsRequired _ h

  pub load_bare_lem : (c : Execute.Cmd) → load_bare c s (bare load []) ≡ ok (some c, s)
  unfolding load_bare bind_args all_optional
  load_bare_lem c = rw (load_spec-plain s [] [] [] [] load tt tt refl refl) refl

  pub load_reason_lem :
      (ext : Bytes) (make : Bytes → Execute.Cmd) (r : Bytes)
      → IsRequired s ext
      → IsPlain s r
      → load_reason ext make s (bare load (string_of r ∷ [])) ≡ ok (some (make r), s)
  unfolding load_reason all_optional bind_args
  load_reason_lem ext make r h k = rw (need-IsRequired ext h) (
      rw
        (load_spec-plain s [] reason_spec.pos [] (string_of r ∷ []) load [] r
          (bind_args-string s reason_spec 1 1 false _ r [] [] [] refl k) refl)
        refl)

  pub load_return_lem :
      IsRequired s (codes "include") → load_return s (bare load []) ≡ ok (some Execute.return, s)
  unfolding load_return
  load_return_lem h = rw (need-IsRequired _ h) (load_bare_lem Execute.return)

  pub load_global_lem :
      (names : List Bytes)
      → IsLoadable s (Execute.global names)
      → load_global s (bare load (string_list_arg names nowhere ∷ []))
        ≡ ok (some (Execute.global names), s)
  unfolding load_global all_optional bind_args IsLoadable
  load_global_lem names (i, v, p, c) = rw (need-IsRequired _ i) (
      rw (need-IsRequired _ v) (
        rw
          (load_spec-plain s [] names_spec.pos [] (string_list_arg names nowhere ∷ []) load [] names
            (bind_args-list s names_spec 1 false _ names [] [] [] refl p) refl)
          (rw c refl)))

  keep_args-bind :
      (f : Flags)
      → AreFlags s f
      → bind_args s keep_spec (flags_args f) (waiting [] none) ≡ ok (waiting [] f)
  unfolding bind_args tag_named to_lower lower_byte equal
  keep_args-bind none h = refl
  keep_args-bind (some l) (p, c, _) =
      bind_args-tag_list s keep_spec (codes "flags") _ l [] [] none refl p
      ∙ ap (λ f. ok (waiting [] f)) c

  pub load_keep_lem :
      (f : Flags)
      → AreFlags s f
      → load_keep s (bare load (flags_args f)) ≡ ok (some (Execute.keep f), s)
  unfolding load_keep all_optional
  load_keep_lem f h =
      rw
        (load_spec-plain s keep_spec.tags [] [] (flags_args f) load none f (keep_args-bind f h)
          refl)
        (rw (need_if-AreFlags f h) refl)

  load_flag_cmd_lem :
      (v : Bytes) (f : Flags)
      → HasFlags s v f
      → load_flag_cmd s (bare load (flag_command_args v f)) ≡ ok (v, f)
  unfolding load_flag_cmd flag_args all_optional bind_args
  load_flag_cmd_lem v none h = absurd h
  load_flag_cmd_lem v (some []) (_, ((h, _), _, _)) = absurd h
  load_flag_cmd_lem [] (some (f ∷ fs)) (_, (p, c, _)) =
      rw
        (load_spec-plain s [] flag_spec.pos _ (string_list_arg (f ∷ fs) nowhere ∷ []) load ([], [])
          (f ∷ fs, []) (bind_args-list s flag_spec 0 false _ (f ∷ fs) [] _ ([], []) refl p) refl)
        (rw c refl)
  load_flag_cmd_lem (b ∷ v) (some (f ∷ fs)) (q, (p, c, _)) =
      rw
        (load_spec-plain s [] flag_spec.pos [] (flag_command_args (b ∷ v) (some (f ∷ fs))) load
          ([], []) ((b ∷ v) ∷ [], f ∷ fs)
          (bind_args-string s flag_spec 0 0 false (λ l c. (l, c.1)) (b ∷ v)
              (string_list_arg (f ∷ fs) nowhere ∷ []) (optional_list ∷ []) ([], []) refl q
            ∙ bind_args-list s flag_spec 0 true (λ l c. (c.0, l)) (f ∷ fs) [] [] ((b ∷ v) ∷ [], [])
                refl p)
          refl)
        (rw c refl)

  HasFlags-IsRequired : (v : Bytes) (f : Flags) → HasFlags s v f → IsRequired s (codes "imap4flags")
  HasFlags-IsRequired v none h = absurd h
  HasFlags-IsRequired v (some l) (_, (_, _, h)) = h

  pub load_flags_lem :
      (make : Bytes → Flags → Execute.Cmd) (v : Bytes) (f : Flags)
      → HasFlags s v f
      → load_flags make s (bare load (flag_command_args v f)) ≡ ok (some (make v f), s)
  unfolding load_flags
  load_flags_lem make v f h =
      rw (need-IsRequired _ (HasFlags-IsRequired v f h)) (rw (load_flag_cmd_lem v f h) refl)

  redirect_args-bind :
      (c : Redirect)
      → IsPlain s c.addr
      → bind_args s redirect_spec
          (redirect_args c)
          (waiting redirect_spec.pos (record { addr = []; copy = false; list = false }))
        ≡ ok (waiting [] c)
  unfolding bind_args tag_named to_lower lower_byte equal
  redirect_args-bind c h =
      let made : Bool → Bool → Bytes → Redirect =
        λ b k a. record { addr = a; copy = b; list = k } in
      bind_args-tag_if s redirect_spec (codes "copy") _ (λ b. made b false []) c.copy _
        redirect_spec.pos refl refl
      ∙ bind_args-tag_if s redirect_spec (codes "list") _ (λ k. made c.copy k []) c.list
          (string_of c.addr ∷ []) redirect_spec.pos refl refl
      ∙ bind_args-string s redirect_spec 1 1 false (λ l c. record c { addr = first l }) c.addr [] []
          (made c.copy c.list []) refl h

  pub load_redirect_lem :
      (c : Redirect)
      → IsLoadable s (Execute.redirect c)
      → load_redirect s (bare load (redirect_args c)) ≡ ok (some (Execute.redirect c), s)
  unfolding load_redirect all_optional IsLoadable
  load_redirect_lem c (h, k, p) =
      rw
        (load_spec-plain s redirect_spec.tags redirect_spec.pos [] (redirect_args c) load _ c
          (redirect_args-bind c p) refl)
        (rw (need_if-IsRequiredIf c.copy _ h) (rw (need_if-IsRequiredIf c.list _ k) refl))

  file_into_args-bind :
      (c : FileInto)
      → IsLoadable s (Execute.fileinto c)
      → bind_args s file_into_spec (file_into_args c) (waiting file_into_spec.pos new_file_into)
        ≡ ok (waiting [] c)
  unfolding bind_args tag_named to_lower lower_byte equal IsLoadable
  file_into_args-bind c (i, f, h, k, v, w, p) =
      let made : Flags → Bool → Bool → Bytes → Bytes → FileInto = λ l b n u m. record {
        mailbox = [];
        flags = l;
        copy = b;
        create = n;
        special_use = u;
        mailbox_id = m;
      } in
      let rest = file_into_spec.pos in
      bind_args-flags s file_into_spec _ (λ l. made l false false [] []) c.flags _ rest refl f
        (λ l. refl)
      ∙ bind_args-tag_if s file_into_spec (codes "copy") _ (λ b. made c.flags b false [] []) c.copy
          _ rest refl refl
      ∙ bind_args-tag_if s file_into_spec (codes "create") _ (λ n. made c.flags c.copy n [] [])
          c.create _ rest refl refl
      ∙ bind_args-value s file_into_spec (codes "specialuse") _ 1 1 _
          (λ u. made c.flags c.copy c.create u []) c.special_use _ rest refl v refl
      ∙ bind_args-value s file_into_spec (codes "mailboxid") _ 1 1 _
          (λ m. made c.flags c.copy c.create c.special_use m) c.mailbox_id
          (string_of c.mailbox ∷ []) rest refl w refl
      ∙ bind_args-string s file_into_spec 1 1 false (λ l c. record c { mailbox = first l })
          c.mailbox [] [] (made c.flags c.copy c.create c.special_use c.mailbox_id) refl p

  pub load_file_into_lem :
      (c : FileInto)
      → IsLoadable s (Execute.fileinto c)
      → load_file_into s (bare load (file_into_args c)) ≡ ok (some (Execute.fileinto c), s)
  unfolding load_file_into check_file_into all_optional IsLoadable
  load_file_into_lem c l =
      let (i, f, h, k, v, w, p) = l in
      rw (need-IsRequired _ i) (
        rw
          (load_spec-plain s file_into_spec.tags file_into_spec.pos [] (file_into_args c) load
            new_file_into c (file_into_args-bind c l) refl)
          (rw (need_if-AreFlags c.flags f) (
            rw (need_if-IsRequiredIf c.copy _ h) (
              rw (need_if-IsRequiredIf c.create _ k) (
                rw (need_if-IsValue c.special_use _ v)
                  (rw (need_if-IsValue c.mailbox_id _ w) refl))))))
