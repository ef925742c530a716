-- ===== src/Managesieve/Reachable.antt =====
-- On managesieve/server/conn.go: the connections that the loop of `serve` reaches.
use go_sieve.Managesieve.Conn.{
  ConnState, not_authenticated, authenticated, logged_out, ConnError, reply, script_warnings,
  read_failed, write_failed, timed_out, internal, no_session, Conn, Server, is_authenticated, send,
}
use go_sieve.Managesieve.Dispatch.{
  CommandName, capability, starttls, authenticate, logout, noop, listscripts, getscript, putscript,
  checkscript, setactive, deletescript, renamescript, havespace, unauthenticate, unknown_command,
  handle_noop, when_authenticated, run_command, handle_command, answer_error, answer, read_error,
  is_end, serve_read, serve_round, Reached, greeted, served,
}
use go_sieve.Managesieve.Guarded.{
  Allows, Changes, with_session-keeps, no_arguments-keeps, one_argument-keeps, two_arguments-keeps,
  stored-keeps, stored_warnings-keeps, handle_authenticate-keeps, handle_start_tls-keeps,
}
use go_sieve.Managesieve.Handlers.{
  Handled, stored, handle_list_scripts, handle_get_script, handle_put_script, handle_check_script,
  handle_have_space, handle_unauthenticate, on_size, parse_int64,
}
use go_sieve.Managesieve.Reply.{plain_ok}
use go_sieve.Managesieve.States.{
  Holds, then_do-keeps, if-keeps, send-keeps, write_status-keeps, write_capability_response-keeps,
  write_warnings_or_ok-keeps, write_scripts-keeps, read_conn-keeps,
}
use mathlib.Core.Path.{subst}
use go_sieve.Prelude.{
  ℤ, ◌≡◌, refl, inl, inr, Bool, true, false, List, [], ◌∷◌, Option, none, some, Bytes, equal,
  Result, ok, err, out_of_fuel, Bool-cases,
}

is_authenticated-cases : (s : ConnState) → is_authenticated s ≡ true → s ≡ authenticated
is_authenticated-cases authenticated e = refl
is_authenticated-cases not_authenticated e = cc
is_authenticated-cases logged_out e = cc

module _ {S X : Type 0} (server : Server S X) (K : Bool → ConnState → Option S → Type 0)
    (allows : Allows server K) where
  abbrev H : Conn S → Type 0
  H = Holds server K

  when-keeps :
      (c : Conn S) (k : Handled S)
      → H c
      → (c.state ≡ authenticated → H k.1)
      → H (when_authenticated c k).1
  when-keeps c k h f = elim (Bool-cases (is_authenticated c.state)) [
    | inl e ↦ rw e (f (is_authenticated-cases c.state e))
    | inr e ↦ rw e h
  ]

  handle_noop-keeps : (args : List Bytes) (c : Conn S) → H c → H (handle_noop args c).1
  unfolding handle_noop
  handle_noop-keeps [] c h = write_status-keeps server K plain_ok c h
  handle_noop-keeps (a ∷ []) c h = write_status-keeps server K _ c h
  handle_noop-keeps (a ∷ b ∷ l) c h = h

  on_size-keeps : (name : Bytes) (c : Conn S) (o : Option ℤ) → H c → H (on_size server name c o).1
  on_size-keeps name c none h = h
  on_size-keeps name c (some n) h = with_session-keeps server K allows c _ h λ s e.
      then_do-keeps H (server.storage.have_space name n s, c) _ h
        λ u. write_status-keeps server K plain_ok

  handle_list_scripts-keeps :
      (args : List Bytes) (c : Conn S) → H c → H (handle_list_scripts server args c).1
  unfolding handle_list_scripts
  handle_list_scripts-keeps args c h = no_arguments-keeps server K allows args c _ h (
      with_session-keeps server K allows c _ h λ s e.
        then_do-keeps H (server.storage.list_scripts s, c) _ h (write_scripts-keeps server K))

  handle_get_script-keeps :
      (args : List Bytes) (c : Conn S) → H c → H (handle_get_script server args c).1
  unfolding handle_get_script
  handle_get_script-keeps args c h = one_argument-keeps server K allows args c _ h λ name.
      with_session-keeps server K allows c _ h λ s e.
        then_do-keeps H (server.storage.get_script name s, c) _ h
          λ script d k.
            then_do-keeps H (send _ d) _ (send-keeps server K _ d k)
              λ u. write_status-keeps server K plain_ok

  handle_put_script-keeps :
      (args : List Bytes) (c : Conn S) → H c → H (handle_put_script server args c).1
  unfolding handle_put_script
  handle_put_script-keeps args c h = two_arguments-keeps server K allows args c _ h λ name script.
      if-keeps H (equal script []) _ _ h (
        with_session-keeps server K allows c _ h λ s e.
          stored_warnings-keeps server K allows (server.storage.put_script name script)
            (λ t st x. allows.put t st x name script) c s e h)

  handle_check_script-keeps :
      (args : List Bytes) (c : Conn S) → H c → H (handle_check_script server args c).1
  unfolding handle_check_script
  handle_check_script-keeps args c h = one_argument-keeps server K allows args c _ h λ script.
      with_session-keeps server K allows c _ h
        λ s e. write_warnings_or_ok-keeps server K (server.storage.check_script script s) c h

  handle_unauthenticate-keeps :
      (args : List Bytes) (c : Conn S)
      → c.state ≡ authenticated
      → H c
      → H (handle_unauthenticate server args c).1
  unfolding handle_unauthenticate
  handle_unauthenticate-keeps args c e h = no_arguments-keeps server K allows args c _ h (
      write_capability_response-keeps server K plain_ok _
        (allows.to_new c.is_tls c.session (subst (λ s. K c.is_tls s c.session) e h)))

  stored-at :
      (f : S → Result ConnError Unit × S)
      → Changes server K allows f
      → (c : Conn S) → H c
      → (s : S) → c.session ≡ some s
      → H (stored c (f s)).1
  stored-at f k c h s e = stored-keeps server K allows f k c s e h

  run_command-keeps :
      (name : CommandName) (args : List Bytes) (c : Conn S)
      → H c
      → H (run_command server name args c).1
  unfolding run_command handle_have_space
  run_command-keeps capability args c h =
      no_arguments-keeps server K allows args c _ h
        (write_capability_response-keeps server K plain_ok c h)
  run_command-keeps starttls args c h = handle_start_tls-keeps server K allows args c h
  run_command-keeps authenticate args c h = handle_authenticate-keeps server K allows args c h
  run_command-keeps logout args c h =
      no_arguments-keeps server K allows args c _ h
        (write_status-keeps server K plain_ok _ (allows.to_logout c.is_tls c.state c.session h))
  run_command-keeps noop args c h = handle_noop-keeps args c h
  run_command-keeps listscripts args c h = when-keeps c _ h λ e. handle_list_scripts-keeps args c h
  run_command-keeps getscript args c h = when-keeps c _ h λ e. handle_get_script-keeps args c h
  run_command-keeps putscript args c h = when-keeps c _ h λ e. handle_put_script-keeps args c h
  run_command-keeps checkscript args c h = when-keeps c _ h λ e. handle_check_script-keeps args c h
  run_command-keeps setactive args c h = when-keeps c _ h λ e.
      one_argument-keeps server K allows args c _ h λ name.
        with_session-keeps server K allows c _ h
          (stored-at (server.storage.set_active name) (λ t st x. allows.activate t st x name) c h)
  run_command-keeps deletescript args c h = when-keeps c _ h λ e.
      one_argument-keeps server K allows args c _ h λ name.
        with_session-keeps server K allows c _ h
          (stored-at (server.storage.delete_script name) (λ t st x. allows.remove t st x name) c h)
  run_command-keeps renamescript args c h = when-keeps c _ h λ e.
      two_arguments-keeps server K allows args c _ h λ old_name new_name.
        with_session-keeps server K allows c _ h (
          stored-at (server.storage.rename_script old_name new_name)
            (λ t st x. allows.rename t st x old_name new_name) c h)
  run_command-keeps havespace args c h = when-keeps c _ h λ e.
      two_arguments-keeps server K allows args c _ h
        λ name size. on_size-keeps name c (parse_int64 size) h
  run_command-keeps unauthenticate args c h =
      when-keeps c _ h λ e. handle_unauthenticate-keeps args c e h
  run_command-keeps unknown_command args c h = when-keeps c _ h λ e. h

  answer_error-keeps : (x : ConnError) (c : Conn S) → H c → H (answer_error x c).1
  unfolding answer_error
  answer_error-keeps (reply resp) c h = write_status-keeps server K resp c h
  answer_error-keeps (script_warnings t) c h = write_status-keeps server K _ c h
  answer_error-keeps (read_failed x) c h = write_status-keeps server K _ c h
  answer_error-keeps (write_failed x) c h = write_status-keeps server K _ c h
  answer_error-keeps timed_out c h = write_status-keeps server K _ c h
  answer_error-keeps (internal t) c h = write_status-keeps server K _ c h
  answer_error-keeps no_session c h = h

  answer-keeps : (r : Handled S) → H r.1 → H (answer r).1
  unfolding answer
  answer-keeps (ok u, c) h = h
  answer-keeps (err x, c) h = answer_error-keeps x c h
  answer-keeps (out_of_fuel, c) h = h

  read_error-keeps : (b : Bool) (c : Conn S) → H c → H (read_error b c)
  read_error-keeps true c h = h
  read_error-keeps false c h = write_status-keeps server K _ c h

  serve_read-keeps :
      (r : Result ConnError (Bytes × List Bytes) × Conn S) → H r.1 → H (serve_read server r).1
  unfolding serve_read handle_command
  serve_read-keeps (ok (name, args), c) h =
      answer-keeps (run_command server _ args c) (run_command-keeps _ args c h)
  serve_read-keeps (err x, c) h = read_error-keeps (is_end x) c h
  serve_read-keeps (out_of_fuel, c) h = h

  pub Reached-keeps : (c₀ : Conn S) (b : Bool) (c : Conn S) → H c₀ → Reached server c₀ b c → H c
  unfolding serve_round
  Reached-keeps c₀ _ _ h greeted = write_capability_response-keeps server K plain_ok c₀ h
  Reached-keeps c₀ _ _ h (served c r) =
      serve_read-keeps _ (read_conn-keeps server K _ c (Reached-keeps c₀ true c h r))
