-- ===== src/Managesieve/Dispatch.antt =====
-- managesieve/server/conn.go: `handleCommand` and the loop of `serve`.
use go_sieve.Managesieve.Conn.{
  ConnState, not_authenticated, authenticated, logged_out, ConnError, reply, script_warnings,
  read_failed, write_failed, timed_out, internal, no_session, Conn, Server, write_status,
  is_authenticated, write_capability_response,
}
use go_sieve.Managesieve.Decode.{WireError, Input, eof, unexpected_eof, to_upper, read_command}
use go_sieve.Managesieve.Handlers.{
  Handled, refused, no_arguments, one_argument, two_arguments, with_session, stored,
  handle_list_scripts, handle_get_script, handle_put_script, handle_check_script, handle_have_space,
  handle_unauthenticate, handle_start_tls,
}
use go_sieve.Managesieve.Authenticate.{handle_authenticate, read_conn}
use go_sieve.Managesieve.Reply.{status, plain_ok}
use go_sieve.Managesieve.Status.{status_no, status_bye, StatusResponse}
use go_sieve.Prelude.{
  Bool, true, false, List, [], ◌∷◌, if◌then◌else◌, Bytes, codes, equal, Result, ok, err,
  out_of_fuel, none, ◌>>=◌,
}

-- The commands of the two switches, in their order.
pub data CommandName : Type 0 where
  capability starttls authenticate logout noop : CommandName
  listscripts getscript putscript checkscript setactive deletescript : CommandName
  renamescript havespace unauthenticate unknown_command : CommandName

unfoldable pub later_command : Bytes → CommandName
later_command name =
    if equal name (codes "LISTSCRIPTS")
    then listscripts
    else if equal name (codes "GETSCRIPT")
    then getscript
    else if equal name (codes "PUTSCRIPT")
    then putscript
    else if equal name (codes "CHECKSCRIPT")
    then checkscript
    else if equal name (codes "SETACTIVE")
    then setactive
    else if equal name (codes "DELETESCRIPT")
    then deletescript
    else if equal name (codes "RENAMESCRIPT")
    then renamescript
    else if equal name (codes "HAVESPACE")
    then havespace
    else if equal name (codes "UNAUTHENTICATE")
    then unauthenticate
    else unknown_command

unfoldable pub command_named : Bytes → CommandName
command_named name =
    if equal name (codes "CAPABILITY")
    then capability
    else if equal name (codes "STARTTLS")
    then starttls
    else if equal name (codes "AUTHENTICATE")
    then authenticate
    else if equal name (codes "LOGOUT")
    then logout
    else if equal name (codes "NOOP")
    then noop
    else later_command name

unfoldable pub handle_noop : {S : Type 0} → List Bytes → Conn S → Handled S
handle_noop [] c = write_status plain_ok c
handle_noop (arg ∷ []) c =
    write_status (record plain_ok { code = codes "TAG"; code_args = arg ∷ [] }) c
handle_noop (arg ∷ second ∷ args) c = refused (codes "Invalid arguments") c

abbrev pub when_authenticated : {S : Type 0} → Conn S → Handled S → Handled S
when_authenticated c k =
    if is_authenticated c.state then k else refused (codes "Authenticate first") c

unfoldable pub run_command :
    {S X : Type 0} → Server S X → CommandName → List Bytes → Conn S → Handled S
run_command server capability args c =
    no_arguments args c (write_capability_response server plain_ok c)
run_command server starttls args c = handle_start_tls server args c
run_command server authenticate args c = handle_authenticate server args c
run_command server logout args c =
    no_arguments args c (write_status plain_ok (record c { state = logged_out }))
run_command server noop args c = handle_noop args c
run_command server listscripts args c = when_authenticated c (handle_list_scripts server args c)
run_command server getscript args c = when_authenticated c (handle_get_script server args c)
run_command server putscript args c = when_authenticated c (handle_put_script server args c)
run_command server checkscript args c = when_authenticated c (handle_check_script server args c)
run_command server setactive args c =
    when_authenticated c
      (one_argument args c λ name. with_session c λ s. stored c (server.storage.set_active name s))
run_command server deletescript args c =
    when_authenticated c (
      one_argument args c
        λ name. with_session c λ s. stored c (server.storage.delete_script name s))
run_command server renamescript args c = when_authenticated c (
    two_arguments args c λ old_name new_name.
      with_session c λ s. stored c (server.storage.rename_script old_name new_name s))
run_command server havespace args c = when_authenticated c (handle_have_space server args c)
run_command server unauthenticate args c =
    when_authenticated c (handle_unauthenticate server args c)
run_command server unknown_command args c =
    when_authenticated c (refused (codes "Unknown command") c)

-- `handleCommand`
unfoldable pub handle_command :
    {S X : Type 0} → Server S X → Bytes → List Bytes → Conn S → Handled S
handle_command server name args c = run_command server (command_named (to_upper name)) args c

-- A status line, whose error is ignored.
abbrev pub tell : {S : Type 0} → StatusResponse → Conn S → Conn S
tell resp c = (write_status resp c).1

-- The check at the end of the loop.
abbrev pub is_open : ConnState → Bool
is_open logged_out = false
is_open authenticated = true
is_open not_authenticated = true

abbrev pub internal_error : {S : Type 0} → Conn S → Bool × Conn S
internal_error c =
    let told = tell (status status_no (codes "Internal server error")) c in
    (is_open told.state, told)

-- What `serve` does with the error of a handler, and whether it goes on: behind a `managesieve.Error` the
-- state is not checked.
unfoldable pub answer_error : {S : Type 0} → ConnError → Conn S → Bool × Conn S
answer_error timed_out c = (false, tell (status status_bye (codes "Idle timeout")) c)
answer_error (reply resp) c = (true, tell resp c)
answer_error (script_warnings text) c = internal_error c
answer_error (read_failed x) c = internal_error c
answer_error (write_failed x) c = internal_error c
answer_error (internal text) c = internal_error c
answer_error no_session c = (false, c)

unfoldable pub answer : {S : Type 0} → Handled S → Bool × Conn S
answer (ok u, c) = (is_open c.state, c)
answer (err x, c) = answer_error x c
answer (out_of_fuel, c) = (false, c)

-- A read that failed ends the loop, with an answer unless the input has ended.
unfoldable pub is_end : ConnError → Bool
is_end (read_failed eof) = true
is_end (read_failed unexpected_eof) = true
is_end _ = false

abbrev pub read_error : {S : Type 0} → Bool → Conn S → Conn S
read_error true c = c
read_error false c = tell (status status_no (codes "Syntax error")) c

-- A command that was read, or not.
unfoldable pub serve_read :
    {S X : Type 0} → Server S X → Result ConnError (Bytes × List Bytes) × Conn S → Bool × Conn S
serve_read server (ok (name, args), c) = answer (handle_command server name args c)
serve_read server (err x, c) = (false, read_error (is_end x) c)
serve_read server (out_of_fuel, c) = (false, c)

abbrev pub with_rest : {A : Type 0} → A × Bytes → Result WireError (A × Input)
with_rest (a, rest) = ok (a, (rest, none))

-- One round of the loop of `serve`: whether there is another one, and the connection behind it.
unfoldable pub serve_round : {S X : Type 0} → Server S X → Conn S → Bool × Conn S
serve_round server c =
    serve_read server (read_conn server (read_command server.limits c.input >>= with_rest) c)

-- The loop: the connections that it reaches, with whether it goes on from there.
pub data Reached {S X : Type 0} (server : Server S X) (c₀ : Conn S) : Bool → Conn S → Type 0 where
  greeted : Reached server c₀ true (write_capability_response server plain_ok c₀).1
  served :
      (c : Conn S)
      → Reached server c₀ true c
      → Reached server c₀ (serve_round server c).0 (serve_round server c).1
