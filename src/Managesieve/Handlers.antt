-- ===== src/Managesieve/Handlers.antt =====
-- managesieve/server/conn.go: the handlers of the commands. A deadline does not pass here: `timed_out` comes
-- from the host's code alone.
use go_sieve.Lexer.Scan.{is_digit, decimal}
use go_sieve.Managesieve.Conn.{
  not_authenticated, authenticated, ConnError, reply, no_session, Conn, Server, then_do, send,
  write_status, write_warnings_or_ok, is_new, write_capability_response,
}
use go_sieve.Managesieve.Encode.{new_encoder, atom, sp, string, crlf}
use go_sieve.Managesieve.Memory.{ScriptInfo}
use go_sieve.Managesieve.Reply.{status, plain_ok}
use go_sieve.Managesieve.Status.{status_no}
use go_sieve.Prelude.{
  ℕ, zero, suc, ◌^◌, ℤ, pos, negsuc, Bool, true, false, ◌&&◌, List, [], ◌∷◌, Option, none, some,
  ltb, if◌then◌else◌, Bytes, codes, equal, Result, ok, err,
}

-- What a handler leaves.
abbrev pub Handled : Type 0 → Type 0
Handled S = Result ConnError Unit × Conn S

abbrev pub no : Bytes → ConnError
no text = reply (status status_no text)

abbrev pub refused : {S : Type 0} → Bytes → Conn S → Handled S
refused text c = (err (no text), c)

abbrev pub no_arguments : {S : Type 0} → List Bytes → Conn S → Handled S → Handled S
no_arguments [] c k = k
no_arguments (arg ∷ args) c k = refused (codes "Invalid arguments") c

abbrev pub one_argument : {S : Type 0} → List Bytes → Conn S → (Bytes → Handled S) → Handled S
one_argument (arg ∷ []) c k = k arg
one_argument _ c k = refused (codes "Invalid arguments") c

abbrev pub two_arguments :
    {S : Type 0} → List Bytes → Conn S → (Bytes → Bytes → Handled S) → Handled S
two_arguments (arg ∷ second ∷ []) c k = k arg second
two_arguments _ c k = refused (codes "Invalid arguments") c

-- A call of a method of the session, which panics where there is none.
abbrev pub on_session : {S : Type 0} → Conn S → (S → Handled S) → Option S → Handled S
on_session c k none = (err no_session, c)
on_session c k (some s) = k s

abbrev pub with_session : {S : Type 0} → Conn S → (S → Handled S) → Handled S
with_session c k = on_session c k c.session

-- The session behind a call, and its error or an OK.
unfoldable pub stored : {S : Type 0} → Conn S → Result ConnError Unit × S → Handled S
stored c (r, s) = then_do (r, record c { session = some s }) λ _. write_status plain_ok

unfoldable pub stored_warnings : {S : Type 0} → Conn S → Result ConnError Unit × S → Handled S
stored_warnings c (r, s) = write_warnings_or_ok r (record c { session = some s })

-- `Authorize`
unfoldable pub authorize : {S X : Type 0} → Server S X → Bytes → Conn S → Handled S
authorize server name c =
    let owner = if equal name [] then c.owner else name in
    then_do (server.open_storage c owner, c)
      λ s c'. (ok tt, record c' { session = some s; owner = owner; state = authenticated })

unfoldable pub write_scripts : {S : Type 0} → List ScriptInfo → Conn S → Handled S
write_scripts [] c = write_status plain_ok c
write_scripts (i ∷ list) c =
    let named = string i.name false new_encoder in
    let marked = if i.is_active then atom (codes "ACTIVE") (sp named) else named in
    then_do (send (crlf marked) c) λ _. write_scripts list

-- `handleListScripts`
unfoldable pub handle_list_scripts : {S X : Type 0} → Server S X → List Bytes → Conn S → Handled S
handle_list_scripts server args c =
    no_arguments args c
      (with_session c λ s. then_do (server.storage.list_scripts s, c) write_scripts)

-- `handleGetScript`
unfoldable pub handle_get_script : {S X : Type 0} → Server S X → List Bytes → Conn S → Handled S
handle_get_script server args c = one_argument args c λ name. with_session c λ s.
    then_do (server.storage.get_script name s, c)
      λ script c'.
        then_do (send (crlf (string script false new_encoder)) c') λ _. write_status plain_ok

-- `handlePutScript`
unfoldable pub handle_put_script : {S X : Type 0} → Server S X → List Bytes → Conn S → Handled S
handle_put_script server args c = two_arguments args c λ name script.
    if equal script []
    then refused (codes "Empty script not allowed") c
    else with_session c λ s. stored_warnings c (server.storage.put_script name script s)

-- `handleCheckScript`
unfoldable pub handle_check_script : {S X : Type 0} → Server S X → List Bytes → Conn S → Handled S
handle_check_script server args c =
    one_argument args c
      λ script. with_session c λ s. write_warnings_or_ok (server.storage.check_script script s) c

unfoldable pub all_decimal : Bytes → Bool
all_decimal [] = true
all_decimal (b ∷ s) = is_digit b && all_decimal s

-- The digits of an int64 behind its sign.
abbrev unsigned : Bytes → Option ℕ
unsigned [] = none
unsigned (b ∷ s) = if all_decimal (b ∷ s) then some (decimal 0 (b ∷ s)) else none

abbrev positive : Option ℕ → Option ℤ
positive none = none
positive (some n) = if ltb n (2 ^ 63) then some (pos n) else none

abbrev negative : Option ℕ → Option ℤ
negative none = none
negative (some zero) = some (pos 0)
negative (some (suc n)) = if ltb n (2 ^ 63) then some (negsuc n) else none

-- `strconv.ParseInt(s, 10, 64)`
unfoldable pub parse_int64 : Bytes → Option ℤ
parse_int64 [] = none
parse_int64 (b ∷ s) =
    if equal (b ∷ []) (codes "-")
    then negative (unsigned s)
    else if equal (b ∷ []) (codes "+")
    then positive (unsigned s)
    else positive (unsigned (b ∷ s))

abbrev pub on_size : {S X : Type 0} → Server S X → Bytes → Conn S → Option ℤ → Handled S
on_size server name c none = refused (codes "Invalid size") c
on_size server name c (some n) =
    with_session c λ s. then_do (server.storage.have_space name n s, c) λ _. write_status plain_ok

unfoldable pub handle_have_space : {S X : Type 0} → Server S X → List Bytes → Conn S → Handled S
handle_have_space server args c =
    two_arguments args c λ name size. on_size server name c (parse_int64 size)

-- The session is closed, and its owner forgotten.
unfoldable pub handle_unauthenticate : {S X : Type 0} → Server S X → List Bytes → Conn S → Handled S
handle_unauthenticate server args c = no_arguments args c (
    write_capability_response server plain_ok
      (record c { session = none; owner = []; state = not_authenticated }))

-- `handleStartTLS`: what was read ahead of the handshake is dropped.
unfoldable pub start_tls :
    {S X : Type 0} → Server S X → Option (Conn S → Result ConnError Bytes) → Conn S → Handled S
start_tls server none c = refused (codes "STARTTLS unavailable") c
start_tls server (some handshake) c = then_do (write_status plain_ok c) λ _ c'.
    then_do (handshake c', c')
      λ stream c''.
        write_capability_response server plain_ok (record c'' { is_tls = true; input = stream })

unfoldable pub handle_start_tls : {S X : Type 0} → Server S X → List Bytes → Conn S → Handled S
handle_start_tls server args c = no_arguments args c (
    if is_new c.state then start_tls server server.tls_input c else refused (codes "Wrong state") c)
