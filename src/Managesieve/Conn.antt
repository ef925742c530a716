-- ===== src/Managesieve/Conn.antt =====
-- managesieve/server/conn.go, storage.go and auth.go: a connection of the server, what it is given, and what
-- it writes. The storage, the SASL mechanisms and TLS are the host's and the libraries'.
use go_sieve.Interp.Text.{join}
use go_sieve.Managesieve.Decode.{Decoder, WireError}
use go_sieve.Managesieve.Encode.{EncodeError, Encoder}
use go_sieve.Managesieve.Memory.{ScriptInfo}
use go_sieve.Managesieve.Reply.{
  encode_status, status, plain_ok, equal_fold, configured, sasl_item, item, add_item, encode_item,
}
use go_sieve.Managesieve.Status.{status_ok, StatusResponse, CapabilityItem}
use go_sieve.Prelude.{
  ℤ, Bool, true, false, not, ◌&&◌, ◌||◌, List, [], ◌∷◌, ◌++◌, Option, none, some, if◌then◌else◌,
  Bytes, codes, equal, Result, ok, err, out_of_fuel,
}

-- `ConnState`
pub data ConnState : Type 0 where
  not_authenticated authenticated logged_out : ConnState

-- The errors of a handler: `reply` is a `managesieve.Error`, `no_session` the panic of a call on a nil
-- session.
pub data ConnError : Type 0 where
  reply : StatusResponse → ConnError
  script_warnings : Bytes → ConnError
  read_failed : WireError → ConnError
  write_failed : EncodeError → ConnError
  timed_out : ConnError
  internal : Bytes → ConnError
  no_session : ConnError

-- `Storage`
pub record Storage (S : Type 0) : Type 0 where
  pub list_scripts : S → Result ConnError (List ScriptInfo)
  pub get_script : Bytes → S → Result ConnError Bytes
  pub put_script : Bytes → Bytes → S → Result ConnError Unit × S
  pub check_script : Bytes → S → Result ConnError Unit
  pub set_active : Bytes → S → Result ConnError Unit × S
  pub delete_script : Bytes → S → Result ConnError Unit × S
  pub rename_script : Bytes → Bytes → S → Result ConnError Unit × S
  pub have_space : Bytes → ℤ → S → Result ConnError Unit

-- `Conn`: `out` is what was written, `input` what is still to be read, `is_tls` whether the connection is a
-- `tls.Conn`.
pub record Conn (S : Type 0) : Type 0 where
  pub session : Option S
  pub owner : Bytes
  pub state : ConnState
  pub is_closed : Bool
  pub is_tls : Bool
  pub input : Bytes
  pub out : Bytes

-- What `Next` of a SASL mechanism does. Where it is finished, it may have called `Authorize` with an owner.
pub data SaslStep (X : Type 0) : Type 0 where
  failed : ConnError → SaslStep X
  challenged : Bytes → X → SaslStep X
  finished : Bytes → Option Bytes → SaslStep X

-- A `SASLServerFactory`, which makes a server for a connection.
pub record Mechanism (S X : Type 0) : Type 0 where
  pub name : Bytes
  pub start : Conn S → Result ConnError X
  pub next_step : X → Option Bytes → SaslStep X

-- `Server` with its options. `tls_input` is the `TLSConfig`: the handshake, and the stream behind it.
-- `after_error` is what a failed read leaves of the input, which the model of the decoder does not tell.
-- `open_storage` opens a session, not a nil one, and what it reads of the backend is fixed.
pub record Server (S X : Type 0) : Type 0 where
  pub storage : Storage S
  pub open_storage : Conn S → Bytes → Result ConnError S
  pub mechanisms : List (Mechanism S X)
  pub capabilities : Conn S → List CapabilityItem
  pub tls_input : Option (Conn S → Result ConnError Bytes)
  pub insecure_auth : Bool
  pub enable_unauthenticate : Bool
  pub limits : Decoder
  pub after_error : WireError → Bytes → Bytes

-- `newConn`, on an input.
unfoldable pub new_conn : {S : Type 0} → Bool → Bytes → Conn S
new_conn is_tls input = record {
  session = none;
  owner = [];
  state = not_authenticated;
  is_closed = false;
  is_tls = is_tls;
  input = input;
  out = [];
}

-- What a handler returns, and the connection behind it.
abbrev pub then_do :
    {S A B : Type 0}
    → Result ConnError A × Conn S
    → (A → Conn S → Result ConnError B × Conn S)
    → Result ConnError B × Conn S
then_do (ok a, c) k = k a c
then_do (err x, c) k = (err x, c)
then_do (out_of_fuel, c) k = (out_of_fuel, c)

-- `CRLF` of an encoder that writes to the connection.
unfoldable pub send : {S : Type 0} → Encoder → Conn S → Result ConnError Unit × Conn S
send e c = (
  elim e.failed [ none ↦ ok tt | some x ↦ err (write_failed x) ],
  record c { out = c.out ++ e.w },
)

-- `writeStatus`
unfoldable pub write_status :
    {S : Type 0} → StatusResponse → Conn S → Result ConnError Unit × Conn S
write_status resp c = send (encode_status resp) c

-- `writeWarningsOrOK`
unfoldable pub write_warnings_or_ok :
    {S : Type 0} → Result ConnError Unit → Conn S → Result ConnError Unit × Conn S
write_warnings_or_ok (ok u) c = write_status plain_ok c
write_warnings_or_ok (err (script_warnings text)) c =
    write_status (record (status status_ok text) { code = codes "WARNINGS" }) c
write_warnings_or_ok (err x) c = (err x, c)
write_warnings_or_ok out_of_fuel c = (out_of_fuel, c)

-- The names of the mechanisms that are offered.
unfoldable pub offered : {S X : Type 0} → Bool → List (Mechanism S X) → List Bytes
offered allow_plain [] = []
offered allow_plain (m ∷ ms) =
    let rest = offered allow_plain ms in
    if equal_fold m.name (codes "PLAIN") && not allow_plain then rest else m.name ∷ rest

abbrev pub has_tls : {S X : Type 0} → Server S X → Bool
has_tls server = elim server.tls_input [ none ↦ false | some f ↦ true ]

abbrev pub is_authenticated : ConnState → Bool
is_authenticated authenticated = true
is_authenticated not_authenticated = false
is_authenticated logged_out = false

abbrev pub is_new : ConnState → Bool
is_new not_authenticated = true
is_new authenticated = false
is_new logged_out = false

-- `saslCapability`; Go's order of the mechanisms is not fixed.
unfoldable pub sasl_capability : {S X : Type 0} → Server S X → Conn S → Option CapabilityItem
sasl_capability server c =
    let allow_plain = c.is_tls || server.insecure_auth in
    elim (offered allow_plain server.mechanisms) [
      | [] ↦ if is_new c.state && has_tls server && not allow_plain then sasl_item [] else none
      | name ∷ names ↦ sasl_item (join (codes " ") (name ∷ names))
    ]

-- The owner of an authenticated connection.
abbrev owner_items : {S : Type 0} → Conn S → List CapabilityItem
owner_items c =
    if is_authenticated c.state && not (equal c.owner [])
    then item (codes "OWNER") (some c.owner) ∷ []
    else []

abbrev sasl_items : {S X : Type 0} → Server S X → Conn S → List CapabilityItem
sasl_items server c =
    if is_authenticated c.state
    then []
    else elim (sasl_capability server c) [ none ↦ [] | some i ↦ i ∷ [] ]

-- `availableCapabilities`
unfoldable pub available_capabilities : {S X : Type 0} → Server S X → Conn S → List CapabilityItem
available_capabilities server c =
    add_item server.enable_unauthenticate (codes "UNAUTHENTICATE")
      (configured (server.capabilities c) ++ owner_items c ++ sasl_items server c)

unfoldable pub write_items :
    {S : Type 0} → List CapabilityItem → Conn S → Result ConnError Unit × Conn S
write_items [] c = (ok tt, c)
write_items (i ∷ items) c = then_do (send (encode_item i) c) λ _. write_items items

-- `writeCapabilityResponse`
unfoldable pub write_capability_response :
    {S X : Type 0} → Server S X → StatusResponse → Conn S → Result ConnError Unit × Conn S
write_capability_response server resp c =
    let items = available_capabilities server c in
    let all =
      add_item (has_tls server && not c.is_tls && is_new c.state) (codes "STARTTLS") items in
    then_do (write_items all c) λ _. write_status resp
