-- ===== src/Managesieve/Authenticate.antt =====
-- managesieve/server/conn.go: `handleAuthenticate`.
use go_sieve.Managesieve.Base64.{base64_encode, decode_b64}
use go_sieve.Managesieve.Conn.{
  ConnError, reply, read_failed, Conn, SaslStep, failed, challenged, finished, Mechanism, Server,
  then_do, send, is_new, write_capability_response,
}
use go_sieve.Managesieve.Decode.{WireError, Input, to_upper, read_string, expect_crlf}
use go_sieve.Managesieve.Encode.{new_encoder, string, crlf}
use go_sieve.Managesieve.Reply.{status, plain_ok}
use go_sieve.Managesieve.Status.{status_no, StatusResponse}
use go_sieve.Prelude.{
  ℕ, zero, suc, false, not, ◌&&◌, List, [], ◌∷◌, Option, none, some, if◌then◌else◌, Bytes, codes,
  equal, length, Result, ok, err, out_of_fuel,
}
use go_sieve.Managesieve.Handlers.{Handled, refused, authorize}

-- A read from the connection.
unfoldable pub read_conn :
    {S X A : Type 0}
    → Server S X
    → Result WireError (A × Input)
    → Conn S
    → Result ConnError A × Conn S
read_conn server (ok (a, (rest, n))) c = (ok a, record c { input = rest })
read_conn server (err x) c =
    (err (read_failed x), record c { input = server.after_error x c.input })
read_conn server out_of_fuel c = (out_of_fuel, c)

-- The status behind a mechanism that is finished.
abbrev sasl_status : Bytes → StatusResponse
sasl_status [] = plain_ok
sasl_status (b ∷ challenge) = record plain_ok {
  code = codes "SASL";
  code_args = base64_encode (b ∷ challenge) ∷ [];
}

abbrev pub authorize_if : {S X : Type 0} → Server S X → Option Bytes → Conn S → Handled S
authorize_if server none c = (ok tt, c)
authorize_if server (some owner) c = authorize server owner c

-- A response that was decoded.
abbrev pub on_response :
    {S : Type 0} → (Option Bytes → Conn S → Handled S) → Conn S → Option (Option Bytes) → Handled S
on_response go c none = refused (codes "Malformed SASL response") c
on_response go c (some resp) = go resp c

-- The client's answer to a challenge, with what goes on with it.
abbrev pub answered :
    {S : Type 0} → (Option Bytes → Conn S → Handled S) → Bytes → Conn S → Handled S
answered go answer c =
    if equal answer (codes "*")
    then refused (codes "Authentication cancelled") c
    else on_response go c (decode_b64 answer)

abbrev pub read_answer :
    {S X : Type 0} → Server S X → (Option Bytes → Conn S → Handled S) → Conn S → Handled S
read_answer server go c =
    then_do (read_conn server (read_string server.limits (c.input, none)) c) λ answer c'.
      then_do (read_conn server (expect_crlf (c'.input, none)) c') λ _. answered go answer

unfoldable pub sasl_step :
    {S X : Type 0}
    → Server S X
    → (X → Option Bytes → Conn S → Handled S)
    → SaslStep X
    → Conn S
    → Handled S
sasl_step server go (failed x) c = (err x, c)
sasl_step server go (finished challenge owner) c =
    then_do (authorize_if server owner c)
      λ _. write_capability_response server (sasl_status challenge)
sasl_step server go (challenged challenge x) c =
    then_do (send (crlf (string (base64_encode challenge) false new_encoder)) c)
      λ _. read_answer server (go x)

-- The loop of `handleAuthenticate`.
unfoldable pub sasl_loop :
    {S X : Type 0} → Server S X → Mechanism S X → ℕ → X → Option Bytes → Conn S → Handled S
sasl_loop server m zero x resp c = (out_of_fuel, c)
sasl_loop server m (suc fuel) x resp c =
    sasl_step server (sasl_loop server m fuel) (m.next_step x resp) c

-- `c.server.auths[mech]`
unfoldable pub find_mechanism :
    {S X : Type 0} → Bytes → List (Mechanism S X) → Option (Mechanism S X)
find_mechanism name [] = none
find_mechanism name (m ∷ ms) = if equal m.name name then some m else find_mechanism name ms

-- The initial response, if there is one.
abbrev pub initial_response : List Bytes → Option (Option Bytes)
initial_response [] = some none
initial_response (arg ∷ args) = decode_b64 arg

abbrev pub encrypt_needed : StatusResponse
encrypt_needed = record (status status_no (codes "TLS required")) { code = codes "ENCRYPT-NEEDED" }

unfoldable pub authenticate_with :
    {S X : Type 0} → Server S X → List Bytes → Conn S → Option (Mechanism S X) → Handled S
authenticate_with server args c none = refused (codes "SASL mechanism not supported") c
authenticate_with server args c (some m) =
    then_do (m.start c, c)
      λ x c'. on_response (sasl_loop server m (suc (length c'.input)) x) c' (initial_response args)

abbrev pub authenticate_named :
    {S X : Type 0} → Server S X → Bytes → List Bytes → Conn S → Handled S
authenticate_named server name args c =
    if not (is_new c.state)
    then refused (codes "Wrong state") c
    else if not c.is_tls && not server.insecure_auth
    then (err (reply encrypt_needed), c)
    else authenticate_with server args c (find_mechanism (to_upper name) server.mechanisms)

-- `handleAuthenticate`
unfoldable pub handle_authenticate : {S X : Type 0} → Server S X → List Bytes → Conn S → Handled S
handle_authenticate server (name ∷ []) c = authenticate_named server name [] c
handle_authenticate server (name ∷ resp ∷ []) c = authenticate_named server name (resp ∷ []) c
handle_authenticate server _ c = refused (codes "Invalid arguments") c
