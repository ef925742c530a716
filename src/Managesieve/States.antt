-- ===== src/Managesieve/States.antt =====
-- On managesieve/server/conn.go: an invariant of the state, the session and the transport of a connection,
-- through the handlers of the commands.
use go_sieve.Managesieve.Conn.{
  ConnState, ConnError, reply, script_warnings, read_failed, write_failed, timed_out, internal,
  no_session, Conn, Server, then_do, send, write_status, write_warnings_or_ok, write_items,
  write_capability_response,
}
use go_sieve.Managesieve.Decode.{WireError, Input}
use go_sieve.Managesieve.Encode.{Encoder}
use go_sieve.Managesieve.Handlers.{write_scripts}
use go_sieve.Managesieve.Authenticate.{read_conn}
use go_sieve.Managesieve.Memory.{ScriptInfo}
use go_sieve.Managesieve.Status.{StatusResponse, CapabilityItem}
use go_sieve.Prelude.{
  ◌≡◌, refl, Bool, true, false, List, [], ◌∷◌, Option, Result, ok, err, out_of_fuel, if◌then◌else◌,
}

module _ {S : Type 0} (P : Conn S → Type 0) where
  pub then_do-keeps :
      {A B : Type 0} (r : Result ConnError A × Conn S)
      (k : A → Conn S → Result ConnError B × Conn S)
      → P r.1
      → ((a : A) (c : Conn S) → P c → P (k a c).1)
      → P (then_do r k).1
  then_do-keeps (ok a, c) k h f = f a c h
  then_do-keeps (err x, c) k h f = h
  then_do-keeps (out_of_fuel, c) k h f = h

  -- With the value that the first part returned.
  pub then_do-keeps_ok :
      {A B : Type 0} (r : Result ConnError A) (c : Conn S)
      (k : A → Conn S → Result ConnError B × Conn S)
      → P c
      → ((a : A) → r ≡ ok a → P (k a c).1)
      → P (then_do (r, c) k).1
  then_do-keeps_ok (ok a) c k h f = f a refl
  then_do-keeps_ok (err x) c k h f = h
  then_do-keeps_ok out_of_fuel c k h f = h

  pub if-keeps :
      {A : Type 0} (b : Bool) (x y : A × Conn S) → P x.1 → P y.1 → P (if b then x else y).1
  if-keeps true x y h k = h
  if-keeps false x y h k = k

module _ {S X : Type 0} (server : Server S X) (K : Bool → ConnState → Option S → Type 0) where
  abbrev pub Holds : Conn S → Type 0
  Holds c = K c.is_tls c.state c.session

  pub send-keeps : (e : Encoder) (c : Conn S) → Holds c → Holds (send e c).1
  unfolding send
  send-keeps e c h = h

  pub write_status-keeps :
      (resp : StatusResponse) (c : Conn S) → Holds c → Holds (write_status resp c).1
  unfolding write_status send
  write_status-keeps resp c h = h

  write_items-keeps :
      (items : List CapabilityItem) (c : Conn S) → Holds c → Holds (write_items items c).1
  unfolding write_items
  write_items-keeps [] c h = h
  write_items-keeps (i ∷ items) c h =
      then_do-keeps Holds (send _ c) _ (send-keeps _ c h) λ u. write_items-keeps items

  pub write_capability_response-keeps :
      (resp : StatusResponse) (c : Conn S)
      → Holds c
      → Holds (write_capability_response server resp c).1
  unfolding write_capability_response
  write_capability_response-keeps resp c h =
      then_do-keeps Holds (write_items _ c) _ (write_items-keeps _ c h) λ u. write_status-keeps resp

  pub write_warnings_or_ok-keeps :
      (r : Result ConnError Unit) (c : Conn S) → Holds c → Holds (write_warnings_or_ok r c).1
  unfolding write_warnings_or_ok
  write_warnings_or_ok-keeps (ok u) c h = write_status-keeps _ c h
  write_warnings_or_ok-keeps (err (reply x)) c h = h
  write_warnings_or_ok-keeps (err (script_warnings t)) c h = write_status-keeps _ c h
  write_warnings_or_ok-keeps (err (read_failed x)) c h = h
  write_warnings_or_ok-keeps (err (write_failed x)) c h = h
  write_warnings_or_ok-keeps (err timed_out) c h = h
  write_warnings_or_ok-keeps (err (internal t)) c h = h
  write_warnings_or_ok-keeps (err no_session) c h = h
  write_warnings_or_ok-keeps out_of_fuel c h = h

  pub write_scripts-keeps :
      (l : List ScriptInfo) (c : Conn S) → Holds c → Holds (write_scripts l c).1
  unfolding write_scripts
  write_scripts-keeps [] c h = write_status-keeps _ c h
  write_scripts-keeps (i ∷ l) c h =
      then_do-keeps Holds (send _ c) _ (send-keeps _ c h) λ u. write_scripts-keeps l

  pub read_conn-keeps :
      {A : Type 0} (r : Result WireError (A × Input)) (c : Conn S)
      → Holds c
      → Holds (read_conn server r c).1
  unfolding read_conn
  read_conn-keeps (ok (a, (rest, n))) c h = h
  read_conn-keeps (err x) c h = h
  read_conn-keeps out_of_fuel c h = h
