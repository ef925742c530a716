-- ===== src/Managesieve/Guarded.antt =====
-- On managesieve/server/conn.go: an invariant of the state, the session and the transport of a connection,
-- through `handleCommand` and the loop of `serve`.
use go_sieve.Managesieve.Conn.{
  ConnState, not_authenticated, authenticated, logged_out, ConnError, reply, Conn, SaslStep, failed,
  challenged, finished, Mechanism, Server, send, write_status, is_new,
}
use go_sieve.Managesieve.Decode.{read_string, expect_crlf, to_upper}
use go_sieve.Managesieve.Handlers.{
  Handled, refused, authorize, stored, stored_warnings, start_tls, handle_start_tls, on_session,
  with_session, no_arguments, one_argument, two_arguments,
}
use go_sieve.Managesieve.Authenticate.{
  authorize_if, sasl_step, sasl_loop, authenticate_with, handle_authenticate, find_mechanism,
  on_response, read_answer, authenticate_named, encrypt_needed, read_conn, initial_response,
}
use go_sieve.Managesieve.Base64.{decode_b64}
use go_sieve.Managesieve.Reply.{plain_ok}
use go_sieve.Managesieve.States.{
  Holds, then_do-keeps, then_do-keeps_ok, if-keeps, send-keeps, write_status-keeps,
  write_capability_response-keeps, write_warnings_or_ok-keeps, read_conn-keeps,
}
use mathlib.Core.Path.{subst}
use go_sieve.Prelude.{
  ℕ, zero, suc, ◌≡◌, refl, ◌⊎◌, inl, inr, Bool, true, false, not, ◌&&◌, List, [], ◌∷◌, Option, none,
  some, Bytes, codes, equal, length, Result, ok, err, if◌then◌else◌, arith, Bool-cases,
}

-- An authentication is admitted: under TLS, or by the option.
abbrev pub IsSafe : Bool → Bool → Type 0
IsSafe insecure is_tls = (is_tls ≡ true) ⊎ (insecure ≡ true)

-- What the changes of the state, and the operations of the storage, do to `K`.
pub record Allows {S X : Type 0} (server : Server S X) (K : Bool → ConnState → Option S → Type 0)
    : Type 0 where
  pub to_logout : (t : Bool) (s : ConnState) (o : Option S) → K t s o → K t logged_out o
  pub to_new : (t : Bool) (o : Option S) → K t authenticated o → K t not_authenticated none
  pub to_tls : (t : Bool) (o : Option S) → K t not_authenticated o → K true not_authenticated o
  pub to_session :
      (c : Conn S) (owner : Bytes) (x : S)
      → server.open_storage c owner ≡ ok x
      → IsSafe server.insecure_auth c.is_tls
      → K c.is_tls c.state c.session
      → K c.is_tls authenticated (some x)
  pub put :
      (t : Bool) (s : ConnState) (x : S) (name script : Bytes)
      → K t s (some x)
      → K t s (some (server.storage.put_script name script x).1)
  pub activate :
      (t : Bool) (s : ConnState) (x : S) (name : Bytes)
      → K t s (some x)
      → K t s (some (server.storage.set_active name x).1)
  pub remove :
      (t : Bool) (s : ConnState) (x : S) (name : Bytes)
      → K t s (some x)
      → K t s (some (server.storage.delete_script name x).1)
  pub rename :
      (t : Bool) (s : ConnState) (x : S) (old_name new_name : Bytes)
      → K t s (some x)
      → K t s (some (server.storage.rename_script old_name new_name x).1)

module _ {S X : Type 0} (server : Server S X) (K : Bool → ConnState → Option S → Type 0)
    (allows : Allows server K) where
  abbrev H : Conn S → Type 0
  H = Holds server K

  on_session-keeps :
      (c : Conn S) (k : S → Handled S) (o : Option S)
      → c.session ≡ o
      → H c
      → ((s : S) → c.session ≡ some s → H (k s).1)
      → H (on_session c k o).1
  on_session-keeps c k none e h f = h
  on_session-keeps c k (some s) e h f = f s e

  pub with_session-keeps :
      (c : Conn S) (k : S → Handled S)
      → H c
      → ((s : S) → c.session ≡ some s → H (k s).1)
      → H (with_session c k).1
  with_session-keeps c k h f = on_session-keeps c k c.session refl h f

  pub no_arguments-keeps :
      (args : List Bytes) (c : Conn S) (k : Handled S) → H c → H k.1 → H (no_arguments args c k).1
  no_arguments-keeps [] c k h f = f
  no_arguments-keeps (a ∷ l) c k h f = h

  pub one_argument-keeps :
      (args : List Bytes) (c : Conn S) (k : Bytes → Handled S)
      → H c
      → ((a : Bytes) → H (k a).1)
      → H (one_argument args c k).1
  one_argument-keeps [] c k h f = h
  one_argument-keeps (a ∷ []) c k h f = f a
  one_argument-keeps (a ∷ b ∷ l) c k h f = h

  pub two_arguments-keeps :
      (args : List Bytes) (c : Conn S) (k : Bytes → Bytes → Handled S)
      → H c
      → ((a b : Bytes) → H (k a b).1)
      → H (two_arguments args c k).1
  two_arguments-keeps [] c k h f = h
  two_arguments-keeps (a ∷ []) c k h f = h
  two_arguments-keeps (a ∷ b ∷ []) c k h f = f a b
  two_arguments-keeps (a ∷ b ∷ d ∷ l) c k h f = h

  -- A session that is there.
  at_session : (c : Conn S) (s : S) → c.session ≡ some s → H c → K c.is_tls c.state (some s)
  at_session c s e h = subst (K c.is_tls c.state) e h

  -- An operation of the storage that keeps the invariant.
  abbrev pub Changes : (S → Result ConnError Unit × S) → Type 0
  Changes f = (t : Bool) (st : ConnState) (x : S) → K t st (some x) → K t st (some (f x).1)

  pub stored-keeps :
      (f : S → Result ConnError Unit × S)
      → Changes f
      → (c : Conn S) (s : S) → c.session ≡ some s
      → H c
      → H (stored c (f s)).1
  unfolding stored
  stored-keeps f k c s e h =
      then_do-keeps H ((f s).0, record c { session = some (f s).1 }) _
        (k c.is_tls c.state s (at_session c s e h)) λ u. write_status-keeps server K _

  pub stored_warnings-keeps :
      (f : S → Result ConnError Unit × S)
      → Changes f
      → (c : Conn S) (s : S) → c.session ≡ some s
      → H c
      → H (stored_warnings c (f s)).1
  unfolding stored_warnings
  stored_warnings-keeps f k c s e h =
      write_warnings_or_ok-keeps server K (f s).0 _ (k c.is_tls c.state s (at_session c s e h))

  -- The invariant, on a connection that may authenticate.
  abbrev Safe : Bool → ConnState → Option S → Type 0
  Safe t s o = K t s o × IsSafe server.insecure_auth t

  abbrev G : Conn S → Type 0
  G = Holds server Safe

  authorize-keeps : (name : Bytes) (c : Conn S) → G c → G (authorize server name c).1
  unfolding authorize
  authorize-keeps name c h =
      then_do-keeps_ok G (server.open_storage c _) c _ h
        λ s e. (allows.to_session c _ s e h.1 h.0, h.1)

  authorize_if-keeps : (o : Option Bytes) (c : Conn S) → G c → G (authorize_if server o c).1
  authorize_if-keeps none c h = h
  authorize_if-keeps (some name) c h = authorize-keeps name c h

  on_response-keeps :
      (go : Option Bytes → Conn S → Handled S) (c : Conn S) (o : Option (Option Bytes))
      → ((resp : Option Bytes) (d : Conn S) → G d → G (go resp d).1)
      → G c
      → G (on_response go c o).1
  on_response-keeps go c none f h = h
  on_response-keeps go c (some resp) f h = f resp c h

  read_answer-keeps :
      (go : Option Bytes → Conn S → Handled S) (c : Conn S)
      → ((resp : Option Bytes) (d : Conn S) → G d → G (go resp d).1)
      → G c
      → G (read_answer server go c).1
  read_answer-keeps go c f h =
      then_do-keeps G (read_conn server (read_string server.limits (c.input, none)) c) _
        (read_conn-keeps server Safe (read_string server.limits (c.input, none)) c h)
        λ text d k.
          then_do-keeps G (read_conn server (expect_crlf (d.input, none)) d) _
            (read_conn-keeps server Safe (expect_crlf (d.input, none)) d k)
            λ u e l.
              if-keeps G (equal text (codes "*")) _ _ l
                (on_response-keeps go e (decode_b64 text) f l)

  sasl_step-keeps :
      (go : X → Option Bytes → Conn S → Handled S) (step : SaslStep X) (c : Conn S)
      → ((x : X) (resp : Option Bytes) (d : Conn S) → G d → G (go x resp d).1)
      → G c
      → G (sasl_step server go step c).1
  unfolding sasl_step
  sasl_step-keeps go (failed x) c f h = h
  sasl_step-keeps go (finished challenge owner) c f h =
      then_do-keeps G (authorize_if server owner c) _ (authorize_if-keeps owner c h)
        λ u. write_capability_response-keeps server Safe _
  sasl_step-keeps go (challenged challenge x) c f h =
      then_do-keeps G (send _ c) _ (send-keeps server Safe _ c h)
        λ u d k. read_answer-keeps (go x) d (f x) k

  sasl_loop-keeps :
      (m : Mechanism S X) (fuel : ℕ) (x : X) (resp : Option Bytes) (c : Conn S)
      → G c
      → G (sasl_loop server m fuel x resp c).1
  unfolding sasl_loop
  sasl_loop-keeps m zero x resp c h = h
  sasl_loop-keeps m (suc fuel) x resp c h =
      sasl_step-keeps (sasl_loop server m fuel) (m.next_step x resp) c (sasl_loop-keeps m fuel) h

  authenticate_with-keeps :
      (args : List Bytes) (c : Conn S) (o : Option (Mechanism S X))
      → G c
      → G (authenticate_with server args c o).1
  unfolding authenticate_with
  authenticate_with-keeps args c none h = h
  authenticate_with-keeps args c (some m) h =
      then_do-keeps G (m.start c, c) _ h
        λ x d k.
          on_response-keeps (sasl_loop server m (suc (length d.input)) x) d (initial_response args)
            (sasl_loop-keeps m (suc (length d.input)) x) k

  -- Behind the guard of `handleAuthenticate`.
  guarded-keeps :
      (k : Handled S) (c : Conn S) (b : Bool)
      → (not c.is_tls && not server.insecure_auth) ≡ b
      → H c
      → (G c → G k.1)
      → H (if b then (err (reply encrypt_needed), c) else k).1
  guarded-keeps k c true e h f = h
  guarded-keeps k c false e h f = (f (h, ground arith)).0

  authenticate_named-keeps :
      (name : Bytes) (args : List Bytes) (c : Conn S)
      → H c
      → H (authenticate_named server name args c).1
  authenticate_named-keeps name args c h = if-keeps H (not (is_new c.state)) _ _ h (
      guarded-keeps _ c (not c.is_tls && not server.insecure_auth) refl h
        (authenticate_with-keeps args c (find_mechanism (to_upper name) server.mechanisms)))

  pub handle_authenticate-keeps :
      (args : List Bytes) (c : Conn S) → H c → H (handle_authenticate server args c).1
  unfolding handle_authenticate
  handle_authenticate-keeps [] c h = h
  handle_authenticate-keeps (name ∷ []) c h = authenticate_named-keeps name [] c h
  handle_authenticate-keeps (name ∷ resp ∷ []) c h = authenticate_named-keeps name (resp ∷ []) c h
  handle_authenticate-keeps (name ∷ resp ∷ more ∷ args) c h = h

  -- The invariant, on a connection that is not authenticated.
  abbrev IsNew : Bool → ConnState → Option S → Type 0
  IsNew t s o = (s ≡ not_authenticated) × K t s o

  to_tls_new :
      (t : Bool) (s : ConnState) (o : Option S) → s ≡ not_authenticated → K t s o → K true s o
  to_tls_new t not_authenticated o e h = allows.to_tls t o h
  to_tls_new t authenticated o e h = cc
  to_tls_new t logged_out o e h = cc

  is_new-cases : (s : ConnState) → is_new s ≡ true → s ≡ not_authenticated
  is_new-cases not_authenticated e = refl
  is_new-cases authenticated e = cc
  is_new-cases logged_out e = cc

  unless_wrong_state-keeps :
      (c : Conn S) (k : Handled S)
      → H c
      → (Holds server IsNew c → Holds server IsNew k.1)
      → H (if is_new c.state then k else refused (codes "Wrong state") c).1
  unless_wrong_state-keeps c k h f = elim (Bool-cases (is_new c.state)) [
    | inl e ↦ rw e ((f (is_new-cases c.state e, h)).1)
    | inr e ↦ rw e h
  ]

  start_tls-keeps :
      (o : Option (Conn S → Result ConnError Bytes)) (c : Conn S)
      → Holds server IsNew c
      → Holds server IsNew (start_tls server o c).1
  unfolding start_tls
  start_tls-keeps none c h = h
  start_tls-keeps (some handshake) c h =
      then_do-keeps (Holds server IsNew) (write_status plain_ok c) _
        (write_status-keeps server IsNew plain_ok c h)
        λ u d k.
          then_do-keeps (Holds server IsNew) (handshake d, d) _ k
            λ stream e l.
              write_capability_response-keeps server IsNew plain_ok _
                (l.0, to_tls_new e.is_tls e.state e.session l.0 l.1)

  pub handle_start_tls-keeps :
      (args : List Bytes) (c : Conn S) → H c → H (handle_start_tls server args c).1
  unfolding handle_start_tls
  handle_start_tls-keeps args c h = no_arguments-keeps args c _ h (
      unless_wrong_state-keeps c (start_tls server server.tls_input c) h
        (start_tls-keeps server.tls_input c))
