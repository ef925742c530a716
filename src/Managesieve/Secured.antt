-- ===== src/Managesieve/Secured.antt =====
-- On managesieve/server/conn.go: what holds of every connection that the server serves.
use go_sieve.Managesieve.Conn.{ConnState, Conn, Server, new_conn, is_authenticated}
use go_sieve.Managesieve.Dispatch.{Reached}
use go_sieve.Managesieve.Guarded.{Allows}
use go_sieve.Managesieve.Reachable.{Reached-keeps}
use go_sieve.Prelude.{
  ◌≡◌, ◌≢◌, refl, ◌⊎◌, inl, inr, Bool, true, false, Option, none, some, Bytes, arith,
}

-- No session is open, in a state that is not that of an authenticated connection.
abbrev pub IsSecured : {S : Type 0} → Bool → ConnState → Option S → Type 0
IsSecured is_tls state session =
    (is_tls ≡ true) ⊎ ((is_authenticated state ≡ false) × (session ≡ none))

-- A session is open where the state says so.
abbrev pub HasSession : {S : Type 0} → Bool → ConnState → Option S → Type 0
HasSession is_tls state session = (is_authenticated state ≡ false) ⊎ (session ≢ none)

module _ {S X : Type 0} (server : Server S X) where
  Secured-Allows : server.insecure_auth ≡ false → Allows server IsSecured
  Secured-Allows e = record {
    to_logout = λ t s o h. ground arith;
    to_new = λ t o h. ground arith;
    to_tls = λ t o h. inl refl;
    to_session = λ c owner x f safe h. ground arith;
    put = λ t s x name script h. ground arith;
    activate = λ t s x name h. ground arith;
    remove = λ t s x name h. ground arith;
    rename = λ t s x old_name new_name h. ground arith;
  }

  -- A session in the place of another one.
  HasSession-some :
      (t : Bool) (s : ConnState) (x y : S) → HasSession t s (some x) → HasSession t s (some y)
  HasSession-some t s x y h = elim h [ inl e ↦ inl e | inr e ↦ inr (λ f. cc) ]

  HasSession-Allows : Allows server HasSession
  HasSession-Allows = record {
    to_logout = λ t s o h. inl refl;
    to_new = λ t o h. inl refl;
    to_tls = λ t o h. inl refl;
    to_session = λ c owner x f safe h. inr (λ e. cc);
    put = λ t s x name script h. HasSession-some t s x _ h;
    activate = λ t s x name h. HasSession-some t s x _ h;
    remove = λ t s x name h. HasSession-some t s x _ h;
    rename = λ t s x old_name new_name h. HasSession-some t s x _ h;
  }

module _ {S X : Type 0} where
  -- Unless `InsecureAuth` is set, no connection that was opened without TLS has a session, or is in the
  -- authenticated state, before its handshake: whatever the client sends, whatever the storage, the
  -- mechanisms and the capabilities do, after any number of commands.
  pub Reached-IsSecured :
      (server : Server S X) (input : Bytes) (goes_on : Bool) (c : Conn S)
      → server.insecure_auth ≡ false
      → Reached server (new_conn false input) goes_on c
      → (c.is_tls ≡ true) ⊎ ((is_authenticated c.state ≡ false) × (c.session ≡ none))
  unfolding new_conn
  Reached-IsSecured server input goes_on c e r =
      Reached-keeps server IsSecured (Secured-Allows server e) (new_conn false input) goes_on c
        (inr (refl, refl)) r

  -- Every connection that the loop of `serve` reaches has an open session where it is in the authenticated
  -- state, in which alone commands call it.
  pub Reached-HasSession :
      (server : Server S X) (is_tls : Bool) (input : Bytes) (goes_on : Bool) (c : Conn S)
      → Reached server (new_conn is_tls input) goes_on c
      → (is_authenticated c.state ≡ false) ⊎ (c.session ≢ none)
  unfolding new_conn
  Reached-HasSession server is_tls input goes_on c r =
      Reached-keeps server HasSession (HasSession-Allows server) (new_conn is_tls input) goes_on c
        (inl refl) r
