-- ===== src/Tests/Server.antt =====
-- The theorems on the connections of the server at a concrete client.
use go_sieve.Managesieve.Conn.{
  Conn, Mechanism, finished, Server, new_conn, is_authenticated, write_capability_response,
}
use go_sieve.Managesieve.Decode.{Decoder}
use go_sieve.Managesieve.Dispatch.{serve_round, greeted, served}
use go_sieve.Managesieve.Memory.{MemorySession, MemorySessionOptions, new_memory_session}
use go_sieve.Managesieve.MemoryStorage.{memory_storage}
use go_sieve.Managesieve.Reply.{plain_ok}
use go_sieve.Managesieve.Secured.{Reached-IsSecured, Reached-HasSession}
use go_sieve.Prelude.{
  ◌≡◌, ◌≢◌, refl, ◌⊎◌, Bool, true, false, [], ◌∷◌, ◌++◌, none, some, Bytes, codes, ok,
}

abbrev decoder_limits : Decoder
decoder_limits = record {
  max_literal_bytes = 1000;
  max_atom_bytes = 100;
  max_quoted_bytes = 100;
  max_command_args = 4;
  max_non_literal_command_len = 1000;
}

abbrev store_options : MemorySessionOptions
store_options = record { max_scripts = 2; max_script_len = 100; load = λ script. none }

-- A mechanism that authorizes at once.
abbrev external : Mechanism MemorySession Unit
external = record {
  name = codes "EXTERNAL";
  start = λ c. ok tt;
  next_step = λ x resp. finished [] (some (codes "me"));
}

abbrev server : Server MemorySession Unit
server = record {
  storage = memory_storage;
  open_storage = λ c owner. ok (new_memory_session store_options);
  mechanisms = external ∷ [];
  capabilities = λ c. [];
  tls_input = some (λ c. ok (codes "LOGOUT"));
  insecure_auth = false;
  enable_unauthenticate = false;
  limits = decoder_limits;
  after_error = λ x rest. [];
}

-- The first of two commands, and the connection behind it.
abbrev client : Bytes
client = codes "AUTHENTICATE \"EXTERNAL\"" ++ 13 ∷ 10 ∷ codes "LISTSCRIPTS" ++ 13 ∷ 10 ∷ []

abbrev begun : Bool → Conn MemorySession
begun is_tls = (write_capability_response server plain_ok (new_conn is_tls client)).1

abbrev round : Bool → Bool × Conn MemorySession
round is_tls = serve_round server (begun is_tls)

Reached-IsSecured_example :
    ((round false).1.is_tls ≡ true)
    ⊎ ((is_authenticated (round false).1.state ≡ false) × ((round false).1.session ≡ none))
Reached-IsSecured_example =
    Reached-IsSecured server client (round false).0 (round false).1 refl
      (served (begun false) greeted)

Reached-HasSession_example :
    (is_authenticated (round true).1.state ≡ false) ⊎ ((round true).1.session ≢ none)
Reached-HasSession_example =
    Reached-HasSession server true client (round true).0 (round true).1
      (served (begun true) greeted)
