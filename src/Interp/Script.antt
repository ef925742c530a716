-- ===== src/Interp/Script.antt =====
-- interp/script.go: the options, a loaded script, its extensions and the variables it may use.
use go_sieve.Interp.Text.{member, to_lower, cut}
use go_sieve.Lexer.Scan.{is_valid_identifier}
use go_sieve.Prelude.{
  ℕ, Bool, true, false, ◌&&◌, ◌||◌, not, List, Option, none, some, ltb, if◌then◌else◌, Bytes, codes,
  equal, length,
}

-- The limits of `Options`; the hooks of the test suite are left out.
pub record Options : Type 0 where
  pub max_redirects : ℕ
  pub max_actions : ℕ
  pub max_variable_count : ℕ
  pub max_variable_name_len : ℕ
  pub max_variable_len : ℕ
  pub sub_address_sep : Bytes
  pub allowed : Option (Bytes → Bool)

-- `Script` without its commands. `guardedUsed`, which only `Extensions` reads, is left out.
pub record Script : Type 0 where
  pub extensions : List Bytes
  pub guarded : Bytes → ℕ
  pub opts : Options

unfoldable pub requires_extension : Script → Bytes → Bool
requires_extension s name = member name s.extensions || ltb 0 (s.guarded name)

-- `available`; `supported` is `supportedRequires`.
unfoldable pub available : List Bytes → Script → Bytes → Bool
available supported s ext =
    if equal ext (codes "variables") || equal ext (codes "encoded-character")
    then false
    else if not (member ext supported)
    then false
    else elim s.opts.allowed [ none ↦ true | some allows ↦ allows ext ]

-- The cases of the switches on a namespace.
pub data Namespace : Type 0 where
  env_space : Namespace
  envelope_space : Namespace
  global_space : Namespace
  user_space : Namespace
  unknown_space : Namespace

unfoldable pub namespace_named : Bytes → Namespace
namespace_named s =
    if equal s (codes "env")
    then env_space
    else if equal s (codes "envelope")
    then envelope_space
    else if equal s (codes "global")
    then global_space
    else if equal s (codes "")
    then user_space
    else unknown_space

-- The name is cut at its first dot, and one without a dot has the empty namespace.
unfoldable pub variable_in : Bytes → Namespace × Bytes
variable_in low = elim (cut 46 low) [
  | none ↦ (user_space, low)
  | some p ↦ (namespace_named p.0, p.1)
]

unfoldable pub variable_of : Bytes → Namespace × Bytes
variable_of name = variable_in (to_lower name)

-- Whether an extension is required, and whether the name is an identifier, as the pair of settable
-- and gettable.
unfoldable pub usable_in : Script → Namespace × Bytes → Bool × Bool
usable_in s (env_space, name) = (false, requires_extension s (codes "vnd.yarilo.environment"))
usable_in s (envelope_space, name) =
    (false, requires_extension s (codes "envelope") && is_valid_identifier name)
usable_in s (global_space, name) =
    let b = requires_extension s (codes "include") && is_valid_identifier name in (b, b)
usable_in s (user_space, name) = (is_valid_identifier name, is_valid_identifier name)
usable_in s (unknown_space, name) = (false, false)

unfoldable pub is_var_usable : Script → Bytes → Bool × Bool
is_var_usable s name =
    if ltb s.opts.max_variable_name_len (length name)
    then (false, false)
    else usable_in s (variable_of name)
