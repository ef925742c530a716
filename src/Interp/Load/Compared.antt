-- ===== src/Interp/Load/Compared.antt =====
-- interp/matchertest.go, `addSpecTags`, interp/mime.go, `mimeSpecTags`, and interp/load_tests.go: what the arguments of a test
-- that compares values leave.
use go_sieve.Interp.Address.{AddressPart, local_part, domain_part, all_part, user_part, detail_part}
use go_sieve.Interp.Compare.{
  match_contains, match_is, match_matches, match_value, match_count, match_regex, match_list, Match,
}
use go_sieve.Interp.Keys
use go_sieve.Interp.Keys.{set_key}
use go_sieve.Interp.Load.Shape.{
  LoadError, SpecTag, SpecPosArg, bool_tag, str_tag, str_arg, first, need,
}
use go_sieve.Interp.Load.Shape.{mime_tags, unmodelled, key_error}
use go_sieve.Interp.Matcher.{Services, MatcherTest}
use go_sieve.Interp.Relational.{Relational, gt, ge, lt, le, eq, ne, other}
use go_sieve.Interp.Script.{Script, requires_extension}
use go_sieve.Prelude.{
  suc, Bool, true, false, not, ◌&&◌, ◌||◌, List, [], ◌∷◌, if◌then◌else◌, Bytes, codes, equal,
  Result, ok, err, out_of_fuel,
}

-- What the arguments of a test that compares values leave. `names` are the headers, the fields or the variables,
-- as the test has them.
pub record Compared : Type 0 where
  pub given : Keys.Given
  pub names : List Bytes
  pub key : List Bytes
  pub address_part : AddressPart
  pub mime : Bool
  pub any_child : Bool
  pub mime_mode : Bytes
  pub mime_params : List Bytes

-- `newMatcherTest`, with `All`.
abbrev pub new_compared : Compared
new_compared = record {
  given = record { comparator = []; match = match_is; relational = other []; matches = 0 };
  names = [];
  key = [];
  address_part = all_part;
  mime = false;
  any_child = false;
  mime_mode = [];
  mime_params = [];
}

unfoldable pub relational_of : Bytes → Relational
relational_of s =
    if equal s (codes "gt")
    then gt
    else if equal s (codes "ge")
    then ge
    else if equal s (codes "lt")
    then lt
    else if equal s (codes "le")
    then le
    else if equal s (codes "eq")
    then eq
    else if equal s (codes "ne")
    then ne
    else other s

abbrev pub set_match : Match → Compared → Compared
set_match m c = record c { given = record c.given { match = m; matches = suc c.given.matches } }

abbrev pub set_relational : Match → List Bytes → Compared → Compared
set_relational m l c = record c {
  given = record c.given {
    match = m;
    matches = suc c.given.matches;
    relational = relational_of (first l);
  };
}

abbrev pub set_comparator : List Bytes → Compared → Compared
set_comparator l c = record c { given = record c.given { comparator = first l } }

-- `addSpecTags`
unfoldable pub matcher_tags : List (Bytes × SpecTag Compared)
matcher_tags =
    (codes "comparator", str_tag 1 1 set_comparator)
    ∷ (codes "is", bool_tag (set_match match_is))
    ∷ (codes "contains", bool_tag (set_match match_contains))
    ∷ (codes "matches", bool_tag (set_match match_matches))
    ∷ (codes "regex", bool_tag (set_match match_regex))
    ∷ (codes "value", str_tag 1 1 (set_relational match_value))
    ∷ (codes "count", str_tag 1 1 (set_relational match_count))
    ∷ (codes "list", bool_tag (set_match match_list))
    ∷ []

-- `mimeSpecTags`
unfoldable pub mime_spec_tags : List (Bytes × SpecTag Compared)
mime_spec_tags =
    (codes "mime", bool_tag (λ c. record c { mime = true }))
    ∷ (codes "anychild", bool_tag (λ c. record c { any_child = true }))
    ∷ (codes "type", bool_tag (λ c. record c { mime_mode = codes "type" }))
    ∷ (codes "subtype", bool_tag (λ c. record c { mime_mode = codes "subtype" }))
    ∷ (codes "contenttype", bool_tag (λ c. record c { mime_mode = codes "contenttype" }))
    ∷ (codes "param", str_tag 1 0 (λ l c. record c { mime_mode = codes "param"; mime_params = l }))
    ∷ []

abbrev pub set_part : AddressPart → SpecTag Compared
set_part part = bool_tag (λ c. record c { address_part = part })

-- The tags for the part of an address.
unfoldable pub part_tags : Script → List (Bytes × SpecTag Compared)
part_tags s =
    (codes "all", set_part all_part)
    ∷ (codes "localpart", set_part local_part)
    ∷ (codes "domain", set_part domain_part)
    ∷ (if requires_extension s (codes "subaddress")
        then (codes "user", set_part user_part) ∷ (codes "detail", set_part detail_part) ∷ []
        else [])

-- The names and the keys.
abbrev pub names_and_key : List (SpecPosArg Compared)
names_and_key =
    str_arg 1 0 (λ l c. record c { names = l }) ∷ str_arg 1 0 (λ l c. record c { key = l }) ∷ []

abbrev pub empty : List Bytes → Bool
empty [] = true
empty (v ∷ l) = false

-- `validateMimeTags`
unfoldable pub validate_mime_tags : Script → Compared → Result LoadError Unit
validate_mime_tags s c =
    if (c.any_child || not (equal c.mime_mode []) || not (empty c.mime_params)) && not c.mime
    then err mime_tags
    else if c.mime
    then need s (codes "mime")
    else ok tt

-- A test under `:mime` is outside the model.
abbrev pub without_mime : Compared → Result LoadError Unit
without_mime c = if c.mime then err (unmodelled (codes "mime")) else ok tt

abbrev pub of_key : {A : Type 0} → Result Keys.KeyError A → Result LoadError A
of_key (ok a) = ok a
of_key (err x) = err (key_error x)
of_key out_of_fuel = out_of_fuel

-- The matcher of a test, by `setKey`.
unfoldable pub matcher_of : Services → Script → Compared → Result LoadError MatcherTest
matcher_of services s c = of_key (set_key services.libraries s c.given c.key)
