-- ===== src/Interp/ValueTests.antt =====
-- The tests of interp/test.go and interp/variables.go that hold a `matcherTest`.
use go_sieve.Interp.Address.{AddressPart, compared_part}
use go_sieve.Interp.Compare.{Found}
use go_sieve.Interp.Expand.{expand_vars}
use go_sieve.Interp.Runtime.{RuntimeData, ExecError, host_error}
use go_sieve.Interp.Text.{member, to_lower}
use go_sieve.Prelude.{
  ℕ, suc, false, List, [], Option, none, some, if◌then◌else◌, Bytes, codes, equal, Result, ok, err,
  ◌>>=◌, next, done,
}
use go_sieve.Interp.Matcher.{
  Services, MatcherTest, is_count, try_match, Visit, decided, each, count_end, list_or,
}

-- A value that counts as one.
unfoldable pub visit_value :
    Services → RuntimeData → MatcherTest → (Bytes → Result ExecError Found) → Bytes → ℕ → Visit
visit_value services d t compare value n =
    if is_count t.match then ok (next (suc n)) else list_or services d t compare value >>= decided n

-- A value that counts unless it is empty.
unfoldable pub visit_filled :
    Services → RuntimeData → MatcherTest → (Bytes → Result ExecError Found) → Bytes → ℕ → Visit
visit_filled services d t compare value n =
    if is_count t.match
    then ok (next (if equal value [] then n else suc n))
    else list_or services d t compare value >>= decided n

-- `testAddress`
unfoldable pub test_address :
    Services → RuntimeData → MatcherTest → AddressPart → Bytes → Result ExecError Found
test_address services d t part address =
    elim (compared_part d.script.opts.sub_address_sep part address) [
      | none ↦ ok (false, none)
      | some value ↦ try_match services d t value
    ]

unfoldable pub visit_header : Services → RuntimeData → MatcherTest → Bytes → ℕ → Visit
visit_header services d t name n = do
  expanded ← expand_vars d name
  values ← d.msg.header_get expanded
  each (visit_value services d t (try_match services d t)) values n

-- `HeaderTest.Check`, without `:mime`.
unfoldable pub check_header :
    Services → MatcherTest → List Bytes → RuntimeData → Result ExecError Found
check_header services t headers d = each (visit_header services d t) headers 0 >>= count_end d t

-- The addresses of one value; a value that is no list of addresses ends the test.
unfoldable pub visit_addresses :
    Services → RuntimeData → MatcherTest → AddressPart → Bytes → ℕ → Visit
visit_addresses services d t part value n = elim (services.parse_address_list value) [
  | none ↦ ok (done (false, none))
  | some l ↦ each (visit_value services d t (test_address services d t part)) l n
]

unfoldable pub visit_address_header :
    Services → List Bytes → RuntimeData → MatcherTest → AddressPart → Bytes → ℕ → Visit
visit_address_header services allowed d t part name n =
    expand_vars d (to_lower name) >>= λ expanded.
    if member expanded allowed
    then (d.msg.header_get expanded >>= λ values. each (visit_addresses services d t part) values n)
    else ok (next n)

-- `AddressTest.Check`; `allowed` is `allowedAddrHeaders`.
unfoldable pub check_address :
    Services
    → List Bytes
    → MatcherTest
    → AddressPart
    → List Bytes
    → RuntimeData
    → Result ExecError Found
check_address services allowed t part headers d =
    each (visit_address_header services allowed d t part) headers 0 >>= count_end d t

-- The value of an envelope part.
unfoldable pub envelope_part : RuntimeData → Bytes → Option Bytes
envelope_part d name =
    if equal name (codes "from")
    then some d.envelope.envelope_from
    else if equal name (codes "to")
    then some d.envelope.envelope_to
    else if equal name (codes "auth")
    then some d.envelope.auth_username
    else none

unfoldable pub visit_envelope :
    Services → RuntimeData → MatcherTest → AddressPart → Bytes → ℕ → Visit
visit_envelope services d t part field n = expand_vars d field >>= λ expanded.
    elim (envelope_part d (to_lower expanded)) [
      | none ↦ err (host_error field)
      | some value ↦ visit_filled services d t (test_address services d t part) value n
    ]

-- `EnvelopeTest.Check`
unfoldable pub check_envelope :
    Services → MatcherTest → AddressPart → List Bytes → RuntimeData → Result ExecError Found
check_envelope services t part names d =
    each (visit_envelope services d t part) names 0 >>= count_end d t

unfoldable pub visit_source : Services → RuntimeData → MatcherTest → Bytes → ℕ → Visit
visit_source services d t source n =
    expand_vars d source >>= λ value. visit_filled services d t (try_match services d t) value n

-- `TestString.Check`
unfoldable pub check_string :
    Services → MatcherTest → List Bytes → RuntimeData → Result ExecError Found
check_string services t sources d = each (visit_source services d t) sources 0 >>= count_end d t
