-- ===== src/Interp/Load/Spec.antt =====
-- interp/load_generic.go, `LoadSpec`: the arguments, tests and block of a command or test, by a `Spec`.
use go_sieve.Interp.Load.Shape.{
  block_required, malformed_characters, match_bool, match_num, match_str, missing_argument,
  missing_matcher, no_block_allowed, no_tests_allowed, number_required, one_test_allowed,
  single_string, string_required, strings_count, test_required, too_many_arguments, unknown_tag,
  value_required,
}
use go_sieve.Interp.Load.Shape.{LoadError, Matcher, SpecTag, SpecPosArg, Spec}
use go_sieve.Interp.Checks
use go_sieve.Interp.Execute
use go_sieve.Interp.Load.Encoded.{decode_encoded_chars}
use go_sieve.Interp.Script.{Script, requires_extension}
use go_sieve.Interp.Text.{to_lower}
use go_sieve.Parser.Syntax.{Arg, number_arg, string_arg, string_list_arg, tag_arg}
use go_sieve.Prelude.{
  ℕ, ℤ, Bool, true, not, ◌&&◌, ◌||◌, List, [], ◌∷◌, Option, none, some, ltb, ◌==◌, if◌then◌else◌,
  Bytes, codes, equal, length, Result, ok, err, ◌>>=◌,
}

-- The variables of the loop over the arguments: `lastTag`, where it needs a value, what is left of
-- `Pos`, and what has been set.
pub record Binding (S : Type 0) : Type 0 where
  pub last_tag : Option (SpecTag S)
  pub rest : List (SpecPosArg S)
  pub value : S

unfoldable pub decoded : Script → Bytes → Result LoadError Bytes
decoded s v =
    if requires_extension s (codes "encoded-character")
    then elim (decode_encoded_chars v) [ none ↦ err malformed_characters | some t ↦ ok t ]
    else ok v

unfoldable pub decoded_list : Script → List Bytes → Result LoadError (List Bytes)
decoded_list s [] = ok []
decoded_list s (v ∷ l) = do t ← decoded s v; ts ← decoded_list s l; ok (t ∷ ts)

unfoldable pub pass_string : {S : Type 0} → Script → Matcher S → Bytes → S → Result LoadError S
pass_string s (match_num f) v x = err number_required
pass_string s (match_str f) v x = do t ← decoded s v; ok (f (t ∷ []) x)
pass_string s (match_bool f) v x = err missing_matcher

-- Whether a count of strings is outside the limits, of which 0 is none.
unfoldable pub wrong_count : ℕ → ℕ → ℕ → Bool
wrong_count least most n = not (least == 0) && ltb n least || not (most == 0) && ltb most n

unfoldable pub pass_list : {S : Type 0} → Script → Matcher S → List Bytes → S → Result LoadError S
pass_list s (match_num f) l x = err number_required
pass_list s (match_str f) l x = do ts ← decoded_list s l; ok (f ts x)
pass_list s (match_bool f) l x = err missing_matcher

unfoldable pub pass_number : {S : Type 0} → Matcher S → ℤ → S → Result LoadError S
pass_number (match_str f) n x = err string_required
pass_number (match_num f) n x = ok (f n x)
pass_number (match_bool f) n x = err missing_matcher

-- The count is checked where the tag takes strings.
unfoldable pub pass_tag_list :
    {S : Type 0} → Script → SpecTag S → List Bytes → S → Result LoadError S
pass_tag_list s t l x = elim t.matcher [
  | match_num f ↦ err number_required
  | match_str f ↦
      if wrong_count t.min_str_count t.max_str_count (length l)
      then err strings_count
      else pass_list s (match_str f) l x
  | match_bool f ↦ err missing_matcher
]

-- The value of the last tag.
unfoldable pub tag_value : {S : Type 0} → Script → SpecTag S → Arg → S → Result LoadError S
tag_value s t (string_arg v p) x = pass_string s t.matcher v x
tag_value s t (string_list_arg l p) x = pass_tag_list s t l x
tag_value s t (number_arg n p) x = pass_number t.matcher n x
tag_value s t (tag_arg v p) x = err value_required

-- A positional argument.
unfoldable pub pos_value : {S : Type 0} → Script → SpecPosArg S → Arg → S → Result LoadError S
pos_value s a (string_arg v p) x =
    if ltb 1 a.min_str_count then err single_string else pass_string s a.matcher v x
pos_value s a (string_list_arg l p) x =
    if wrong_count a.min_str_count a.max_str_count (length l)
    then err strings_count
    else pass_list s a.matcher l x
pos_value s a (number_arg n p) x = pass_number a.matcher n x
pos_value s a (tag_arg v p) x = err value_required

unfoldable pub tag_named : {S : Type 0} → Bytes → List (Bytes × SpecTag S) → Option (SpecTag S)
tag_named name [] = none
tag_named name ((k, t) ∷ tags) = if equal k name then some t else tag_named name tags

unfoldable pub call_bool : {S : Type 0} → Matcher S → S → Result LoadError S
call_bool (match_bool f) x = ok (f x)
call_bool (match_str f) x = err missing_matcher
call_bool (match_num f) x = err missing_matcher

-- A tag where none waits for its value.
unfoldable pub bind_tag : {S : Type 0} → SpecTag S → Binding S → Result LoadError (Binding S)
bind_tag t b =
    if t.needs_value
    then ok (record b { last_tag = some t })
    else (call_bool t.matcher b.value >>= λ x. ok (record b { value = x }))

unfoldable pub bind_pos :
    {S : Type 0} → Script → List (SpecPosArg S) → Arg → Binding S → Result LoadError (Binding S)
bind_pos s [] arg b = err too_many_arguments
bind_pos s (a ∷ rest) arg b =
    pos_value s a arg b.value >>= λ x. ok (record b { rest = rest; value = x })

-- An argument where no tag waits for its value.
unfoldable pub bind_free :
    {S : Type 0} → Script → Spec S → Arg → Binding S → Result LoadError (Binding S)
bind_free s spec (tag_arg v p) b = elim (tag_named (to_lower v) spec.tags) [
  | none ↦ err (unknown_tag v)
  | some t ↦ bind_tag t b
]
bind_free s spec (string_arg v p) b = bind_pos s b.rest (string_arg v p) b
bind_free s spec (string_list_arg l p) b = bind_pos s b.rest (string_list_arg l p) b
bind_free s spec (number_arg n p) b = bind_pos s b.rest (number_arg n p) b

unfoldable pub bind_value :
    {S : Type 0} → Script → SpecTag S → Arg → Binding S → Result LoadError (Binding S)
bind_value s t arg b =
    tag_value s t arg b.value >>= λ x. ok (record b { last_tag = none; value = x })

unfoldable pub bind_arg :
    {S : Type 0} → Script → Spec S → Arg → Binding S → Result LoadError (Binding S)
bind_arg s spec arg b = elim b.last_tag [
  | some t ↦ bind_value s t arg b
  | none ↦ bind_free s spec arg b
]

-- The loop over the arguments.
unfoldable pub bind_args :
    {S : Type 0} → Script → Spec S → List Arg → Binding S → Result LoadError (Binding S)
bind_args s spec [] b = ok b
bind_args s spec (arg ∷ args) b = do next ← bind_arg s spec arg b; bind_args s spec args next

unfoldable pub all_optional : {S : Type 0} → List (SpecPosArg S) → Bool
all_optional [] = true
all_optional (a ∷ rest) = a.optional && all_optional rest

-- The arguments, and the positional ones that are missing. A tag that still waits for its value is no
-- error.
unfoldable pub load_args : {S : Type 0} → Script → Spec S → List Arg → S → Result LoadError S
load_args s spec args x = do
  b ← bind_args s spec args (record { last_tag = none; rest = spec.pos; value = x })
  if all_optional b.rest then ok b.value else err missing_argument

-- The tests of a command or test: how many there are, and what loads them.
pub record GivenTests : Type 0 where
  pub number : ℕ
  pub load : Script → Result LoadError Checks.Tests

unfoldable pub add_tests : {S : Type 0} → (Checks.Test → S → S) → Checks.Tests → S → S
add_tests add Checks.no_tests x = x
add_tests add (Checks.more_tests t ts) x = add_tests add ts (add t x)

unfoldable pub load_given_tests :
    {S : Type 0} → Script → Spec S → GivenTests → S → Result LoadError S
load_given_tests s spec given x = elim spec.add_test [
  | none ↦ if given.number == 0 then ok x else err no_tests_allowed
  | some add ↦
      if given.number == 0 && not spec.test_optional
      then err test_required
      else if ltb 1 given.number && not spec.multiple_tests
      then err one_test_allowed
      else (given.load s >>= λ ts. ok (add_tests add ts x))
]

-- The block of a command, if it has one: what loads it, with the script behind it.
abbrev pub GivenBlock : Type 0
GivenBlock = Option (Script → Result LoadError (Execute.Cmds × Script))

unfoldable pub load_given_block :
    {S : Type 0} → Script → Spec S → GivenBlock → S → Result LoadError (S × Script)
load_given_block s spec given x = elim spec.add_block [
  | none ↦ elim given [ none ↦ ok (x, s) | some load ↦ err no_block_allowed ]
  | some add ↦ elim given [
    | none ↦ if spec.block_optional then ok (x, s) else err block_required
    | some load ↦ (load s >>= λ r. ok (add (r.0) x, r.1))
  ]
]

-- What stands behind the name of a command or test.
pub record Given : Type 0 where
  pub args : List Arg
  pub tests : GivenTests
  pub block : GivenBlock

-- `LoadSpec`
unfoldable pub load_spec :
    {S : Type 0} → Script → Spec S → Given → S → Result LoadError (S × Script)
load_spec s spec given x = do
  bound ← load_args s spec given.args x
  tested ← load_given_tests s spec given.tests bound
  load_given_block s spec given.block tested
