-- ===== src/Parser/RoundTrip.antt =====
-- On parser/parse.go at printed arguments and tests.
use go_sieve.Lexer.Token.{
  Position, Token, identifier, list_end, block_start, test_list_start, test_list_end, comma,
  semicolon, colon, multiplier, no_quantifier,
}
use go_sieve.Parser.Parse.{
  Options, Parsed, exceeds, read_string_list, read_tag, read_arguments, read_args, read_test_list,
}
use go_sieve.Parser.Print.{
  nowhere, emit_strings, emit_args, emit_test, emit_more, emit_tests, IsPrintable, FitsTest,
  FitsTests,
}
use go_sieve.Parser.Syntax.{
  Arg, number_arg, string_arg, string_list_arg, tag_arg, Test, test, Tests, no_tests, more_tests,
  add_test,
}
use go_sieve.Prelude.{
  ℕ, zero, suc, ◌+◌, ◌*◌, ◌^◌, ◌≤◌, ◌<◌, ◌≡◌, refl, ap, ◌∙◌, to_int, to_int-pos, pos, negsuc, Bool,
  true, false, List, [], ◌∷◌, ◌++◌, append_assoc, append-nil, Option, some, arith, Bytes, length,
  ok, All,
}

-- The run returns `a` and leaves `ts`, whatever token the cursor is on.
abbrev pub Leaves : {A : Type 0} → Parsed A → A → List Token → Type 0
Leaves r a ts = (l : Option Token) × (r ≡ ok (a, (l, ts)))

read_string_list-emit :
    (l : List Bytes) (first : Bool) (res : List Bytes) (rest : List Token)
    → Leaves (read_string_list first res (emit_strings first l rest)) (res ++ l) rest
unfolding read_string_list
read_string_list-emit [] first res rest = (some (list_end nowhere), rw append-nil)
read_string_list-emit (s ∷ l) true res rest =
    rw (append_assoc res (s ∷ []) l) at (read_string_list-emit l false (res ++ s ∷ []) rest)
read_string_list-emit (s ∷ l) false res rest =
    rw (append_assoc res (s ∷ []) l) at (read_string_list-emit l false (res ++ s ∷ []) rest)

read_tag-emit :
    (c : Token) (p : Position) (t : Bytes) (rest : List Token)
    → read_tag c (identifier p t ∷ rest) ≡ ok (t, (some (identifier p t), rest))
unfolding read_tag
read_tag-emit c p t rest = refl

length-emit_strings :
    (l : List Bytes) (first : Bool) (rest : List Token)
    → length rest < length (emit_strings first l rest)
length-emit_strings [] first rest = omega arith
length-emit_strings (s ∷ l) true rest = omega (arith, length-emit_strings l false rest)
length-emit_strings (s ∷ l) false rest = omega (arith, length-emit_strings l false rest)

to_int-printed : (n : ℕ) → n < 2 ^ 63 → to_int (n * multiplier no_quantifier) ≡ pos n
unfolding multiplier
to_int-printed n h = ap to_int (omega arith) ∙ to_int-pos n h

-- The arguments in front of `tail`, if the loop goes on from there to the tests `tests`.
module _ (o : Options) (ft : Bool) (k : ℕ) (tests : Tests) (tail rest : List Token) where
  abbrev pub Continues : Type 0
  Continues =
      (f : ℕ) (l : Option Token) (args : List Arg)
      → 2 * length tail + 1 ≤ f
      → Leaves (read_args f o ft k args no_tests (l, tail)) (args, tests) rest

  pub read_args-emit_args :
      (args : List Arg)
      → All IsPrintable args
      → Continues
      → (f : ℕ) (l : Option Token) (acc : List Arg) → 2 * length (emit_args args tail) + 1 ≤ f
      → Leaves (read_args f o ft k acc no_tests (l, emit_args args tail)) (acc ++ args, tests) rest
  unfolding read_args
  read_args-emit_args [] h go f l acc b = rw append-nil (go f l acc b)
  read_args-emit_args (number_arg (negsuc n) p ∷ more) h go f l acc b = absurd h.0
  read_args-emit_args (a ∷ more) h go zero l acc b = absurd (omega arith)
  read_args-emit_args (number_arg (pos n) p ∷ more) h go (suc f) l acc b =
      rw (to_int-printed n h.0, ← append_assoc acc (number_arg (pos n) p ∷ []) more)
        (read_args-emit_args more h.1 go f _ _ (omega arith))
  read_args-emit_args (string_arg s p ∷ more) h go (suc f) l acc b =
      rw (← append_assoc acc (string_arg s p ∷ []) more)
        (read_args-emit_args more h.1 go f _ _ (omega arith))
  read_args-emit_args (string_list_arg s p ∷ more) h go (suc f) l acc b =
      let (m, e) = read_string_list-emit s true [] (emit_args more tail) in
      rw (e, ← append_assoc acc (string_list_arg s p ∷ []) more)
        (read_args-emit_args more h.1 go f m _
          (omega (arith, length-emit_strings s true (emit_args more tail))))
  read_args-emit_args (tag_arg t p ∷ more) h go (suc f) l acc b =
      rw
        (
          read_tag-emit (colon p) p t (emit_args more tail),
          ← append_assoc acc (tag_arg t p ∷ []) more,
        )
        (read_args-emit_args more h.1 go f _ _ (omega arith))

-- Tokens at which a test's or a command's arguments end.
abbrev pub Stops : Bool → List Token → Type 0
Stops ft (semicolon p ∷ r) = Unit
Stops ft (block_start p ∷ r) = Unit
Stops ft (comma p ∷ r) = ft ≡ true
Stops ft (test_list_end p ∷ r) = ft ≡ true
Stops ft _ = ⊥

pub read_args-Stops :
    (o : Options) (ft : Bool) (k f : ℕ) (l : Option Token) (args : List Arg) (tests : Tests)
    (rest : List Token)
    → Stops ft rest
    → 1 ≤ f
    → Leaves (read_args f o ft k args tests (l, rest)) (args, tests) rest
unfolding read_args
read_args-Stops o ft k zero l args tests rest h b = absurd (omega arith)
read_args-Stops o ft k (suc f) l args tests (semicolon p ∷ r) h b = (l, refl)
read_args-Stops o ft k (suc f) l args tests (block_start p ∷ r) h b = (l, refl)
read_args-Stops o ft k (suc f) l args tests (comma p ∷ r) h b = (l, rw h)
read_args-Stops o ft k (suc f) l args tests (test_list_end p ∷ r) h b = (l, rw h)
read_args-Stops o ft k (suc f) l args tests _ h b = absurd h

-- `append(res, ts...)`
unfoldable pub append : Tests → Tests → Tests
append no_tests ts = ts
append (more_tests u us) ts = more_tests u (append us ts)

pub append-no_tests : (ts : Tests) → append ts no_tests ≡ ts
unfolding append
append-no_tests no_tests = refl
append-no_tests (more_tests t ts) = ap (more_tests t) (append-no_tests ts)

pub append-add_test :
    (us : Tests) (t : Test) (ts : Tests) → append (add_test us t) ts ≡ append us (more_tests t ts)
unfolding append add_test
append-add_test no_tests t ts = refl
append-add_test (more_tests u us) t ts = ap (more_tests u) (append-add_test us t ts)

-- A test's arguments and tests, behind its name; what follows ends them.
abbrev pub ReadsTest : Options → Test → Type 0
ReadsTest o (test p t args tests) =
    (k f : ℕ) (l : Option Token) (rest : List Token)
    → exceeds o.max_test_nesting k ≡ false
    → FitsTest o k (test p t args tests)
    → Stops true rest
    → 2 * length (emit_args args (emit_tests tests rest)) + 2 ≤ f
    → Leaves (read_arguments f o true k (l, emit_args args (emit_tests tests rest))) (args, tests)
        rest

abbrev pub ReadsMore : Options → Tests → Type 0
ReadsMore o ts =
    (k f : ℕ) (l : Option Token) (res : Tests) (rest : List Token)
    → FitsTests o k ts
    → 2 * length (emit_more ts rest) + 1 ≤ f
    → Leaves (read_test_list f o k false res (l, emit_more ts rest)) (append res ts) rest

pub emit_test-emit_tests :
    (p : Position) (t : Bytes) (args : List Arg) (tests : Tests) (rest : List Token)
    → emit_test (test p t args tests) rest ≡ identifier p t ∷ emit_args args (emit_tests tests rest)
unfolding emit_test
emit_test-emit_tests p t args no_tests rest = refl
emit_test-emit_tests p t args (more_tests u us) rest = refl

pub emit_more-Stops : (ts : Tests) (rest : List Token) → Stops true (emit_more ts rest)
unfolding emit_test
emit_more-Stops no_tests rest = refl
emit_more-Stops (more_tests t ts) rest = refl

pub length-emit_args :
    (args : List Arg) (rest : List Token) → length rest ≤ length (emit_args args rest)
length-emit_args [] rest = omega arith
length-emit_args (number_arg (pos n) p ∷ more) rest = omega (arith, length-emit_args more rest)
length-emit_args (number_arg (negsuc n) p ∷ more) rest = length-emit_args more rest
length-emit_args (string_arg s p ∷ more) rest = omega (arith, length-emit_args more rest)
length-emit_args (string_list_arg s p ∷ more) rest =
    omega (arith, length-emit_args more rest, length-emit_strings s true (emit_args more rest))
length-emit_args (tag_arg t p ∷ more) rest = omega (arith, length-emit_args more rest)

mutual
  unfolding emit_test

  pub length-emit_test : (t : Test) (rest : List Token) → length rest < length (emit_test t rest)
  length-emit_test (test p t args no_tests) rest = omega (arith, length-emit_args args rest)
  length-emit_test (test p t args (more_tests u us)) rest =
      let listed = emit_test u (emit_more us rest) in
      omega (
        arith,
        length-emit_args args (test_list_start nowhere ∷ listed),
        length-emit_test u (emit_more us rest),
        length-emit_more us rest,
      )

  pub length-emit_more : (ts : Tests) (rest : List Token) → length rest < length (emit_more ts rest)
  length-emit_more no_tests rest = omega arith
  length-emit_more (more_tests t ts) rest =
      omega (arith, length-emit_test t (emit_more ts rest), length-emit_more ts rest)
