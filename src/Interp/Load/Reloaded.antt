-- ===== src/Interp/Load/Reloaded.antt =====
-- On interp/load_tests.go: the tests that a printer has written.
use go_sieve.Interp.Checks
use go_sieve.Interp.Checks.{SizeTest}
use go_sieve.Interp.Load.Binds.{waiting, bind_args-list}
use go_sieve.Interp.Load.Print.{
  nowhere, size_args, print_test, print_tests, ArePlain, IsTest, AreTests,
}
use go_sieve.Interp.Load.Compared.{new_compared, mime_spec_tags, validate_mime_tags}
use go_sieve.Interp.Load.Shape.{LoadError, SpecTag, SpecPosArg, plain_spec}
use go_sieve.Interp.Load.Spec.{
  load_args, load_given_tests, load_given_block, load_spec, all_optional, add_tests, bind_args,
  bind_arg, bind_free, bind_tag, call_bool, bind_pos, pos_value, pass_number, tag_named,
}
use go_sieve.Interp.Load.Tests.{
  load_constant, load_not, load_several, load_size, load_exists, size_spec, exists_spec, same,
  add_last,
}
use go_sieve.Interp.Load.TestTable.{number_of, test_named, load_test, load_tests}
use go_sieve.Interp.Matcher.{Services}
use go_sieve.Interp.Script.{Script}
use go_sieve.Interp.Text.{to_lower, lower_byte}
use go_sieve.Parser.Syntax.{Arg, string_list_arg}
use go_sieve.Prelude.{
  ℤ, pos, ◌≡◌, ◌≢◌, refl, sym, ap, ◌∙◌, ℕ, suc, Bool, true, false, ◌&&◌, ltb, ◌==◌, List, [], ◌∷◌,
  none, Bytes, equal, Result, ok, arith,
}

-- Behind arguments that leave only optional ones, a specification without tests and block has been met.
pub load_spec-plain :
    {S : Type 0} (s : Script) (tags : List (Bytes × SpecTag S)) (rest more : List (SpecPosArg S))
    (args : List Arg) (load : Script → Result LoadError Checks.Tests) (x y : S)
    → bind_args s (plain_spec tags rest) args (waiting rest x) ≡ ok (waiting more y)
    → all_optional more ≡ true
    → load_spec s
        (plain_spec tags rest)
        (record { args = args; tests = record { number = 0; load = load }; block = none })
        x
      ≡ ok (y, s)
unfolding load_spec load_args load_given_tests load_given_block
load_spec-plain s tags rest more args load x y e o = rw e (rw o refl)

append : Checks.Tests → Checks.Tests → Checks.Tests
append Checks.no_tests us = us
append (Checks.more_tests t ts) us = Checks.more_tests t (append ts us)

append_last :
    (ts : Checks.Tests) (t : Checks.Test) (us : Checks.Tests)
    → append (add_last t ts) us ≡ append ts (Checks.more_tests t us)
unfolding append
append_last Checks.no_tests t us = refl
append_last (Checks.more_tests u ts) t us = ap (Checks.more_tests u) (append_last ts t us)

append_none : (ts : Checks.Tests) → append ts Checks.no_tests ≡ ts
unfolding append
append_none Checks.no_tests = refl
append_none (Checks.more_tests t ts) = ap (Checks.more_tests t) (append_none ts)

add_tests-append : (ts us : Checks.Tests) → add_tests add_last ts us ≡ append us ts
unfolding add_tests
add_tests-append Checks.no_tests us = sym (append_none us)
add_tests-append (Checks.more_tests t ts) us =
    add_tests-append ts (add_last t us) ∙ append_last us t ts

module _ (s : Script) where
  size_args-bind :
      (o u : Bool) (n : ℤ)
      → bind_args s size_spec
          (size_args (record { size = n; over = o; under = u }))
          (waiting size_spec.pos (record { size = pos 0; over = false; under = false }))
        ≡ ok (waiting [] (record { size = n; over = o; under = u }))
  unfolding bind_args bind_arg bind_free bind_tag call_bool bind_pos pos_value pass_number tag_named
      to_lower lower_byte equal
  size_args-bind true true n = refl
  size_args-bind true false n = refl
  size_args-bind false true n = refl
  size_args-bind false false n = refl

  load_size_lem :
      (t : SizeTest) (load : Script → Result LoadError Checks.Tests)
      → same t.under t.over ≡ false
      → load_size s
          (record { args = size_args t; tests = record { number = 0; load = load }; block = none })
        ≡ ok (Checks.size_test t)
  unfolding load_size all_optional
  load_size_lem t load h =
      rw
        (load_spec-plain s size_spec.tags size_spec.pos [] (size_args t) load _ t
          (size_args-bind t.over t.under t.size) refl)
        (rw h refl)

  load_exists_lem :
      (l : List Bytes) (load : Script → Result LoadError Checks.Tests)
      → ArePlain s l
      → load_exists s (record {
        args = string_list_arg l nowhere ∷ [];
        tests = record { number = 0; load = load };
        block = none;
      })
        ≡ ok (Checks.exists_test l)
  unfolding load_exists validate_mime_tags equal bind_args all_optional
  load_exists_lem l load h =
      rw
        (load_spec-plain s mime_spec_tags exists_spec.pos [] (string_list_arg l nowhere ∷ []) load
          new_compared (record new_compared { names = l })
          (bind_args-list s exists_spec 1 false (λ k c. record c { names = k }) l [] [] new_compared
            refl h)
          refl)
        refl

  load_constant_lem :
      (t : Checks.Test) (load : Script → Result LoadError Checks.Tests)
      → load_constant t s
          (record { args = []; tests = record { number = 0; load = load }; block = none })
        ≡ ok t
  unfolding load_constant bind_args all_optional
  load_constant_lem t load = rw (load_spec-plain s [] [] [] [] load tt tt refl refl) refl

  load_not_lem :
      (t : Checks.Test) (load : Script → Result LoadError Checks.Tests)
      → load s ≡ ok (Checks.more_tests t Checks.no_tests)
      → load_not s (record { args = []; tests = record { number = 1; load = load }; block = none })
        ≡ ok (Checks.not_test t)
  unfolding load_not load_spec load_args bind_args all_optional load_given_tests load_given_block
      add_tests
  load_not_lem t load h = rw h refl

  load_several_lem :
      (make : Checks.Tests → Checks.Test) (n : ℕ) (ts : Checks.Tests)
      (load : Script → Result LoadError Checks.Tests)
      → load s ≡ ok ts
      → load_several make s
          (record { args = []; tests = record { number = suc n; load = load }; block = none })
        ≡ ok (make ts)
  unfolding load_several load_spec load_args bind_args all_optional load_given_tests
      load_given_block append
  load_several_lem make n ts load h =
      let e : (suc n == 0) ≡ false = ground arith in
      let f : (ltb 1 (suc n) && false) ≡ false = ground arith in
      rw e (rw f (rw h (rw (add_tests-append ts Checks.no_tests) refl)))

print_tests-number :
    (ts : Checks.Tests) → ts ≢ Checks.no_tests → (n : ℕ) × (number_of (print_tests ts) ≡ suc n)
unfolding print_tests number_of
print_tests-number Checks.no_tests h = absurd (h refl)
print_tests-number (Checks.more_tests t ts) h = (_, refl)

mutual
  unfolding load_test load_tests print_test print_tests test_named to_lower lower_byte equal
      number_of IsTest AreTests

  pub load_test-print_test :
      (services : Services) (s : Script) (t : Checks.Test)
      → IsTest s t
      → load_test services (print_test t) s ≡ ok t
  load_test-print_test services s Checks.true_test h = load_constant_lem s Checks.true_test _
  load_test-print_test services s Checks.false_test h = load_constant_lem s Checks.false_test _
  load_test-print_test services s (Checks.not_test t) h =
      load_not_lem s t _ (rw (load_test-print_test services s t h) refl)
  load_test-print_test services s (Checks.all_of ts) (h, k) =
      let (n, e) = print_tests-number ts k in
      rw e (load_several_lem s Checks.all_of n ts _ (load_tests-print_tests services s ts h))
  load_test-print_test services s (Checks.any_of ts) (h, k) =
      let (n, e) = print_tests-number ts k in
      rw e (load_several_lem s Checks.any_of n ts _ (load_tests-print_tests services s ts h))
  load_test-print_test services s (Checks.size_test t) h = load_size_lem s t _ h
  load_test-print_test services s (Checks.exists_test l) h = load_exists_lem s l _ h
  load_test-print_test services s (Checks.matching f) h = absurd h

  load_tests-print_tests :
      (services : Services) (s : Script) (ts : Checks.Tests)
      → AreTests s ts
      → load_tests services (print_tests ts) s ≡ ok ts
  load_tests-print_tests services s Checks.no_tests h = refl
  load_tests-print_tests services s (Checks.more_tests t ts) (h, k) =
      rw (load_test-print_test services s t h) (rw (load_tests-print_tests services s ts k) refl)
