-- ===== src/Parser/Reread.antt =====
-- On parser/parse.go: the arguments and tests of printed tests and commands.
use go_sieve.Lexer.Token.{Token, identifier, test_list_start, test_list_end, comma}
use go_sieve.Parser.Parse.{Options, exceeds, read_arguments, read_args, read_test_list}
use go_sieve.Parser.Print.{
  nowhere, emit_args, emit_test, emit_more, emit_tests, IsPrintable, FitsTest, FitsTests,
}
use go_sieve.Parser.Syntax.{Arg, Test, test, Tests, no_tests, more_tests}
use go_sieve.Prelude.{
  ℕ, zero, suc, ◌+◌, ◌*◌, ◌≤◌, ◌≡◌, ap, Bool, true, false, List, [], Option, some, arith, length,
  All,
}
use go_sieve.Parser.RoundTrip.{
  Leaves, Continues, read_args-emit_args, Stops, read_args-Stops, append, append-no_tests,
  append-add_test, ReadsTest, ReadsMore, emit_test-emit_tests, emit_more-Stops, length-emit_test,
}

-- One test of a list, and the tests behind it.
read_test_list-test :
    (o : Options) (t : Test) (ts : Tests)
    → ReadsTest o t
    → ReadsMore o ts
    → (k f : ℕ) (l : Option Token) (res : Tests) (rest : List Token)
    → FitsTests o k (more_tests t ts)
    → 2 * length (emit_test t (emit_more ts rest)) + 1 ≤ f
    → Leaves
        (read_test_list f o k true res (l, emit_test t (emit_more ts rest)))
        (append res (more_tests t ts))
        rest
unfolding read_test_list FitsTests
read_test_list-test o t ts one more k zero l res rest h b = absurd (omega arith)
read_test_list-test o (test p t args tests) ts one more k (suc f) l res rest h b =
    let back = emit_more ts rest in
    let e = emit_test-emit_tests p t args tests back in
    let (m, read) =
      one (k + 1) f (some (identifier p t)) back h.0 h.1 (emit_more-Stops ts rest)
        (omega (arith, ap length e)) in
    rw e (
      rw read (
        rw (← append-add_test res (test p t args tests) ts)
          (more k f m _ rest h.2 (omega (arith, length-emit_test (test p t args tests) back)))))

abbrev pub ReadsParts : Options → Tests → Type 0
ReadsParts o no_tests = Unit
ReadsParts o (more_tests t ts) = ReadsTest o t × ReadsMore o ts

-- The tests of a test or a command, once its arguments are read.
read_args-emit_tests :
    (o : Options) (ft : Bool) (k : ℕ) (tests : Tests) (rest : List Token)
    → ReadsParts o tests
    → FitsTests o k tests
    → Stops ft rest
    → Continues o ft k tests (emit_tests tests rest) rest
unfolding read_args append emit_test
read_args-emit_tests o ft k no_tests rest parts h stop f l args b =
    read_args-Stops o ft k f l args no_tests rest stop (omega arith)
read_args-emit_tests o ft k (more_tests t ts) rest parts h stop zero l args b = absurd (omega arith)
read_args-emit_tests o ft k (more_tests t ts) rest parts h stop (suc f) l args b =
    let (m, e) =
      read_test_list-test o t ts parts.0 parts.1 k f (some (test_list_start nowhere)) no_tests rest
        h (omega arith) in
    (m, rw e)

-- The arguments and the tests of a test or a command.
pub read_arguments-emit_args :
    (o : Options) (ft : Bool) (k : ℕ) (args : List Arg) (tests : Tests) (rest : List Token)
    → ReadsParts o tests
    → exceeds o.max_test_nesting k ≡ false
    → All IsPrintable args
    → FitsTests o k tests
    → Stops ft rest
    → (f : ℕ) (l : Option Token) → 2 * length (emit_args args (emit_tests tests rest)) + 2 ≤ f
    → Leaves
        (read_arguments f o ft k (l, emit_args args (emit_tests tests rest)))
        (args, tests)
        rest
unfolding read_arguments
read_arguments-emit_args o ft k args tests rest parts d h fits stop zero l b = absurd (omega arith)
read_arguments-emit_args o ft k args tests rest parts d h fits stop (suc f) l b = rw d (
    read_args-emit_args o ft k tests (emit_tests tests rest) rest args h
      (read_args-emit_tests o ft k tests rest parts fits stop) f l [] (omega arith))

mutual
  unfolding FitsTest append emit_test read_test_list

  read_arguments-emit : (o : Options) (t : Test) → ReadsTest o t
  read_arguments-emit o (test p t args no_tests) = λ k f l rest d h stop b.
      read_arguments-emit_args o true k args no_tests rest tt d h.0 h.1 stop f l b
  read_arguments-emit o (test p t args (more_tests u us)) = λ k f l rest d h stop b.
      read_arguments-emit_args o true k args (more_tests u us) rest
        (read_arguments-emit o u, read_test_list-emit_more o us) d h.0 h.1 stop f l b

  read_test_list-emit_more : (o : Options) (ts : Tests) → ReadsMore o ts
  read_test_list-emit_more o no_tests k zero l res rest h b = absurd (omega arith)
  read_test_list-emit_more o no_tests k (suc f) l res rest h b =
      (some (test_list_end nowhere), rw append-no_tests)
  read_test_list-emit_more o (more_tests t ts) k zero l res rest h b = absurd (omega arith)
  read_test_list-emit_more o (more_tests t ts) k (suc f) l res rest h b =
      read_test_list-test o t ts (read_arguments-emit o t) (read_test_list-emit_more o ts) k f
        (some (comma nowhere)) res rest h (omega arith)

pub ReadsParts-all : (o : Options) (tests : Tests) → ReadsParts o tests
ReadsParts-all o no_tests = tt
ReadsParts-all o (more_tests t ts) = (read_arguments-emit o t, read_test_list-emit_more o ts)
