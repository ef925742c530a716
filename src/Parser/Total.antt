-- ===== src/Parser/Total.antt =====
-- On the recursion of parser/parse.go and the fuel of its model.
use go_sieve.Lexer.Stream.{Stream, new_stream}
use go_sieve.Lexer.Token.{
  Token, identifier, number, string, list_start, list_end, block_start, block_end, test_list_start,
  test_list_end, comma, semicolon, colon,
}
use go_sieve.Parser.Parse.{
  Options, exceeds, fail, read_string_list, read_tag, read_arguments, read_args, read_test_list,
  close_block, parse, parse_loop, parse_end, parse_stream,
}
use go_sieve.Parser.Syntax.{Arg, Tests, no_tests, Cmds, no_cmds}
use go_sieve.Prelude.{
  ℕ, zero, suc, ◌+◌, ◌*◌, ◌≤◌, ◌≢◌, Bool, true, false, not, List, [], ◌∷◌, ◌++◌, Option, none, some,
  arith, Bytes, length, out_of_fuel, Ends, Ends-bind, Ends-if, Ends-ne-out_of_fuel,
}

-- At most `n` tokens are left.
abbrev pub LeftLe : {A : Type 0} → ℕ → A × Stream → Type 0
LeftLe n (_, (_, ts)) = length ts ≤ n

fail-Ends :
    {A : Type 0} (P : A × Stream → Type 0) (l : Option Token) (why : _) → Ends P (fail l why)
fail-Ends P none why = tt
fail-Ends P (some t) why = tt

read_string_list-Ends :
    (need : Bool) (res : List Bytes) (ts : List Token)
    → Ends (LeftLe (length ts)) (read_string_list need res ts)
unfolding read_string_list
read_string_list-Ends need res [] = tt
read_string_list-Ends need res (string p t ∷ r) =
    ground (arith, read_string_list-Ends false (res ++ t ∷ []) r)
read_string_list-Ends need res (comma p ∷ r) = ground (arith, read_string_list-Ends true res r)
read_string_list-Ends need res (list_end p ∷ r) = omega arith
read_string_list-Ends need res (_ ∷ r) = tt

read_tag-Ends : (c : Token) (ts : List Token) → Ends (LeftLe (length ts)) (read_tag c ts)
unfolding read_tag
read_tag-Ends c [] = tt
read_tag-Ends c (identifier p t ∷ r) = omega arith
read_tag-Ends c (_ ∷ r) = tt

mutual
  unfolding read_arguments

  read_arguments-Ends :
      (f : ℕ) (o : Options) (for_test : Bool) (nesting : ℕ) (l : Option Token) (ts : List Token)
      (n : ℕ)
      → 2 * length ts + 2 ≤ f
      → length ts ≤ n
      → Ends (LeftLe n) (read_arguments f o for_test nesting (l, ts))
  read_arguments-Ends zero o ft k l ts n h g = absurd (omega arith)
  read_arguments-Ends (suc f) o ft k l ts n h g =
      Ends-if (LeftLe n) (exceeds o.max_test_nesting k) _ _ (λ _. fail-Ends (LeftLe n) l _)
        λ _. read_args-Ends f o ft k [] no_tests l ts n (omega arith) g

  read_args-Ends :
      (f : ℕ) (o : Options) (for_test : Bool) (nesting : ℕ) (args : List Arg) (tests : Tests)
      (l : Option Token) (ts : List Token) (n : ℕ)
      → 2 * length ts + 1 ≤ f
      → length ts ≤ n
      → Ends (LeftLe n) (read_args f o for_test nesting args tests (l, ts))
  read_args-Ends zero o ft k args tests l ts n h g = absurd (omega arith)
  read_args-Ends (suc f) o ft k args tests l [] n h g = fail-Ends (LeftLe n) l _
  read_args-Ends (suc f) o ft k args tests l (semicolon p ∷ r) n h g = g
  read_args-Ends (suc f) o ft k args tests l (block_start p ∷ r) n h g = g
  read_args-Ends (suc f) o ft k args tests l (comma p ∷ r) n h g =
      Ends-if (LeftLe n) (not ft) _ _ (λ _. fail-Ends (LeftLe n) l _) λ _. g
  read_args-Ends (suc f) o ft k args tests l (test_list_end p ∷ r) n h g =
      Ends-if (LeftLe n) (not ft) _ _ (λ _. fail-Ends (LeftLe n) l _) λ _. g
  read_args-Ends (suc f) o ft k args tests l (string p t ∷ r) n h g =
      read_args-Ends f o ft k _ tests _ r n (omega arith) (omega arith)
  read_args-Ends (suc f) o ft k args tests l (list_start p ∷ r) n h g =
      Ends-bind (LeftLe (length r)) (LeftLe n) (read_string_list true [] r) _
        (read_string_list-Ends true [] r)
        λ (list, (l', ts)) e. read_args-Ends f o ft k _ tests l' ts n (omega arith) (omega arith)
  read_args-Ends (suc f) o ft k args tests l (number p m q ∷ r) n h g =
      read_args-Ends f o ft k _ tests _ r n (omega arith) (omega arith)
  read_args-Ends (suc f) o ft k args tests l (colon p ∷ r) n h g =
      Ends-bind (LeftLe (length r)) (LeftLe n) (read_tag (colon p) r) _ (read_tag-Ends (colon p) r)
        λ (id, (l', ts)) e. read_args-Ends f o ft k _ tests l' ts n (omega arith) (omega arith)
  read_args-Ends (suc f) o ft k args tests l (identifier p t ∷ r) n h g =
      Ends-bind (LeftLe (length r)) (LeftLe n) (read_arguments f o true (k + 1) _) _
        (read_arguments-Ends f o true (k + 1) _ r (length r) (omega arith) (omega arith))
        λ ((bs, us), (l', ts)) e. read_args-Ends f o ft k args _ l' ts n (omega arith) (omega arith)
  read_args-Ends (suc f) o ft k args tests l (test_list_start p ∷ r) n h g =
      Ends-bind (LeftLe n) (LeftLe n) (read_test_list f o k true no_tests _) _
        (read_test_list-Ends f o k true no_tests _ r n (omega arith) (omega arith))
        λ (us, (l', ts)) e. e
  read_args-Ends (suc f) o ft k args tests l (_ ∷ r) n h g = fail-Ends (LeftLe n) l _

  read_test_list-Ends :
      (f : ℕ) (o : Options) (nesting : ℕ) (need : Bool) (res : Tests) (l : Option Token)
      (ts : List Token) (n : ℕ)
      → 2 * length ts + 1 ≤ f
      → length ts ≤ n
      → Ends (LeftLe n) (read_test_list f o nesting need res (l, ts))
  read_test_list-Ends zero o k need res l ts n h g = absurd (omega arith)
  read_test_list-Ends (suc f) o k need res l [] n h g = tt
  read_test_list-Ends (suc f) o k need res l (identifier p t ∷ r) n h g =
      Ends-if (LeftLe n) (not need) _ _ (λ _. tt)
        λ _.
          Ends-bind (LeftLe (length r)) (LeftLe n) (read_arguments f o true (k + 1) _) _
            (read_arguments-Ends f o true (k + 1) _ r (length r) (omega arith) (omega arith))
            λ ((bs, us), (l', ts)) e.
              read_test_list-Ends f o k false _ l' ts n (omega arith) (omega arith)
  read_test_list-Ends (suc f) o k need res l (comma p ∷ r) n h g =
      Ends-if (LeftLe n) need _ _ (λ _. tt)
        λ _. read_test_list-Ends f o k true res _ r n (omega arith) (omega arith)
  read_test_list-Ends (suc f) o k need res l (test_list_end p ∷ r) n h g = omega arith
  read_test_list-Ends (suc f) o k need res l (_ ∷ r) n h g = tt

close_block-Ends :
    (n : ℕ) (cmds : Cmds) (l : Option Token) (ts : List Token)
    → length ts ≤ n
    → Ends (LeftLe n) (close_block cmds (l, ts))
unfolding close_block
close_block-Ends n cmds none ts h = tt
close_block-Ends n cmds (some t) ts h = h

mutual
  unfolding parse

  parse-Ends :
      (f : ℕ) (o : Options) (nesting : ℕ) (l : Option Token) (ts : List Token) (n : ℕ)
      → 2 * length ts + 2 ≤ f
      → length ts ≤ n
      → Ends (LeftLe n) (parse f o nesting (l, ts))
  parse-Ends zero o k l ts n h g = absurd (omega arith)
  parse-Ends (suc f) o k l ts n h g =
      Ends-if (LeftLe n) (exceeds o.max_block_nesting k) _ _ (λ _. fail-Ends (LeftLe n) l _)
        λ _. parse_loop-Ends f o k no_cmds l ts n (omega arith) g

  parse_loop-Ends :
      (f : ℕ) (o : Options) (nesting : ℕ) (res : Cmds) (l : Option Token) (ts : List Token) (n : ℕ)
      → 2 * length ts + 1 ≤ f
      → length ts ≤ n
      → Ends (LeftLe n) (parse_loop f o nesting res (l, ts))
  parse_loop-Ends zero o k res l ts n h g = absurd (omega arith)
  parse_loop-Ends (suc f) o k res l [] n h g = omega arith
  parse_loop-Ends (suc f) o k res l (identifier p t ∷ r) n h g =
      Ends-bind (LeftLe (length r)) (LeftLe n) (read_arguments (2 * length r + 2) o false 0 _) _
        (read_arguments-Ends (2 * length r + 2) o false 0 _ r (length r) (omega arith)
          (omega arith))
        λ ((args, tests), (l', ts)) e.
          Ends-bind (LeftLe (length r)) (LeftLe n) (parse_end f o k (l', ts)) _
            (parse_end-Ends f o k l' ts (length r) (omega arith) e)
            λ (blk, (m, us)) e'. parse_loop-Ends f o k _ m us n (omega arith) (omega arith)
  parse_loop-Ends (suc f) o k res l (block_end p ∷ r) n h g = omega arith
  parse_loop-Ends (suc f) o k res l (_ ∷ r) n h g = tt

  parse_end-Ends :
      (f : ℕ) (o : Options) (nesting : ℕ) (l : Option Token) (ts : List Token) (n : ℕ)
      → 2 * length ts + 1 ≤ f
      → length ts ≤ n
      → Ends (LeftLe n) (parse_end f o nesting (l, ts))
  parse_end-Ends zero o k l ts n h g = absurd (omega arith)
  parse_end-Ends (suc f) o k l [] n h g = tt
  parse_end-Ends (suc f) o k l (semicolon p ∷ r) n h g = omega arith
  parse_end-Ends (suc f) o k l (block_start p ∷ r) n h g =
      Ends-bind (LeftLe n) (LeftLe n) (parse f o (k + 1) _) _
        (parse-Ends f o (k + 1) _ r n (omega arith) (omega arith))
        λ (cmds, (l', ts)) e. close_block-Ends n cmds l' ts e
  parse_end-Ends (suc f) o k l (_ ∷ r) n h g = tt

-- `Parse` returns commands or an error on every token list: the fuel of the model never runs out.
pub parse_stream-ne-out_of_fuel :
    (o : Options) (toks : List Token) → parse_stream o toks ≢ out_of_fuel
unfolding parse_stream new_stream
parse_stream-ne-out_of_fuel o toks =
    Ends-ne-out_of_fuel (LeftLe (length toks)) _
      (parse-Ends (2 * length toks + 2) o 0 none toks (length toks) (omega arith) (omega arith))
