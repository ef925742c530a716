-- ===== src/Parser/Nesting.antt =====
-- On the limits on nesting in parser/parse.go.
use go_sieve.Lexer.Stream.{Stream, new_stream}
use go_sieve.Lexer.Token.{
  Token, identifier, number, string, list_start, block_start, block_end, test_list_start,
  test_list_end, comma, semicolon, colon,
}
use go_sieve.Parser.Parse.{
  Options, Reason, exceeds, fail, read_string_list, read_tag, read_arguments, read_args,
  read_test_list, close_block, parse, parse_loop, parse_end, parse_stream,
}
use go_sieve.Parser.Syntax.{
  Arg, Test, test, Tests, no_tests, more_tests, add_test, Cmd, cmd, Block, no_block, block, Cmds,
  no_cmds, more_cmds, add_cmd,
}
use go_sieve.Prelude.{
  ℕ, zero, suc, ◌+◌, ◌*◌, ◌≤◌, ◌≡◌, ◌⊎◌, Bool, true, false, not, List, [], ◌∷◌, Option, none, some,
  arith, length, IfOk, IfOk-bind, IfOk-if, IfOk-ok, IfOk-weaken, IfOk_lem, ok,
}

-- The tests within a test that stands inside `nesting` others, and so for blocks.
unfoldable mutual
  pub TestsWithin : Options → ℕ → Tests → Type 0
  TestsWithin o k no_tests = Unit
  TestsWithin o k (more_tests t ts) =
      ((o.max_test_nesting ≡ 0) ⊎ (k + 1 ≤ o.max_test_nesting))
      × TestWithin o (k + 1) t
      × TestsWithin o k ts

  pub TestWithin : Options → ℕ → Test → Type 0
  TestWithin o k (test p t args tests) = TestsWithin o k tests

unfoldable mutual
  pub CmdsWithin : Options → ℕ → Cmds → Type 0
  CmdsWithin o k no_cmds = Unit
  CmdsWithin o k (more_cmds c cs) = CmdWithin o k c × CmdsWithin o k cs

  pub CmdWithin : Options → ℕ → Cmd → Type 0
  CmdWithin o k (cmd p t args tests b) = TestsWithin o 0 tests × BlockWithin o k b

  pub BlockWithin : Options → ℕ → Block → Type 0
  BlockWithin o k no_block = Unit
  BlockWithin o k (block cs) =
      ((o.max_block_nesting ≡ 0) ⊎ (k + 1 ≤ o.max_block_nesting)) × CmdsWithin o (k + 1) cs

add_test-TestsWithin :
    (o : Options) (k : ℕ) (ts : Tests) (t : Test)
    → TestsWithin o k ts
    → (o.max_test_nesting ≡ 0) ⊎ (k + 1 ≤ o.max_test_nesting)
    → TestWithin o (k + 1) t
    → TestsWithin o k (add_test ts t)
unfolding TestsWithin add_test
add_test-TestsWithin o k no_tests t h d w = (d, w, tt)
add_test-TestsWithin o k (more_tests u us) t h d w =
    (h.0, h.1, add_test-TestsWithin o k us t h.2 d w)

add_cmd-CmdsWithin :
    (o : Options) (k : ℕ) (cs : Cmds) (c : Cmd)
    → CmdsWithin o k cs
    → CmdWithin o k c
    → CmdsWithin o k (add_cmd cs c)
unfolding CmdsWithin add_cmd
add_cmd-CmdsWithin o k no_cmds c h w = (w, tt)
add_cmd-CmdsWithin o k (more_cmds d ds) c h w = (h.0, add_cmd-CmdsWithin o k ds c h.1 w)

exceeds→le : (max k : ℕ) → exceeds max k ≡ false → (max ≡ 0) ⊎ (k ≤ max)
exceeds→le max k h = ground arith

fail-IfOk :
    {A : Type 0} (P : A × Stream → Type 0) (l : Option Token) (why : Reason) → IfOk P (fail l why)
fail-IfOk P none why = tt
fail-IfOk P (some t) why = tt

-- The arguments' own nesting is within the limit, and so are the tests among them.
abbrev ArgumentsWithin : Options → ℕ → (List Arg × Tests) × Stream → Type 0
ArgumentsWithin o k ((args, tests), s) =
    ((o.max_test_nesting ≡ 0) ⊎ (k ≤ o.max_test_nesting)) × TestsWithin o k tests

abbrev ListWithin : Options → ℕ → (List Arg × Tests) × Stream → Type 0
ListWithin o k ((args, tests), s) = TestsWithin o k tests

mutual
  unfolding read_arguments TestsWithin

  read_arguments-Within :
      (f : ℕ) (o : Options) (ft : Bool) (k : ℕ) (l : Option Token) (ts : List Token)
      → IfOk (ArgumentsWithin o k) (read_arguments f o ft k (l, ts))
  read_arguments-Within zero o ft k l ts = tt
  read_arguments-Within (suc f) o ft k l ts =
      IfOk-if (ArgumentsWithin o k) (exceeds o.max_test_nesting k) _ _ (λ _. fail-IfOk _ l _)
        λ d.
          IfOk-weaken (ListWithin o k) (ArgumentsWithin o k)
            (read_args f o ft k [] no_tests (l, ts)) (read_args-Within f o ft k [] no_tests l ts tt)
            λ _ w. (exceeds→le o.max_test_nesting k d, w)

  read_args-Within :
      (f : ℕ) (o : Options) (ft : Bool) (k : ℕ) (args : List Arg) (tests : Tests) (l : Option Token)
      (ts : List Token)
      → TestsWithin o k tests
      → IfOk (ListWithin o k) (read_args f o ft k args tests (l, ts))
  read_args-Within zero o ft k args tests l ts w = tt
  read_args-Within (suc f) o ft k args tests l [] w = fail-IfOk _ l _
  read_args-Within (suc f) o ft k args tests l (semicolon p ∷ r) w = w
  read_args-Within (suc f) o ft k args tests l (block_start p ∷ r) w = w
  read_args-Within (suc f) o ft k args tests l (comma p ∷ r) w =
      IfOk-if (ListWithin o k) (not ft) _ _ (λ _. fail-IfOk _ l _) λ _. w
  read_args-Within (suc f) o ft k args tests l (test_list_end p ∷ r) w =
      IfOk-if (ListWithin o k) (not ft) _ _ (λ _. fail-IfOk _ l _) λ _. w
  read_args-Within (suc f) o ft k args tests l (string p t ∷ r) w =
      read_args-Within f o ft k _ tests _ r w
  read_args-Within (suc f) o ft k args tests l (list_start p ∷ r) w =
      IfOk-bind (λ _. Unit) (ListWithin o k) (read_string_list true [] r) _ (IfOk_lem _)
        λ (list, (l', ts)) _. read_args-Within f o ft k _ tests l' ts w
  read_args-Within (suc f) o ft k args tests l (number p n q ∷ r) w =
      read_args-Within f o ft k _ tests _ r w
  read_args-Within (suc f) o ft k args tests l (colon p ∷ r) w =
      IfOk-bind (λ _. Unit) (ListWithin o k) (read_tag (colon p) r) _ (IfOk_lem _)
        λ (id, (l', ts)) _. read_args-Within f o ft k _ tests l' ts w
  read_args-Within (suc f) o ft k args tests l (identifier p t ∷ r) w =
      IfOk-bind (ArgumentsWithin o (k + 1)) (ListWithin o k) (read_arguments f o true (k + 1) _) _
        (read_arguments-Within f o true (k + 1) _ r)
        λ ((bs, us), (l', ts)) (d, v).
          read_args-Within f o ft k args _ l' ts
            (add_test-TestsWithin o k tests (test p t bs us) w d v)
  read_args-Within (suc f) o ft k args tests l (test_list_start p ∷ r) w =
      IfOk-bind (λ (us, s). TestsWithin o k us) (ListWithin o k)
        (read_test_list f o k true no_tests _) _ (read_test_list-Within f o k true no_tests _ r tt)
        λ (us, s) v. v
  read_args-Within (suc f) o ft k args tests l (_ ∷ r) w = fail-IfOk _ l _

  read_test_list-Within :
      (f : ℕ) (o : Options) (k : ℕ) (need : Bool) (res : Tests) (l : Option Token) (ts : List Token)
      → TestsWithin o k res
      → IfOk (λ (us, s). TestsWithin o k us) (read_test_list f o k need res (l, ts))
  read_test_list-Within zero o k need res l ts w = tt
  read_test_list-Within (suc f) o k need res l [] w = tt
  read_test_list-Within (suc f) o k need res l (identifier p t ∷ r) w =
      IfOk-if (λ (us, s). TestsWithin o k us) (not need) _ _ (λ _. tt)
        λ _.
          IfOk-bind (ArgumentsWithin o (k + 1)) (λ (us, s). TestsWithin o k us)
            (read_arguments f o true (k + 1) _) _ (read_arguments-Within f o true (k + 1) _ r)
            λ ((bs, us), (l', ts)) (d, v).
              read_test_list-Within f o k false _ l' ts
                (add_test-TestsWithin o k res (test p t bs us) w d v)
  read_test_list-Within (suc f) o k need res l (comma p ∷ r) w =
      IfOk-if (λ (us, s). TestsWithin o k us) need _ _ (λ _. tt)
        λ _. read_test_list-Within f o k true res _ r w
  read_test_list-Within (suc f) o k need res l (test_list_end p ∷ r) w = w
  read_test_list-Within (suc f) o k need res l (_ ∷ r) w = tt

abbrev BlockAt : Options → ℕ → Block × Stream → Type 0
BlockAt o k (b, s) = BlockWithin o k b

abbrev CmdsAt : Options → ℕ → Cmds × Stream → Type 0
CmdsAt o k (cs, s) = CmdsWithin o k cs

-- The commands of a block, whose own nesting is within the limit.
abbrev NestedAt : Options → ℕ → Cmds × Stream → Type 0
NestedAt o k (cs, s) = ((o.max_block_nesting ≡ 0) ⊎ (k ≤ o.max_block_nesting)) × CmdsWithin o k cs

close_block-Within :
    (o : Options) (k : ℕ) (cs : Cmds) (l : Option Token) (ts : List Token)
    → NestedAt o (k + 1) (cs, (l, ts))
    → IfOk (BlockAt o k) (close_block cs (l, ts))
unfolding close_block CmdsWithin
close_block-Within o k cs none ts w = tt
close_block-Within o k cs (some t) ts w = w

mutual
  unfolding parse CmdsWithin

  parse-Within :
      (f : ℕ) (o : Options) (k : ℕ) (l : Option Token) (ts : List Token)
      → IfOk (NestedAt o k) (parse f o k (l, ts))
  parse-Within zero o k l ts = tt
  parse-Within (suc f) o k l ts =
      IfOk-if (NestedAt o k) (exceeds o.max_block_nesting k) _ _ (λ _. fail-IfOk _ l _)
        λ d.
          IfOk-weaken (CmdsAt o k) (NestedAt o k) (parse_loop f o k no_cmds (l, ts))
            (parse_loop-Within f o k no_cmds l ts tt) λ _ w. (exceeds→le o.max_block_nesting k d, w)

  parse_loop-Within :
      (f : ℕ) (o : Options) (k : ℕ) (res : Cmds) (l : Option Token) (ts : List Token)
      → CmdsWithin o k res
      → IfOk (CmdsAt o k) (parse_loop f o k res (l, ts))
  parse_loop-Within zero o k res l ts w = tt
  parse_loop-Within (suc f) o k res l [] w = w
  parse_loop-Within (suc f) o k res l (identifier p t ∷ r) w =
      IfOk-bind (ArgumentsWithin o 0) (CmdsAt o k) (read_arguments (2 * length r + 2) o false 0 _) _
        (read_arguments-Within (2 * length r + 2) o false 0 _ r)
        λ ((args, tests), (l', ts)) (_, v).
          IfOk-bind (BlockAt o k) (CmdsAt o k) (parse_end f o k (l', ts)) _
            (parse_end-Within f o k l' ts)
            λ (b, (m, us)) v'.
              parse_loop-Within f o k _ m us
                (add_cmd-CmdsWithin o k res (cmd p t args tests b) w (v, v'))
  parse_loop-Within (suc f) o k res l (block_end p ∷ r) w = w
  parse_loop-Within (suc f) o k res l (_ ∷ r) w = tt

  parse_end-Within :
      (f : ℕ) (o : Options) (k : ℕ) (l : Option Token) (ts : List Token)
      → IfOk (BlockAt o k) (parse_end f o k (l, ts))
  parse_end-Within zero o k l ts = tt
  parse_end-Within (suc f) o k l [] = tt
  parse_end-Within (suc f) o k l (semicolon p ∷ r) = tt
  parse_end-Within (suc f) o k l (block_start p ∷ r) =
      IfOk-bind (NestedAt o (k + 1)) (BlockAt o k) (parse f o (k + 1) _) _
        (parse-Within f o (k + 1) _ r) λ (cs, (l', ts)) w. close_block-Within o k cs l' ts w
  parse_end-Within (suc f) o k l (_ ∷ r) = tt

-- Whatever `Parse` returns keeps to the limits that are set: no test stands deeper than
-- `MaxTestNesting`, and no block deeper than `MaxBlockNesting`.
pub parse_stream-CmdsWithin :
    (o : Options) (toks : List Token) (cs : Cmds) (s : Stream)
    → parse_stream o toks ≡ ok (cs, s)
    → CmdsWithin o 0 cs
unfolding parse_stream new_stream
parse_stream-CmdsWithin o toks cs s e =
    (IfOk-ok (NestedAt o 0) (parse (2 * length toks + 2) o 0 (none, toks))
      (parse-Within (2 * length toks + 2) o 0 none toks) e).1
