-- ===== src/Parser/Commands.antt =====
-- On parser/parse.go at printed commands: the blocks, and the whole script.
use go_sieve.Lexer.Stream.{Stream, new_stream}
use go_sieve.Lexer.Token.{Token, identifier, block_start, block_end, semicolon}
use go_sieve.Parser.Parse.{
  Options, exceeds, close_block, parse, parse_loop, parse_end, parse_stream,
}
use go_sieve.Parser.Print.{
  nowhere, emit_args, emit_tests, emit_cmd, emit_block, emit_cmds, FitsCmd, FitsBlock, FitsCmds,
}
use go_sieve.Parser.RoundTrip.{Leaves, Stops, length-emit_args, length-emit_test, length-emit_more}
use go_sieve.Parser.Reread.{ReadsParts-all, read_arguments-emit_args}
use go_sieve.Parser.Syntax.{
  Arg, Tests, no_tests, more_tests, Cmd, cmd, Block, no_block, block, Cmds, no_cmds, more_cmds,
  add_cmd,
}
use go_sieve.Prelude.{
  ℕ, zero, suc, ◌+◌, ◌*◌, ◌≤◌, ◌<◌, ◌≡◌, refl, ap, false, List, [], ◌∷◌, Option, none, some, arith,
  Bytes, length, ok,
}

length-emit_tests : (ts : Tests) (rest : List Token) → length rest ≤ length (emit_tests ts rest)
length-emit_tests no_tests rest = omega arith
length-emit_tests (more_tests t ts) rest =
    omega (arith, length-emit_test t _, length-emit_more ts rest)

mutual
  unfolding emit_cmd

  length-emit_cmd : (c : Cmd) (rest : List Token) → length rest < length (emit_cmd c rest)
  length-emit_cmd (cmd p t args tests b) rest = omega (
    arith,
    length-emit_args args (emit_tests tests (emit_block b rest)),
    length-emit_tests tests (emit_block b rest),
    length-emit_block b rest,
  )

  length-emit_block : (b : Block) (rest : List Token) → length rest < length (emit_block b rest)
  length-emit_block no_block rest = omega arith
  length-emit_block (block cs) rest = omega (arith, length-emit_cmds cs (block_end nowhere ∷ rest))

  length-emit_cmds : (cs : Cmds) (rest : List Token) → length rest ≤ length (emit_cmds cs rest)
  length-emit_cmds no_cmds rest = omega arith
  length-emit_cmds (more_cmds c cs) rest =
      omega (arith, length-emit_cmd c (emit_cmds cs rest), length-emit_cmds cs rest)

emit_block-Stops : (b : Block) (rest : List Token) → Stops false (emit_block b rest)
unfolding emit_cmd
emit_block-Stops no_block rest = tt
emit_block-Stops (block cs) rest = tt

append : Cmds → Cmds → Cmds
append no_cmds cs = cs
append (more_cmds d ds) cs = more_cmds d (append ds cs)

append-no_cmds : (cs : Cmds) → append cs no_cmds ≡ cs
unfolding append
append-no_cmds no_cmds = refl
append-no_cmds (more_cmds c cs) = ap (more_cmds c) (append-no_cmds cs)

append-add_cmd :
    (ds : Cmds) (c : Cmd) (cs : Cmds) → append (add_cmd ds c) cs ≡ append ds (more_cmds c cs)
unfolding append add_cmd
append-add_cmd no_cmds c cs = refl
append-add_cmd (more_cmds d ds) c cs = ap (more_cmds d) (append-add_cmd ds c cs)

-- What ends a run of commands, and the stream behind it.
abbrev IsEnd : List Token → Type 0
IsEnd [] = Unit
IsEnd (block_end p ∷ r) = Unit
IsEnd _ = ⊥

abbrev past : List Token → Stream
past [] = (none, [])
past (t ∷ r) = (some t, r)

within_tests : (max : ℕ) → exceeds max 0 ≡ false
within_tests max = ground arith

abbrev ReadsBlock : Options → Block → Type 0
ReadsBlock o b =
    (k f : ℕ) (l : Option Token) (rest : List Token)
    → FitsBlock o k b
    → 2 * length (emit_block b rest) + 1 ≤ f
    → Leaves (parse_end f o k (l, emit_block b rest)) b rest

abbrev ReadsCmds : Options → Cmds → Type 0
ReadsCmds o cs =
    (k f : ℕ) (l : Option Token) (res : Cmds) (rest : List Token)
    → FitsCmds o k cs
    → IsEnd rest
    → 2 * length (emit_cmds cs rest) + 1 ≤ f
    → parse_loop f o k res (l, emit_cmds cs rest) ≡ ok (append res cs, past rest)

parse_loop-IsEnd :
    (o : Options) (k f : ℕ) (l : Option Token) (res : Cmds) (rest : List Token)
    → IsEnd rest
    → 1 ≤ f
    → parse_loop f o k res (l, rest) ≡ ok (res, past rest)
unfolding parse
parse_loop-IsEnd o k zero l res rest h b = absurd (omega arith)
parse_loop-IsEnd o k (suc f) l res [] h b = refl
parse_loop-IsEnd o k (suc f) l res (block_end p ∷ r) h b = refl
parse_loop-IsEnd o k (suc f) l res _ h b = absurd h

parse_loop-cmd :
    (o : Options) (p : _) (t : Bytes) (args : List Arg) (tests : Tests) (b : Block) (cs : Cmds)
    → ReadsBlock o b
    → ReadsCmds o cs
    → ReadsCmds o (more_cmds (cmd p t args tests b) cs)
unfolding parse emit_cmd FitsCmd
parse_loop-cmd o p t args tests b cs blk more k zero l res rest h e g = absurd (omega arith)
parse_loop-cmd o p t args tests b cs blk more k (suc f) l res rest h e g =
    let after = emit_cmds cs rest in
    let behind = emit_block b after in
    let (m, read) =
      read_arguments-emit_args o false 0 args tests behind (ReadsParts-all o tests)
        (within_tests o.max_test_nesting) h.0.0 h.0.1 (emit_block-Stops b after)
        (2 * length (emit_args args (emit_tests tests behind)) + 2) (some (identifier p t))
        (omega arith) in
    let left = length-emit_args args (emit_tests tests behind) in
    let left' = length-emit_tests tests behind in
    let (m', ended) = blk k f m after h.0.2 (omega (arith, left, left')) in
    rw read (
      rw ended (
        rw (← append-add_cmd res (cmd p t args tests b) cs)
          (more k f m' _ rest h.1 e (omega (arith, left, left', length-emit_block b after)))))

parse_end-block : (o : Options) (cs : Cmds) → ReadsCmds o cs → ReadsBlock o (block cs)
unfolding parse emit_cmd FitsCmd close_block append
parse_end-block o cs reads k zero l rest h b = absurd (omega arith)
parse_end-block o cs reads k (suc zero) l rest h b = absurd (omega arith)
parse_end-block o cs reads k (suc (suc f)) l rest h b = (
  some (block_end nowhere),
  rw h.0 (
      rw (
        reads (k + 1) f (some (block_start nowhere)) no_cmds (block_end nowhere ∷ rest) h.1 tt
          (omega arith))),
)

parse_end-no_block : (o : Options) → ReadsBlock o no_block
unfolding parse emit_cmd
parse_end-no_block o k zero l rest h b = absurd (omega arith)
parse_end-no_block o k (suc f) l rest h b = (some (semicolon nowhere), refl)

mutual
  unfolding emit_cmd FitsCmd append parse

  parse_end-emit_block : (o : Options) (b : Block) → ReadsBlock o b
  parse_end-emit_block o no_block = parse_end-no_block o
  parse_end-emit_block o (block cs) = parse_end-block o cs (parse_loop-emit_cmds o cs)

  parse_loop-emit_cmds : (o : Options) (cs : Cmds) → ReadsCmds o cs
  parse_loop-emit_cmds o no_cmds =
      λ k f l res rest h e b. rw append-no_cmds (parse_loop-IsEnd o k f l res rest e (omega arith))
  parse_loop-emit_cmds o (more_cmds (cmd p t args tests b) cs) =
      parse_loop-cmd o p t args tests b cs (parse_end-emit_block o b) (parse_loop-emit_cmds o cs)

parse-emit_cmds :
    (o : Options) (cs : Cmds) (k f : ℕ) (l : Option Token) (rest : List Token)
    → exceeds o.max_block_nesting k ≡ false
    → FitsCmds o k cs
    → IsEnd rest
    → 2 * length (emit_cmds cs rest) + 2 ≤ f
    → parse f o k (l, emit_cmds cs rest) ≡ ok (cs, past rest)
unfolding parse append
parse-emit_cmds o cs k zero l rest d h e b = absurd (omega arith)
parse-emit_cmds o cs k (suc f) l rest d h e b =
    rw d (parse_loop-emit_cmds o cs k f l no_cmds rest h e (omega arith))

-- Commands within the limits on nesting, with arguments that have tokens, come back as they were
-- when their tokens are parsed: positions, tags, nested tests and blocks included.
pub parse_stream-emit_cmds :
    (o : Options) (cs : Cmds)
    → FitsCmds o 0 cs
    → parse_stream o (emit_cmds cs []) ≡ ok (cs, (none, []))
unfolding parse_stream new_stream
parse_stream-emit_cmds o cs h =
    parse-emit_cmds o cs 0 (2 * length (emit_cmds cs []) + 2) none []
      (within_tests o.max_block_nesting) h tt (omega arith)

-- `Parse` stops at a closing brace that no block has opened: whatever follows it, the commands in
-- front of it are returned without an error.
pub parse_stream-block_end :
    (o : Options) (cs : Cmds) (ignored : List Token)
    → FitsCmds o 0 cs
    → parse_stream o (emit_cmds cs (block_end nowhere ∷ ignored))
      ≡ ok (cs, (some (block_end nowhere), ignored))
unfolding parse_stream new_stream
parse_stream-block_end o cs ignored h =
    let toks = emit_cmds cs (block_end nowhere ∷ ignored) in
    parse-emit_cmds o cs 0 (2 * length toks + 2) none (block_end nowhere ∷ ignored)
      (within_tests o.max_block_nesting) h tt (omega arith)
