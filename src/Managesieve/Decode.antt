-- ===== src/Managesieve/Decode.antt =====
-- managesieve/internal/wire/codec.go, `Decoder`. The input is the bytes not yet read, with the
-- counter that `commandBytes` points at, if there is one; both come back with the result. The only
-- read error is the end of input.
use go_sieve.Lexer.Scan.{backslash, quote, decimal, max_int}
use go_sieve.Prelude.{
  ℕ, zero, suc, ◌+◌, ◌-◌, ◌^◌, Bool, true, false, not, ◌&&◌, ◌||◌, List, [], ◌∷◌, ◌++◌, Option,
  none, some, ltb, leb, ◌==◌, if◌then◌else◌, within, Bytes, length, Result, ok, err, ◌>>=◌, Flow,
  next, done, loop,
}

-- The limits of a `Decoder`; 0 is no limit.
pub record Decoder : Type 0 where
  pub max_literal_bytes : ℕ
  pub max_atom_bytes : ℕ
  pub max_quoted_bytes : ℕ
  pub max_command_args : ℕ
  pub max_non_literal_command_len : ℕ

pub data WireError : Type 0 where
  eof unexpected_eof expected_crlf atom_limit expected_atom expected_string quoted_limit : WireError
  malformed_literal malformed_literal_size size_range literal_limit literal_allocation : WireError
  invalid_literal_size : ℕ → WireError
  too_many_arguments command_limit : WireError
  invalid_status : Bytes → WireError

abbrev pub Input : Type 0
Input = Bytes × Option ℕ

abbrev pub Read : Type 0 → Type 0
Read A = Result WireError (A × Input)

-- `limit > 0 && n > limit`
abbrev pub over : ℕ → ℕ → Bool
over limit n = ltb 0 limit && ltb limit n

-- `limit > 0 && n >= limit`
abbrev pub full : ℕ → ℕ → Bool
full limit n = ltb 0 limit && leb limit n

unfoldable pub peek_byte : Bytes → Result WireError ℕ
peek_byte [] = err eof
peek_byte (c ∷ r) = ok c

expect_lf : Input → Read Unit
expect_lf ([], n) = err eof
expect_lf (c ∷ r, n) = if c == 10 then ok (tt, (r, n)) else err expected_crlf

-- `ExpectCRLF`
unfoldable pub expect_crlf : Input → Read Unit
unfolding expect_lf
expect_crlf ([], n) = err eof
expect_crlf (c ∷ r, n) = if c == 13 then expect_lf (r, n) else expect_lf (c ∷ r, n)

-- `SkipSP`
unfoldable pub skip_sp : Bytes → Result WireError Bytes
skip_sp [] = err eof
skip_sp (c ∷ r) = let rest = skip_sp r in if c == b' ' then rest else ok (c ∷ r)

-- `isAtomChar`
unfoldable pub is_atom_char : ℕ → Bool
is_atom_char c =
    if leb c 32 || c == 127
    then false
    else not (c == b'(' || c == b')' || c == b'{' || c == b' ' || c == quote || c == backslash)

-- `addCommandBytes`
unfoldable pub add_command_bytes : Decoder → Option ℕ → ℕ → Result WireError (Option ℕ)
add_command_bytes d none k = ok none
add_command_bytes d (some n) k =
    if over d.max_non_literal_command_len (n + k) then err command_limit else ok (some (n + k))

-- Behind the loop of `readAtom`.
abbrev pub atom_end : Bytes → Input → Read Bytes
atom_end [] i = err expected_atom
atom_end (c ∷ b) i = ok (c ∷ b, i)

abbrev atom_eof : Bytes → Option ℕ → Read Bytes
atom_eof [] n = err eof
atom_eof (c ∷ b) n = ok (c ∷ b, ([], n))

-- The loop of `readAtom`, `b` being its builder.
unfoldable pub atom_bytes : Decoder → Bytes → Input → Read Bytes
atom_bytes d b ([], n) = atom_eof b n
atom_bytes d b (c ∷ r, n) =
    let counted = (do n' ← add_command_bytes d n 1; atom_bytes d (b ++ c ∷ []) (r, n')) in
    if not (is_atom_char c)
    then atom_end b (c ∷ r, n)
    else if full d.max_atom_bytes (length b)
    then err atom_limit
    else counted

-- `readAtom`
unfoldable pub read_atom : Decoder → Input → Read Bytes
read_atom d (r, n) = do r' ← skip_sp r; atom_bytes d [] (r', n)

-- The loop of `readQuoted`; `escaped` when the byte behind a backslash is to be read.
unfoldable pub quoted_bytes : Decoder → Bytes → Bool → Input → Read Bytes
quoted_bytes d b escaped ([], n) = err eof
quoted_bytes d b escaped (c ∷ r, n) =
    let counted = (do n' ← add_command_bytes d n 1; quoted_bytes d (b ++ c ∷ []) false (r, n')) in
    let behind = quoted_bytes d b true (r, n) in
    if not escaped && c == quote
    then ok (b, (r, n))
    else if not escaped && c == backslash
    then behind
    else if full d.max_quoted_bytes (length b)
    then err quoted_limit
    else counted

-- The closing brace of a literal's size.
close_brace : Bytes → Bytes → Result WireError (Bytes × Bytes)
close_brace num [] = err eof
close_brace num (c ∷ r) = if c == b'}' then ok (num, r) else err malformed_literal

-- The loop of `readLiteral`: the digits of the size, and what is behind the brace.
unfoldable pub literal_size : Bytes → Bytes → Result WireError (Bytes × Bytes)
unfolding close_brace
literal_size num [] = err eof
literal_size num (c ∷ r) =
    let rest = literal_size (num ++ c ∷ []) r in
    if within b'0' b'9' c
    then rest
    else if c == b'+'
    then close_brace num r
    else close_brace num (c ∷ r)

-- `strconv.ParseInt` on digits.
unfoldable pub parse_int : Bytes → Result WireError ℕ
parse_int num = if leb (decimal 0 num) max_int then ok (decimal 0 num) else err size_range

-- `io.ReadFull`: `at_end` is the error for an input that ends here.
unfoldable pub read_full : WireError → ℕ → Bytes → Result WireError (Bytes × Bytes)
read_full at_end zero r = ok ([], r)
read_full at_end (suc k) [] = err at_end
read_full at_end (suc k) (c ∷ r) = do (buf, rest) ← read_full unexpected_eof k r; ok (c ∷ buf, rest)

-- `maxAllocBytes`, with ints of 64 bits.
abbrev max_alloc_bytes : ℕ
max_alloc_bytes = 2 ^ 63 - 1

abbrev pub max_uint32 : ℕ
max_uint32 = 2 ^ 32 - 1

-- The checks of `readLiteral` on the size.
unfoldable pub check_size : Decoder → ℕ → Result WireError Unit
check_size d sz =
    if ltb max_uint32 sz
    then err (invalid_literal_size sz)
    else if over d.max_literal_bytes sz
    then err literal_limit
    else if ltb max_alloc_bytes sz
    then err literal_allocation
    else ok tt

abbrev pub some_digits : Bytes → Result WireError Unit
some_digits [] = err malformed_literal_size
some_digits (c ∷ num) = ok tt

-- `readLiteral`, behind the opening brace.
unfoldable pub literal_bytes : Decoder → Input → Read Bytes
literal_bytes d (r, n) = do
  (num, behind) ← literal_size [] r
  _ ← some_digits num
  sz ← parse_int num
  _ ← check_size d sz
  n' ← add_command_bytes d n sz
  (_, (r', n'')) ← expect_crlf (behind, n')
  (buf, rest) ← read_full eof sz r'
  ok (buf, (rest, n''))

-- The choice of `readString` by the byte at the front.
unfoldable pub string_bytes : Decoder → Input → Read Bytes
string_bytes d ([], n) = err eof
string_bytes d (c ∷ r, n) =
    if c == quote
    then quoted_bytes d [] false (r, n)
    else if c == b'{'
    then literal_bytes d (r, n)
    else err expected_string

-- `readString`
unfoldable pub read_string : Decoder → Input → Read Bytes
read_string d (r, n) = do r' ← skip_sp r; string_bytes d (r', n)

-- The choice of `readToken` by the byte at the front.
unfoldable pub token_bytes : Decoder → Input → Read Bytes
token_bytes d ([], n) = err eof
token_bytes d (c ∷ r, n) =
    if c == quote || c == b'{' then read_string d (c ∷ r, n) else read_atom d (c ∷ r, n)

-- `readToken`
unfoldable pub read_token : Decoder → Input → Read Bytes
read_token d (r, n) = do r' ← skip_sp r; token_bytes d (r', n)

-- `strings.ToUpper` on ASCII.
unfoldable pub to_upper : Bytes → Bytes
to_upper [] = []
to_upper (c ∷ s) = (if within b'a' b'z' c then c - 32 else c) ∷ to_upper s

-- The variables of the loop of `ReadCommand`.
abbrev pub Arguments : Type 0
Arguments = List Bytes × Input

-- The end of the line.
unfoldable pub command_end : Arguments → Result WireError (Flow Arguments Arguments)
command_end (args, i) = do (_, i') ← expect_crlf i; ok (done (args, i'))

-- One more argument.
unfoldable pub command_argument : Decoder → Arguments → Result WireError (Flow Arguments Arguments)
command_argument d (args, i) = do (arg, i') ← read_token d i; ok (next (args ++ arg ∷ [], i'))

-- One round of the loop of `ReadCommand`.
unfoldable pub command_round : Decoder → Arguments → Result WireError (Flow Arguments Arguments)
command_round d (args, (r, n)) = do
  b ← peek_byte r
  if b == 13 || b == 10
      then command_end (args, (r, n))
      else if full d.max_command_args (length args)
      then err too_many_arguments
      else command_argument d (args, (r, n))

-- `ReadCommand`. Every argument takes a byte, so that the length of the input is enough fuel.
unfoldable pub read_command : Decoder → Bytes → Result WireError ((Bytes × List Bytes) × Bytes)
read_command d r = do
  (name, i) ← read_atom d (r, some 0)
  (args, (rest, n)) ← loop (command_round d) (suc (length (i.0))) ([], i)
  ok ((to_upper name, args), rest)
