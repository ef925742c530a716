-- ===== src/Managesieve/RoundTrip.antt =====
-- On the commands of managesieve/client/client.go and the decoder of the server,
-- managesieve/internal/wire/codec.go.
use go_sieve.Lexer.Scan.{is_digit}
use go_sieve.Lexer.Words.{AllDigits, decimal_digits-IsDecimal}
use go_sieve.Lexer.Write.{decimal_digits}
use go_sieve.Managesieve.Command.{CommandArg, str_arg, num_arg, format_int, write_simple_command}
use go_sieve.Managesieve.Decode.{
  Decoder, full, peek_byte, expect_crlf, is_atom_char, to_upper, command_end, command_argument,
  command_round, read_command,
}
use go_sieve.Managesieve.Encode.{new_encoder, write_string, atom, valid_quoted, crlf}
use go_sieve.Managesieve.Tokens.{
  Stops, ReadsAs, quoted-ReadsAs, FitsLiteral, literal-ReadsAs, AllAtom, FitsAtom, read_atom-append,
  atom-ReadsAs, full-Within, AllDigits-decimal,
}
use go_sieve.Managesieve.Total.{Within}
use go_sieve.Prelude.{
  ℕ, zero, suc, ◌+◌, ◌≤◌, ◌<◌, ◌≡◌, refl, ap, ◌∙◌, true, false, List, [], ◌∷◌, ◌++◌, append-nil,
  append_assoc, some, arith, Bytes, length, length-append, ok, pos, negsuc, loop, next, loop-next,
}
use go_sieve.Managesieve.Written.{string_text, arg_text, arg_value, args_text, write_args-writing}

-- An argument within the server's limits.
pub data FitsArg (d : Decoder) : CommandArg → Type 0 where
  quoted_arg :
      {s : Bytes}
      → valid_quoted s ≡ true
      → Within d.max_quoted_bytes (length s)
      → FitsArg d (str_arg s)
  literal_arg :
      {s : Bytes} → valid_quoted s ≡ false → FitsLiteral d (length s) → FitsArg d (str_arg s)
  number_arg : {n : _} → Within d.max_atom_bytes (length (format_int n)) → FitsArg d (num_arg n)

abbrev pub AllFit : Decoder → List CommandArg → Type 0
AllFit d [] = Unit
AllFit d (a ∷ l) = FitsArg d a × AllFit d l

-- The bytes of the arguments.
abbrev pub total : List CommandArg → ℕ
total [] = 0
total (a ∷ l) = length (arg_value a) + total l

abbrev pub values : List CommandArg → List Bytes
values [] = []
values (a ∷ l) = arg_value a ∷ values l

AllDigits-AllAtom : (s : Bytes) → AllDigits s → AllAtom s
unfolding is_digit is_atom_char
AllDigits-AllAtom [] h = tt
AllDigits-AllAtom (c ∷ s) h = (ground arith, AllDigits-AllAtom s h.1)

format_int-FitsAtom :
    (d : Decoder) (n : _)
    → Within d.max_atom_bytes (length (format_int n))
    → FitsAtom d (format_int n)
unfolding format_int is_atom_char
format_int-FitsAtom d (pos n) h =
    let dec = decimal_digits-IsDecimal n in
    record {
      nonempty = rw (dec.splits) (omega arith);
      all = AllDigits-AllAtom (decimal_digits n) (AllDigits-decimal dec);
      fits = h;
    }
format_int-FitsAtom d (negsuc n) h = record {
  nonempty = omega arith;
  all = (
    refl,
    AllDigits-AllAtom (decimal_digits (suc n))
        (AllDigits-decimal (decimal_digits-IsDecimal (suc n))),
  );
  fits = h;
}

arg-ReadsAs : (d : Decoder) (a : CommandArg) → FitsArg d a → ReadsAs d (arg_value a) (arg_text a)
unfolding arg_value arg_text string_text
arg-ReadsAs d (str_arg s) (quoted_arg q h) = rw q (quoted-ReadsAs d s h)
arg-ReadsAs d (str_arg s) (literal_arg q h) = rw q (literal-ReadsAs d s h)
arg-ReadsAs d (num_arg n) (number_arg h) = atom-ReadsAs d (format_int n) (format_int-FitsAtom d n h)

args_text-Stops : (l : List CommandArg) (rest : Bytes) → Stops (args_text l ++ (13 ∷ 10 ∷ rest))
unfolding args_text is_atom_char
args_text-Stops [] rest = refl
args_text-Stops (a ∷ l) rest = refl

-- One round of the loop takes one argument.
command_round-argument :
    (d : Decoder) (a : CommandArg) (acc : List Bytes) (rest : Bytes) (n : ℕ)
    → FitsArg d a
    → full d.max_command_args (length acc) ≡ false
    → Within d.max_non_literal_command_len (n + length (arg_value a))
    → Stops rest
    → command_round d (acc, (b' ' ∷ arg_text a ++ rest, some n))
      ≡ ok (next (acc ++ arg_value a ∷ [], (rest, some (n + length (arg_value a)))))
unfolding command_round peek_byte command_argument
command_round-argument d a acc rest n fit c m stops =
    rw c (rw (arg-ReadsAs d a fit n rest m stops) refl)

loop-args_text :
    (d : Decoder) (l : List CommandArg) (f : ℕ) (acc : List Bytes) (rest : Bytes) (n : ℕ)
    → AllFit d l
    → length l < f
    → Within d.max_command_args (length acc + length l)
    → Within d.max_non_literal_command_len (n + total l)
    → loop (command_round d) f (acc, (args_text l ++ (13 ∷ 10 ∷ rest), some n))
      ≡ ok (acc ++ values l, (rest, some (n + total l)))
unfolding args_text
loop-args_text d l zero acc rest n fit h c m = absurd (omega arith)
loop-args_text d [] (suc f) acc rest n fit h c m =
    unfold loop command_round peek_byte command_end expect_crlf in
    rw append-nil (ap (λ k. ok (acc, (rest, some k))) (omega arith))
loop-args_text d (a ∷ l) (suc f) acc rest n fit h c m =
    loop-next (command_round d) f _
      (acc ++ arg_value a ∷ [], (args_text l ++ (13 ∷ 10 ∷ rest), some (n + length (arg_value a))))
      (rw append_assoc (
        command_round-argument d a acc (args_text l ++ (13 ∷ 10 ∷ rest)) n fit.0
          (full-Within d.max_command_args (length acc) (length l) c) (λ p. ground arith)
          (args_text-Stops l rest)))
    ∙ loop-args_text d l f (acc ++ arg_value a ∷ []) rest (n + length (arg_value a)) fit.1
        (omega arith) (λ p. ground (arith, length-append acc (arg_value a ∷ [])))
        (λ p. ground arith)
    ∙ rw append_assoc (ap (λ k. ok (acc ++ arg_value a ∷ values l, (rest, some k))) (omega arith))

to_upper-to_upper : (s : Bytes) → to_upper (to_upper s) ≡ to_upper s
unfolding to_upper
to_upper-to_upper [] = refl
to_upper-to_upper (c ∷ s) = ground (arith, to_upper-to_upper s)

length-args_text : (l : List CommandArg) (rest : Bytes) → length l ≤ length (args_text l ++ rest)
unfolding args_text
length-args_text [] rest = omega arith
length-args_text (a ∷ l) rest = omega (
  arith,
  length-args_text l rest,
  length-append (args_text l) rest,
  length-append (arg_text a ++ args_text l) rest,
  length-append (arg_text a) (args_text l),
)

-- A command within the server's limits, its name in upper case.
pub record FitsCommand (d : Decoder) (name : Bytes) (args : List CommandArg) : Type 0 where
  pub name_fits : FitsAtom d (to_upper name)
  pub args_fit : AllFit d args
  pub count_fits : Within d.max_command_args (length args)
  pub size_fits : Within d.max_non_literal_command_len (length (to_upper name) + total args)

-- The line of a command.
line : Bytes → List CommandArg → Bytes → Bytes
line name args rest = name ++ (args_text args ++ (13 ∷ 10 ∷ rest))

read_command-line :
    (d : Decoder) (name : Bytes) (args : List CommandArg) (rest : Bytes)
    → FitsCommand d name args
    → read_command d (line (to_upper name) args rest) ≡ ok ((to_upper name, values args), rest)
unfolding read_command line
read_command-line d name args rest fit =
    rw
      (read_atom-append d (to_upper name) (args_text args ++ (13 ∷ 10 ∷ rest)) 0 fit.name_fits
        (args_text-Stops args rest) (λ p. ground (arith, fit.size_fits p)))
      (rw
        (loop-args_text d args (suc (length (args_text args ++ (13 ∷ 10 ∷ rest)))) [] rest
          (0 + length (to_upper name)) fit.args_fit
          (omega (arith, length-args_text args (13 ∷ 10 ∷ rest)))
          (λ p. ground (arith, fit.count_fits p)) (λ p. ground (arith, fit.size_fits p)))
        (rw (to_upper-to_upper name) refl))

-- What the client writes for a command with string and number arguments, the server's decoder reads
-- back: the write succeeds, and from its bytes, whatever follows them, `ReadCommand` returns the
-- name in upper case, the values of the arguments in order, and what follows as the bytes left.
-- The command has to be within the server's limits.
pub read_command-write_simple_command :
    (d : Decoder) (name : Bytes) (args : List CommandArg) (rest : Bytes)
    → FitsCommand d name args
    → (text : Bytes) × (write_simple_command name args ≡ ok text)
      × (read_command d (text ++ rest) ≡ ok ((to_upper name, values args), rest))
unfolding line
read_command-write_simple_command d name args rest fit =
    (text, writes, rw append_assoc (rw append_assoc (read_command-line d name args rest fit)))
  where
    text : Bytes
    text = (to_upper name ++ args_text args) ++ (13 ∷ 10 ∷ [])

    writes : write_simple_command name args ≡ ok text
    writes =
        unfold write_simple_command atom write_string crlf new_encoder in
        rw (write_args-writing args (to_upper name)) refl
