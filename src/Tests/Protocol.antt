-- ===== src/Tests/Protocol.antt =====
-- The theorems on the wire format of managesieve/ at concrete inputs.
use go_sieve.Lexer.Write.{decimal_digits, digits_onto}
use go_sieve.Managesieve.Command.{
  CommandArg, str_arg, num_arg, format_int, copy_pieces, copy_script, write_script, put_script,
  write_simple_command,
}
use go_sieve.Managesieve.Decode.{
  Decoder, read_command, to_upper, read_atom, skip_sp, atom_bytes, is_atom_char, add_command_bytes,
  command_round, peek_byte, command_end, command_argument, expect_crlf, read_token, token_bytes,
  read_string, string_bytes, quoted_bytes,
}
use go_sieve.Managesieve.Lines.{TakesLine, read_lines-Ends}
use go_sieve.Managesieve.Runes.{runes, runes_from, decode_rune, no_control, is_control}
use go_sieve.Managesieve.Encode.{
  literal_too_long, string, valid_quoted, escape_quoted, quoted, write_string, atom, sp,
  new_encoder, literal_start, literal_write, literal_close, crlf,
}
use go_sieve.Managesieve.Tokens.{FitsAtom}
use go_sieve.Managesieve.RoundTrip.{
  total, FitsCommand, read_command-write_simple_command, values, quoted_arg, number_arg,
}
use go_sieve.Managesieve.Written.{arg_value, string_text}
use go_sieve.Managesieve.PutScript.{joined, IsSent, put_script-IsSent}
use go_sieve.Managesieve.Status.{read_capability_or_status, read_script_or_status}
use go_sieve.Managesieve.Total.{read_command-ne-out_of_fuel, length-read_command}
use go_sieve.Parser.Syntax.{number_arg}
use go_sieve.Prelude.{
  some, ◌+◌, ◌≤◌, ◌≡◌, ◌≢◌, refl, true, List, [], ◌∷◌, ◌++◌, arith, Bytes, codes, length, Ends, ok,
  out_of_fuel, pos, loop,
}

abbrev decoder : Decoder
decoder = record {
  max_literal_bytes = 1000;
  max_atom_bytes = 20;
  max_quoted_bytes = 100;
  max_command_args = 3;
  max_non_literal_command_len = 200;
}

-- havespace "a\"b" 1234
abbrev have_space_args : List CommandArg
have_space_args = str_arg (codes "a\"b") ∷ num_arg (pos 1234) ∷ []

quotable : valid_quoted (codes "a\"b") ≡ true
unfolding valid_quoted runes runes_from decode_rune no_control is_control
quotable = refl

digits_short : length (format_int (pos 1234)) ≤ 20
unfolding format_int decimal_digits digits_onto
digits_short = omega arith

havespace-FitsAtom : FitsAtom decoder (to_upper (codes "havespace"))
unfolding to_upper is_atom_char
havespace-FitsAtom = record {
  nonempty = omega arith;
  all = (refl, (refl, (refl, (refl, (refl, (refl, (refl, (refl, (refl, tt)))))))));
  fits = λ p. omega arith;
}

line_short : length (to_upper (codes "havespace")) + total have_space_args ≤ 200
unfolding to_upper arg_value format_int decimal_digits digits_onto
line_short = omega arith

have_space-FitsCommand : FitsCommand decoder (codes "havespace") have_space_args
have_space-FitsCommand = record {
  name_fits = havespace-FitsAtom;
  args_fit = (quoted_arg quotable (λ p. omega arith), (number_arg (λ p. digits_short), tt));
  count_fits = λ p. omega arith;
  size_fits = λ p. line_short;
}

read_command-write_simple_command_example :
    (text : Bytes) × (write_simple_command (codes "havespace") have_space_args ≡ ok text)
    × (read_command decoder (text ++ codes "next")
        ≡ ok ((to_upper (codes "havespace"), values have_space_args), codes "next"))
read_command-write_simple_command_example =
    read_command-write_simple_command decoder (codes "havespace") have_space_args (codes "next")
      have_space-FitsCommand

read_command-ne-out_of_fuel_example : read_command decoder (codes "NOOP \"x") ≢ out_of_fuel
read_command-ne-out_of_fuel_example = read_command-ne-out_of_fuel decoder (codes "NOOP \"x")

get_line : read_command decoder (codes "get \"x\"\r\n") ≡ ok ((codes "GET", codes "x" ∷ []), [])
unfolding read_command read_atom skip_sp atom_bytes is_atom_char add_command_bytes loop
    command_round peek_byte command_end command_argument expect_crlf read_token token_bytes
    read_string string_bytes quoted_bytes to_upper
get_line = refl

length-read_command_example : length (codes "x" ∷ []) ≤ 3
length-read_command_example =
    length-read_command decoder (codes "get \"x\"\r\n") (codes "GET") (codes "x" ∷ []) [] get_line
      (omega arith)

read_lines-Ends_example :
    Ends
      (TakesLine (length (codes "\"SIEVE\" \"fileinto\"\r\n")))
      (read_capability_or_status decoder (codes "\"SIEVE\" \"fileinto\"\r\n"))
    × Ends
        (TakesLine (length (codes "\"SIEVE\" \"fileinto\"\r\n")))
        (read_script_or_status decoder (codes "\"SIEVE\" \"fileinto\"\r\n"))
read_lines-Ends_example = read_lines-Ends decoder (codes "\"SIEVE\" \"fileinto\"\r\n")

-- A reader that hands over seven bytes where five were announced.
put_script-IsSent_example :
    IsSent 5
      (joined (codes "ke" ∷ codes "ep;\r\n" ∷ []))
      (((codes "PUTSCRIPT " ++ string_text (codes "a")) ++ codes " ")
        ++ (b'{' ∷ decimal_digits 5 ++ (b'+' ∷ b'}' ∷ 13 ∷ 10 ∷ [])))
      (put_script (codes "a") 5 (codes "ke" ∷ codes "ep;\r\n" ∷ []))
put_script-IsSent_example = put_script-IsSent (codes "a") 5 (codes "ke" ∷ codes "ep;\r\n" ∷ [])

-- What is written then: the first piece stays in the buffer, in front of the next command.
cut_off :
    put_script (codes "a") 5 (codes "ke" ∷ codes "ep;\r\n" ∷ [])
    ≡ (some literal_too_long, codes "PUTSCRIPT \"a\" {5+}\r\nke")
unfolding put_script copy_pieces copy_script write_script string valid_quoted runes runes_from
    decode_rune no_control is_control escape_quoted quoted write_string atom sp new_encoder
    literal_start literal_write literal_close crlf decimal_digits digits_onto
cut_off = refl
