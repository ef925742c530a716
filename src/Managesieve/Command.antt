-- ===== src/Managesieve/Command.antt =====
-- managesieve/client/client.go: what the client writes for a command.
use go_sieve.Lexer.Write.{decimal_digits}
use go_sieve.Managesieve.Decode.{to_upper}
use go_sieve.Managesieve.Encode.{
  EncodeError, Encoder, LiteralWriter, new_encoder, atom, sp, string, literal_start, literal_write,
  literal_close, crlf,
}
use go_sieve.Prelude.{
  ℕ, suc, ℤ, pos, negsuc, true, List, [], ◌∷◌, Option, none, some, Bytes, codes, Result, ok, err,
}

pub data CommandArg : Type 0 where
  str_arg : Bytes → CommandArg
  num_arg : ℤ → CommandArg

-- `fmt.Sprintf("%d", v)`
unfoldable pub format_int : ℤ → Bytes
format_int (pos n) = decimal_digits n
format_int (negsuc n) = b'-' ∷ decimal_digits (suc n)

unfoldable pub write_arg : CommandArg → Encoder → Encoder
write_arg (str_arg v) e = string v true (sp e)
write_arg (num_arg n) e = atom (format_int n) (sp e)

-- The loop of `writeSimpleCommandLocked`.
unfoldable pub write_args : List CommandArg → Encoder → Encoder
write_args [] e = e
write_args (a ∷ l) e = write_args l (write_arg a e)

-- The error of `CRLF`, or the bytes that it sends.
abbrev pub sent : Encoder → Result EncodeError Bytes
sent e = elim (e.failed) [ none ↦ ok (e.w) | some x ↦ err x ]

-- `writeSimpleCommandLocked`
unfoldable pub write_simple_command : Bytes → List CommandArg → Result EncodeError Bytes
write_simple_command name args = sent (crlf (write_args args (atom (to_upper name) new_encoder)))

-- How the command of a script ends: its error, if there is one, and the bytes that the client has written until
-- then. Behind an error, those that no flush has sent are still in the buffer, in front of the next command.
abbrev pub Outcome : Type 0
Outcome = Option EncodeError × Bytes

abbrev pub ended : Encoder → Outcome
ended e = (e.failed, e.w)

-- Behind the close of the literal.
abbrev pub close_line : Option EncodeError × Encoder → Outcome
close_line (some x, e) = (some x, e.w)
close_line (none, e) = ended (crlf e)

-- Behind the copy of the script: its error, or the close of the literal.
abbrev pub close_script : Option EncodeError × LiteralWriter × Encoder → Outcome
close_script (some x, lw, e) = (some x, e.w)
close_script (none, lw, e) = close_line (literal_close lw e)

abbrev pub unless_failed :
    (LiteralWriter → Encoder → Option EncodeError × LiteralWriter × Encoder)
    → Option EncodeError × LiteralWriter × Encoder
    → Option EncodeError × LiteralWriter × Encoder
unless_failed k (some x, lw, e) = (some x, lw, e)
unless_failed k (none, lw, e) = k lw e

-- `io.Copy`, of a reader that hands over these pieces and ends without an error.
unfoldable pub copy_pieces :
    List Bytes → LiteralWriter → Encoder → Option EncodeError × LiteralWriter × Encoder
copy_pieces [] lw e = (none, lw, e)
copy_pieces (p ∷ ps) lw e = unless_failed (copy_pieces ps) (literal_write p lw e)

-- The script goes into the writer that `Literal` returned.
unfoldable pub copy_script : List Bytes → LiteralWriter × Encoder → Outcome
copy_script pieces (lw, e) = close_script (copy_pieces pieces lw e)

-- The script of `PutScript` and `CheckScript`, behind the command's name and arguments.
unfoldable pub write_script : ℕ → List Bytes → Encoder → Outcome
write_script size pieces e = copy_script pieces (literal_start size true e)

-- What `PutScript` writes before it reads the answer.
unfoldable pub put_script : Bytes → ℕ → List Bytes → Outcome
put_script name size pieces =
    write_script size pieces (sp (string name true (sp (atom (codes "PUTSCRIPT") new_encoder))))

-- What `CheckScript` writes before it reads the answer.
unfoldable pub check_script : ℕ → List Bytes → Outcome
check_script size pieces = write_script size pieces (sp (atom (codes "CHECKSCRIPT") new_encoder))
