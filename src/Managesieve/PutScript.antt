-- ===== src/Managesieve/PutScript.antt =====
-- On `PutScript` of managesieve/client/client.go.
use go_sieve.Lexer.Write.{decimal_digits}
use go_sieve.Managesieve.Command.{
  Outcome, close_script, copy_pieces, copy_script, write_script, put_script,
}
use go_sieve.Managesieve.Encode.{
  EncodeError, literal_too_long, literal_too_short, Encoder, new_encoder, write_string, atom, sp,
  crlf, literal_write, literal_close, LiteralWriter, literal_writer,
}
use go_sieve.Managesieve.Written.{inside, string_text, literal_start-writing, string-writing}
use go_sieve.Prelude.{
  ℕ, zero, suc, ◌+◌, ◌-◌, ◌≤◌, ◌<◌, ◌≡◌, ◌==◌, refl, sym, ap, ◌∙◌, false, List, [], ◌∷◌, ◌++◌,
  append-nil, append_assoc, length-append, Option, none, some, arith, Bytes, codes, length, ltb,
  inl, inr, Bool-cases,
}

unfoldable pub joined : List Bytes → Bytes
joined [] = []
joined (p ∷ ps) = p ++ joined ps

-- The outcome of a command for a script of announced size `n`, by the real length of the script: the whole script and
-- the end of the line; the whole script without the end of the line, and an error; or a part of it within the size,
-- and an error.
pub data IsSent (n : ℕ) (script head : Bytes) : Outcome → Type 0 where
  whole : length script ≡ n → IsSent n script head (none, (head ++ script) ++ (13 ∷ 10 ∷ []))
  short :
      (remain : ℕ)
      → length script + suc remain ≡ n
      → IsSent n script head (some (literal_too_short (suc remain)), head ++ script)
  long :
      (body rest : Bytes)
      → script ≡ body ++ rest
      → length body ≤ n
      → n < length script
      → IsSent n script head (some literal_too_long, head ++ body)

abbrev State : Type 0
State = Option EncodeError × LiteralWriter × Encoder

-- The state behind the copy of a script into a literal of which `n` bytes remain.
data IsCopied (n : ℕ) (script w : Bytes) : State → Type 0 where
  all_copied :
      (remain : ℕ) (t : Bytes)
      → length script + remain ≡ n
      → t ≡ w ++ script
      → IsCopied n script w (none, literal_writer remain, inside t)
  part_copied :
      (body rest : Bytes) (remain : ℕ) (t : Bytes)
      → script ≡ body ++ rest
      → length body ≤ n
      → n < length script
      → t ≡ w ++ body
      → IsCopied n script w (some literal_too_long, literal_writer remain, inside t)

IsCopied-append :
    (n : ℕ) (p script w : Bytes) (r : State)
    → length p ≤ n
    → IsCopied (n - length p) script (w ++ p) r
    → IsCopied n (p ++ script) w r
IsCopied-append n p script w _ h (all_copied remain t k q) =
    let a = length-append p script in
    all_copied remain t (omega arith) (q ∙ append_assoc w p script)
IsCopied-append n p script w _ h (part_copied body rest remain t e k l q) =
    let a = length-append p script in
    let b = length-append p body in
    part_copied (p ++ body) rest remain t (ap (λ s. p ++ s) e ∙ sym (append_assoc p body rest))
      (omega arith) (omega arith) (q ∙ append_assoc w p body)

copy_pieces-IsCopied :
    (pieces : List Bytes) (n : ℕ) (w : Bytes)
    → IsCopied n (joined pieces) w (copy_pieces pieces (literal_writer n) (inside w))
unfolding copy_pieces joined literal_write
copy_pieces-IsCopied [] n w = all_copied n w (omega arith) (sym (append-nil w))
copy_pieces-IsCopied (p ∷ ps) n w = elim (Bool-cases (ltb n (length p))) [
  | inl e ↦
      let l : n < length p = ground arith in
      let a = length-append p (joined ps) in
      rw e
        (part_copied [] (p ++ joined ps) n w refl (omega arith) (omega arith) (sym (append-nil w)))
  | inr e ↦
      let l : length p ≤ n = ground arith in
      rw e (IsCopied-append n p (joined ps) w _ l (copy_pieces-IsCopied ps (n - length p) (w ++ p)))
]

close_script-IsSent :
    (n : ℕ) (script w : Bytes) (r : State)
    → IsCopied n script w r
    → IsSent n script w (close_script r)
unfolding literal_close crlf write_string
close_script-IsSent n script w _ (all_copied zero t h q) = rw q (whole (omega arith))
close_script-IsSent n script w _ (all_copied (suc remain) t h q) =
    let z : (suc remain == 0) ≡ false = ground arith in rw q (rw z (short remain h))
close_script-IsSent n script w _ (part_copied body rest remain t e k l q) =
    rw q (long body rest e k l)

-- For every size and every reader that ends without an error, the client writes the header with the announced size, and then: a script of that size
-- and the end of the line; a shorter script without the end of the line, and an error; or of a longer script a part
-- that is within the size, and an error.
pub put_script-IsSent :
    (name : Bytes) (n : ℕ) (pieces : List Bytes)
    → IsSent n
        (joined pieces)
        (((codes "PUTSCRIPT " ++ string_text name) ++ codes " ")
          ++ (b'{' ∷ decimal_digits n ++ (b'+' ∷ b'}' ∷ 13 ∷ 10 ∷ [])))
        (put_script name n pieces)
unfolding put_script write_script copy_script sp atom write_string new_encoder
put_script-IsSent name n pieces =
    let head = (codes "PUTSCRIPT " ++ string_text name) ++ codes " " in
    rw (string-writing name (codes "PUTSCRIPT ")) (
      rw (literal_start-writing n head)
        (close_script-IsSent n (joined pieces) _ _ (copy_pieces-IsCopied pieces n _)))
