-- ===== src/Managesieve/Lines.antt =====
-- On the readers of a server's answer in managesieve/internal/wire/codec.go.
use go_sieve.Managesieve.Decode.{
  Decoder, WireError, eof, expect_crlf, skip_sp, read_atom, read_string, read_token, to_upper,
}
use go_sieve.Lexer.Scan.{quote}
use go_sieve.Managesieve.Status.{
  StatusResponse, status_type, CodeArgs, code_arg, code_item, code_round, status_text, after_code,
  status_code, status_words, status_rest, read_status_line, Line, as_status, capability_value,
  capability, read_capability_or_status, active_mark, listed_script, read_script_or_status,
}
use go_sieve.Managesieve.Total.{
  skip_sp-Ends, expect_crlf-Ends, read_atom-Ends, read_string-Ends, read_token-Ends,
}
use go_sieve.Prelude.{
  ℕ, suc, ◌≤◌, ◌<◌, ◌||◌, List, [], ◌∷◌, Option, none, arith, ◌==◌, Bytes, length, Result, ok, err,
  out_of_fuel, Ends, Ends-bind, Ends-if, Ends-weaken, Round, loop, Ends-loop,
}

-- A line is taken from the input with a byte at least.
abbrev pub TakesLine : {A : Type 0} → ℕ → A × Bytes → Type 0
TakesLine k (_, r) = length r < k

abbrev LeavesLe : {A : Type 0} → ℕ → A × Bytes → Type 0
LeavesLe k (_, r) = length r ≤ k

code_arg-Ends :
    (d : Decoder) (args : List Bytes) (r : Bytes) (n : Option ℕ) (k : ℕ) (s : CodeArgs)
    → length r ≤ length (s.1.0)
    → length (s.1.0) ≤ k
    → Ends
        (Round
          (λ (_, (r, _)). length r ≤ k)
          (λ (_, (r, _)). length r)
          (λ (_, (r, _)). length r ≤ k)
          s)
        (code_arg d (args, (r, n)))
unfolding code_arg
code_arg-Ends d args r n k s l h =
    Ends-bind _ _ (read_token d (r, n)) _ (read_token-Ends d r n)
      λ (arg, (r', n')) m. (omega arith, omega arith)

code_item-Ends :
    (d : Decoder) (args : List Bytes) (r : Bytes) (k : ℕ) (s : CodeArgs)
    → length r ≤ length (s.1.0)
    → length (s.1.0) ≤ k
    → Ends
        (Round
          (λ (_, (r, _)). length r ≤ k)
          (λ (_, (r, _)). length r)
          (λ (_, (r, _)). length r ≤ k)
          s)
        (code_item d args r)
unfolding code_item
code_item-Ends d args [] k s l h = tt
code_item-Ends d args (c ∷ r) k s l h =
    Ends-if _ (c == b')') _ _ (λ _. omega arith) λ _. code_arg-Ends d args (c ∷ r) none k s l h

code_round-Ends :
    (d : Decoder) (k : ℕ) (s : CodeArgs)
    → length (s.1.0) ≤ k
    → Ends
        (Round
          (λ (_, (r, _)). length r ≤ k)
          (λ (_, (r, _)). length r)
          (λ (_, (r, _)). length r ≤ k)
          s)
        (code_round d s)
unfolding code_round
code_round-Ends d k (args, (r, n)) h =
    Ends-bind (λ r'. length r' ≤ length r) _ (skip_sp r) _ (skip_sp-Ends r)
      λ r' l. code_item-Ends d args r' k (args, (r, n)) l h

status_text-Ends :
    (d : Decoder) (out : StatusResponse) (r : Bytes)
    → Ends (LeavesLe (length r)) (status_text d out r)
unfolding status_text
status_text-Ends d out [] = tt
status_text-Ends d out (c ∷ r) =
    Ends-if _ (c == 13 || c == 10) _ _
      (λ _.
        Ends-bind _ _ (expect_crlf (c ∷ r, none)) _ (expect_crlf-Ends (c ∷ r) none)
          λ (_, (rest, n)) l. l)
      λ _.
        Ends-bind _ _ (read_token d (c ∷ r, none)) _ (read_token-Ends d (c ∷ r) none)
          λ (t, (r', n)) l.
            Ends-bind _ _ (expect_crlf (r', n)) _ (expect_crlf-Ends r' n)
              λ (_, (rest, n')) m. omega arith

after_code-Ends :
    (d : Decoder) (out : StatusResponse) (r : Result WireError Bytes) (k : ℕ)
    → Ends (λ r'. length r' ≤ k) r
    → Ends (LeavesLe k) (after_code d out r)
unfolding after_code
after_code-Ends d out (ok r) k h =
    Ends-weaken (LeavesLe (length r)) (LeavesLe k) _ (status_text-Ends d out r)
      λ (s, r') l. omega arith
after_code-Ends d out (err eof) k h = omega arith
after_code-Ends d out (err _) k h = tt
after_code-Ends d out out_of_fuel k h = absurd h

status_code-Ends :
    (d : Decoder) (out : StatusResponse) (r : Bytes)
    → Ends (LeavesLe (length r)) (status_code d out r)
unfolding status_code
status_code-Ends d out r =
    Ends-bind _ _ (read_atom d (r, none)) _ (read_atom-Ends d r none) λ (name, (r', n)) h.
      Ends-bind (λ (_, (r'', _)). length r'' ≤ length r') _
        (loop (code_round d) (suc (length r')) ([], (r', n))) _
        (Ends-loop _ (λ (_, (r, _)). length r) _ (code_round d) (code_round-Ends d (length r'))
          (suc (length r')) ([], (r', n)) (omega arith) (omega arith))
        λ (args, (r'', n')) l. after_code-Ends d _ (skip_sp r'') (length r) (
          Ends-weaken (λ x. length x ≤ length r'') (λ x. length x ≤ length r) _ (skip_sp-Ends r'')
            λ x m. omega arith)

status_words-Ends :
    (d : Decoder) (out : StatusResponse) (r : Bytes)
    → Ends (LeavesLe (length r)) (status_words d out r)
unfolding status_words
status_words-Ends d out [] = tt
status_words-Ends d out (c ∷ r) =
    Ends-if _ (c == b'(') _ _
      (λ _.
        Ends-weaken (LeavesLe (length r)) (LeavesLe (suc (length r))) _ (status_code-Ends d out r)
          λ (s, r') l. omega arith)
      λ _. status_text-Ends d out (c ∷ r)

status_rest-Ends :
    (d : Decoder) (out : StatusResponse) (r : Bytes)
    → Ends (LeavesLe (length r)) (status_rest d out r)
unfolding status_rest
status_rest-Ends d out [] = tt
status_rest-Ends d out (c ∷ r) =
    Ends-if _ (c == b' ') _ _
      (λ _.
        Ends-bind (λ x. length x ≤ suc (length r)) _ (skip_sp (c ∷ r)) _ (skip_sp-Ends (c ∷ r))
          λ r' l.
            Ends-weaken (LeavesLe (length r')) (LeavesLe (suc (length r))) _
              (status_words-Ends d out r') λ (s, x) m. omega arith)
      λ _.
        Ends-bind _ _ (expect_crlf (c ∷ r, none)) _ (expect_crlf-Ends (c ∷ r) none)
          λ (_, (rest, n)) l. l

status_type-Ends : (name upper : Bytes) → Ends (λ _. Unit) (status_type name upper)
unfolding status_type
status_type-Ends name upper = ground arith

read_status_line-Ends :
    (d : Decoder) (r : Bytes) → Ends (TakesLine (length r)) (read_status_line d r)
unfolding read_status_line
read_status_line-Ends d r =
    Ends-bind _ _ (read_atom d (r, none)) _ (read_atom-Ends d r none) λ (name, (r', n)) h.
      Ends-bind (λ _. Unit) _ (status_type name (to_upper name)) _
        (status_type-Ends name (to_upper name))
        λ type _.
          Ends-weaken (LeavesLe (length r')) (TakesLine (length r)) _ (status_rest-Ends d _ r')
            λ (s, x) l. omega arith

as_status-Ends :
    (A : Type 0) (k : ℕ) (r : Result WireError (StatusResponse × Bytes))
    → Ends (TakesLine k) r
    → Ends (TakesLine {A = Line A} k) (as_status r)
as_status-Ends A k (ok (s, r)) h = h
as_status-Ends A k (err x) h = tt
as_status-Ends A k out_of_fuel h = absurd h

capability_value-Ends :
    (d : Decoder) (r : Bytes) → Ends (LeavesLe (length r)) (capability_value d r)
unfolding capability_value
capability_value-Ends d [] = tt
capability_value-Ends d (c ∷ r) =
    Ends-if _ (c == b' ') _ _
      (λ _.
        Ends-bind _ _ (read_string d (c ∷ r, none)) _ (read_string-Ends d (c ∷ r) none)
          λ (v, (x, n)) l. omega arith)
      λ _. omega arith

capability-Ends : (d : Decoder) (r : Bytes) → Ends (TakesLine (length r)) (capability d r)
unfolding capability
capability-Ends d r =
    Ends-bind _ _ (read_string d (r, none)) _ (read_string-Ends d r none) λ (name, (r', n)) h.
      Ends-bind _ _ (capability_value d r') _ (capability_value-Ends d r') λ (v, x) l.
        Ends-bind _ _ (expect_crlf (x, none)) _ (expect_crlf-Ends x none)
          λ (_, (rest, _)) m. omega arith

active_mark-Ends : (d : Decoder) (r : Bytes) → Ends (LeavesLe (length r)) (active_mark d r)
unfolding active_mark
active_mark-Ends d [] = tt
active_mark-Ends d (c ∷ r) =
    Ends-if _ (c == b' ') _ _
      (λ _.
        Ends-bind _ _ (read_atom d (c ∷ r, none)) _ (read_atom-Ends d (c ∷ r) none)
          λ (v, (x, n)) l. omega arith)
      λ _. omega arith

listed_script-Ends : (d : Decoder) (r : Bytes) → Ends (TakesLine (length r)) (listed_script d r)
unfolding listed_script
listed_script-Ends d r =
    Ends-bind _ _ (read_string d (r, none)) _ (read_string-Ends d r none) λ (name, (r', n)) h.
      Ends-bind _ _ (active_mark d r') _ (active_mark-Ends d r') λ (v, x) l.
        Ends-bind _ _ (expect_crlf (x, none)) _ (expect_crlf-Ends x none)
          λ (_, (rest, _)) m. omega arith

-- The readers of the two kinds of list a server answers with, capabilities and scripts, return a line or an
-- error on every input, and a line that is returned takes at least one byte of the input: a client's loop over
-- the lines of an answer ends.
pub read_lines-Ends :
    (d : Decoder) (r : Bytes)
    → Ends (TakesLine (length r)) (read_capability_or_status d r)
      × Ends (TakesLine (length r)) (read_script_or_status d r)
unfolding read_capability_or_status read_script_or_status
read_lines-Ends d [] = (tt, tt)
read_lines-Ends d (c ∷ r) = (
  Ends-if _ (c == quote || c == b'{') _ _ (λ _. capability-Ends d (c ∷ r))
      λ _.
        as_status-Ends _ (suc (length r)) (read_status_line d (c ∷ r))
          (read_status_line-Ends d (c ∷ r)),
  Ends-if _ (c == quote || c == b'{') _ _ (λ _. listed_script-Ends d (c ∷ r))
      λ _.
        as_status-Ends _ (suc (length r)) (read_status_line d (c ∷ r))
          (read_status_line-Ends d (c ∷ r)),
)
