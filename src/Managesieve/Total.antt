-- ===== src/Managesieve/Total.antt =====
-- On the `Decoder` of managesieve/internal/wire/codec.go: its loops and its limits.
use go_sieve.Lexer.Scan.{backslash, quote}
use go_sieve.Managesieve.Decode.{
  Decoder, WireError, eof, unexpected_eof, Input, full, peek_byte, expect_crlf, skip_sp,
  is_atom_char, add_command_bytes, atom_bytes, read_atom, quoted_bytes, literal_size, parse_int,
  read_full, check_size, literal_bytes, string_bytes, read_string, token_bytes, read_token,
  atom_end, some_digits, Arguments, command_end, command_argument, command_round, read_command,
}
use go_sieve.Prelude.{
  ℕ, zero, suc, ◌+◌, ◌≤◌, ◌<◌, ◌≡◌, ◌≢◌, Bool, true, false, not, ◌&&◌, ◌||◌, List, [], ◌∷◌, ◌++◌,
  Option, none, some, ◌==◌, arith, Bytes, length, length-append, ok, out_of_fuel, Ends, Ends-bind,
  Ends-if, Ends-ok, Ends-weaken, Ends-ne-out_of_fuel, Round, loop, Ends-loop,
}

-- At most `k` bytes are left.
abbrev pub Left : {A : Type 0} → ℕ → A × Input → Type 0
Left k (_, (r, _)) = length r ≤ k

pub skip_sp-Ends : (r : Bytes) → Ends (λ r'. length r' ≤ length r) (skip_sp r)
unfolding skip_sp
skip_sp-Ends [] = tt
skip_sp-Ends (c ∷ r) = ground (arith, skip_sp-Ends r)

pub expect_crlf-Ends : (r : Bytes) (n : Option ℕ) → Ends (Left (length r)) (expect_crlf (r, n))
unfolding expect_crlf
expect_crlf-Ends [] n = tt
expect_crlf-Ends (c ∷ []) n = ground arith
expect_crlf-Ends (c ∷ x ∷ r) n = ground arith

add_command_bytes-Ends :
    (d : Decoder) (n : Option ℕ) (k : ℕ) → Ends (λ _. Unit) (add_command_bytes d n k)
unfolding add_command_bytes
add_command_bytes-Ends d none k = tt
add_command_bytes-Ends d (some n) k = ground arith

-- An atom has a byte, and its bytes are taken from the input.
abbrev pub TakesAtom : ℕ → Bytes × Input → Type 0
TakesAtom k (a, (r, _)) = (length r + length a ≤ k) × (0 < length a)

atom_bytes-Ends :
    (d : Decoder) (b r : Bytes) (n : Option ℕ) (k : ℕ)
    → length r + length b ≤ k
    → Ends (TakesAtom k) (atom_bytes d b (r, n))
unfolding atom_bytes
atom_bytes-Ends d [] [] n k h = tt
atom_bytes-Ends d (x ∷ b) [] n k h = ground arith
atom_bytes-Ends d b (c ∷ r) n k h =
    Ends-if (TakesAtom k) (not (is_atom_char c)) _ _ (λ _. stop b h)
      λ _.
        Ends-if (TakesAtom k) (full d.max_atom_bytes (length b)) _ _ (λ _. tt)
          λ _.
            Ends-bind (λ _. Unit) (TakesAtom k) (add_command_bytes d n 1) _
              (add_command_bytes-Ends d n 1)
              λ n' _.
                atom_bytes-Ends d (b ++ c ∷ []) r n' k (omega (arith, length-append b (c ∷ [])))
  where
    stop : (b : Bytes) → suc (length r) + length b ≤ k → Ends (TakesAtom k) (atom_end b (c ∷ r, n))
    stop [] h = tt
    stop (x ∷ b) h = omega arith

-- A token takes a byte, and leaves less than it found.
abbrev pub Takes : ℕ → Bytes × Input → Type 0
Takes k (_, (r, _)) = length r < k

pub read_atom-Ends :
    (d : Decoder) (r : Bytes) (n : Option ℕ) → Ends (TakesAtom (length r)) (read_atom d (r, n))
unfolding read_atom
read_atom-Ends d r n =
    Ends-bind (λ r'. length r' ≤ length r) (TakesAtom (length r)) (skip_sp r) _ (skip_sp-Ends r)
      λ r' h. atom_bytes-Ends d [] r' n (length r) (omega arith)

quoted_bytes-Ends :
    (d : Decoder) (b : Bytes) (escaped : Bool) (r : Bytes) (n : Option ℕ) (k : ℕ)
    → length r ≤ k
    → Ends (Left k) (quoted_bytes d b escaped (r, n))
unfolding quoted_bytes
quoted_bytes-Ends d b escaped [] n k h = tt
quoted_bytes-Ends d b escaped (c ∷ r) n k h =
    Ends-if (Left k) (not escaped && c == quote) _ _ (λ _. omega arith)
      λ _.
        Ends-if (Left k) (not escaped && c == backslash) _ _
          (λ _. quoted_bytes-Ends d b true r n k (omega arith))
          λ _.
            Ends-if (Left k) (full d.max_quoted_bytes (length b)) _ _ (λ _. tt)
              λ _.
                Ends-bind (λ _. Unit) (Left k) (add_command_bytes d n 1) _
                  (add_command_bytes-Ends d n 1)
                  λ n' _. quoted_bytes-Ends d (b ++ c ∷ []) false r n' k (omega arith)

literal_size-Ends : (num r : Bytes) → Ends (λ (_, r'). length r' ≤ length r) (literal_size num r)
unfolding literal_size
literal_size-Ends num [] = tt
literal_size-Ends num (c ∷ []) = ground arith
literal_size-Ends num (c ∷ x ∷ r) = ground (arith, literal_size-Ends (num ++ c ∷ []) (x ∷ r))

read_full-Ends :
    (e : WireError) (k : ℕ) (r : Bytes)
    → Ends (λ (b, r'). length r' + length b ≡ length r) (read_full e k r)
unfolding read_full
read_full-Ends e zero r = omega arith
read_full-Ends e (suc k) [] = tt
read_full-Ends e (suc k) (c ∷ r) =
    Ends-bind _ _ (read_full unexpected_eof k r) _ (read_full-Ends unexpected_eof k r)
      λ (b, r') h. omega arith

literal_bytes-Ends :
    (d : Decoder) (r : Bytes) (n : Option ℕ) → Ends (Left (length r)) (literal_bytes d (r, n))
unfolding literal_bytes parse_int check_size
literal_bytes-Ends d r n =
    Ends-bind _ _ (literal_size [] r) _ (literal_size-Ends [] r) λ (num, behind) h.
      Ends-bind (λ _. Unit) _ (some_digits num) _ (digits num)
        λ _ _.
          Ends-bind (λ _. Unit) _ (parse_int num) _ (ground arith)
            λ sz _.
              Ends-bind (λ _. Unit) _ (check_size d sz) _ (ground arith)
                λ _ _.
                  Ends-bind (λ _. Unit) _ (add_command_bytes d n sz) _
                    (add_command_bytes-Ends d n sz)
                    λ n' _.
                      Ends-bind _ _ (expect_crlf (behind, n')) _ (expect_crlf-Ends behind n')
                        λ (_, (r', n'')) l.
                          Ends-bind _ _ (read_full eof sz r') _ (read_full-Ends eof sz r')
                            λ (b, rest) m. omega arith
  where
    digits : (num : Bytes) → Ends (λ _. Unit) (some_digits num)
    digits [] = tt
    digits (c ∷ num) = tt

string_bytes-Ends :
    (d : Decoder) (r : Bytes) (n : Option ℕ) → Ends (Takes (length r)) (string_bytes d (r, n))
unfolding string_bytes
string_bytes-Ends d [] n = tt
string_bytes-Ends d (c ∷ r) n =
    Ends-if (Takes (suc (length r))) (c == quote) _ _
      (λ _.
        Ends-weaken (Left (length r)) (Takes (suc (length r))) _
          (quoted_bytes-Ends d [] false r n (length r) (omega arith))
          λ (b, (r', n')) h. omega arith)
      λ _.
        Ends-if (Takes (suc (length r))) (c == b'{') _ _
          (λ _.
            Ends-weaken (Left (length r)) (Takes (suc (length r))) _ (literal_bytes-Ends d r n)
              λ (b, (r', n')) h. omega arith)
          λ _. tt

pub read_string-Ends :
    (d : Decoder) (r : Bytes) (n : Option ℕ) → Ends (Takes (length r)) (read_string d (r, n))
unfolding read_string
read_string-Ends d r n =
    Ends-bind (λ r'. length r' ≤ length r) _ (skip_sp r) _ (skip_sp-Ends r)
      λ r' h.
        Ends-weaken (Takes (length r')) (Takes (length r)) _ (string_bytes-Ends d r' n)
          λ (b, (r'', n')) l. omega arith

token_bytes-Ends :
    (d : Decoder) (r : Bytes) (n : Option ℕ) → Ends (Takes (length r)) (token_bytes d (r, n))
unfolding token_bytes
token_bytes-Ends d [] n = tt
token_bytes-Ends d (c ∷ r) n =
    Ends-if (Takes (suc (length r))) (c == quote || c == b'{') _ _
      (λ _. read_string-Ends d (c ∷ r) n)
      λ _.
        Ends-weaken (TakesAtom (suc (length r))) (Takes (suc (length r))) _
          (read_atom-Ends d (c ∷ r) n) λ (a, (r', n')) h. omega arith

pub read_token-Ends :
    (d : Decoder) (r : Bytes) (n : Option ℕ) → Ends (Takes (length r)) (read_token d (r, n))
unfolding read_token
read_token-Ends d r n =
    Ends-bind (λ r'. length r' ≤ length r) _ (skip_sp r) _ (skip_sp-Ends r)
      λ r' h.
        Ends-weaken (Takes (length r')) (Takes (length r)) _ (token_bytes-Ends d r' n)
          λ (b, (r'', n')) l. omega arith

-- At most the limit, where there is one.
abbrev pub Within : ℕ → ℕ → Type 0
Within limit n = 0 < limit → n ≤ limit

-- What the loop of `ReadCommand` keeps: the number of arguments.
abbrev Counted : Decoder → Arguments → Type 0
Counted d (args, i) = Within d.max_command_args (length args)

command_round-Ends :
    (d : Decoder) (s : Arguments)
    → Counted d s
    → Ends (Round (Counted d) (λ (_, (r, _)). length r) (Counted d) s) (command_round d s)
unfolding command_round peek_byte command_end command_argument
command_round-Ends d (args, ([], n)) h = tt
command_round-Ends d (args, (c ∷ r, n)) h =
    Ends-if _ (c == 13 || c == 10) _ _
      (λ _.
        Ends-bind _ _ (expect_crlf (c ∷ r, n)) _ (expect_crlf-Ends (c ∷ r) n) λ (_, (r', n')) l. h)
      λ _.
        Ends-if _ (full d.max_command_args (length args)) _ _ (λ _. tt)
          λ e.
            Ends-bind _ _ (read_token d (c ∷ r, n)) _ (read_token-Ends d (c ∷ r) n)
              λ (arg, (r', n')) l. (λ p. ground (arith, length-append args (arg ∷ [])), l)

pub read_command-Ends :
    (d : Decoder) (r : Bytes)
    → Ends (λ ((_, args), _). Within d.max_command_args (length args)) (read_command d r)
unfolding read_command
read_command-Ends d r =
    Ends-bind _ _ (read_atom d (r, some 0)) _ (read_atom-Ends d r (some 0)) λ (name, (r', n)) h.
      Ends-bind (Counted d) _ (loop (command_round d) (suc (length r')) ([], (r', n))) _
        (Ends-loop (Counted d) (λ (_, (r, _)). length r) (Counted d) (command_round d)
          (command_round-Ends d) (suc (length r')) ([], (r', n)) (omega arith) λ _. omega arith)
        λ (args, (rest, n')) l. l

-- The decoder never runs out of fuel on a command: `ReadCommand` returns a command or an error on every input.
pub read_command-ne-out_of_fuel : (d : Decoder) (r : Bytes) → read_command d r ≢ out_of_fuel
read_command-ne-out_of_fuel d r = Ends-ne-out_of_fuel _ (read_command d r) (read_command-Ends d r)

-- A command that is read has at most `MaxCommandArgs` arguments, where that limit is not 0.
pub length-read_command :
    (d : Decoder) (r name : Bytes) (args : List Bytes) (rest : Bytes)
    → read_command d r ≡ ok ((name, args), rest)
    → 0 < d.max_command_args
    → length args ≤ d.max_command_args
length-read_command d r name args rest e = Ends-ok _ (read_command d r) (read_command-Ends d r) e
