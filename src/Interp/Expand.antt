-- ===== src/Interp/Expand.antt =====
-- interp/variables.go: the references to variables in a string, their check and their values.
use go_sieve.Interp.Runtime.{RuntimeData, ExecError, panicked, Exec, reading}
use go_sieve.Interp.Script.{Script, requires_extension, is_var_usable}
use go_sieve.Interp.Text.{to_lower}
use go_sieve.Interp.Variables.{match_variable, var, set_var}
use go_sieve.Lexer.Scan.{decimal, is_letter, is_digit, is_identifier_byte, all_identifier_bytes}
use go_sieve.Prelude.{
  ℕ, zero, suc, ◌^◌, Bool, true, false, ◌&&◌, ◌||◌, List, [], ◌∷◌, ◌++◌, ◌==◌, Option, none, some,
  ltb, if◌then◌else◌, Bytes, codes, length, Result, ok, err, out_of_fuel, ◌>>=◌,
}

-- A byte outside the references, or the name of a reference.
pub data Piece : Type 0 where
  plain_byte : ℕ → Piece
  reference : Bytes → Piece

unfoldable pub all_digits : Bytes → Bool
all_digits [] = true
all_digits (b ∷ s) = is_digit b && all_digits s

-- `[0-9]+`
unfoldable pub is_num_variable : Bytes → Bool
is_num_variable [] = false
is_num_variable (b ∷ s) = all_digits (b ∷ s)

-- `[a-zA-Z_][a-zA-Z0-9_]*`, which a name of the lexer is not where it starts with `_`.
unfoldable pub is_word : Bytes → Bool
is_word [] = false
is_word (b ∷ s) = (is_letter b || b == 95) && all_identifier_bytes s

-- A sub-namespace, or the name.
unfoldable pub is_segment : Bytes → Bool
is_segment s = is_word s || is_num_variable s

-- The segments between the dots, behind the first; `seg` is the part read of the current one.
unfoldable pub all_segments : Bytes → Bytes → Bool
all_segments seg [] = is_segment seg
all_segments seg (b ∷ s) =
    let rest = all_segments [] s in
    if b == 46 then is_segment seg && rest else all_segments (seg ++ b ∷ []) s

-- The whole name: a first segment with others behind it is a word.
unfoldable pub is_reference : Bytes → Bytes → Bool
is_reference seg [] = is_segment seg
is_reference seg (b ∷ s) =
    if b == 46 then is_word seg && all_segments [] s else is_reference (seg ++ b ∷ []) s

-- The bytes of a name up to the closing brace.
unfoldable pub name_until : Bytes → Option Bytes
name_until [] = none
name_until (b ∷ s) =
    if b == 125
    then some []
    else if is_identifier_byte b || b == 46
    then elim (name_until s) [ none ↦ none | some n ↦ some (b ∷ n) ]
    else none

-- The name behind an opening brace, if the expression matches there.
unfoldable pub checked_name : Option Bytes → Option Bytes
checked_name none = none
checked_name (some n) = if is_reference [] n then some n else none

-- A match of `variableRegexp` at the start.
unfoldable pub reference_at : Bytes → Option Bytes
reference_at [] = none
reference_at (b ∷ []) = none
reference_at (b ∷ c ∷ s) = if b == 36 && c == 123 then checked_name (name_until s) else none

-- The matches of `variableRegexp` and the bytes between them; the first `skip` bytes belong to a match.
unfoldable pub pieces : ℕ → Bytes → List Piece
pieces skip [] = []
pieces (suc skip) (b ∷ s) = pieces skip s
pieces zero (b ∷ s) = elim (reference_at (b ∷ s)) [
  | none ↦ plain_byte b ∷ pieces zero s
  | some n ↦ reference n ∷ pieces (suc (suc (length n))) s
]

-- The names that are referred to, folded.
unfoldable pub names : List Piece → List Bytes
names [] = []
names (plain_byte b ∷ ps) = names ps
names (reference n ∷ ps) = to_lower n ∷ names ps

unfoldable pub used_vars : Script → Bytes → List Bytes
used_vars script s =
    if requires_extension script (codes "variables") then names (pieces 0 s) else []

-- `strconv.Atoi` on a name.
unfoldable pub match_number : Bytes → Option ℕ
match_number n =
    if is_num_variable n && ltb (decimal 0 n) (2 ^ 63) then some (decimal 0 n) else none

-- The body of the loop of `usedVarsAreValid`.
unfoldable pub readable_at : Script → Bytes → Option ℕ → Bool
readable_at script v none = (is_var_usable script v).1
readable_at script v (some i) = true

abbrev pub is_readable : Script → Bytes → Bool
is_readable script v = readable_at script v (match_number v)

unfoldable pub all_readable : Script → List Bytes → Bool
all_readable script [] = true
all_readable script (v ∷ vs) = is_readable script v && all_readable script vs

-- `usedVarsAreValid`
unfoldable pub used_vars_are_valid : Script → Bytes → Bool
used_vars_are_valid script s = all_readable script (used_vars script s)

abbrev pub or_panic : Bytes → Result ExecError Bytes → Result ExecError Bytes
or_panic name (ok value) = ok value
or_panic name (err x) = err (panicked name)
or_panic name out_of_fuel = out_of_fuel

-- What replaces a reference.
unfoldable pub value_at : RuntimeData → Bytes → Option ℕ → Result ExecError Bytes
value_at d name none = or_panic name (var d name)
value_at d name (some i) = ok (match_variable d.match_variables i)

abbrev pub value_of : RuntimeData → Bytes → Result ExecError Bytes
value_of d name = value_at d name (match_number name)

unfoldable pub replaced : RuntimeData → List Piece → Result ExecError Bytes
replaced d [] = ok []
replaced d (plain_byte b ∷ ps) = do rest ← replaced d ps; ok (b ∷ rest)
replaced d (reference n ∷ ps) = do value ← value_of d n; rest ← replaced d ps; ok (value ++ rest)

-- `expandVars`
unfoldable pub expand_vars : RuntimeData → Bytes → Result ExecError Bytes
expand_vars d s =
    if requires_extension d.script (codes "variables") then replaced d (pieces 0 s) else ok s

-- `expandVarsList`
unfoldable pub expand_vars_list : RuntimeData → List Bytes → Result ExecError (List Bytes)
expand_vars_list d [] = ok []
expand_vars_list d (s ∷ l) = do
  first ← expand_vars d s
  rest ← expand_vars_list d l
  ok (first ∷ rest)

-- `CmdSet`
unfoldable pub cmd_set : Bytes → Bytes → (Bytes → Bytes) → Exec Unit
cmd_set name value modify_value d =
    reading (expand_vars d value) (λ expanded. set_var name (modify_value expanded)) d
