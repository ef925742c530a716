-- ===== src/Managesieve/Status.antt =====
-- managesieve/internal/wire/codec.go: the lines that a server answers with. The command counter is
-- nil here. The fuel of the loop over a code's arguments is the length of the input, since each
-- argument takes a byte.
use go_sieve.Managesieve.Decode.{
  Decoder, WireError, eof, invalid_status, Input, expect_crlf, skip_sp, read_atom, read_string,
  read_token, to_upper,
}
use go_sieve.Lexer.Scan.{quote}
use go_sieve.Prelude.{
  suc, Bool, false, ◌||◌, List, [], ◌∷◌, ◌++◌, Option, none, some, ◌==◌, if◌then◌else◌, Bytes,
  codes, equal, length, Result, ok, err, out_of_fuel, ◌>>=◌, Flow, next, done, loop,
}

pub data StatusType : Type 0 where
  status_ok status_no status_bye : StatusType

pub record StatusResponse : Type 0 where
  pub type : StatusType
  pub code : Bytes
  pub code_args : List Bytes
  pub text : Bytes

-- The three status types; any other name is refused.
unfoldable pub status_type : Bytes → Bytes → Result WireError StatusType
status_type name upper =
    if equal upper (codes "OK")
    then ok status_ok
    else if equal upper (codes "NO")
    then ok status_no
    else if equal upper (codes "BYE")
    then ok status_bye
    else err (invalid_status name)

-- The variables of the loop over a code's arguments.
abbrev pub CodeArgs : Type 0
CodeArgs = List Bytes × Input

unfoldable pub code_arg : Decoder → CodeArgs → Result WireError (Flow CodeArgs CodeArgs)
code_arg d (args, i) = do (arg, i') ← read_token d i; ok (next (args ++ arg ∷ [], i'))

-- Behind the spaces: the closing parenthesis, or an argument.
unfoldable pub code_item : Decoder → List Bytes → Bytes → Result WireError (Flow CodeArgs CodeArgs)
code_item d args [] = err eof
code_item d args (c ∷ r) =
    if c == b')' then ok (done (args, (r, none))) else code_arg d (args, (c ∷ r, none))

unfoldable pub code_round : Decoder → CodeArgs → Result WireError (Flow CodeArgs CodeArgs)
code_round d (args, (r, n)) = do r' ← skip_sp r; code_item d args r'

-- The text of a status line, where the line does not end, and then the end of the line.
unfoldable pub status_text :
    Decoder → StatusResponse → Bytes → Result WireError (StatusResponse × Bytes)
status_text d out [] = err eof
status_text d out (c ∷ r) =
    if c == 13 || c == 10
    then (expect_crlf (c ∷ r, none) >>= λ (_, (rest, _)). ok (out, rest))
    else read_token d (c ∷ r, none) >>= λ (text, i).
        expect_crlf i >>= λ (_, (rest, _)). ok (record out { text = text }, rest)

-- Behind a code: the end of input is an answer here, and any other text goes on.
unfoldable pub after_code :
    Decoder → StatusResponse → Result WireError Bytes → Result WireError (StatusResponse × Bytes)
after_code d out (ok r) = status_text d out r
after_code d out (err eof) = ok (out, [])
after_code d out (err x) = err x
after_code d out out_of_fuel = out_of_fuel

-- The code in parentheses, behind the opening one.
unfoldable pub status_code :
    Decoder → StatusResponse → Bytes → Result WireError (StatusResponse × Bytes)
status_code d out r = do
  (name, (r', n)) ← read_atom d (r, none)
  (args, (r'', n')) ← loop (code_round d) (suc (length r')) ([], (r', n))
  after_code d (record out { code = to_upper name; code_args = args }) (skip_sp r'')

-- Behind the space after the type.
unfoldable pub status_words :
    Decoder → StatusResponse → Bytes → Result WireError (StatusResponse × Bytes)
status_words d out [] = err eof
status_words d out (c ∷ r) = if c == b'(' then status_code d out r else status_text d out (c ∷ r)

-- Behind the type.
unfoldable pub status_rest :
    Decoder → StatusResponse → Bytes → Result WireError (StatusResponse × Bytes)
status_rest d out [] = err eof
status_rest d out (c ∷ r) =
    if c == b' '
    then skip_sp (c ∷ r) >>= status_words d out
    else expect_crlf (c ∷ r, none) >>= λ (_, (rest, _)). ok (out, rest)

-- `ReadStatusLine`
unfoldable pub read_status_line : Decoder → Bytes → Result WireError (StatusResponse × Bytes)
read_status_line d r = do
  (name, (r', n)) ← read_atom d (r, none)
  type ← status_type name (to_upper name)
  status_rest d (record { type = type; code = []; code_args = []; text = [] }) r'

pub record CapabilityItem : Type 0 where
  pub name : Bytes
  pub value : Option Bytes

-- An item of a list, or the status line that ends the list.
pub data Line (A : Type 0) : Type 0 where
  item : A → Line A
  status : StatusResponse → Line A

abbrev pub as_status :
    {A : Type 0} → Result WireError (StatusResponse × Bytes) → Result WireError (Line A × Bytes)
as_status (ok (s, r)) = ok (status s, r)
as_status (err x) = err x
as_status out_of_fuel = out_of_fuel

-- The value of a capability, if a space follows its name.
unfoldable pub capability_value : Decoder → Bytes → Result WireError (Option Bytes × Bytes)
capability_value d [] = err eof
capability_value d (c ∷ r) =
    if c == b' '
    then (read_string d (c ∷ r, none) >>= λ (v, (r', n)). ok (some v, r'))
    else ok (none, c ∷ r)

unfoldable pub capability : Decoder → Bytes → Result WireError (Line CapabilityItem × Bytes)
capability d r = do
  (name, (r', n)) ← read_string d (r, none)
  (value, r'') ← capability_value d r'
  (_, (rest, _)) ← expect_crlf (r'', none)
  ok (item (record { name = name; value = value }), rest)

-- `ReadCapabilityOrStatus`
unfoldable pub read_capability_or_status :
    Decoder → Bytes → Result WireError (Line CapabilityItem × Bytes)
read_capability_or_status d [] = err eof
read_capability_or_status d (c ∷ r) =
    if c == quote || c == b'{' then capability d (c ∷ r) else as_status (read_status_line d (c ∷ r))

pub record ListedScript : Type 0 where
  pub name : Bytes
  pub active : Bool

-- The mark behind a name, `ACTIVE` in any case; any other mark is read over.
unfoldable pub active_mark : Decoder → Bytes → Result WireError (Bool × Bytes)
active_mark d [] = err eof
active_mark d (c ∷ r) =
    if c == b' '
    then (read_atom d (c ∷ r, none) >>= λ (t, (r', n)).
        ok (equal (to_upper t) (codes "ACTIVE"), r'))
    else ok (false, c ∷ r)

unfoldable pub listed_script : Decoder → Bytes → Result WireError (Line ListedScript × Bytes)
listed_script d r = do
  (name, (r', n)) ← read_string d (r, none)
  (active, r'') ← active_mark d r'
  (_, (rest, _)) ← expect_crlf (r'', none)
  ok (item (record { name = name; active = active }), rest)

-- `ReadScriptOrStatus`
unfoldable pub read_script_or_status :
    Decoder → Bytes → Result WireError (Line ListedScript × Bytes)
read_script_or_status d [] = err eof
read_script_or_status d (c ∷ r) =
    if c == quote || c == b'{'
    then listed_script d (c ∷ r)
    else as_status (read_status_line d (c ∷ r))
