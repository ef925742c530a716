-- ===== src/Lib.antt =====
-- go-sieve: the lexer and the parser of Sieve scripts, parts of the interpreter, and the
-- ManageSieve protocol.
--
-- A script is text. lexer/ makes tokens of it, parser/ makes commands of the tokens, interp/ loads
-- the commands and runs them. managesieve/ has the protocol that puts scripts on a server: the wire
-- format, a client, a server, and a store of scripts in memory.
--
-- The files:
--   Prelude: tests on numbers and bytes, lists, results, loops on fuel, Go's int, Go's maps.
--   Lexer/Token, Scan, Strings, Lex: lexer/token.go and lexer/lex.go, a definition for each routine; `Lex`
--     is `lex`, `tokenStream` is `token_stream` with one round of its loop in `lex_round`.
--   Lexer/Write, Stream: lexer/write.go and lexer/stream.go.
--   Lexer/Bounds, Sound, Cursor, Words, Quotes, Plain, Rounds, RoundTrip: theorems on these.
--   Parser/Syntax, Parse: parser/command.go and parser/parse.go; `Parse` is `parse_stream`.
--   Parser/Print: a printer of commands, for the theorems of Parser/RoundTrip, Reread and
--     Commands.
--   Parser/Total, Nesting: theorems on the recursion and on the limits.
--   Interp/Flags: `canonicalFlags` of interp/load_action.go.
--   Interp/Script: the options, the extensions and `IsVarUsable` of interp/script.go.
--   Interp/Runtime: interp/applied_action.go, and the data of interp/runtime.go with what runs on
--     them; a command is a function from the data to its error and the data behind it.
--   Interp/Variables: `Var` and `SetVar` of interp/runtime.go; Stored, Truncated: theorems on them.
--   Interp/Expand: interp/variables.go, the expression of a reference as a scanner; References,
--     Pieces, Expanded: the grammar of references, and theorems.
--   Interp/Action: interp/action.go, over a host with its handler of actions and its policy.
--   Interp/Control: interp/control.go over any tests and commands; Branches: the theorem on it.
--   Interp/Checks: the tests of interp/test.go that need no comparator, and the lists of tests.
--   Interp/Execute: `Execute` and `executeIncluded` of interp/script.go on a tree of commands.
--   Interp/Runs, Kept, Acted, Finished: an invariant of the actions through every command.
--   Interp/Accounted, Limits: the implicit keep, and the limit of actions.
--   Interp/Relational: the numbers of interp/relational.go; Numeric: the theorem on it.
--   Interp/Address, Compare: interp/test_string.go, with the strings of interp/relational.go; Split: the
--     theorem on addresses.
--   Interp/Pattern: `patternToRegex` of interp/match.go and interp/value_modifiers.go; Quoted: the
--     theorem on them.
--   Interp/Matcher, ValueTests, Keys: interp/matchertest.go, and the tests of interp/test.go and
--     interp/variables.go that compare values.
--   Interp/Load/Encoded: interp/strings.go. Load/Shape, Spec: interp/load_generic.go, where `LoadSpec` is
--     `load_spec` and the fields that its functions set are a value that is passed on.
--   Interp/Load/Actions, Settings: the loaders of commands without a block, of interp/load_action.go,
--     load_variables.go, load_include.go and load_ihave.go. Load/Compared, Tables, Tests: those of tests, of
--     interp/load_tests.go. Load/Commands: interp/load_control.go. Load/TestTable, Dispatch: interp/load.go, where
--     `LoadScript` is `load_script`.
--   Interp/Load/Hexed: the theorem on Encoded. Load/Print: a printer of loaded commands; Binds, Reloaded,
--     Plain, RoundTrip: the commands that it writes.
--   Interp/Load/Permitted, Gated, Blocks, Granted: the extensions that a loaded script wants.
--   Interp/Include: `CmdInclude` of interp/include.go, over what makes a script of a text; Scoped: the
--     theorem on it.
--   Interp/Items: `EnvironmentTest` and `HasFlagTest` of interp/test.go; Flagged, Unknown:
--     theorems on them.
--   Managesieve/Runes: Go's UTF-8.
--   Managesieve/Encode, Decode, Status: managesieve/internal/wire/codec.go.
--   Managesieve/Command: the bytes of commands in managesieve/client/client.go.
--   Managesieve/Total, Lines, Tokens, Written, RoundTrip, PutScript: theorems on the wire format.
--   Managesieve/Memory: managesieve/server/memory.go; Refusals, Entries, Sessions, Scripts:
--     theorems on it.
--   Managesieve/Base64, Reply, Conn, Handlers, Authenticate, Dispatch: managesieve/server/conn.go; the states of a
--     connection, its handlers, and the loop of `serve` as a relation, `Reached`.
--   Managesieve/MemoryStorage: the store in memory as the storage of a connection.
--   Managesieve/States, Guarded, Reachable: an invariant of a connection through every command.
--   Managesieve/Secured: theorems on the connections that are served.
--   Tests: the theorems at concrete inputs.
--
-- A reader is the list of bytes not yet read, and its only error is the end of input. A writer is
-- the list of bytes written, and has no error of its own. Errors are constructors in place of
-- messages. `strings.ToLower` and `strings.ToUpper` on names of variables, commands and extensions fold the
-- letters of ASCII alone, where Go also folds those beyond ASCII, a few of them to letters of ASCII. The storage that a backend opens is a
-- function of the connection and the owner: what the backend keeps between two openings is not modelled.
-- Bytes, lengths and limits are natural numbers; where an int can wrap round, in the value
-- of a number with a quantifier, the model wraps at 64 bits; counts of bytes stay below 2^63.
--
-- A loop runs on fuel, and `out_of_fuel` is a result that the code does not have. The lexer's loops
-- have one unit more than the bytes left, since each round takes a byte. The parser has two units
-- for each token left and two more. The loops over a command's and a code's arguments have one unit
-- more than the bytes left. The exchange of an AUTHENTICATE has one unit more than the bytes left.
--
-- In a tree of commands, the tests that compare values are functions of the runtime data that may set
-- the match variables, as those of Interp/Matcher are. The libraries of regular expressions, Go's
-- Unicode tables, the parser of addresses, the handler of actions, the policy, the message, the
-- environment, the backend of the server, its SASL mechanisms and the TLS handshake are parameters.
--
-- An include stands outside that tree: what reads, parses and loads the text of an included script is a
-- parameter, with what the script does. The loaders refuse a command or test that has no place in the tree with an
-- error of the model's own, `unmodelled`; there is no environment of the test suite.
--
-- Not modelled: the tests of bodies, MIME parts and dates, and the extensions with commands of their
-- own, with their loaders; network, TLS, SASL, clocks, MIME parsing
-- and regular expressions, which are calls of libraries; deadlines, locks and the close of
-- connections; the text of error messages and the debugging output.
pub mod Prelude
pub mod Lexer
pub mod Parser
pub mod Interp
pub mod Managesieve
pub mod Tests
