-- ===== src/Lexer.antt =====
-- lexer/: text to tokens, tokens to text, and the token stream that the parser reads.
pub mod Token
pub mod Scan
pub mod Strings
pub mod Lex
pub mod Bounds
pub mod Sound
pub mod Stream
pub mod Cursor
pub mod Write
pub mod Words
pub mod Quotes
pub mod Plain
pub mod Rounds
pub mod RoundTrip
