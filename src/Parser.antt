-- ===== src/Parser.antt =====
-- parser/: tokens to commands.
pub mod Syntax
pub mod Parse
pub mod Total
pub mod Print
pub mod RoundTrip
pub mod Reread
pub mod Commands
pub mod Nesting
