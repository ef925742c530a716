-- ===== src/Interp/Load.antt =====
-- The loaders of interp/: what makes a script of parsed commands.
pub mod Encoded
pub mod Shape
pub mod Hexed
pub mod Spec
pub mod Settings
pub mod Actions
pub mod Compared
pub mod Tables
pub mod Tests
pub mod TestTable
pub mod Commands
pub mod Dispatch
pub mod Permitted
pub mod Gated
pub mod Blocks
pub mod Granted
pub mod Print
pub mod Binds
pub mod Reloaded
pub mod Plain
pub mod RoundTrip
