-- ===== src/Interp.antt =====
-- interp/: scripts, runtime data and variables, actions, conditions, flags, and the comparison of numbers.
pub mod Text
pub mod Script
pub mod Runtime
pub mod Variables
pub mod Expand
pub mod Flags
pub mod Action
pub mod Address
pub mod Pattern
pub mod Quoted
pub mod Split
pub mod Control
pub mod Checks
pub mod Execute
pub mod Branches
pub mod Relational
pub mod Compare
pub mod Matcher
pub mod ValueTests
pub mod Keys
pub mod Load
pub mod Items
pub mod Include
pub mod Scoped
pub mod Flagged
pub mod Unknown
pub mod Numeric
pub mod Runs
pub mod Kept
pub mod Acted
pub mod Finished
pub mod Accounted
pub mod Limits
pub mod Expanded
pub mod References
pub mod Pieces
pub mod Stored
pub mod Truncated
