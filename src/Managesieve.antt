-- ===== src/Managesieve.antt =====
-- managesieve/: the wire format of the ManageSieve protocol, and the store of scripts in memory.
pub mod Runes
pub mod Encode
pub mod Decode
pub mod Total
pub mod Command
pub mod Tokens
pub mod Written
pub mod RoundTrip
pub mod PutScript
pub mod Memory
pub mod Refusals
pub mod Entries
pub mod Sessions
pub mod Scripts
pub mod Base64
pub mod Reply
pub mod Conn
pub mod Handlers
pub mod Authenticate
pub mod Dispatch
pub mod States
pub mod Guarded
pub mod Reachable
pub mod Secured
pub mod MemoryStorage
pub mod Status
pub mod Lines
