-- ===== src/Store.antt =====
-- control-plane/internal/store: the safety tables of the database, and the transactions on them.
mod Types
mod Kills
mod Clears
mod Windows
pub mod Reentry
pub mod Epochs
pub mod Standing
pub mod Cleared
pub mod Histories
pub mod Unserved
pub mod Served
pub mod Locks
pub mod Later
pub mod Stamps
unfoldable pub use Types.*
unfoldable pub use Kills.*
unfoldable pub use Clears.*
unfoldable pub use Windows.*
