-- ===== src/Live.antt =====
-- The live order manager and its journal: control-plane/internal/oms/live and the tables of
-- control-plane/internal/store/liveoms.go.
mod Types
mod Writes
mod Status
mod Submit
mod Transmit
mod Filters
mod Entry
mod Fills
mod Rows
mod Accounting
pub mod Agreement
pub mod Settled
pub mod Sends
pub mod Unseen
pub mod Ranks
pub mod Claims
pub mod Attempts
pub mod Booked
unfoldable pub use Types.*
unfoldable pub use Writes.*
unfoldable pub use Status.*
unfoldable pub use Submit.*
unfoldable pub use Transmit.*
unfoldable pub use Filters.*
unfoldable pub use Entry.*
unfoldable pub use Fills.*
unfoldable pub use Rows.*
unfoldable pub use Accounting.*
