-- ===== src/Paper.antt =====
-- The paper order manager: control-plane/internal/oms/paper.
mod Types
mod Fills
mod Booking
mod Orders
mod Ticks
pub mod Maps
pub mod Reduce
pub mod Sizing
pub mod Kills
pub mod Orderly
pub mod Entries
pub mod Sweeps
pub mod Operations
pub mod Guarded
unfoldable pub use Types.*
unfoldable pub use Fills.*
unfoldable pub use Booking.*
unfoldable pub use Orders.*
unfoldable pub use Ticks.*
