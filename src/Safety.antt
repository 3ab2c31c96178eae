-- ===== src/Safety.antt =====
-- The safety monitor and its watchdog: control-plane/internal/safety.
mod Types
mod Breaker
mod Watchdog
mod Ticks
pub mod Persisted
pub mod Ladder
pub mod Latch
pub mod Rungs
pub mod Stored
unfoldable pub use Types.*
unfoldable pub use Breaker.*
unfoldable pub use Watchdog.*
unfoldable pub use Ticks.*
