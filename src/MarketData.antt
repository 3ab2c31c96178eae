-- ===== src/MarketData.antt =====
-- Market data: control-plane/internal/marketdata.
mod Symbol
pub mod RoundTrip
mod Ticks
pub mod Window
unfoldable pub use Symbol.*
unfoldable pub use Ticks.*
