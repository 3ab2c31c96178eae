-- ===== src/Gate.antt =====
-- The risk gate: control-plane/internal/riskgate.
mod Types
mod Checks
mod Evaluate
pub mod Stages
pub mod Open
pub mod Verdicts
pub mod Service
pub mod Sharing
unfoldable pub use Types.*
unfoldable pub use Checks.*
unfoldable pub use Evaluate.*
