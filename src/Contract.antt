-- ===== src/Contract.antt =====
-- The proposal contract: control-plane/internal/contract.
mod Types
mod Patterns
mod Validate
pub mod Rules
unfoldable pub use Types.*
unfoldable pub use Patterns.*
unfoldable pub use Validate.*
