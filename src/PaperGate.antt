-- ===== src/PaperGate.antt =====
-- The paper gate: control-plane/internal/papergate.
mod Replay
mod Rule
pub mod Agreement
pub mod Promotion
unfoldable pub use Replay.*
unfoldable pub use Rule.*
