-- ===== src/RunState.antt =====
-- The runtime state of the gate: control-plane/internal/runstate.
mod Hydrate
pub mod Shut
unfoldable pub use Hydrate.*
