-- ===== src/Strategy.antt =====
-- The strategy lifecycle: control-plane/internal/strategy (lifecycle.go, transition.go).
mod Lifecycle
mod Transition
pub mod Table
pub mod Runs
unfoldable pub use Lifecycle.*
unfoldable pub use Transition.*
