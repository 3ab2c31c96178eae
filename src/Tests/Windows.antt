-- ===== src/Tests/Windows.antt =====
-- The paper window at concrete tables (control-plane/internal/store/lifecycle.go).
use alpha_mint_x.Base.{String, ◌≡◌, refl, none, some, [], ◌∷◌}
use alpha_mint_x.Store.{
  TransitionRow, Tables, tenant_of, insert_by_time, by_time, last_from, paused_provenance,
  newest_kill, walk_row, walk, paper_window_start,
}
use alpha_mint_x.Tests.Clears.{stopped}

abbrev moved : String → String → String → TransitionRow
moved from to when = record {
  transition_id = when;
  strategy_id = "alpha";
  from_state = from;
  to_state = to;
  actor_id = "operator";
  actor_role = "admin";
  reason = "checked";
  recorded_at = when;
}

-- Killed in place while it is paused, and back to paper a day later.
abbrev back : Tables
back = record stopped {
  transitions =
      moved "draft" "paper" "2026-01-01T09:00:00Z"
      ∷ moved "paper" "paused" "2026-01-02T09:00:00Z"
      ∷ moved "paused" "paper" "2026-01-03T09:00:00Z"
      ∷ [];
}

back_window : paper_window_start "alpha" back ≡ some "2026-01-03T09:00:00Z"
unfolding paper_window_start newest_kill tenant_of by_time insert_by_time walk walk_row
back_window = refl

-- Without the last of these the gate is closed.
abbrev still_stopped : Tables
still_stopped = record stopped { transitions = moved "draft" "paper" "2026-01-01T09:00:00Z" ∷ [] }

still_closed : paper_window_start "alpha" still_stopped ≡ none
unfolding paper_window_start newest_kill tenant_of by_time insert_by_time walk walk_row
still_closed = refl

pause_known : paused_provenance "alpha" back ≡ some "paper"
unfolding paused_provenance by_time insert_by_time last_from
pause_known = refl
