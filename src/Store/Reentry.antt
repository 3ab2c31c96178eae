-- ===== src/Store/Reentry.antt =====
-- After a kill the paper window starts only with an audited re-entry
-- (control-plane/internal/store/lifecycle.go).
use alpha_mint_x.Base.{String, Bool, not, ◌&&◌, ◌=ₛ◌}
use alpha_mint_x.Store.Types.{TransitionRow}
use alpha_mint_x.Store.Windows.{is_window_row}

-- A row that enters `paper` (not `paused`), at an instant of which a test holds.
abbrev pub enters : (String → Bool) → TransitionRow → Bool
enters test r = not (r.to_state =ₛ "paused") && test r.recorded_at

-- The rows by which a strategy enters `paper`, at an instant of which a test holds.
abbrev pub entry_of : String → (String → Bool) → TransitionRow → Bool
entry_of sid test r = is_window_row sid r && enters test r
