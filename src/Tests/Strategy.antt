-- ===== src/Tests/Strategy.antt =====
-- The lifecycle theorems at concrete instances (control-plane/internal/strategy).
use alpha_mint_x.Base.{◌≡◌, refl, ◌↔◌, true, List, [], ◌∷◌, is_ok}
use alpha_mint_x.Strategy.{State, Role, Context, new, new_at, transition}
use alpha_mint_x.Strategy.Table.{Allowed, transition-iff-Allowed}
use alpha_mint_x.Strategy.Runs.{
  Attempt, run, attempt, coherent, run-new-coherent, Promotes, Relaunches, Follows, killed_relaunch,
}

-- Everything in order, by an Admin.
abbrev ready : Context
ready = record {
  actor = Role.admin;
  config_valid = true;
  exchange_keys_configured = true;
  paper_gate_passed = true;
  l2_envelope_configured = true;
  admin_approval = true;
  positions_flat = true;
  kill_cleared = true;
  counters_reset = true;
  reason = "incident closed";
}

abbrev onlooker : Context
onlooker = record ready { actor = Role.viewer }

abbrev watchdog : Context
watchdog = record ready { actor = Role.system }

-- To live trading, killed, unlocked and promoted again; the direct way back is refused.
abbrev comeback : List Attempt
comeback = (State.live_l1, ready) ∷ (State.paper, ready) ∷ (State.live_l2, ready) ∷ []

comeback_is_live : (run (new_at State.killed) comeback).state ≡ State.live_l2
unfolding run attempt transition new_at
comeback_is_live = refl

transition-iff-Allowed_example :
    (is_ok (transition State.live_l1 ready (new_at State.paper)).1 ≡ true)
    ↔ Allowed ready (new_at State.paper).state (new_at State.paper).paused_from State.live_l1
transition-iff-Allowed_example = transition-iff-Allowed State.live_l1 ready (new_at State.paper)

abbrev launch : List Attempt
launch = (State.paper, ready) ∷ (State.live_l3, ready) ∷ (State.paused, ready) ∷ []

run-new-coherent_example : coherent (run new launch).state (run new launch).paused_from ≡ true
run-new-coherent_example = run-new-coherent launch

killed_relaunch_example : Follows Relaunches Promotes comeback
unfolding run attempt transition new_at
killed_relaunch_example = killed_relaunch (new_at State.killed) comeback refl refl
