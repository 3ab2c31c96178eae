-- ===== src/Tests/Store.antt =====
-- The kills and the lifecycle lock at concrete tables (control-plane/internal/store).
use alpha_mint_x.Base.{
  ℕ, ◌<◌, ◌≡◌, refl, ap, String, true, false, some, List, [], ◌∷◌, ◌=ₛ◌, eq_iff, arith, Bool-cases,
  inl, inr, ok,
}
use Prim.Native.String.{len, ◌++◌ as ◌+ₛ◌}
use text.Mathlib.TextPositions.{len-append}
use alpha_mint_x.Store.{
  ClearScope, SafetyAlert, StrategyRow, Tables, exists_row, max_epoch, tenant_of,
  global_max_kill_epoch, active_kill, set_killed, insert_transition, append_kill_lifecycle_lock,
}
use alpha_mint_x.Store.Standing.{append_scope_kill}
use alpha_mint_x.Store.Histories.{here, history_kill_stands}

-- An identifier that no alert has: it is longer than all of theirs together.
abbrev all_ids : List SafetyAlert → String
all_ids [] = ""
all_ids (a ∷ bs) = a.alert_id +ₛ all_ids bs

abbrev pub new_id : Tables → String
new_id t = "x" +ₛ all_ids t.alerts

longer-new :
    (bs : List SafetyAlert) (s : String)
    → len (all_ids bs) < len s
    → exists_row (λ a. a.alert_id =ₛ s) bs ≡ false
longer-new [] s h = refl
longer-new (a ∷ bs) s h = elim (Bool-cases (a.alert_id =ₛ s)) [
  | inl e ↦ ground (arith, len-append a.alert_id (all_ids bs), ap len ((eq_iff a.alert_id s).0 e))
  | inr e ↦ ground (arith, len-append a.alert_id (all_ids bs), longer-new bs s)
]

pub new_id-new : (t : Tables) → exists_row (λ a. a.alert_id =ₛ new_id t) t.alerts ≡ false
new_id-new t = longer-new t.alerts (new_id t) (ground (arith, len-append "x" (all_ids t.alerts)))

abbrev pub alpha : StrategyRow
alpha = record {
  strategy_id = "alpha";
  tenant_id = "north";
  lifecycle_state = "live_l2";
  updated_at = "2026-01-01T00:00:00Z";
}

abbrev pub calm : Tables
calm = record {
  strategies = alpha ∷ [];
  events = [];
  clears = [];
  effects = [];
  alerts = [];
  transitions = [];
}

abbrev pub at : String
at = "2026-01-02T10:00:00Z"

pub calm_tenant : tenant_of "alpha" calm.strategies ≡ some "north"
unfolding tenant_of
calm_tenant = refl

history_kill_stands_example :
    (epoch : ℕ) × (u : Tables) × (append_scope_kill
        (ClearScope.tenant "north")
        "k1"
        "operator"
        at
        true
        calm
      ≡ ok (epoch, u))
    × (max_epoch (λ e. true) calm.events < epoch)
    × (active_kill "alpha" u ≡ true)
    × (global_max_kill_epoch "alpha" u ≡ epoch)
history_kill_stands_example =
    history_kill_stands new_id calm calm (ClearScope.tenant "north") "k1" "alpha" "operator" at true
      (refl, refl) here calm_tenant refl

abbrev locked : Tables
locked = record calm {
  strategies = record alpha { lifecycle_state = "killed"; updated_at = at } ∷ [];
  transitions =
      record {
        transition_id = "x";
        strategy_id = "alpha";
        from_state = "live_l2";
        to_state = "killed";
        actor_id = "driver";
        actor_role = "system";
        reason = "kill-switch event k1";
        recorded_at = at;
      }
      ∷ [];
}

calm-locked : append_kill_lifecycle_lock new_id "alpha" "k1" "driver" at calm ≡ ok (true, locked)
unfolding append_kill_lifecycle_lock insert_transition set_killed
calm-locked = refl
