-- ===== src/Tests/Clears.antt =====
-- The clears of a kill at concrete tables (control-plane/internal/store/killclear.go).
use alpha_mint_x.Base.{
  ℕ, ◌≡◌, ◌≢◌, ◌↔◌, refl, String, true, false, ◌||◌, none, some, List, [], ◌∷◌, arith, Any, Result,
  ok, err, is_ok,
}
use alpha_mint_x.Store.{
  KillBreakerEvent, ClearScope, KillClearEvent, StoreError, Tables, max_epoch, max_cleared,
  tenant_of, append_kill_breaker_event, append_kill, append_strategy_kill, append_safety_alert,
  kill_row, global_max_kill_epoch, is_served, same_scope, scope_active, scope_max, covered,
  audit_of, insert_effect, insert_clear, supersede, supersede_unserved, write_clear,
  append_kill_clear,
}
use alpha_mint_x.Store.Standing.{IsBounded, append_scope_kill}
use alpha_mint_x.Store.Cleared.{clear_ends_scope, clear_race}
use alpha_mint_x.Store.Unserved.{IsUnserved, is_among}
use alpha_mint_x.Store.Served.{HasKeys, clear_supersedes, clear_succeeds_iff}
use alpha_mint_x.Tests.Store.{new_id, new_id-new, calm, at}

-- The strategy alpha has been killed.
abbrev row : KillBreakerEvent
row = kill_row "k1" "strategy" (some "alpha") (some "north") 1 false "operator" at

abbrev pub stopped : Tables
stopped = record calm { events = row ∷ [] }

abbrev clear : KillClearEvent
clear = record {
  clear_id = "c1";
  scope = ClearScope.strategy "alpha";
  audit_tenant = "north";
  cleared_epoch = 1;
  actor_id = "operator";
  reason = "checked";
  recorded_at = at;
}

abbrev resumed : Tables
resumed = record stopped {
  clears = clear ∷ [];
  effects = record { event_id = "k1"; completed_at = at } ∷ [];
  alerts =
      record {
        alert_id = "x";
        kind = "kill_effects_superseded";
        strategy_id = some "alpha";
        ref_id = some "k1";
        details = "c1";
        recorded_at = at;
      }
      ∷ [];
}

abbrev clear_it : Tables → Result StoreError ((ℕ × List String) × Tables)
clear_it = append_kill_clear new_id "c1" (ClearScope.strategy "alpha") "operator" "checked" 1 at

stopped_cleared : clear_it stopped ≡ ok ((1, "k1" ∷ []), resumed)
unfolding append_kill_clear tenant_of scope_active scope_max write_clear insert_clear
    supersede_unserved supersede insert_effect append_safety_alert covered max_epoch max_cleared
stopped_cleared = refl

clear_ends_scope_example :
    (◌≡◌ {A = ℕ} 1 1)
    × (scope_active (ClearScope.strategy "alpha") resumed ≡ false)
    × ((s : ClearScope)
        → same_scope s (ClearScope.strategy "alpha") ≡ false
        → scope_active s resumed ≡ scope_active s stopped)
    × ((sid : String) → global_max_kill_epoch sid resumed ≡ global_max_kill_epoch sid stopped)
clear_ends_scope_example =
    clear_ends_scope new_id "c1" (ClearScope.strategy "alpha") "operator" "checked" 1 at stopped
      resumed 1 ("k1" ∷ []) stopped_cleared

clear_supersedes_example :
    ((id : String)
      → (is_among id ("k1" ∷ []) ≡ true)
        ↔ Any
            (λ e. IsUnserved (ClearScope.strategy "alpha") 1 stopped.effects e × (e.event_id ≡ id))
            stopped.events)
    × ((id : String)
        → is_served id resumed.effects ≡ is_served id stopped.effects || is_among id ("k1" ∷ []))
    × ¬ Any (IsUnserved (ClearScope.strategy "alpha") 1 resumed.effects) resumed.events
clear_supersedes_example =
    clear_supersedes new_id "c1" (ClearScope.strategy "alpha") "operator" "checked" 1 at stopped
      resumed 1 ("k1" ∷ []) stopped_cleared

stopped-HasKeys : HasKeys stopped.events
unfolding HasKeys
stopped-HasKeys = (refl, tt)

clear_succeeds_iff_example : (is_ok (clear_it stopped) ≡ true) ↔ (
    (is_ok (audit_of (ClearScope.strategy "alpha") stopped) ≡ true)
    × (scope_active (ClearScope.strategy "alpha") stopped ≡ true)
    × (scope_max (ClearScope.strategy "alpha") stopped ≡ 1))
clear_succeeds_iff_example =
    clear_succeeds_iff new_id "c1" (ClearScope.strategy "alpha") "operator" "checked" 1 at stopped
      new_id-new stopped-HasKeys refl

-- A second kill lands after the operator has read the epoch 1.
abbrev stopped_again : Tables
stopped_again = record calm {
  events = row ∷ kill_row "k2" "strategy" (some "alpha") (some "north") 2 false "watchdog" at ∷ [];
}

stopped-IsBounded : IsBounded stopped
unfolding max_cleared
stopped-IsBounded scope = ground arith

stopped_known : tenant_of "alpha" stopped.strategies ≢ none
unfolding tenant_of
stopped_known h = ground arith

second_kill :
    append_scope_kill (ClearScope.strategy "alpha") "k2" "watchdog" at false stopped
    ≡ ok (2, stopped_again)
unfolding append_strategy_kill append_kill append_kill_breaker_event tenant_of max_epoch
second_kill = refl

clear_race_example :
    append_kill_clear new_id "c1"
      (ClearScope.strategy "alpha")
      "operator"
      "checked"
      (scope_max (ClearScope.strategy "alpha") stopped)
      at
      stopped_again
    ≡ err StoreError.clear_conflict
clear_race_example =
    clear_race new_id (ClearScope.strategy "alpha") "k2" "alpha" "watchdog" at false stopped
      stopped_again 2 "c1" "operator" "checked" at stopped-IsBounded (refl, stopped_known)
      second_kill
