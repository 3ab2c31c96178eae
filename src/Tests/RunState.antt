-- ===== src/Tests/RunState.antt =====
-- From the store to the gate and to the monitor, at concrete tables.
use alpha_mint_x.Base.{ℕ, ◌≡◌, refl, String, false, none, some, [], ◌∷◌, ok, arith}
use alpha_mint_x.Base.Int.{ℤ, pos, ◌-ℤ◌, ◌+ℤ◌}
use alpha_mint_x.Numbers.Whole.{whole}
use alpha_mint_x.Contract.{Proposal, Decision}
use alpha_mint_x.Gate.{Autonomy, RiskLimits, RuntimeState, evaluate}
use alpha_mint_x.Store.{
  ClearScope, Tables, max_cleared, max_epoch, tenant_of, active_kill, global_max_kill_epoch,
}
use alpha_mint_x.Store.Standing.{IsBounded, append_scope_kill}
use alpha_mint_x.Safety.Ladder.{KillLaws}
use alpha_mint_x.Safety.Latch.{BreakerLaws}
use alpha_mint_x.Safety.Rungs.{AlertLaws}
use alpha_mint_x.Safety.Persisted.{Clock, store_ports}
use alpha_mint_x.Safety.Stored.{store_meets_monitor}
use alpha_mint_x.RunState.{Hydrator, autonomy_for, fold_positions, figures, hydrate}
use alpha_mint_x.RunState.Shut.{kill_shuts_gate}
use alpha_mint_x.Tests.Safety.{shop}
use alpha_mint_x.Tests.Store.{new_id, calm, at}

calm-IsBounded : IsBounded calm
unfolding max_cleared
calm-IsBounded scope = ground arith

kill_shuts_gate_example :
    (epoch : ℕ) × (u : Tables) × (append_scope_kill ClearScope.platform "k1" "operator" at false
        calm
      ≡ ok (epoch, u))
    × ((h : Hydrator whole) (lifecycle symbol : String) (state : RuntimeState whole)
          (p : Proposal whole) (limits : RiskLimits whole) (fresh : String) (now : ℤ)
        → hydrate whole h "alpha" lifecycle symbol u ≡ some state
        → (evaluate whole p limits state fresh now).decision ≡ Decision.reject)
kill_shuts_gate_example =
    kill_shuts_gate whole ClearScope.platform "k1" "alpha" "operator" at false calm calm-IsBounded
      tt refl

abbrev clock : Clock
clock = record { text_of = λ now. at; instant_of = λ text. some (pos 0); date_of = λ text. text }

abbrev trigger : ℤ → ℤ → ℤ → String
trigger pnl limit now = "sample"

store_meets_monitor_example :
    let p = store_ports clock new_id whole shop trigger in
    KillLaws whole p × BreakerLaws whole p × AlertLaws whole p
store_meets_monitor_example = store_meets_monitor clock new_id whole shop trigger

abbrev hydrator : Hydrator whole
hydrator = record {
  allocated_capital_quote = pos 100;
  marks = λ symbol. some (pos 7);
  snapshot = λ sid. some (record {
    positions = record { symbol = "BTC/USDT"; qty_base = "1"; entry_price = "1" } ∷ [];
    open_orders = "ENTRY" ∷ [];
    state = none;
  });
  rate_count = λ sid. some 2;
  today = "2026-01-02";
}

abbrev hydrated : RuntimeState whole
hydrated = record {
  kill_active = false;
  kill_epoch = pos 0;
  breaker_active = false;
  autonomy = Autonomy.l2;
  equity_quote = pos 106;
  peak_equity_quote = pos 106;
  daily_realized_pnl_quote = pos 6;
  reserved_worst_case_quote = pos 0;
  open_positions_count = pos 1;
  pending_entry_orders_count = pos 1;
  entry_orders_in_last_minute = pos 2;
  mark_price = pos 7;
  est_taker_fee_rate = pos 0;
}

hydrator_hydrates : hydrate whole hydrator "alpha" "live_l2" "BTC/USDT" calm ≡ some hydrated
unfolding hydrate fold_positions figures autonomy_for active_kill global_max_kill_epoch max_epoch
    tenant_of ◌-ℤ◌ ◌+ℤ◌
hydrator_hydrates = refl
