-- ===== src/Tests/Safety.antt =====
-- The safety monitor on a concrete store (control-plane/internal/safety).

use alpha_mint_x.Base.{
  arith, ℕ, suc, ◌≡◌, refl, ap, sym, Bool, true, false, Option, none, some, List, [], ◌∷◌, inl, ◌*◌,
}
use alpha_mint_x.Base.Int.{ℤ, pos, negsuc, ◌-ℤ◌}
use alpha_mint_x.Numbers.Whole.{whole}
use alpha_mint_x.Gate.{second, contains}
use alpha_mint_x.Safety.{
  is_protectable, has_protective, PositionRow, Candidate, Ports, Monitor, evaluate, watch_one,
  prune_watch_set, backfill_escalation_alert, time_of,
}
use alpha_mint_x.Safety.Ladder.{KillLaws, beats, return_is_fresh, silence_kills}
use alpha_mint_x.Safety.Latch.{AllMarked, AllNamed, Trips, Named, BreakerLaws, breaker_once}
use alpha_mint_x.Safety.Rungs.{AlertLaws, exposure_kills}
use alpha_mint_x.Tests.Gate.{limits}

-- A store of one strategy: whether it is killed, its breaker and its alert of the day, what was
-- canceled and driven, its profit and the price of its symbol.
pub record Shop : Type 0 where
  killed : Bool
  tripped : Bool
  alerted : Bool
  canceled : ℕ
  driven : ℕ
  profit : ℤ
  price : Option ℤ
  rows : List PositionRow

abbrev pub shop : Ports whole
shop = record {
  Store = Shop;
  list_positions = λ sid s. some s.rows;
  list_live_orders = λ s. some [];
  list_unserved = λ s. some [];
  breaker_active_today = λ sid day s. some s.tripped;
  append_breaker = λ id sid pnl limit now s. some (record s { tripped = true });
  append_alert = λ a s. some (record s { alerted = true });
  has_alert_today = λ kind sid ref day s. some s.alerted;
  has_alert = λ kind sid ref s. some s.alerted;
  active_kill = λ sid s. some s.killed;
  append_strategy_kill = λ id sid now s. some (record s { killed = true });
  latest_kill = λ sid s. some none;
  limits_of = λ sid s. limits;
  daily_pnl = λ sid now s. some s.profit;
  mark = λ symbol now s. s.price;
  min_filters = λ symbol s. some (pos 1, pos 10);
  cancel_open_entries = λ sid s. record s { canceled = suc s.canceled };
  start_drive = λ s. record s { driven = suc s.driven };
  reconciled = λ s. true;
  fresh_id = λ s. "event";
  utc_date = λ now. "2026-01-01";
}

abbrev row : PositionRow
row = record { symbol = "BTC/USDT"; qty_base = "1" }

-- A day's loss of 250 against a limit of 200.
abbrev losing : Shop
losing = record {
  killed = false;
  tripped = false;
  alerted = false;
  canceled = 0;
  driven = 0;
  profit = negsuc 249;
  price = some (pos 100);
  rows = row ∷ [];
}

abbrev kill_of : Option Shop → Option Bool
kill_of none = none
kill_of (some s) = some s.killed

abbrev breaker_of : Option Shop → Option Bool
breaker_of none = none
breaker_of (some s) = some s.tripped

abbrev alert_in : Option Shop → Option Bool
alert_in none = none
alert_in (some s) = some s.alerted

shop-KillLaws : KillLaws whole shop
shop-KillLaws = record {
  kill_kept = λ id sid now s s' e. ap kill_of (sym e);
  alert_keeps = λ a sid s s' e. ap kill_of (sym e);
  drive_keeps = λ sid s. refl;
}

shop-BreakerLaws : BreakerLaws whole shop
shop-BreakerLaws = record {
  breaker_kept = λ id sid pnl limit now s s' e. ap breaker_of (sym e);
  drive_keeps_breaker = λ sid day s. refl;
}

shop-AlertLaws : AlertLaws whole shop
shop-AlertLaws = record { alert_kept = λ a s s' e. ap alert_in (sym e) }

-- The monitor, started at 0, that watches the strategy from the second 5 on.
abbrev monitor : Monitor
monitor = record {
  watchdog_off = false;
  stall = pos (600 * second);
  active = pos (5 * second);
  idle = pos (60 * second);
  started_at = pos 0;
  last_seen = ("alpha", pos (10 * second)) ∷ [];
  first_watched = ("alpha", pos (5 * second)) ∷ [];
}

abbrev alpha : Candidate
alpha = record { strategy_id = "alpha"; lifecycle_state = "live_l2"; open_positions = row ∷ [] }

losing-Named : Named whole shop (some (row ∷ []))
unfolding AllNamed
losing-Named = ground arith

losing-Trips : Trips whole shop "alpha" (pos 0) losing
unfolding AllMarked
losing-Trips = ground arith

breaker_once_example :
    (some (evaluate whole shop "alpha" (pos 0) losing).tripped ≡ some true)
    × (evaluate whole shop "alpha" (pos 9) (evaluate whole shop "alpha" (pos 0) losing)
        ≡ evaluate whole shop "alpha" (pos 0) losing)
breaker_once_example =
    breaker_once whole shop shop-BreakerLaws "alpha" (negsuc 249) (pos 0) (pos 9) losing
      (record losing { tripped = true }) losing-Named losing-Trips refl refl refl

return_is_fresh_example :
    (watch_one whole shop alpha
      (pos (900 * second))
      true
      (beats [] (prune_watch_set [] monitor), losing)).1
    ≡ losing
unfolding backfill_escalation_alert contains
return_is_fresh_example =
    return_is_fresh whole shop alpha (pos (900 * second)) true [] [] monitor losing refl
      (ground arith)

silence_kills_example :
    some (watch_one whole shop alpha (pos (900 * second)) false (monitor, losing)).1.killed
    ≡ some true
unfolding backfill_escalation_alert time_of ◌-ℤ◌
silence_kills_example =
    silence_kills whole shop shop-KillLaws alpha (pos (900 * second)) (pos (5 * second)) false
      monitor losing (record losing { killed = true }) refl refl refl refl refl refl

exposure_kills_example :
    some (watch_one whole shop alpha (pos (200 * second)) true (monitor, losing)).1.killed
    ≡ some true
unfolding backfill_escalation_alert time_of ◌-ℤ◌ is_protectable has_protective
exposure_kills_example =
    exposure_kills whole shop shop-KillLaws alpha (pos (200 * second)) (pos (5 * second)) [] monitor
      losing (record losing { killed = true }) refl refl refl refl refl refl (inl (refl, refl)) refl
