-- ===== src/RunState/Hydrate.antt =====
-- control-plane/internal/runstate/runstate.go: what the gate is given, from the safety tables, one
-- snapshot of the strategy's rows and the fresh marks. A read that fails is `none`.
use alpha_mint_x.Base.{
  ℕ, suc, String, false, ◌||◌, Option, none, some, List, [], ◌∷◌, ◌=ₛ◌, ◌>>=◌, if◌then◌else◌,
}
use alpha_mint_x.Base.Int.{pos}
use alpha_mint_x.Numbers.{Numbers, is_zero, greater_than}
use alpha_mint_x.Gate.{Autonomy, RuntimeState}
use alpha_mint_x.Store.{Tables, global_max_kill_epoch, active_kill}

-- `AutonomyFor`.
unfoldable pub autonomy_for : String → Autonomy
autonomy_for state =
    if state =ₛ "live_l1"
    then Autonomy.l1
    else if state =ₛ "live_l2"
    then Autonomy.l2
    else if state =ₛ "live_l3"
    then Autonomy.l3
    else Autonomy.l0

-- The columns of `positions` that are read.
pub record Position : Type 0 where
  pub symbol : String
  pub qty_base : String
  pub entry_price : String

-- A row of `strategy_state`.
pub record StrategyState : Type 0 where
  pub equity_quote : String
  pub peak_equity_quote : String
  pub daily_realized_pnl_quote : String
  pub utc_date : String

-- `StrategySnapshot`: the classes of the open orders are all that is read of them.
pub record Snapshot : Type 0 where
  pub positions : List Position
  pub open_orders : List String
  pub state : Option StrategyState

abbrev pub count_entries : List String → ℕ
count_entries [] = 0
count_entries (class ∷ cs) =
    let rest = count_entries cs in if class =ₛ "ENTRY" then suc rest else rest

module _ (n : Numbers) where
  open n use {Amount, zero_amount, add, sub, mul, of_text}

  -- `Hydrator`, and what it reads: `marks` gives the fresh ones, `rate_count` is
  -- `CountRateVerdictsSince` a minute before.
  pub record Hydrator : Type 0 where
    pub allocated_capital_quote : Amount
    pub marks : String → Option Amount
    pub snapshot : String → Option Snapshot
    pub rate_count : String → Option ℕ
    pub today : String

  -- `decimal.Max`.
  abbrev pub max_amount : Amount → Amount → Amount
  max_amount a b = if greater_than n b a then b else a

  -- An open position whose quantity is read; its entry price is read only where its mark is fresh.
  abbrev with_open : Option Amount → String → Amount → ℕ × Amount → Option (ℕ × Amount)
  with_open none entry_price qty (count, sum) = some (suc count, sum)
  with_open (some mark) entry_price qty (count, sum) = do
    entry ← of_text entry_price
    some (suc count, add sum (mul (sub mark entry) qty))

  -- `foldPositions`: the number of open positions and the sum of what is not realized.
  unfoldable pub fold_positions :
      (String → Option Amount) → List Position → ℕ × Amount → Option (ℕ × Amount)
  fold_positions marks [] totals = some totals
  fold_positions marks (p ∷ ps) totals = do
    qty ← of_text p.qty_base
    next ←
        (if is_zero n qty then some totals else with_open (marks p.symbol) p.entry_price qty totals)
    fold_positions marks ps next

  -- The daily figure of a row, which starts again with the UTC day.
  abbrev pub daily_of : String → StrategyState → Option Amount
  daily_of today row =
      if row.utc_date =ₛ today then of_text row.daily_realized_pnl_quote else some zero_amount

  -- Equity, peak and daily figure: the row's, or those of a strategy without a row.
  unfoldable pub figures : Hydrator → Option StrategyState → Option (Amount × Amount × Amount)
  figures h none = some (h.allocated_capital_quote, h.allocated_capital_quote, zero_amount)
  figures h (some row) = do
    equity ← of_text row.equity_quote
    peak ← of_text row.peak_equity_quote
    daily ← daily_of h.today row
    some (equity, peak, daily)

  abbrev mark_or_zero : Option Amount → Amount
  mark_or_zero none = zero_amount
  mark_or_zero (some m) = m

  abbrev build_state :
      Hydrator
      → String
      → String
      → String
      → Tables
      → List String
      → ℕ × Amount
      → Amount × Amount × Amount
      → ℕ
      → RuntimeState n
  build_state h sid lifecycle symbol t orders (count, unrealized) (equity, peak, daily) rate =
      record {
        kill_active = active_kill sid t || (lifecycle =ₛ "killed");
        kill_epoch = pos (global_max_kill_epoch sid t);
        breaker_active = false;
        autonomy = autonomy_for lifecycle;
        equity_quote = add equity unrealized;
        peak_equity_quote = max_amount peak (add equity unrealized);
        daily_realized_pnl_quote = add daily unrealized;
        reserved_worst_case_quote = zero_amount;
        open_positions_count = pos count;
        pending_entry_orders_count = pos (count_entries orders);
        entry_orders_in_last_minute = pos rate;
        mark_price = mark_or_zero (h.marks symbol);
        est_taker_fee_rate = zero_amount;
      }

  -- `State`, whose two reads of the kills are of one state of the tables here.
  unfoldable pub hydrate : Hydrator → String → String → String → Tables → Option (RuntimeState n)
  hydrate h sid lifecycle symbol t = do
    snap ← h.snapshot sid
    folded ← fold_positions h.marks snap.positions (0, zero_amount)
    f ← figures h snap.state
    rate ← h.rate_count sid
    some (build_state h sid lifecycle symbol t snap.open_orders folded f rate)

  -- The daily figure without a row is zero.
  abbrev pub today_of : Hydrator → Option StrategyState → Option Amount
  today_of h none = some zero_amount
  today_of h (some row) = daily_of h.today row

  -- `DailyPnL`.
  unfoldable pub daily_pnl : Hydrator → String → Option Amount
  daily_pnl h sid = do
    snap ← h.snapshot sid
    folded ← fold_positions h.marks snap.positions (0, zero_amount)
    daily ← today_of h snap.state
    some (add daily folded.1)
