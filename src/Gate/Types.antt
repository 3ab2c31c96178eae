-- ===== src/Gate/Types.antt =====
-- control-plane/internal/riskgate/gate.go: the limits, the runtime inputs, the prices that the
-- checks are anchored to and the snapshot of a verdict. A Go `int` is an unbounded integer here.
use alpha_mint_x.Base.{ℕ, Bool, true, false, String, Option, none, some, List, []}
use alpha_mint_x.Base.Int.{ℤ}
use alpha_mint_x.Numbers.{Numbers}
use alpha_mint_x.Contract.{EntryType, Decimal, new_decimal, Proposal, LimitsSnapshot}

pub data Autonomy : Type 0 where
  l0 l1 l2 l3 : Autonomy

abbrev pub is_l2 : Autonomy → Bool
is_l2 Autonomy.l2 = true
is_l2 _ = false

-- DefaultStalenessThresholdSeconds, FutureSkewToleranceSeconds, and a second in nanoseconds.
abbrev pub default_staleness_threshold_seconds : ℕ
default_staleness_threshold_seconds = 60

abbrev pub future_skew_tolerance_seconds : ℕ
future_skew_tolerance_seconds = 5

abbrev pub second : ℕ
second = 1_000_000_000

module _ (n : Numbers) where
  open n use {Amount, add, sub, mul, div, abs, of_int, inexact}

  pub record L2Envelope : Type 0 where
    pub max_size_quote : Amount
    pub allowed_symbols : List String

  pub record RiskLimits : Type 0 where
    pub symbol_whitelist : List String
    pub max_open_positions : ℤ
    pub per_position_notional_cap_quote : Amount
    pub daily_loss_limit_quote : Amount
    pub max_drawdown_pct : Amount
    pub max_loss_at_stop_quote : Amount
    pub min_stop_distance_pct : Amount
    pub max_stop_distance_pct : Amount
    pub max_orders_per_minute : ℤ
    pub require_stop_loss : Bool
    pub allocated_capital_quote : Amount
    pub accounting_quote : String
    pub staleness_threshold_seconds : ℤ
    pub l1_approval_timeout_seconds : ℤ
    pub l2_envelope : Option L2Envelope

  pub record RuntimeState : Type 0 where
    pub kill_active : Bool
    pub kill_epoch : ℤ
    pub breaker_active : Bool
    pub autonomy : Autonomy
    pub equity_quote : Amount
    pub peak_equity_quote : Amount
    pub daily_realized_pnl_quote : Amount
    pub reserved_worst_case_quote : Amount
    pub open_positions_count : ℤ
    pub pending_entry_orders_count : ℤ
    pub entry_orders_in_last_minute : ℤ
    pub mark_price : Amount
    pub est_taker_fee_rate : Amount

  abbrev pub hundred : Amount
  hundred = of_int 100

  abbrev price_of : EntryType → Option (Decimal n) → Amount → Amount
  price_of EntryType.limit (some price) mark = price.value
  price_of kind price mark = mark

  -- `entryPrice`: the limit price of a limit entry, else the mark.
  unfoldable pub entry_price : Proposal n → RuntimeState → Amount
  entry_price p state = price_of p.entry.entry_type p.entry.limit_price state.mark_price

  -- `worstCase`: the loss at the stop, and the estimated taker fees.
  unfoldable pub worst_case : Amount → Amount → Amount → Amount → Amount
  worst_case size entry stop fee_rate =
      add (div (mul size (abs (sub entry stop))) entry) (mul size fee_rate)

  abbrev envelope_size : Option L2Envelope → Option (Decimal n)
  envelope_size none = none
  envelope_size (some e) = some (new_decimal n e.max_size_quote)

  abbrev envelope_symbols : Option L2Envelope → List String
  envelope_symbols none = []
  envelope_symbols (some e) = e.allowed_symbols

  -- `snapshot`: the limits in force and the inputs that the gate evaluated.
  unfoldable pub snapshot : RiskLimits → RuntimeState → LimitsSnapshot n
  snapshot limits state = record {
    symbol_whitelist = limits.symbol_whitelist;
    max_open_positions = limits.max_open_positions;
    per_position_notional_cap_quote = new_decimal n limits.per_position_notional_cap_quote;
    daily_loss_limit_quote = new_decimal n limits.daily_loss_limit_quote;
    max_drawdown_pct = inexact limits.max_drawdown_pct;
    max_orders_per_minute = limits.max_orders_per_minute;
    require_stop_loss = limits.require_stop_loss;
    l2_max_size_quote = envelope_size limits.l2_envelope;
    l2_allowed_symbols = envelope_symbols limits.l2_envelope;
    equity_quote = new_decimal n state.equity_quote;
    peak_equity_quote = new_decimal n state.peak_equity_quote;
    daily_realized_pnl_quote = new_decimal n state.daily_realized_pnl_quote;
    open_positions_count = state.open_positions_count;
    pending_entry_orders_count = state.pending_entry_orders_count;
    mark_price = new_decimal n state.mark_price;
  }
