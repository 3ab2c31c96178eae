-- ===== src/Contract/Types.antt =====
-- control-plane/internal/contract: proposal.go, verdict.go, codes.go and the wrappers of
-- decimal.go. A Go string that the code compares with a few constants is a data type: `other`
-- stands for any string that is none of them. The human text of a reason or a violation is left
-- out, its code is kept.
use alpha_mint_x.Base.{Bool, true, false, String, Option, List}
use alpha_mint_x.Base.Int.{ℤ}
use alpha_mint_x.Numbers.{Numbers}

-- The codes of codes.go.
pub data Code : Type 0 where
  schema_invalid unsupported_schema_version idempotency_conflict kill_switch_active : Code
  proposal_stale mark_price_unavailable daily_loss_limit_breached max_drawdown_breached : Code
  symbol_not_whitelisted missing_stop_loss invalid_stop_placement invalid_take_profit : Code
  invalid_size low_confidence risk_per_trade_exceeded order_rate_exceeded : Code
  max_positions_reached notional_cap_zero notional_cap_clipped escalated_above_envelope : Code

pub data Action : Type 0 where
  open_long open_short close hold : Action
  other : String → Action

-- `Action.IsOpen`.
abbrev pub is_open : Action → Bool
is_open Action.open_long = true
is_open Action.open_short = true
is_open _ = false

pub data EntryType : Type 0 where
  market limit : EntryType
  other : String → EntryType

pub data TimeInForce : Type 0 where
  gtc ioc : TimeInForce
  other : String → TimeInForce

pub data Signal : Type 0 where
  bullish bearish neutral : Signal
  other : String → Signal

pub data Decision : Type 0 where
  approve reject clip escalate : Decision

-- `UTCTime`: an instant in nanoseconds, and the text that it was read from.
pub record UtcTime : Type 0 where
  pub instant : ℤ
  pub raw : String

abbrev pub schema_version : String
schema_version = "1.0"

module _ (n : Numbers) where
  open n use {Amount, Score, text}

  -- `Decimal`: a value, and the text that it was read from.
  pub record Decimal : Type 0 where
    pub value : Amount
    pub raw : String

  -- `NewDecimal`.
  abbrev pub new_decimal : Amount → Decimal
  new_decimal d = record { value = d; raw = text d }

  pub record Entry : Type 0 where
    pub entry_type : EntryType
    pub limit_price : Option Decimal

  pub record AnalystSummary : Type 0 where
    pub signal : Signal
    pub confidence : Score
    pub summary : String

  pub record AnalystSummaries : Type 0 where
    pub market : AnalystSummary
    pub news : AnalystSummary
    pub fundamental : AnalystSummary

  pub record ModelCost : Type 0 where
    pub node : String
    pub model : String
    pub input_tokens : ℤ
    pub output_tokens : ℤ
    pub cost_usd : Decimal

  pub record Proposal : Type 0 where
    pub version : String
    pub proposal_id : String
    pub strategy_id : String
    pub agent_trace_id : String
    pub created_at : UtcTime
    pub symbol : String
    pub action : Action
    pub size_quote : Decimal
    pub entry : Entry
    pub stop_loss : Option Decimal
    pub take_profit : Option Decimal
    pub time_in_force : TimeInForce
    pub confidence : Score
    pub reasoning : String
    pub analyst_summaries : AnalystSummaries
    pub debate_summary : String
    pub model_costs : List ModelCost

  pub record LimitsSnapshot : Type 0 where
    pub symbol_whitelist : List String
    pub max_open_positions : ℤ
    pub per_position_notional_cap_quote : Decimal
    pub daily_loss_limit_quote : Decimal
    pub max_drawdown_pct : Score
    pub max_orders_per_minute : ℤ
    pub require_stop_loss : Bool
    pub l2_max_size_quote : Option Decimal
    pub l2_allowed_symbols : List String
    pub equity_quote : Decimal
    pub peak_equity_quote : Decimal
    pub daily_realized_pnl_quote : Decimal
    pub open_positions_count : ℤ
    pub pending_entry_orders_count : ℤ
    pub mark_price : Decimal

  pub record Verdict : Type 0 where
    pub version : String
    pub verdict_id : String
    pub proposal_id : String
    pub decision : Decision
    pub clipped_size_quote : Option Decimal
    pub reasons : List Code
    pub limits_snapshot : LimitsSnapshot
    pub evaluated_at : ℤ
