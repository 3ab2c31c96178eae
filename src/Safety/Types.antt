-- ===== src/Safety/Types.antt =====
-- control-plane/internal/safety/monitor.go: the state that the monitor keeps in memory, and the
-- seams through which it reaches the store, the marks, the limits and the live order manager.
-- An instant is a number of nanoseconds. Log lines and the JSON of an alert's details are dropped,
-- but for the cause.
use alpha_mint_x.Base.{String, Bool, Option, none, some, List, [], ◌∷◌, ◌*◌, ◌=ₛ◌, if◌then◌else◌}
use alpha_mint_x.Base.Int.{ℤ, pos, ltb_ℤ}
use alpha_mint_x.Numbers.{Numbers}
use alpha_mint_x.Gate.{RiskLimits, second}

-- WatchdogSilenceThreshold and WatchdogEscalationThreshold.
abbrev pub watchdog_silence_threshold : ℤ
watchdog_silence_threshold = pos (90 * second)

abbrev pub watchdog_escalation_threshold : ℤ
watchdog_escalation_threshold = pos (600 * second)

pub data AlertKind : Type 0 where
  breaker_mark_stale breaker_limit_unset safety_effect_stalled : AlertKind
  watchdog_silence watchdog_kill_escalation : AlertKind

-- A row of `safety_alerts`, without its identifier; an empty text stands for NULL.
pub record Alert : Type 0 where
  pub kind : AlertKind
  pub strategy_id : String
  pub ref_id : String
  pub cause : String
  pub recorded_at : ℤ

pub record PositionRow : Type 0 where
  pub symbol : String
  pub qty_base : String

pub record LiveOrder : Type 0 where
  pub strategy_id : String
  pub symbol : String
  pub class : String

-- An unserved event: its identifier, and when it was recorded, if that can be parsed.
pub record SafetyEvent : Type 0 where
  pub event_id : String
  pub recorded_at : Option ℤ

-- A strategy of the monitored set, with its open positions.
pub record Candidate : Type 0 where
  pub strategy_id : String
  pub lifecycle_state : String
  pub open_positions : List PositionRow

-- The interfaces of `Config`, on one state `Store` of what they reach. A read that returns an error
-- is `none`, and so is an append that fails and leaves the state as it was. `cancel_open_entries`
-- and `start_drive` are the state after the call, whose error is only logged.
pub record Ports (n : Numbers) : Type 1 where
  pub Store : Type 0
  pub list_positions : String → Store → Option (List PositionRow)
  pub list_live_orders : Store → Option (List LiveOrder)
  pub list_unserved : Store → Option (List SafetyEvent)
  pub breaker_active_today : String → String → Store → Option Bool
  pub append_breaker : String → String → n.Amount → n.Amount → ℤ → Store → Option Store
  pub append_alert : Alert → Store → Option Store
  pub has_alert_today : AlertKind → String → String → String → Store → Option Bool
  pub has_alert : AlertKind → String → String → Store → Option Bool
  pub active_kill : String → Store → Option Bool
  pub append_strategy_kill : String → String → ℤ → Store → Option Store
  -- The newest kill of a strategy, its identifier and its actor.
  pub latest_kill : String → Store → Option (Option (String × String))
  pub limits_of : String → Store → RiskLimits n
  pub daily_pnl : String → ℤ → Store → Option n.Amount
  pub mark : String → ℤ → Store → Option n.Amount
  pub min_filters : String → Store → Option (n.Amount × n.Amount)
  pub cancel_open_entries : String → Store → Store
  -- The start of the goroutine of `DriveSafetyEffects`, which runs later, beside its caller.
  pub start_drive : Store → Store
  pub reconciled : Store → Bool
  pub fresh_id : Store → String
  pub utc_date : ℤ → String

-- What `Monitor` keeps in memory.
pub record Monitor : Type 0 where
  pub watchdog_off : Bool
  pub stall : ℤ
  pub active : ℤ
  pub idle : ℤ
  pub started_at : ℤ
  pub last_seen : List (String × ℤ)
  pub first_watched : List (String × ℤ)

-- The two maps: lookup, write, delete.
unfoldable pub time_of : String → List (String × ℤ) → Option ℤ
time_of k [] = none
time_of k ((j, t) ∷ m) = if j =ₛ k then some t else time_of k m

unfoldable pub set_time : String → ℤ → List (String × ℤ) → List (String × ℤ)
set_time k t [] = (k, t) ∷ []
set_time k t ((j, d) ∷ m) = if j =ₛ k then (k, t) ∷ m else (j, d) ∷ set_time k t m

unfoldable pub delete_time : String → List (String × ℤ) → List (String × ℤ)
delete_time k [] = []
delete_time k ((j, d) ∷ m) = if j =ₛ k then delete_time k m else (j, d) ∷ delete_time k m

-- The value to write for a receipt: the later of the two.
abbrev pub later : Option ℤ → ℤ → ℤ
later none at = at
later (some prev) at = if ltb_ℤ prev at then at else prev

-- `Beat`: a receipt that is not later than the last changes nothing.
unfoldable pub beat : String → ℤ → Monitor → Monitor
beat sid at m = record m {
  last_seen = set_time sid (later (time_of sid m.last_seen) at) m.last_seen;
}

-- `LastBeat`.
unfoldable pub last_beat : String → Monitor → Option ℤ
last_beat sid m = time_of sid m.last_seen
