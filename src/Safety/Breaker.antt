-- ===== src/Safety/Breaker.antt =====
-- control-plane/internal/safety/tick.go and alert.go: the breaker evaluation of one strategy, the
-- alerts with their daily dedupe, and the scan for stalled effects.
use alpha_mint_x.Base.{String, Bool, false, Option, none, some, List, [], ◌∷◌, ◌=ₛ◌, if◌then◌else◌}
use alpha_mint_x.Base.Int.{ℤ, ltb_ℤ, ◌-ℤ◌}
use alpha_mint_x.Numbers.{Numbers, greater_than, is_zero, is_gt, sign}
use alpha_mint_x.Safety.Types.{Alert, AlertKind, PositionRow, SafetyEvent, Ports, Monitor}

module _ (n : Numbers) (p : Ports n) where
  open n use {Amount, neg, of_text}
  open p use {
    Store, list_positions, list_unserved, breaker_active_today, append_breaker, append_alert,
    has_alert_today, limits_of, daily_pnl, mark, start_drive, fresh_id, utc_date,
  }

  -- `appendAlert`, whose error most callers ignore.
  abbrev pub or_same : Option Store → Store → Store
  or_same none s = s
  or_same (some s') s = s'

  abbrev pub alert_of : AlertKind → String → String → String → ℤ → Alert
  alert_of kind sid ref cause now = record {
    kind = kind;
    strategy_id = sid;
    ref_id = ref;
    cause = cause;
    recorded_at = now;
  }

  abbrev pub unless_dup : Option Bool → Alert → Store → Store
  unless_dup (some false) a s = or_same (append_alert a s) s
  unless_dup dup a s = s

  -- `alertDaily`: once for each kind, strategy, reference and UTC day; none where the read fails.
  unfoldable pub alert_daily : AlertKind → String → String → String → ℤ → Store → Store
  alert_daily kind sid ref cause now s =
      unless_dup (has_alert_today kind sid ref (utc_date now) s) (alert_of kind sid ref cause now) s

  -- `staleSymbol`: the first open position without a fresh mark, "" where each has one.
  unfoldable pub stale_among : List PositionRow → ℤ → Store → Option String
  stale_among [] now s = some ""
  stale_among (r ∷ rs) now s =
      let rest = stale_among rs now s in
      elim (of_text r.qty_base) [
        | none ↦ none
        | some q ↦
            if is_zero n q
            then rest
            else elim (mark r.symbol now s) [ none ↦ some r.symbol | some m ↦ rest ]
      ]

  unfoldable pub stale_symbol : String → ℤ → Store → Option String
  stale_symbol sid now s = elim (list_positions sid s) [
    | none ↦ none
    | some rs ↦ stale_among rs now s
  ]

  -- `fire`: the row first, then the drive of the effects is started. A row that cannot be
  -- stored starts none.
  unfoldable pub fire : String → Amount → Amount → ℤ → Store → Store
  fire sid pnl limit now s = elim (append_breaker (fresh_id s) sid pnl limit now s) [
    | none ↦ s
    | some s' ↦ start_drive s'
  ]

  unfoldable pub alert_stale_mark : String → ℤ → Store → Store
  alert_stale_mark sid now s =
      alert_daily AlertKind.breaker_mark_stale sid "stale_mark" "stale_mark" now s

  unfoldable pub alert_pnl_error : String → ℤ → Store → Store
  alert_pnl_error sid now s =
      alert_daily AlertKind.breaker_mark_stale sid "pnl_error" "pnl_error" now s

  -- What follows a check of the marks.
  abbrev pub with_marks : Option String → String → ℤ → Store → Store → Store
  with_marks none sid now s rest = alert_pnl_error sid now s
  with_marks (some stale) sid now s rest = if stale =ₛ "" then rest else alert_stale_mark sid now s

  -- The trigger.
  abbrev pub trigger : String → Amount → Amount → ℤ → Store → Store
  trigger sid pnl limit now s =
      if greater_than n pnl (neg limit) then s else fire sid pnl limit now s

  abbrev pub with_pnl : Option Amount → String → Amount → ℤ → Store → Store
  with_pnl none sid limit now s = alert_pnl_error sid now s
  with_pnl (some pnl) sid limit now s =
      with_marks (stale_symbol sid now s) sid now s (trigger sid pnl limit now s)

  -- `evaluatePnL`: the marks, the day's profit, the marks again, the trigger.
  unfoldable pub evaluate_pnl : String → Amount → ℤ → Store → Store
  evaluate_pnl sid limit now s =
      with_marks (stale_symbol sid now s) sid now s (with_pnl (daily_pnl sid now s) sid limit now s)

  abbrev pub unless_latched : Option Bool → String → ℤ → Store → Store
  unless_latched (some false) sid now s =
      if is_gt (sign n (limits_of sid s).daily_loss_limit_quote)
      then evaluate_pnl sid (limits_of sid s).daily_loss_limit_quote now s
      else alert_daily AlertKind.breaker_limit_unset sid "" "" now s
  unless_latched active sid now s = s

  -- `evaluate`: the latch of the day, the limit, and the evaluation of the profit.
  unfoldable pub evaluate : String → ℤ → Store → Store
  evaluate sid now s = unless_latched (breaker_active_today sid (utc_date now) s) sid now s

  abbrev pub alert_stalled : Monitor → SafetyEvent → Option ℤ → ℤ → Store → Store
  alert_stalled m ev none now s = s
  alert_stalled m ev (some recorded) now s =
      if ltb_ℤ m.stall (now -ℤ recorded)
      then alert_daily AlertKind.safety_effect_stalled "" ev.event_id "" now s
      else s

  -- `stallScan`.
  pub scan_events : Monitor → List SafetyEvent → ℤ → Store → Store
  scan_events m [] now s = s
  scan_events m (ev ∷ evs) now s = scan_events m evs now (alert_stalled m ev ev.recorded_at now s)

  unfoldable pub stall_scan : Monitor → ℤ → Store → Store
  stall_scan m now s = elim (list_unserved s) [ none ↦ s | some evs ↦ scan_events m evs now s ]
