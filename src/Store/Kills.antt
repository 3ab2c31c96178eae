-- ===== src/Store/Kills.antt =====
-- control-plane/internal/store/safety.go, append.go and runtime.go: the appenders of kills, breakers,
-- markers and alerts, and the reads of the safety engine.
use alpha_mint_x.Base.{
  ℕ, ◌+◌, String, Bool, true, false, not, ◌&&◌, ◌||◌, Option, none, some, List, [], ◌∷◌, ◌++◌, ◌=ₛ◌,
  Result, ok, err, is_none, if◌then◌else◌,
}
use alpha_mint_x.Base.Results.{◌>>=◌}
use alpha_mint_x.Store.Types.{
  EventKind, KillBreakerEvent, SafetyEffect, SafetyAlert, Tables, StoreError, text_is,
  text_is_or_null, is_kill, exists_row, max_epoch, tenant_of,
}

-- `SELECT COALESCE(MAX(kill_epoch), 0) + 1`, over the whole table.
abbrev pub next_epoch : Tables → ℕ
next_epoch t = max_epoch (λ e. true) t.events + 1

-- `AppendKillBreakerEvent`: the insert, whose key must be new.
unfoldable pub append_kill_breaker_event : KillBreakerEvent → Tables → Result StoreError Tables
append_kill_breaker_event e t =
    if exists_row (λ f. f.event_id =ₛ e.event_id) t.events
    then err StoreError.constraint
    else ok (record t { events = t.events ++ (e ∷ []) })

-- The row that the three appenders of kills insert.
abbrev pub kill_row :
    String → String → Option String → Option String → ℕ → Bool → String → String → KillBreakerEvent
kill_row id scope sid tid epoch flatten actor at = record {
  event_id = id;
  kind = EventKind.kill;
  scope = scope;
  strategy_id = sid;
  tenant_id = tid;
  kill_epoch = some epoch;
  flatten = some flatten;
  trigger_ref = none;
  actor_id = actor;
  recorded_at = at;
}

unfoldable pub append_kill : KillBreakerEvent → ℕ → Tables → Result StoreError (ℕ × Tables)
append_kill row epoch t = do u ← append_kill_breaker_event row t; ok (epoch, u)

unfoldable pub append_strategy_kill :
    String → String → String → String → Bool → Tables → Result StoreError (ℕ × Tables)
append_strategy_kill id sid actor at flatten t = elim (tenant_of sid t.strategies) [
  | none ↦ err StoreError.not_found
  | some tid ↦
      let epoch = next_epoch t in
      append_kill (kill_row id "strategy" (some sid) (some tid) epoch flatten actor at) epoch t
]

unfoldable pub append_tenant_kill :
    String → String → String → String → Bool → Tables → Result StoreError (ℕ × Tables)
append_tenant_kill id tid actor at flatten t =
    let epoch = next_epoch t in
    append_kill (kill_row id "tenant" none (some tid) epoch flatten actor at) epoch t

unfoldable pub append_platform_kill :
    String → String → String → Bool → Tables → Result StoreError (ℕ × Tables)
append_platform_kill id actor at flatten t =
    let epoch = next_epoch t in
    append_kill (kill_row id "platform" none none epoch flatten actor at) epoch t

abbrev pub is_served : String → List SafetyEffect → Bool
is_served id effects = exists_row (λ m. m.event_id =ₛ id) effects

-- `AppendSafetyEffectDone`: a second marker is ignored, one for no event fails.
unfoldable pub append_safety_effect_done : String → String → Tables → Result StoreError Tables
append_safety_effect_done id at t =
    if is_served id t.effects
    then ok t
    else if exists_row (λ e. e.event_id =ₛ id) t.events
    then ok (record t { effects = t.effects ++ (record { event_id = id; completed_at = at } ∷ []) })
    else err StoreError.constraint

-- `SafetyEffectServed`.
abbrev pub safety_effect_served : String → Tables → Bool
safety_effect_served id t = is_served id t.effects

unfoldable pub append_safety_alert : SafetyAlert → Tables → Result StoreError Tables
append_safety_alert a t =
    if exists_row (λ b. b.alert_id =ₛ a.alert_id) t.alerts
    then err StoreError.constraint
    else ok (record t { alerts = t.alerts ++ (a ∷ []) })

-- The rows without a marker, of one tier: the three tiers follow each other, each in the order of
-- insertion, as `ORDER BY CASE ..., rowid` has it.
unfoldable pub unserved_where :
    (KillBreakerEvent → Bool) → List SafetyEffect → List KillBreakerEvent → List KillBreakerEvent
unserved_where test effects [] = []
unserved_where test effects (e ∷ es) =
    let rest = unserved_where test effects es in
    if not (is_served e.event_id effects) && test e then e ∷ rest else rest

abbrev pub is_platform_tier : KillBreakerEvent → Bool
is_platform_tier e = is_none e.strategy_id && is_none e.tenant_id

abbrev pub is_tenant_tier : KillBreakerEvent → Bool
is_tenant_tier e = is_none e.strategy_id && not (is_none e.tenant_id)

abbrev pub is_strategy_tier : KillBreakerEvent → Bool
is_strategy_tier e = not (is_none e.strategy_id)

unfoldable pub list_unserved_safety_events : Tables → List KillBreakerEvent
list_unserved_safety_events t =
    unserved_where is_platform_tier t.effects t.events
    ++ (unserved_where is_tenant_tier t.effects t.events
        ++ unserved_where is_strategy_tier t.effects t.events)

-- `LatestStrategyKillEvent`: the newest row has the highest rowid.
unfoldable pub latest_among : String → List KillBreakerEvent → Option (String × String)
latest_among sid [] = none
latest_among sid (e ∷ es) =
    let rest = latest_among sid es in
    elim rest [
      | some r ↦ some r
      | none ↦
          if is_kill e.kind && (e.scope =ₛ "strategy") && text_is e.strategy_id sid
          then some (e.event_id, e.actor_id)
          else none
    ]

unfoldable pub latest_strategy_kill_event : String → Tables → Option (String × String)
latest_strategy_kill_event sid t = latest_among sid t.events

-- `tenant_id = (SELECT tenant_id FROM strategies WHERE strategy_id = ?)`, for a row's column and
-- the answer of the subquery: NULL equals nothing.
abbrev pub same_text : Option String → Option String → Bool
same_text none tid = false
same_text (some c) none = false
same_text (some c) (some tid) = c =ₛ tid

-- The rows that bind a strategy: those without a scope identifier, its own, its tenant's.
abbrev pub binds : String → Option String → KillBreakerEvent → Bool
binds sid tid e =
    is_platform_tier e
    || text_is e.strategy_id sid
    || (same_text e.tenant_id tid && is_none e.strategy_id)

-- `GlobalMaxKillEpoch`.
unfoldable pub global_max_kill_epoch : String → Tables → ℕ
global_max_kill_epoch sid t =
    max_epoch (λ e. is_kill e.kind && binds sid (tenant_of sid t.strategies) e) t.events

-- SQLite's `substr(t, 1, 10)`, the date of a recorded instant.
module _ (date_of : String → String) where
  -- `breakerActiveToday`.
  unfoldable pub breaker_active_today : String → String → Tables → Bool
  breaker_active_today sid day t =
      exists_row
        (λ e.
          not (is_kill e.kind)
          && (date_of e.recorded_at =ₛ day)
          && binds sid (tenant_of sid t.strategies) e)
        t.events

  -- `HasSafetyAlertToday`.
  unfoldable pub has_safety_alert_today : String → String → String → String → Tables → Bool
  has_safety_alert_today kind sid ref day t =
      exists_row
        (λ a.
          (a.kind =ₛ kind)
          && text_is_or_null a.strategy_id sid
          && text_is_or_null a.ref_id ref
          && (date_of a.recorded_at =ₛ day))
        t.alerts

-- `HasSafetyAlert`.
unfoldable pub has_safety_alert : String → String → String → Tables → Bool
has_safety_alert kind sid ref t =
    exists_row
      (λ a. (a.kind =ₛ kind) && text_is_or_null a.strategy_id sid && text_is_or_null a.ref_id ref)
      t.alerts
