-- ===== src/Safety/Persisted.antt =====
-- control-plane/internal/store/safety.go under control-plane/internal/safety/watchdog.go: the
-- monitor's seam to the store, filled by the transactions on the safety tables. The state carries
-- that no clear is ahead of the kills of its scope, which every transaction keeps. The other seams,
-- `rest`, stay as they are: the start of a drive of the effects writes nothing to the tables.
use alpha_mint_x.Base.{
  ℕ, ◌≡◌, refl, subst, ap, String, true, false, Option, none, some, List, [], ◌∷◌, ◌=ₛ◌, arith,
  Result, ok, err, inl, inr, if◌then◌else◌,
}
use alpha_mint_x.Base.Results.{Result-cases}
use alpha_mint_x.Base.Int.{ℤ}
use alpha_mint_x.Numbers.{Numbers}
use alpha_mint_x.Store.{
  EventKind, KillBreakerEvent, SafetyAlert, StoreError, Tables, tenant_of,
  append_kill_breaker_event, append_strategy_kill, append_safety_alert, list_unserved_safety_events,
  latest_strategy_kill_event, breaker_active_today, has_safety_alert_today, has_safety_alert,
  active_kill,
}
use alpha_mint_x.Store.Standing.{IsBounded}
use alpha_mint_x.Store.Histories.{strategy_kill, breaker_event, alert, Step-IsBounded}
use alpha_mint_x.Safety.Types.{Alert, AlertKind, SafetyEvent, Ports}

-- How instants are written (`formatTime`), read back, and cut to their date.
pub record Clock : Type 0 where
  pub text_of : ℤ → String
  pub instant_of : String → Option ℤ
  pub date_of : String → String

abbrev pub kind_text : AlertKind → String
kind_text AlertKind.breaker_mark_stale = "breaker_mark_stale"
kind_text AlertKind.breaker_limit_unset = "breaker_limit_unset"
kind_text AlertKind.safety_effect_stalled = "safety_effect_stalled"
kind_text AlertKind.watchdog_silence = "watchdog_silence"
kind_text AlertKind.watchdog_kill_escalation = "watchdog_kill_escalation"

-- An empty text stands for NULL.
abbrev pub nullable : String → Option String
nullable t = if t =ₛ "" then none else some t

-- The tables after a kill, without its epoch.
abbrev pub tables_after : Result StoreError (ℕ × Tables) → Result StoreError Tables
tables_after (err e) = err e
tables_after (ok r) = ok r.1

module _ (c : Clock) (new_id : Tables → String) (n : Numbers) (rest : Ports n)
    (trigger : n.Amount → n.Amount → ℤ → String) where
  -- The tables, that they are well formed, and the state behind the other seams.
  abbrev pub State : Type 0
  State = (t : Tables) × IsBounded t × rest.Store

  -- The state after a transaction that may fail.
  abbrev pub keep :
      (s : State) (r : Result StoreError Tables)
      → ((u : Tables) → r ≡ ok u → IsBounded u)
      → Option State
  keep s (err e) h = none
  keep s (ok u) h = some (u, h u refl, s.2)

  pub keep-some :
      (s : State) (r : Result StoreError Tables) (h : (u : Tables) → r ≡ ok u → IsBounded u)
      (s' : State)
      → keep s r h ≡ some s'
      → r ≡ ok s'.0
  keep-some s (err e) h s' p = ground arith
  keep-some s (ok u) h s' p = ap (λ o. ok (elim o [ none ↦ u | some x ↦ x.0 ])) p

  -- `trigger` writes the sample that tripped the breaker.
  abbrev pub breaker_row : String → String → n.Amount → n.Amount → ℤ → Tables → KillBreakerEvent
  breaker_row id sid pnl limit now t = record {
    event_id = id;
    kind = EventKind.breaker;
    scope = "strategy";
    strategy_id = some sid;
    tenant_id = tenant_of sid t.strategies;
    kill_epoch = none;
    flatten = some true;
    trigger_ref = some (trigger pnl limit now);
    actor_id = "breaker-monitor";
    recorded_at = c.text_of now;
  }

  abbrev pub alert_row : Alert → Tables → SafetyAlert
  alert_row a t = record {
    alert_id = new_id t;
    kind = kind_text a.kind;
    strategy_id = nullable a.strategy_id;
    ref_id = nullable a.ref_id;
    details = a.cause;
    recorded_at = c.text_of a.recorded_at;
  }

  pub IsBounded-after :
      (id sid at : String) (t u : Tables)
      → tables_after (append_strategy_kill id sid "watchdog" at false t) ≡ ok u
      → IsBounded t
      → IsBounded u
  IsBounded-after id sid at t u h b =
      elim (Result-cases (append_strategy_kill id sid "watchdog" at false t)) [
        | inl (x, e) ↦ ground arith
        | inr ((epoch, v), e) ↦
            let q : v ≡ u = ground arith in
            subst IsBounded q (Step-IsBounded new_id (strategy_kill id sid "watchdog" at false e) b)
      ]

  abbrev pub event_of : KillBreakerEvent → SafetyEvent
  event_of e = record { event_id = e.event_id; recorded_at = c.instant_of e.recorded_at }

  abbrev pub map_events : List KillBreakerEvent → List SafetyEvent
  map_events [] = []
  map_events (e ∷ es) = event_of e ∷ map_events es

  -- The monitor's seams, on the tables.
  unfoldable pub store_ports : Ports n
  store_ports = record {
    Store = State;
    list_positions = λ sid s. rest.list_positions sid s.2;
    list_live_orders = λ s. rest.list_live_orders s.2;
    list_unserved = λ s. some (map_events (list_unserved_safety_events s.0));
    breaker_active_today = λ sid day s. some (breaker_active_today c.date_of sid day s.0);
    append_breaker = λ id sid pnl limit now s.
        keep s (append_kill_breaker_event (breaker_row id sid pnl limit now s.0) s.0)
          (λ u e. Step-IsBounded new_id (breaker_event _ refl e) s.1);
    append_alert = λ a s.
        keep s (append_safety_alert (alert_row a s.0) s.0)
          (λ u e. Step-IsBounded new_id (alert _ e) s.1);
    has_alert_today = λ kind sid ref day s.
        some (has_safety_alert_today c.date_of (kind_text kind) sid ref day s.0);
    has_alert = λ kind sid ref s. some (has_safety_alert (kind_text kind) sid ref s.0);
    active_kill = λ sid s. some (active_kill sid s.0);
    append_strategy_kill = λ id sid now s.
        keep s (tables_after (append_strategy_kill id sid "watchdog" (c.text_of now) false s.0))
          (λ u e. IsBounded-after id sid (c.text_of now) s.0 u e s.1);
    latest_kill = λ sid s. some (latest_strategy_kill_event sid s.0);
    limits_of = λ sid s. rest.limits_of sid s.2;
    daily_pnl = λ sid now s. rest.daily_pnl sid now s.2;
    mark = λ symbol now s. rest.mark symbol now s.2;
    min_filters = λ symbol s. rest.min_filters symbol s.2;
    cancel_open_entries = λ sid s. (s.0, s.1, rest.cancel_open_entries sid s.2);
    start_drive = λ s. (s.0, s.1, rest.start_drive s.2);
    reconciled = λ s. rest.reconciled s.2;
    fresh_id = λ s. new_id s.0;
    utc_date = λ now. c.date_of (c.text_of now);
  }
