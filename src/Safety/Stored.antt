-- ===== src/Safety/Stored.antt =====
-- The tables of the store keep what the monitor relies on.
use alpha_mint_x.Base.{
  ◌≡◌, refl, ap, ◌∙◌, String, true, false, not, ◌&&◌, Option, none, some, [], ◌∷◌, ◌++◌, ◌=ₛ◌, ◌≢◌,
  eq_iff, arith, ok, inl, inr, Option-cases,
}
use alpha_mint_x.Base.Results.{Result-cases}
use alpha_mint_x.Base.Int.{ℤ}
use alpha_mint_x.Numbers.{Numbers}
use alpha_mint_x.Store.{
  KillBreakerEvent, SafetyAlert, ClearScope, Tables, exists_row, is_kill, binds, tenant_of,
  append_kill_breaker_event, append_strategy_kill, append_safety_alert, breaker_active_today,
  has_safety_alert_today, active_kill, scope_active, text_is_or_null,
}
use alpha_mint_x.Store.Epochs.{exists-append, active_kill_lem, tenant_active, scope_active_lem}
use alpha_mint_x.Store.Standing.{IsBounded, scope_kill_raises}
use alpha_mint_x.Store.Cleared.{scope_max_same}
use alpha_mint_x.Store.Histories.{SameKills}
use alpha_mint_x.Safety.Types.{Ports}
use alpha_mint_x.Safety.Ladder.{KillLaws}
use alpha_mint_x.Safety.Latch.{BreakerLaws}
use alpha_mint_x.Safety.Rungs.{AlertLaws}
use alpha_mint_x.Safety.Persisted.{
  Clock, kind_text, nullable, store_ports, keep-some, breaker_row, alert_row, tables_after,
}

scope_active_same :
    (scope : ClearScope) (t u : Tables)
    → SameKills t u
    → scope_active scope u ≡ scope_active scope t
scope_active_same scope t u h =
    ground (arith, scope_active_lem scope u, scope_active_lem scope t, scope_max_same scope t u h.0)

tenant_active_same :
    (tid : Option String) (t u : Tables) → SameKills t u → tenant_active tid u ≡ tenant_active tid t
tenant_active_same none t u h = refl
tenant_active_same (some tid) t u h = scope_active_same (ClearScope.tenant tid) t u h

-- The kills that stand depend on the events, the clears and the tenants alone.
active_kill_same :
    (sid : String) (t u : Tables)
    → SameKills t u
    → tenant_of sid u.strategies ≡ tenant_of sid t.strategies
    → active_kill sid u ≡ active_kill sid t
active_kill_same sid t u h e = ground (
  arith,
  active_kill_lem sid u,
  active_kill_lem sid t,
  scope_active_same (ClearScope.strategy sid) t u h,
  scope_active_same ClearScope.platform t u h,
  tenant_active_same (tenant_of sid t.strategies) t u h,
  ap (λ x. tenant_active x u) e,
)

append_safety_alert-same :
    (a : SafetyAlert) (t u : Tables)
    → append_safety_alert a t ≡ ok u
    → SameKills t u × (u.strategies ≡ t.strategies) × (u.alerts ≡ t.alerts ++ (a ∷ []))
unfolding append_safety_alert
append_safety_alert-same a t u h = ground arith

stored_kill_active :
    (id sid at : String) (t u : Tables)
    → IsBounded t
    → tables_after (append_strategy_kill id sid "watchdog" at false t) ≡ ok u
    → active_kill sid u ≡ true
unfolding append_strategy_kill
stored_kill_active id sid at t u b h =
    elim (Result-cases (append_strategy_kill id sid "watchdog" at false t)) [
      | inl (x, e) ↦ ground arith
      | inr ((epoch, v), e) ↦ elim (Option-cases (tenant_of sid t.strategies)) [
        | inl q ↦ ground arith
        | inr (tid, q) ↦
            let known : tenant_of sid t.strategies ≢ none = λ z. ground arith in
            let r =
              scope_kill_raises (ClearScope.strategy sid) id sid "watchdog" at false t v epoch b
                (refl, known) e in
            ground (arith, active_kill_lem sid v)
      ]
    ]

module _ (c : Clock) (new_id : Tables → String) (n : Numbers) (rest : Ports n)
    (trigger : n.Amount → n.Amount → ℤ → String) where
  -- The store meets what the monitor relies on for kills.
  store-KillLaws : KillLaws n (store_ports c new_id n rest trigger)
  unfolding store_ports
  store-KillLaws = record {
    kill_kept = λ id sid now s s' h. ap some (
        stored_kill_active id sid (c.text_of now) s.0 s'.0 s.1
          (keep-some c new_id n rest trigger s _ _ s' h));
    alert_keeps = λ a sid s s' h.
        let (k, r, _) =
          append_safety_alert-same (alert_row c new_id n rest trigger a s.0) s.0 s'.0
            (keep-some c new_id n rest trigger s _ _ s' h) in
        ap some (active_kill_same sid s.0 s'.0 k (ap (tenant_of sid) r));
    drive_keeps = λ sid s. refl;
  }

  stored_breaker :
      (e : KillBreakerEvent) (sid day : String) (t u : Tables)
      → append_kill_breaker_event e t ≡ ok u
      → is_kill e.kind ≡ false
      → e.strategy_id ≡ some sid
      → c.date_of e.recorded_at ≡ day
      → breaker_active_today c.date_of sid day u ≡ true
  unfolding append_kill_breaker_event breaker_active_today
  stored_breaker e sid day t u h k i r = ground (
    arith,
    exists-append
        (λ f.
          not (is_kill f.kind)
          && (c.date_of f.recorded_at =ₛ day)
          && binds sid (tenant_of sid t.strategies) f)
        t.events (e ∷ []),
    eq_iff sid sid,
    eq_iff (c.date_of e.recorded_at) day,
  )

  breaker_active_same :
      (sid day : String) (t u : Tables)
      → u.events ≡ t.events
      → tenant_of sid u.strategies ≡ tenant_of sid t.strategies
      → breaker_active_today c.date_of sid day u ≡ breaker_active_today c.date_of sid day t
  unfolding breaker_active_today
  breaker_active_same sid day t u h e =
      ap
        (λ tid.
          exists_row
            (λ f. not (is_kill f.kind) && (c.date_of f.recorded_at =ₛ day) && binds sid tid f)
            u.events)
        e
      ∙ ap
          (exists_row (λ f.
            not (is_kill f.kind)
            && (c.date_of f.recorded_at =ₛ day)
            && binds sid (tenant_of sid t.strategies) f))
          h

  nullable_lem : (x : String) → text_is_or_null (nullable x) x ≡ true
  nullable_lem x = ground (arith, eq_iff x "", eq_iff "" x, eq_iff x x)

  stored_alert :
      (a : SafetyAlert) (kind sid ref day : String) (t u : Tables)
      → u.alerts ≡ t.alerts ++ (a ∷ [])
      → a.kind ≡ kind
      → text_is_or_null a.strategy_id sid ≡ true
      → text_is_or_null a.ref_id ref ≡ true
      → c.date_of a.recorded_at ≡ day
      → has_safety_alert_today c.date_of kind sid ref day u ≡ true
  unfolding has_safety_alert_today
  stored_alert a kind sid ref day t u g k i r e = ground (
    arith,
    exists-append
        (λ (b : SafetyAlert).
          (b.kind =ₛ kind)
          && text_is_or_null b.strategy_id sid
          && text_is_or_null b.ref_id ref
          && (c.date_of b.recorded_at =ₛ day))
        t.alerts (a ∷ []),
    eq_iff a.kind kind,
    eq_iff (c.date_of a.recorded_at) day,
  )

  -- The store meets what the monitor relies on for breakers.
  store-BreakerLaws : BreakerLaws n (store_ports c new_id n rest trigger)
  unfolding store_ports
  store-BreakerLaws = record {
    breaker_kept = λ id sid pnl limit now s s' h. ap some (
        stored_breaker (breaker_row c new_id n rest trigger id sid pnl limit now s.0) sid
          (c.date_of (c.text_of now)) s.0 s'.0 (keep-some c new_id n rest trigger s _ _ s' h) refl
          refl refl);
    drive_keeps_breaker = λ sid day s. refl;
  }

  -- The store meets what the monitor relies on for alerts.
  store-AlertLaws : AlertLaws n (store_ports c new_id n rest trigger)
  unfolding store_ports
  store-AlertLaws = record {
    alert_kept = λ a s s' h.
        let (k, r, g) =
          append_safety_alert-same (alert_row c new_id n rest trigger a s.0) s.0 s'.0
            (keep-some c new_id n rest trigger s _ _ s' h) in
        ap some (
          stored_alert (alert_row c new_id n rest trigger a s.0) (kind_text a.kind) a.strategy_id
            a.ref_id (c.date_of (c.text_of a.recorded_at)) s.0 s'.0 g refl
            (nullable_lem a.strategy_id) (nullable_lem a.ref_id) refl);
  }

  -- The store keeps all that the monitor relies on. After it has appended a kill, the kill is active
  -- for its strategy, and neither an alert nor the start of a drive changes which strategies have an
  -- active kill. An appended breaker is active on its UTC day, and a drive that starts does not change
  -- that. An appended alert, of any kind, is read on its UTC day.
  pub store_meets_monitor :
      let p = store_ports c new_id n rest trigger in KillLaws n p × BreakerLaws n p × AlertLaws n p
  store_meets_monitor = (store-KillLaws, store-BreakerLaws, store-AlertLaws)
