-- ===== src/Store/Later.antt =====
-- How the transactions move the kills and the clears, as one strategy sees them.
use alpha_mint_x.Base.{
  ℕ, ◌≤◌, ◌<◌, ◌≡◌, refl, ap, ◌∙◌, String, Bool, true, false, ◌&&◌, some, List, [], ◌∷◌, eq_iff,
  arith, ok, Option-cases, inl, inr, ◌⊎◌,
}
use alpha_mint_x.Base.Results.{Result-cases}
use alpha_mint_x.Store.Types.{
  KillBreakerEvent, ClearScope, Tables, is_kill, max_epoch, tenant_of, StrategyRow,
}
use alpha_mint_x.Store.Kills.{
  append_kill_breaker_event, append_kill, append_strategy_kill, append_tenant_kill,
  append_platform_kill, next_epoch, kill_row, global_max_kill_epoch, binds, append_safety_alert,
  append_safety_effect_done,
}
use alpha_mint_x.Store.Clears.{
  matches, watermark, scope_max, set_killed, state_of, insert_transition, append_kill_clear,
  append_kill_lifecycle_lock,
}
use alpha_mint_x.Store.Epochs.{max_epoch-append, max_epoch_mono}
use alpha_mint_x.Store.Cleared.{
  scope_max_same, watermark-appended, append_kill_clear_checked, write_clear-Wrote, clear_row,
}
use alpha_mint_x.Store.Histories.{
  Step, breaker_event, strategy_kill, tenant_kill, platform_kill, clear, effect_done, alert, lock,
  Reach, here, next,
}

-- The highest epoch of the table.
abbrev pub highest : Tables → ℕ
highest t = max_epoch (λ e. true) t.events

-- The scopes whose kills bind a strategy.
abbrev pub Reaches : ClearScope → String → Tables → Type 0
Reaches (ClearScope.strategy s) sid t = s ≡ sid
Reaches (ClearScope.tenant tid) sid t = tenant_of sid t.strategies ≡ some tid
Reaches ClearScope.platform sid t = Unit

-- From one state of the tables to a later one, as a strategy sees it: its tenant is the same, the
-- epochs and the clears only grow, and where a scope's highest epoch has changed, the highest that
-- binds the strategy is above all that were there.
abbrev pub Later : String → Tables → Tables → Type 0
Later sid t u =
    (tenant_of sid u.strategies ≡ tenant_of sid t.strategies)
    × ((scope : ClearScope) → watermark scope t ≤ watermark scope u)
    × (global_max_kill_epoch sid t ≤ global_max_kill_epoch sid u)
    × (highest t ≤ highest u)
    × ((scope : ClearScope)
        → Reaches scope sid t
        → (scope_max scope u ≡ scope_max scope t) ⊎ (highest t < global_max_kill_epoch sid u))

pub Reaches-moves :
    (scope : ClearScope) (sid : String) (t u : Tables)
    → tenant_of sid u.strategies ≡ tenant_of sid t.strategies
    → Reaches scope sid t
    → Reaches scope sid u
Reaches-moves (ClearScope.strategy s) sid t u e b = b
Reaches-moves (ClearScope.tenant x) sid t u e b = e ∙ b
Reaches-moves ClearScope.platform sid t u e b = tt

Later-trans : (sid : String) (r t u : Tables) → Later sid r t → Later sid t u → Later sid r u
Later-trans sid r t u (e, w, g, h, m) (e2, w2, g2, h2, m2) = (
  e2 ∙ e,
  λ scope. ground (arith, w scope, w2 scope),
  omega arith,
  omega arith,
  λ scope b. ground (arith, m scope b, m2 scope (Reaches-moves scope sid r t e b)),
)

global_max_tenant :
    (sid : String) (t u : Tables)
    → u.events ≡ t.events
    → tenant_of sid u.strategies ≡ tenant_of sid t.strategies
    → global_max_kill_epoch sid u ≡ global_max_kill_epoch sid t
unfolding global_max_kill_epoch
global_max_tenant sid t u e r =
    ap (max_epoch (λ d. is_kill d.kind && binds sid (tenant_of sid u.strategies) d)) e
    ∙ ap (λ tid. max_epoch (λ d. is_kill d.kind && binds sid tid d) t.events) r

pub global_max_le : (sid : String) (t : Tables) → global_max_kill_epoch sid t ≤ highest t
unfolding global_max_kill_epoch
global_max_le sid t =
    max_epoch_mono (λ e. is_kill e.kind && binds sid (tenant_of sid t.strategies) e) (λ e. true)
      t.events (λ e h. refl)

Reaches-binds :
    (scope : ClearScope) (sid : String) (t : Tables) (e : KillBreakerEvent)
    → Reaches scope sid t
    → matches scope e ≡ true
    → binds sid (tenant_of sid t.strategies) e ≡ true
Reaches-binds (ClearScope.strategy s) sid t e b m = ground (arith, eq_iff s sid)
Reaches-binds (ClearScope.tenant x) sid t e b m = ground arith
Reaches-binds ClearScope.platform sid t e b m = ground arith

-- A breaker, or a kill with the next epoch.
abbrev IsNext : KillBreakerEvent → Tables → Type 0
IsNext e t = (is_kill e.kind ≡ false) ⊎ (e.kill_epoch ≡ some (next_epoch t))

event-Later :
    (e : KillBreakerEvent) (sid : String) (t u : Tables)
    → append_kill_breaker_event e t ≡ ok u
    → IsNext e t
    → Later sid t u
unfolding append_kill_breaker_event scope_max global_max_kill_epoch
event-Later e sid t u h n =
    let f : KillBreakerEvent → Bool =
      λ d. is_kill d.kind && binds sid (tenant_of sid t.strategies) d in
    (
      ground arith,
      λ scope. ground arith,
      ground (arith, max_epoch-append f t.events e),
      ground (arith, max_epoch-append (λ d. true) t.events e),
      λ scope b. ground (
        arith,
        max_epoch-append (λ d. is_kill d.kind && matches scope d) t.events e,
        max_epoch-append f t.events e,
        Reaches-binds scope sid t e b,
        global_max_le sid t,
      ),
    )

kill-Later :
    (e : KillBreakerEvent) (sid : String) (n epoch : ℕ) (t u : Tables)
    → append_kill e n t ≡ ok (epoch, u)
    → IsNext e t
    → Later sid t u
unfolding append_kill
kill-Later e sid n epoch t u h i = elim (Result-cases (append_kill_breaker_event e t)) [
  | inl (x, r) ↦ ground arith
  | inr (v, r) ↦ event-Later e sid t u (ground arith) i
]

strategy_kill-Later :
    (id k actor at : String) (flatten : Bool) (sid : String) (epoch : ℕ) (t u : Tables)
    → append_strategy_kill id k actor at flatten t ≡ ok (epoch, u)
    → Later sid t u
unfolding append_strategy_kill
strategy_kill-Later id k actor at flatten sid epoch t u h =
    elim (Option-cases (tenant_of k t.strategies)) [
      | inl e ↦ ground arith
      | inr (tid, e) ↦
          kill-Later (kill_row id "strategy" (some k) (some tid) (next_epoch t) flatten actor at)
            sid (next_epoch t) epoch t u (ground arith) (inr refl)
    ]

-- The events are the same, and of the clears none is lost.
same-Later :
    (sid : String) (t u : Tables)
    → u.events ≡ t.events
    → tenant_of sid u.strategies ≡ tenant_of sid t.strategies
    → ((scope : ClearScope) → watermark scope t ≤ watermark scope u)
    → Later sid t u
unfolding global_max_kill_epoch
same-Later sid t u e k w = (
  k,
  w,
  ground (arith, global_max_tenant sid t u e k),
  ground (arith, ap (max_epoch (λ d. true)) e),
  λ scope b. inl (scope_max_same scope t u e),
)

tenant_of-set_killed :
    (k sid at : String) (rs : List StrategyRow)
    → tenant_of k (set_killed sid at rs) ≡ tenant_of k rs
unfolding set_killed tenant_of
tenant_of-set_killed k sid at [] = refl
tenant_of-set_killed k sid at (r ∷ rs) = ground (arith, tenant_of-set_killed k sid at rs)

module _ (new_id : Tables → String) where
  lock-Later :
      (k id actor at : String) (sid : String) (locked : Bool) (t u : Tables)
      → append_kill_lifecycle_lock new_id k id actor at t ≡ ok (locked, u)
      → Later sid t u
  unfolding append_kill_lifecycle_lock insert_transition
  lock-Later k id actor at sid locked t u h = elim (Option-cases (state_of k t.strategies)) [
    | inl e ↦ ground arith
    | inr (from, e) ↦
        same-Later sid t u (ground arith)
          (ground (arith, tenant_of-set_killed sid k at t.strategies)) (λ scope. ground arith)
  ]

  clear-Later :
      (id : String) (scope : ClearScope) (actor reason : String) (observed : ℕ) (at sid : String)
      (t u : Tables) (epoch : ℕ) (ids : List String)
      → append_kill_clear new_id id scope actor reason observed at t ≡ ok ((epoch, ids), u)
      → Later sid t u
  clear-Later id scope actor reason observed at sid t u epoch ids h =
      let (audit, e, _, _) =
        append_kill_clear_checked new_id id scope actor reason observed at t ((epoch, ids), u) h in
      let c = clear_row new_id id scope audit actor reason observed at in
      let (w, _, _) = write_clear-Wrote new_id c t u epoch ids e in
      same-Later sid t u w.0 (ap (tenant_of sid) w.2)
        (λ s. ground (arith, watermark-appended s c t u w.1))

  Step-Later : (sid : String) {t u : Tables} → Step new_id t u → Later sid t u
  unfolding append_tenant_kill append_platform_kill append_safety_alert append_safety_effect_done
  Step-Later sid {t} {u} (breaker_event e k h) = event-Later e sid t u h (inl k)
  Step-Later sid {t} {u} (strategy_kill id k actor at flatten {epoch} h) =
      strategy_kill-Later id k actor at flatten sid epoch t u h
  Step-Later sid {t} {u} (tenant_kill id tid actor at flatten {epoch} h) =
      kill-Later _ sid (next_epoch t) epoch t u h (inr refl)
  Step-Later sid {t} {u} (platform_kill id actor at flatten {epoch} h) =
      kill-Later _ sid (next_epoch t) epoch t u h (inr refl)
  Step-Later sid {t} {u} (clear id scope actor reason observed at {epoch} {ids} h) =
      clear-Later id scope actor reason observed at sid t u epoch ids h
  Step-Later sid {t} {u} (effect_done id at h) =
      same-Later sid t u (ground arith) (ground arith) (λ scope. ground arith)
  Step-Later sid {t} {u} (alert a h) =
      same-Later sid t u (ground arith) (ground arith) (λ scope. ground arith)
  Step-Later sid {t} {u} (lock k id actor at {locked} h) = lock-Later k id actor at sid locked t u h

  pub Reach-Later : (sid : String) (s t : Tables) → Reach new_id s t → Later sid s t
  Reach-Later sid s u here =
      (refl, λ scope. ground arith, ground arith, ground arith, λ scope b. inl refl)
  Reach-Later sid s u (next {t} h st) =
      Later-trans sid s t u (Reach-Later sid s t h) (Step-Later sid st)
