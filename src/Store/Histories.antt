-- ===== src/Store/Histories.antt =====
-- The transactions as steps, and what holds of the tables in every history of them.
use alpha_mint_x.Base.{
  ℕ, ◌≤◌, ◌<◌, ◌≡◌, refl, String, Bool, true, false, ◌&&◌, some, List, [], ◌=ₛ◌, arith, ok,
  Option-cases, inl, inr,
}
use alpha_mint_x.Base.Results.{Result-cases}
use alpha_mint_x.Store.Types.{
  KillBreakerEvent, SafetyAlert, ClearScope, Tables, is_kill, max_epoch, max_cleared, tenant_of,
  exists_row,
}
use alpha_mint_x.Store.Kills.{
  append_kill_breaker_event, append_safety_effect_done, append_safety_alert, append_kill,
  append_strategy_kill, append_tenant_kill, append_platform_kill, kill_row, next_epoch,
  global_max_kill_epoch,
}
use alpha_mint_x.Store.Clears.{
  matches, watermark, scope_max, append_kill_clear, append_kill_lifecycle_lock, insert_transition,
  state_of, active_kill,
}
use alpha_mint_x.Store.Epochs.{max_epoch-append}
use alpha_mint_x.Store.Standing.{IsBounded, Binds, append_scope_kill, kill_stands}
use alpha_mint_x.Store.Cleared.{clear-IsBounded, scope_max_same}

-- The tables of a store in which nothing has happened.
abbrev pub HasNoRows : Tables → Type 0
HasNoRows t = (t.events ≡ []) × (t.clears ≡ [])

module _ (new_id : Tables → String) where
  -- A transaction that succeeds.
  pub data Step (t : Tables) : Tables → Type 0 where
    breaker_event :
        (e : KillBreakerEvent) {u : Tables}
        → is_kill e.kind ≡ false
        → append_kill_breaker_event e t ≡ ok u
        → Step t u
    strategy_kill :
        (id sid actor at : String) (flatten : Bool) {epoch : ℕ} {u : Tables}
        → append_strategy_kill id sid actor at flatten t ≡ ok (epoch, u)
        → Step t u
    tenant_kill :
        (id tid actor at : String) (flatten : Bool) {epoch : ℕ} {u : Tables}
        → append_tenant_kill id tid actor at flatten t ≡ ok (epoch, u)
        → Step t u
    platform_kill :
        (id actor at : String) (flatten : Bool) {epoch : ℕ} {u : Tables}
        → append_platform_kill id actor at flatten t ≡ ok (epoch, u)
        → Step t u
    clear :
        (id : String) (scope : ClearScope) (actor reason : String) (observed : ℕ) (at : String)
        {epoch : ℕ} {ids : List String} {u : Tables}
        → append_kill_clear new_id id scope actor reason observed at t ≡ ok ((epoch, ids), u)
        → Step t u
    effect_done :
        (id at : String) {u : Tables} → append_safety_effect_done id at t ≡ ok u → Step t u
    alert : (a : SafetyAlert) {u : Tables} → append_safety_alert a t ≡ ok u → Step t u
    lock :
        (sid id actor at : String) {locked : Bool} {u : Tables}
        → append_kill_lifecycle_lock new_id sid id actor at t ≡ ok (locked, u)
        → Step t u

  pub data Reach (s : Tables) : Tables → Type 0 where
    here : Reach s s
    next : {t u : Tables} → Reach s t → Step t u → Reach s u

-- The rows of the events only grow, and the clears are kept.
abbrev pub Grows : Tables → Tables → Type 0
Grows t u = (u.clears ≡ t.clears) × ((scope : ClearScope) → scope_max scope t ≤ scope_max scope u)

pub Grows-IsBounded : (t u : Tables) → Grows t u → IsBounded t → IsBounded u
Grows-IsBounded t u (c, m) b scope =
    let e : watermark scope u ≡ watermark scope t = rw c refl in ground (arith, m scope, b scope)

event-Grows :
    (e : KillBreakerEvent) (t u : Tables) → append_kill_breaker_event e t ≡ ok u → Grows t u
unfolding append_kill_breaker_event scope_max
event-Grows e t u h = (
  ground arith,
  λ scope. ground (arith, max_epoch-append (λ d. is_kill d.kind && matches scope d) t.events e),
)

kill-Grows :
    (e : KillBreakerEvent) (n epoch : ℕ) (t u : Tables)
    → append_kill e n t ≡ ok (epoch, u)
    → Grows t u
unfolding append_kill
kill-Grows e n epoch t u h = elim (Result-cases (append_kill_breaker_event e t)) [
  | inl (x, r) ↦ ground arith
  | inr (v, r) ↦ event-Grows e t u (ground arith)
]

strategy_kill-Grows :
    (id sid actor at : String) (flatten : Bool) (epoch : ℕ) (t u : Tables)
    → append_strategy_kill id sid actor at flatten t ≡ ok (epoch, u)
    → Grows t u
unfolding append_strategy_kill
strategy_kill-Grows id sid actor at flatten epoch t u h =
    elim (Option-cases (tenant_of sid t.strategies)) [
      | inl e ↦ ground arith
      | inr (tid, e) ↦
          kill-Grows (kill_row id "strategy" (some sid) (some tid) (next_epoch t) flatten actor at)
            (next_epoch t) epoch t u (ground arith)
    ]

-- Neither the events nor the clears have changed.
abbrev pub SameKills : Tables → Tables → Type 0
SameKills t u = (u.events ≡ t.events) × (u.clears ≡ t.clears)

pub SameKills-Grows : (t u : Tables) → SameKills t u → Grows t u
SameKills-Grows t u h = (h.1, λ scope. ground (arith, scope_max_same scope t u h.0))

pub effect_done-SameKills :
    (id at : String) (t u : Tables) → append_safety_effect_done id at t ≡ ok u → SameKills t u
unfolding append_safety_effect_done
effect_done-SameKills id at t u h = ground arith

pub alert-SameKills :
    (a : SafetyAlert) (t u : Tables) → append_safety_alert a t ≡ ok u → SameKills t u
unfolding append_safety_alert
alert-SameKills a t u h = ground arith

module _ (new_id : Tables → String) where
  lock-SameKills :
      (sid id actor at : String) (locked : Bool) (t u : Tables)
      → append_kill_lifecycle_lock new_id sid id actor at t ≡ ok (locked, u)
      → SameKills t u
  unfolding append_kill_lifecycle_lock insert_transition
  lock-SameKills sid id actor at locked t u h = elim (Option-cases (state_of sid t.strategies)) [
    | inl e ↦ ground arith
    | inr (from, e) ↦ ground arith
  ]

  pub Step-IsBounded : {t u : Tables} → Step new_id t u → IsBounded t → IsBounded u
  unfolding append_tenant_kill append_platform_kill
  Step-IsBounded {t} {u} (breaker_event e k h) = Grows-IsBounded t u (event-Grows e t u h)
  Step-IsBounded {t} {u} (strategy_kill id sid actor at flatten {epoch} h) =
      Grows-IsBounded t u (strategy_kill-Grows id sid actor at flatten epoch t u h)
  Step-IsBounded {t} {u} (tenant_kill id tid actor at flatten {epoch} h) =
      Grows-IsBounded t u (kill-Grows _ (next_epoch t) epoch t u h)
  Step-IsBounded {t} {u} (platform_kill id actor at flatten {epoch} h) =
      Grows-IsBounded t u (kill-Grows _ (next_epoch t) epoch t u h)
  Step-IsBounded {t} {u} (clear id scope actor reason observed at {epoch} {ids} h) =
      clear-IsBounded new_id id scope actor reason observed at t u epoch ids h
  Step-IsBounded {t} {u} (effect_done id at h) =
      Grows-IsBounded t u (SameKills-Grows t u (effect_done-SameKills id at t u h))
  Step-IsBounded {t} {u} (alert a h) =
      Grows-IsBounded t u (SameKills-Grows t u (alert-SameKills a t u h))
  Step-IsBounded {t} {u} (lock sid id actor at {locked} h) =
      Grows-IsBounded t u (SameKills-Grows t u (lock-SameKills sid id actor at locked t u h))

  HasNoRows-IsBounded : (s : Tables) → HasNoRows s → IsBounded s
  unfolding max_cleared
  HasNoRows-IsBounded s h scope = ground arith

  -- In every history of the transactions from a store without kills, whatever their order, no clear
  -- gets ahead of the kills of its scope.
  pub Reach-IsBounded : (s t : Tables) → HasNoRows s → Reach new_id s t → IsBounded t
  Reach-IsBounded s t h here = HasNoRows-IsBounded s h
  Reach-IsBounded s t h (next r st) = Step-IsBounded st (Reach-IsBounded s _ h r)

  -- So in every history a new kill of a scope stands.
  pub history_kill_stands :
      (s t : Tables) (scope : ClearScope) (id sid actor at : String) (flatten : Bool)
      → HasNoRows s
      → Reach new_id s t
      → Binds scope sid t
      → exists_row (λ e. e.event_id =ₛ id) t.events ≡ false
      → (epoch : ℕ) × (u : Tables) × (append_scope_kill scope id actor at flatten t ≡ ok (epoch, u))
        × (max_epoch (λ e. true) t.events < epoch)
        × (active_kill sid u ≡ true)
        × (global_max_kill_epoch sid u ≡ epoch)
  history_kill_stands s t scope id sid actor at flatten n r h f =
      kill_stands scope id sid actor at flatten t (Reach-IsBounded s t n r) h f
