-- ===== src/Store/Standing.antt =====
-- What a kill does to the kills that stand, and what a clear does: each acts on its own scope.
use alpha_mint_x.Base.{
  ℕ, ◌≤◌, ◌<◌, ◌≡◌, ◌≢◌, refl, sym, subst, String, Bool, true, false, ◌&&◌, Option, none, some, [],
  ◌∷◌, ◌++◌, ◌=ₛ◌, eq_iff, arith, Result, ok, err, Option-cases, if◌then◌else◌, inl, inr,
}
use alpha_mint_x.Store.Types.{
  KillBreakerEvent, ClearScope, StoreError, Tables, is_kill, exists_row, max_epoch, tenant_of,
}
use alpha_mint_x.Store.Kills.{
  append_kill_breaker_event, append_kill, append_strategy_kill, append_tenant_kill,
  append_platform_kill, next_epoch, global_max_kill_epoch, kill_row, binds,
}
use alpha_mint_x.Store.Clears.{matches, watermark, active_kill, scope_active, scope_max}
use alpha_mint_x.Store.Epochs.{max_epoch-append, max_epoch_mono, scope_active_lem, active_kill_lem}

-- The kill of a scope.
abbrev pub append_scope_kill :
    ClearScope → String → String → String → Bool → Tables → Result StoreError (ℕ × Tables)
append_scope_kill (ClearScope.strategy sid) id actor at flatten t =
    append_strategy_kill id sid actor at flatten t
append_scope_kill (ClearScope.tenant tid) id actor at flatten t =
    append_tenant_kill id tid actor at flatten t
append_scope_kill ClearScope.platform id actor at flatten t =
    append_platform_kill id actor at flatten t

-- The strategies that a scope binds: the one named, which is known, those of the tenant, all.
abbrev pub Binds : ClearScope → String → Tables → Type 0
Binds (ClearScope.strategy s) sid t = (s ≡ sid) × (tenant_of sid t.strategies ≢ none)
Binds (ClearScope.tenant tid) sid t = tenant_of sid t.strategies ≡ some tid
Binds ClearScope.platform sid t = Unit

-- No clear is ahead of the kills of its scope.
abbrev pub IsBounded : Tables → Type 0
IsBounded t = (scope : ClearScope) → watermark scope t ≤ scope_max scope t

abbrev with_event : KillBreakerEvent → Tables → Tables
with_event e t = record t { events = t.events ++ (e ∷ []) }

-- A kill row of the next epoch that a scope matches: the scope becomes active, with that epoch.
scope_max-with_event :
    (scope : ClearScope) (e : KillBreakerEvent) (t : Tables)
    → is_kill e.kind ≡ true
    → e.kill_epoch ≡ some (next_epoch t)
    → matches scope e ≡ true
    → scope_max scope (with_event e t) ≡ next_epoch t
unfolding scope_max
scope_max-with_event scope e t k n m = ground (
  arith,
  max_epoch-append (λ d. is_kill d.kind && matches scope d) t.events e,
  max_epoch_mono (λ d. is_kill d.kind && matches scope d) (λ d. true) t.events,
)

scope_active-with_event :
    (scope : ClearScope) (e : KillBreakerEvent) (t : Tables)
    → IsBounded t
    → is_kill e.kind ≡ true
    → e.kill_epoch ≡ some (next_epoch t)
    → matches scope e ≡ true
    → scope_active scope (with_event e t) ≡ true
unfolding scope_max
scope_active-with_event scope e t b k n m = ground (
  arith,
  scope_active_lem scope (with_event e t),
  scope_max-with_event scope e t k n m,
  b scope,
  max_epoch_mono (λ d. is_kill d.kind && matches scope d) (λ d. true) t.events,
)

global_max-with_event :
    (sid : String) (e : KillBreakerEvent) (t : Tables)
    → is_kill e.kind ≡ true
    → e.kill_epoch ≡ some (next_epoch t)
    → binds sid (tenant_of sid t.strategies) e ≡ true
    → global_max_kill_epoch sid (with_event e t) ≡ next_epoch t
unfolding global_max_kill_epoch
global_max-with_event sid e t k n m = ground (
  arith,
  max_epoch-append (λ d. is_kill d.kind && binds sid (tenant_of sid t.strategies) d) t.events e,
  max_epoch_mono (λ d. is_kill d.kind && binds sid (tenant_of sid t.strategies) d) (λ d. true)
      t.events,
)

-- The row of the kill of a scope.
abbrev row_of : ClearScope → String → String → String → Bool → Option String → ℕ → KillBreakerEvent
row_of (ClearScope.strategy sid) id actor at flatten tid epoch =
    kill_row id "strategy" (some sid) tid epoch flatten actor at
row_of (ClearScope.tenant tid) id actor at flatten _ epoch =
    kill_row id "tenant" none (some tid) epoch flatten actor at
row_of ClearScope.platform id actor at flatten _ epoch =
    kill_row id "platform" none none epoch flatten actor at

-- A kill is active for a strategy, and the highest epoch that binds it is this one.
abbrev pub Stands : String → ℕ → Tables → Type 0
Stands sid epoch u = (active_kill sid u ≡ true) × (global_max_kill_epoch sid u ≡ epoch)

row_of-Stands :
    (scope : ClearScope) (id sid actor at : String) (flatten : Bool) (tid : Option String)
    (t : Tables)
    → IsBounded t
    → Binds scope sid t
    → Stands sid (next_epoch t) (with_event (row_of scope id actor at flatten tid (next_epoch t)) t)
row_of-Stands (ClearScope.strategy s) id sid actor at flatten tid t b h =
    let e = row_of (ClearScope.strategy s) id actor at flatten tid (next_epoch t) in
    let u = with_event e t in
    ground (
      arith,
      active_kill_lem sid u,
      scope_active-with_event (ClearScope.strategy sid) e t b,
      global_max-with_event sid e t,
      eq_iff s sid,
    )
row_of-Stands (ClearScope.tenant x) id sid actor at flatten tid t b h =
    let e = row_of (ClearScope.tenant x) id actor at flatten tid (next_epoch t) in
    let u = with_event e t in
    ground (
      arith,
      active_kill_lem sid u,
      scope_active-with_event (ClearScope.tenant x) e t b,
      global_max-with_event sid e t,
      eq_iff x x,
    )
row_of-Stands ClearScope.platform id sid actor at flatten tid t b h =
    let e = row_of ClearScope.platform id actor at flatten tid (next_epoch t) in
    let u = with_event e t in
    ground (
      arith,
      active_kill_lem sid u,
      scope_active-with_event ClearScope.platform e t b,
      global_max-with_event sid e t,
    )

-- The stored row has an identifier that the table did not have.
pub append_scope_kill_lem :
    (scope : ClearScope) (id sid actor at : String) (flatten : Bool) (t : Tables)
    → Binds scope sid t
    → (tid : Option String) × (append_scope_kill scope id actor at flatten t ≡ (
        if exists_row (λ e. e.event_id =ₛ id) t.events
        then err StoreError.constraint
        else ok (next_epoch t, with_event (row_of scope id actor at flatten tid (next_epoch t)) t)))
unfolding append_strategy_kill append_tenant_kill append_platform_kill append_kill
    append_kill_breaker_event
append_scope_kill_lem (ClearScope.strategy s) id sid actor at flatten t h =
    elim (Option-cases (tenant_of sid t.strategies)) [
      | inl e ↦ ground arith
      | inr (tid, e) ↦ (some tid, ground arith)
    ]
append_scope_kill_lem (ClearScope.tenant x) id sid actor at flatten t h = (none, ground arith)
append_scope_kill_lem ClearScope.platform id sid actor at flatten t h = (none, ground arith)

-- A kill under a new identifier, of a scope that binds a known strategy, is stored where no clear is
-- ahead of the kills of its scope: its epoch is above every epoch in the table, and afterwards a
-- kill is active for the strategy and the highest epoch that binds the strategy is the kill's.
pub kill_stands :
    (scope : ClearScope) (id sid actor at : String) (flatten : Bool) (t : Tables)
    → IsBounded t
    → Binds scope sid t
    → exists_row (λ e. e.event_id =ₛ id) t.events ≡ false
    → (epoch : ℕ) × (u : Tables) × (append_scope_kill scope id actor at flatten t ≡ ok (epoch, u))
      × (max_epoch (λ e. true) t.events < epoch)
      × (active_kill sid u ≡ true)
      × (global_max_kill_epoch sid u ≡ epoch)
kill_stands scope id sid actor at flatten t b h f =
    let (tid, e) = append_scope_kill_lem scope id sid actor at flatten t h in
    let (a, g) = row_of-Stands scope id sid actor at flatten tid t b h in
    (
      next_epoch t,
      with_event (row_of scope id actor at flatten tid (next_epoch t)) t,
      ground arith,
      omega arith,
      a,
      g,
    )

row_of-matches :
    (scope : ClearScope) (id actor at : String) (flatten : Bool) (tid : Option String) (epoch : ℕ)
    → let e = row_of scope id actor at flatten tid epoch in
      (matches scope e ≡ true) × (is_kill e.kind ≡ true) × (e.kill_epoch ≡ some epoch)
row_of-matches (ClearScope.strategy s) id actor at flatten tid epoch = ground (arith, eq_iff s s)
row_of-matches (ClearScope.tenant x) id actor at flatten tid epoch = ground (arith, eq_iff x x)
row_of-matches ClearScope.platform id actor at flatten tid epoch = ground arith

scope_max_lt : (scope : ClearScope) (t : Tables) → scope_max scope t < next_epoch t
unfolding scope_max
scope_max_lt scope t =
    ground (arith, max_epoch_mono (λ d. is_kill d.kind && matches scope d) (λ d. true) t.events)

abbrev pub Raised : ClearScope → Tables → Tables → Type 0
Raised scope t u =
    (scope_active scope u ≡ true)
    × (scope_max scope t < scope_max scope u)
    × (u.strategies ≡ t.strategies)

-- A stored kill makes its scope active and raises the scope's epoch.
pub scope_kill_raises :
    (scope : ClearScope) (id sid actor at : String) (flatten : Bool) (t u : Tables) (epoch : ℕ)
    → IsBounded t
    → Binds scope sid t
    → append_scope_kill scope id actor at flatten t ≡ ok (epoch, u)
    → Raised scope t u
scope_kill_raises scope id sid actor at flatten t u epoch b h e =
    let (tid, p) = append_scope_kill_lem scope id sid actor at flatten t h in
    let row = row_of scope id actor at flatten tid (next_epoch t) in
    let (m, k, n) = row_of-matches scope id actor at flatten tid (next_epoch t) in
    let a = scope_active-with_event scope row t b k n m in
    let x = scope_max-with_event scope row t k n m in
    let g : u ≡ with_event row t = ground arith in
    let l = scope_max_lt scope t in subst (Raised scope t) (sym g) (a, ground arith, refl)
