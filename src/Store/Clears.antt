-- ===== src/Store/Clears.antt =====
-- control-plane/internal/store/killclear.go: the active kills and the transaction that clears them;
-- and the lifecycle lock of store/safety.go. `new_id` is the identifier that `uuid.NewString` draws
-- for the next row.
use alpha_mint_x.Base.{
  ℕ, String, Bool, true, false, not, ◌&&◌, ◌||◌, ◌==◌, Option, none, some, List, [], ◌∷◌, ◌++◌,
  ◌=ₛ◌, leb, Result, ok, err, is_none, if◌then◌else◌,
}
use alpha_mint_x.Base.Results.{◌>>=◌}
use alpha_mint_x.Store.Types.{
  KillBreakerEvent, ClearScope, KillClearEvent, SafetyEffect, SafetyAlert, StrategyRow,
  TransitionRow, Tables, StoreError, text_is, is_above, is_kill, exists_row, max_epoch, max_cleared,
  tenant_of,
}
use alpha_mint_x.Store.Kills.{is_served, append_safety_alert}
use text.Mathlib.Text.{starts_with}
use Prim.Native.String.{◌++◌ as ◌+ₛ◌}

-- The kill rows of a scope: the `match` of the transaction. A row without identifiers is of the
-- platform's scope.
abbrev pub matches : ClearScope → KillBreakerEvent → Bool
matches (ClearScope.strategy sid) e = text_is e.strategy_id sid
matches (ClearScope.tenant tid) e = is_none e.strategy_id && text_is e.tenant_id tid
matches ClearScope.platform e = is_none e.strategy_id && is_none e.tenant_id

-- The clears of a scope: the `cleared` of the transaction.
abbrev pub same_scope : ClearScope → ClearScope → Bool
same_scope (ClearScope.strategy sid) (ClearScope.strategy s) = s =ₛ sid
same_scope (ClearScope.tenant tid) (ClearScope.tenant s) = s =ₛ tid
same_scope ClearScope.platform ClearScope.platform = true
same_scope _ _ = false

abbrev pub clears_scope : ClearScope → KillClearEvent → Bool
clears_scope scope c = same_scope scope c.scope

-- The newest cleared epoch of a scope.
abbrev pub watermark : ClearScope → Tables → ℕ
watermark scope t = max_cleared (clears_scope scope) t.clears

-- The clause of an active kill for a strategy's tenant, which may be missing.
abbrev pub tenant_clause : Option String → KillBreakerEvent → Tables → Bool
tenant_clause none e t = false
tenant_clause (some tid) e t =
    matches (ClearScope.tenant tid) e && is_above e.kill_epoch (watermark (ClearScope.tenant tid) t)

-- `ActiveKill`: `activeKillSQL`, clause by clause.
unfoldable pub active_kill : String → Tables → Bool
active_kill sid t =
    exists_row
      (λ e.
        is_kill e.kind
        && ((text_is e.strategy_id sid
              && is_above e.kill_epoch (watermark (ClearScope.strategy sid) t))
            || (tenant_clause (tenant_of sid t.strategies) e t
                || (matches ClearScope.platform e
                    && is_above e.kill_epoch (watermark ClearScope.platform t)))))
      t.events

-- The tests of the transaction, for its scope.
unfoldable pub scope_active : ClearScope → Tables → Bool
scope_active scope t =
    exists_row
      (λ e. is_kill e.kind && (matches scope e && is_above e.kill_epoch (watermark scope t)))
      t.events

unfoldable pub scope_max : ClearScope → Tables → ℕ
scope_max scope t = max_epoch (λ e. is_kill e.kind && matches scope e) t.events

abbrev pub is_at_most : Option ℕ → ℕ → Bool
is_at_most none m = false
is_at_most (some k) m = leb k m

-- The events that a clear covers and that have no marker.
unfoldable pub covered :
    ClearScope → ℕ → List SafetyEffect → List KillBreakerEvent → List KillBreakerEvent
covered scope epoch effects [] = []
covered scope epoch effects (e ∷ es) =
    let rest = covered scope epoch effects es in
    if is_kill e.kind
      && matches scope e
      && is_at_most e.kill_epoch epoch
      && not (is_served e.event_id effects)
    then e ∷ rest
    else rest

-- The tenant for the audit: the strategy's, the scope's own, or none.
abbrev pub audit_of : ClearScope → Tables → Result StoreError String
audit_of (ClearScope.strategy sid) t = elim (tenant_of sid t.strategies) [
  | none ↦ err StoreError.not_found
  | some tid ↦ ok tid
]
audit_of (ClearScope.tenant tid) t = ok tid
audit_of ClearScope.platform t = ok ""

-- The insert of a marker, which fails if there is one.
unfoldable pub insert_effect : String → String → Tables → Result StoreError Tables
insert_effect id at t =
    if is_served id t.effects
    then err StoreError.constraint
    else ok (record t { effects = t.effects ++ (record { event_id = id; completed_at = at } ∷ []) })

unfoldable pub insert_clear : KillClearEvent → Tables → Result StoreError Tables
insert_clear c t =
    if exists_row (λ d. d.clear_id =ₛ c.clear_id) t.clears
    then err StoreError.constraint
    else ok (record t { clears = t.clears ++ (c ∷ []) })

-- The strategy's row with its state at `killed`.
unfoldable pub set_killed : String → String → List StrategyRow → List StrategyRow
set_killed sid at [] = []
set_killed sid at (r ∷ rs) =
    let rest = set_killed sid at rs in
    if r.strategy_id =ₛ sid
    then record r { lifecycle_state = "killed"; updated_at = at } ∷ rest
    else r ∷ rest

abbrev pub state_of : String → List StrategyRow → Option String
state_of sid [] = none
state_of sid (r ∷ rs) = if r.strategy_id =ₛ sid then some r.lifecycle_state else state_of sid rs

unfoldable pub insert_transition : TransitionRow → Tables → Result StoreError Tables
insert_transition r t =
    if exists_row (λ q. q.transition_id =ₛ r.transition_id) t.transitions
    then err StoreError.constraint
    else ok (record t { transitions = t.transitions ++ (r ∷ []) })

module _ (new_id : Tables → String) where
  abbrev pub superseded_alert : String → String → KillBreakerEvent → Tables → SafetyAlert
  superseded_alert clear_id at e t = record {
    alert_id = new_id t;
    kind = "kill_effects_superseded";
    strategy_id = e.strategy_id;
    ref_id = some e.event_id;
    details = clear_id;
    recorded_at = at;
  }

  -- The loop of `supersedeUnserved` over the covered events.
  unfoldable pub supersede :
      String → String → List KillBreakerEvent → Tables → Result StoreError (List String × Tables)
  supersede clear_id at [] t = ok ([], t)
  supersede clear_id at (e ∷ es) t = do
    u ← insert_effect e.event_id at t
    v ← append_safety_alert (superseded_alert clear_id at e u) u
    (ids, w) ← supersede clear_id at es v
    ok (e.event_id ∷ ids, w)

  unfoldable pub supersede_unserved :
      String → ClearScope → ℕ → String → Tables → Result StoreError (List String × Tables)
  supersede_unserved clear_id scope epoch at t =
      supersede clear_id at (covered scope epoch t.effects t.events) t

  unfoldable pub write_clear :
      KillClearEvent → Tables → Result StoreError ((ℕ × List String) × Tables)
  write_clear c t = do
    u ← insert_clear c t
    (ids, v) ← supersede_unserved c.clear_id c.scope c.cleared_epoch c.recorded_at u
    ok ((c.cleared_epoch, ids), v)

  -- The checks before the insert: an active kill, then the observed epoch.
  abbrev pub check_clear : ClearScope → ℕ → Tables → Result StoreError Tables
  check_clear scope observed_epoch t =
      if not (scope_active scope t)
      then err StoreError.no_active_kill
      else if not (scope_max scope t == observed_epoch)
      then err StoreError.clear_conflict
      else ok t

  -- `appendKillClear`.
  unfoldable pub append_kill_clear :
      String
      → ClearScope
      → String
      → String
      → ℕ
      → String
      → Tables
      → Result StoreError ((ℕ × List String) × Tables)
  append_kill_clear clear_id scope actor reason observed_epoch at t = do
    audit ← audit_of scope t
    u ← check_clear scope observed_epoch t
    write_clear
        (record {
          clear_id = clear_id;
          scope = scope;
          audit_tenant = audit;
          cleared_epoch = observed_epoch;
          actor_id = actor;
          reason = reason;
          recorded_at = at;
        })
        u

  abbrev lock_row : String → String → String → String → String → Tables → TransitionRow
  lock_row sid from event_id actor at t = record {
    transition_id = new_id t;
    strategy_id = sid;
    from_state = from;
    to_state = "killed";
    actor_id = actor;
    actor_role = "system";
    reason = "kill-switch event " +ₛ event_id;
    recorded_at = at;
  }

  -- `AppendKillLifecycleLock`.
  unfoldable pub append_kill_lifecycle_lock :
      String → String → String → String → Tables → Result StoreError (Bool × Tables)
  append_kill_lifecycle_lock sid event_id actor at t = elim (state_of sid t.strategies) [
    | none ↦ err StoreError.not_found
    | some from ↦
        if starts_with from "live_"
        then (do
          u ← insert_transition (lock_row sid from event_id actor at t) t
          ok (true, record u { strategies = set_killed sid at u.strategies }))
        else ok (false, t)
  ]
