-- ===== src/Store/Cleared.antt =====
-- What a clear does: it ends the kills of its own scope, and of no other, up to the epoch observed.
use alpha_mint_x.Base.{
  ℕ, ◌≡◌, refl, ap, ◌∙◌, String, Bool, true, false, ◌&&◌, ==_iff, List, [], ◌∷◌, ◌++◌, eq_iff,
  arith, ltb, ok, err, Option-cases, inl, inr, Bool-cases, if◌then◌else◌,
}
use alpha_mint_x.Base.Results.{Result-cases}
use alpha_mint_x.Store.Types.{
  KillBreakerEvent, KillClearEvent, SafetyEffect, ClearScope, StoreError, Tables, is_kill,
  max_epoch, tenant_of,
}
use alpha_mint_x.Store.Kills.{append_safety_alert, global_max_kill_epoch, binds}
use alpha_mint_x.Store.Clears.{
  matches, same_scope, clears_scope, watermark, scope_active, scope_max, covered, audit_of,
  insert_effect, insert_clear, supersede, supersede_unserved, write_clear, append_kill_clear,
  superseded_alert,
}
use alpha_mint_x.Store.Epochs.{max_cleared-append, scope_active_lem}
use alpha_mint_x.Store.Standing.{IsBounded, Binds, append_scope_kill, scope_kill_raises}

abbrev pub ids_of : List KillBreakerEvent → List String
ids_of [] = []
ids_of (e ∷ es) = e.event_id ∷ ids_of es

abbrev pub markers : String → List KillBreakerEvent → List SafetyEffect
markers at [] = []
markers at (e ∷ es) = record { event_id = e.event_id; completed_at = at } ∷ markers at es

append-snoc {ℓ} : {A : Type ℓ} (xs ys : List A) (x : A) → (xs ++ (x ∷ [])) ++ ys ≡ xs ++ (x ∷ ys)
append-snoc [] ys x = refl
append-snoc (z ∷ xs) ys x = ground (arith, append-snoc xs ys x)

append_nil {ℓ} : {A : Type ℓ} (xs : List A) → xs ++ [] ≡ xs
append_nil [] = refl
append_nil (x ∷ xs) = ground (arith, append_nil xs)

-- Two tables differ in the markers and the alerts at most, and these are the markers.
abbrev Marks : List SafetyEffect → Tables → Tables → Type 0
Marks new t u =
    (u.events ≡ t.events)
    × (u.clears ≡ t.clears)
    × (u.strategies ≡ t.strategies)
    × (u.effects ≡ t.effects ++ new)

same_scope_refl : (s : ClearScope) → same_scope s s ≡ true
same_scope_refl (ClearScope.strategy x) = ground (arith, eq_iff x x)
same_scope_refl (ClearScope.tenant x) = ground (arith, eq_iff x x)
same_scope_refl ClearScope.platform = refl

same_scope_eq : (s r : ClearScope) → same_scope s r ≡ true → s ≡ r
same_scope_eq (ClearScope.strategy x) (ClearScope.strategy y) h = ground (arith, eq_iff y x)
same_scope_eq (ClearScope.tenant x) (ClearScope.tenant y) h = ground (arith, eq_iff y x)
same_scope_eq ClearScope.platform ClearScope.platform h = refl
same_scope_eq (ClearScope.strategy x) (ClearScope.tenant y) h = ground arith
same_scope_eq (ClearScope.strategy x) ClearScope.platform h = ground arith
same_scope_eq (ClearScope.tenant x) (ClearScope.strategy y) h = ground arith
same_scope_eq (ClearScope.tenant x) ClearScope.platform h = ground arith
same_scope_eq ClearScope.platform (ClearScope.strategy y) h = ground arith
same_scope_eq ClearScope.platform (ClearScope.tenant y) h = ground arith

pub watermark-appended :
    (s : ClearScope) (c : KillClearEvent) (t u : Tables)
    → u.clears ≡ t.clears ++ (c ∷ [])
    → watermark s u ≡ (
        if same_scope s c.scope && ltb (watermark s t) c.cleared_epoch
        then c.cleared_epoch
        else watermark s t)
watermark-appended s c t u e = ground (arith, max_cleared-append (clears_scope s) t.clears c)

pub scope_max_same :
    (s : ClearScope) (t u : Tables) → u.events ≡ t.events → scope_max s u ≡ scope_max s t
unfolding scope_max
scope_max_same s t u e = ap (max_epoch (λ d. is_kill d.kind && matches s d)) e

global_max_same :
    (sid : String) (t u : Tables)
    → u.events ≡ t.events
    → u.strategies ≡ t.strategies
    → global_max_kill_epoch sid u ≡ global_max_kill_epoch sid t
unfolding global_max_kill_epoch
global_max_same sid t u e r =
    ap (max_epoch (λ d. is_kill d.kind && binds sid (tenant_of sid u.strategies) d)) e
    ∙ ap (λ rows. max_epoch (λ d. is_kill d.kind && binds sid (tenant_of sid rows) d) t.events) r

audit_of-Binds :
    (scope : ClearScope) (sid : String) (t u : Tables)
    → Binds scope sid t
    → u.strategies ≡ t.strategies
    → (audit : String) × (audit_of scope u ≡ ok audit)
audit_of-Binds (ClearScope.strategy s) sid t u h r =
    elim (Option-cases (tenant_of s u.strategies)) [
      | inl e ↦ ground (arith, ap (tenant_of s) r)
      | inr (tid, e) ↦ (tid, ground arith)
    ]
audit_of-Binds (ClearScope.tenant x) sid t u h r = (x, refl)
audit_of-Binds ClearScope.platform sid t u h r = ("", refl)

module _ (new_id : Tables → String) where
  supersede-Marks :
      (clear_id at : String) (es : List KillBreakerEvent) (t u : Tables) (ids : List String)
      → supersede new_id clear_id at es t ≡ ok (ids, u)
      → Marks (markers at es) t u × (ids ≡ ids_of es)
  unfolding supersede insert_effect append_safety_alert
  supersede-Marks clear_id at [] t u ids h = ground (arith, append_nil t.effects)
  supersede-Marks clear_id at (e ∷ es) t u ids h =
      let marker : SafetyEffect = record { event_id = e.event_id; completed_at = at } in
      let v = record t { effects = t.effects ++ (marker ∷ []) } in
      let w = record v { alerts = t.alerts ++ (superseded_alert new_id clear_id at e v ∷ []) } in
      elim (Result-cases (supersede new_id clear_id at es w)) [
        | inl (x, r) ↦ ground arith
        | inr ((js, y), r) ↦ ground (
          arith,
          supersede-Marks clear_id at es w y js,
          append-snoc t.effects (markers at es) marker,
        )
      ]

  -- The clear's row is inserted, and a marker for each covered event.
  abbrev pub Wrote : KillClearEvent → Tables → Tables → Type 0
  Wrote c t u =
      (u.events ≡ t.events)
      × (u.clears ≡ t.clears ++ (c ∷ []))
      × (u.strategies ≡ t.strategies)
      × (u.effects
          ≡ t.effects ++ markers c.recorded_at (covered c.scope c.cleared_epoch t.effects t.events))

  pub write_clear-Wrote :
      (c : KillClearEvent) (t u : Tables) (epoch : ℕ) (ids : List String)
      → write_clear new_id c t ≡ ok ((epoch, ids), u)
      → Wrote c t u
        × (epoch ≡ c.cleared_epoch)
        × (ids ≡ ids_of (covered c.scope c.cleared_epoch t.effects t.events))
  unfolding write_clear insert_clear supersede_unserved
  write_clear-Wrote c t u epoch ids h =
      let es = covered c.scope c.cleared_epoch t.effects t.events in
      let v = record t { clears = t.clears ++ (c ∷ []) } in
      elim (Result-cases (supersede new_id c.clear_id c.recorded_at es v)) [
        | inl (x, r) ↦ ground arith
        | inr ((js, y), r) ↦ ground (arith, supersede-Marks c.clear_id c.recorded_at es v y js r)
      ]

  abbrev pub clear_row :
      String → ClearScope → String → String → String → ℕ → String → KillClearEvent
  clear_row clear_id scope audit actor reason epoch at = record {
    clear_id = clear_id;
    scope = scope;
    audit_tenant = audit;
    cleared_epoch = epoch;
    actor_id = actor;
    reason = reason;
    recorded_at = at;
  }

  -- What a clear that succeeds has found.
  pub append_kill_clear_checked :
      (clear_id : String) (scope : ClearScope) (actor reason : String) (observed : ℕ) (at : String)
      (t : Tables) (r : (ℕ × List String) × Tables)
      → append_kill_clear new_id clear_id scope actor reason observed at t ≡ ok r
      → (audit : String) × (write_clear new_id
            (clear_row clear_id scope audit actor reason observed at)
            t
          ≡ ok r)
        × (scope_active scope t ≡ true)
        × (scope_max scope t ≡ observed)
  unfolding append_kill_clear
  append_kill_clear_checked clear_id scope actor reason observed at t r h =
      elim (Result-cases (audit_of scope t)) [
        | inl (x, e) ↦ ground arith
        | inr (audit, e) ↦
            let w : (write_clear new_id (clear_row clear_id scope audit actor reason observed at) t
                  ≡ ok r)
                × (scope_active scope t ≡ true)
                × (scope_max scope t ≡ observed) =
              ground (arith, ==_iff (scope_max scope t) observed) in
            (audit, w.0, w.1, w.2)
      ]

  -- A clear that succeeds covers the whole of its scope, which is no longer active, and nothing
  -- else: every other scope is as active as before, and the epoch that binds a strategy is the same.
  pub clear_ends_scope :
      (clear_id : String) (scope : ClearScope) (actor reason : String) (observed : ℕ) (at : String)
      (t u : Tables) (epoch : ℕ) (ids : List String)
      → append_kill_clear new_id clear_id scope actor reason observed at t ≡ ok ((epoch, ids), u)
      → (epoch ≡ observed)
        × (scope_active scope u ≡ false)
        × ((s : ClearScope) → same_scope s scope ≡ false → scope_active s u ≡ scope_active s t)
        × ((sid : String) → global_max_kill_epoch sid u ≡ global_max_kill_epoch sid t)
  clear_ends_scope clear_id scope actor reason observed at t u epoch ids h =
      let (audit, e, a, m) =
        append_kill_clear_checked clear_id scope actor reason observed at t ((epoch, ids), u) h in
      let c = clear_row clear_id scope audit actor reason observed at in
      let (w, i, j) = write_clear-Wrote c t u epoch ids e in
      (
        i,
        ground (
          arith,
          scope_active_lem scope u,
          watermark-appended scope c t u w.1,
          scope_max_same scope t u w.0,
          same_scope_refl scope,
        ),
        λ s d. ground (
          arith,
          scope_active_lem s u,
          scope_active_lem s t,
          watermark-appended s c t u w.1,
          scope_max_same s t u w.0,
        ),
        λ sid. global_max_same sid t u w.0 w.2,
      )

  -- A clear that succeeds leaves no clear ahead of the kills of its scope.
  pub clear-IsBounded :
      (clear_id : String) (scope : ClearScope) (actor reason : String) (observed : ℕ) (at : String)
      (t u : Tables) (epoch : ℕ) (ids : List String)
      → append_kill_clear new_id clear_id scope actor reason observed at t ≡ ok ((epoch, ids), u)
      → IsBounded t
      → IsBounded u
  clear-IsBounded clear_id scope actor reason observed at t u epoch ids h b s =
      let (audit, e, a, m) =
        append_kill_clear_checked clear_id scope actor reason observed at t ((epoch, ids), u) h in
      let c = clear_row clear_id scope audit actor reason observed at in
      let (w, i, j) = write_clear-Wrote c t u epoch ids e in
      elim (Bool-cases (same_scope s scope)) [
        | inl q ↦
            let p : scope_max s t ≡ observed =
              ap (λ x. scope_max x t) (same_scope_eq s scope q) ∙ m in
            ground (arith, watermark-appended s c t u w.1, scope_max_same s t u w.0, b s)
        | inr q ↦ ground (arith, watermark-appended s c t u w.1, scope_max_same s t u w.0, b s)
      ]

  -- A kill that lands between the read of a scope's epoch and the clear is never swept away: the
  -- clear with the epoch read before is a conflict, and writes nothing.
  pub clear_race :
      (scope : ClearScope) (id sid actor at : String) (flatten : Bool) (t u : Tables) (epoch : ℕ)
      (clear_id operator reason later : String)
      → IsBounded t
      → Binds scope sid t
      → append_scope_kill scope id actor at flatten t ≡ ok (epoch, u)
      → append_kill_clear new_id clear_id scope operator reason (scope_max scope t) later u
        ≡ err StoreError.clear_conflict
  unfolding append_kill_clear
  clear_race scope id sid actor at flatten t u epoch clear_id operator reason later b h e =
      let (a, m, r) = scope_kill_raises scope id sid actor at flatten t u epoch b h e in
      let (audit, k) = audit_of-Binds scope sid t u h r in
      ground (arith, ==_iff (scope_max scope u) (scope_max scope t))
