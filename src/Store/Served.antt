-- ===== src/Store/Served.antt =====
-- Which safety events a clear supersedes, and that nothing but its checks can refuse a clear.
use alpha_mint_x.Base.{
  ℕ, ◌≡◌, refl, ap, ◌∙◌, String, true, false, ◌||◌, List, [], ◌∷◌, ◌++◌, ◌=ₛ◌, eq_iff, arith,
  ==_iff, All, Any, sym, subst, ok, is_ok, ◌↔◌, inl, inr,
}
use alpha_mint_x.Base.Results.{Result-cases}
use alpha_mint_x.Store.Types.{
  KillBreakerEvent, KillClearEvent, SafetyEffect, ClearScope, Tables, exists_row,
}
use alpha_mint_x.Store.Kills.{append_safety_alert, is_served}
use alpha_mint_x.Store.Clears.{
  covered, audit_of, scope_active, scope_max, insert_effect, insert_clear, supersede,
  supersede_unserved, superseded_alert, write_clear, append_kill_clear,
}
use alpha_mint_x.Store.Epochs.{exists-append}
use alpha_mint_x.Store.Unserved.{is_among, IsUnserved, covered_iff, covered_empty}
use alpha_mint_x.Store.Cleared.{
  ids_of, markers, append_kill_clear_checked, write_clear-Wrote, clear_row,
}

is_served-markers :
    (id at : String) (es : List KillBreakerEvent)
    → is_served id (markers at es) ≡ is_among id (ids_of es)
is_served-markers id at [] = refl
is_served-markers id at (e ∷ es) = ground (arith, is_served-markers id at es)

covered_none :
    (scope : ClearScope) (epoch : ℕ) (es : List KillBreakerEvent) (old new : List SafetyEffect)
    → ((id : String) → is_served id old ≡ true → is_served id new ≡ true)
    → ((id : String)
        → is_among id (ids_of (covered scope epoch old es)) ≡ true
        → is_served id new ≡ true)
    → covered scope epoch new es ≡ []
unfolding covered
covered_none scope epoch [] old new k h = refl
covered_none scope epoch (e ∷ es) old new k h =
    let rest = covered_none scope epoch es old new k (λ id m. h id (ground arith)) in
    ground (arith, k e.event_id, h e.event_id, eq_iff e.event_id e.event_id)

module _ (new_id : Tables → String) where
  -- A clear that succeeds returns the identifiers of exactly the kills of its scope, of an epoch up to
  -- the observed one, that had no marker. It marks these as served and no other event, and none of
  -- them is left.
  pub clear_supersedes :
      (clear_id : String) (scope : ClearScope) (actor reason : String) (observed : ℕ) (at : String)
      (t u : Tables) (epoch : ℕ) (ids : List String)
      → append_kill_clear new_id clear_id scope actor reason observed at t ≡ ok ((epoch, ids), u)
      → ((id : String)
          → (is_among id ids ≡ true)
            ↔ Any (λ e. IsUnserved scope observed t.effects e × (e.event_id ≡ id)) t.events)
        × ((id : String) → is_served id u.effects ≡ is_served id t.effects || is_among id ids)
        × ¬ Any (IsUnserved scope observed u.effects) u.events
  clear_supersedes clear_id scope actor reason observed at t u epoch ids h =
      let (audit, e, a, m) =
        append_kill_clear_checked new_id clear_id scope actor reason observed at t ((epoch, ids), u)
          h in
      let c = clear_row new_id clear_id scope audit actor reason observed at in
      let (w, i, j) = write_clear-Wrote new_id c t u epoch ids e in
      let es = covered scope observed t.effects t.events in
      let s : (id : String) → is_served id u.effects ≡ is_served id t.effects || is_among id ids =
        λ id. ground (
          arith,
          exists-append (λ (x : SafetyEffect). x.event_id =ₛ id) t.effects (markers at es),
          is_served-markers id at es,
        ) in
      (
        λ id.
            subst
              (λ x.
                (is_among id x ≡ true)
                ↔ Any (λ f. IsUnserved scope observed t.effects f × (f.event_id ≡ id)) t.events)
              (sym j) (covered_iff id scope observed t.effects t.events),
        s,
        covered_empty scope observed u.effects u.events (
            ap (covered scope observed u.effects) w.0
            ∙ covered_none scope observed t.events t.effects u.effects
                (λ id q. ground (arith, s id)) (λ id q. ground (arith, s id))),
      )

-- No two rows with one key.
unfoldable pub HasKeys : List KillBreakerEvent → Type 0
HasKeys [] = Unit
HasKeys (e ∷ es) = (exists_row (λ f. f.event_id =ₛ e.event_id) es ≡ false) × HasKeys es

exists-covered :
    (id : String) (scope : ClearScope) (epoch : ℕ) (effects : List SafetyEffect)
    (es : List KillBreakerEvent)
    → exists_row (λ f. f.event_id =ₛ id) es ≡ false
    → exists_row (λ f. f.event_id =ₛ id) (covered scope epoch effects es) ≡ false
unfolding covered
exists-covered id scope epoch effects [] h = refl
exists-covered id scope epoch effects (e ∷ es) h =
    ground (arith, exists-covered id scope epoch effects es)

-- What the loop of `supersede` meets: rows with different keys and no marker.
abbrev IsOpen : List SafetyEffect → KillBreakerEvent → Type 0
IsOpen effects e = is_served e.event_id effects ≡ false

covered-HasKeys :
    (scope : ClearScope) (epoch : ℕ) (effects : List SafetyEffect) (es : List KillBreakerEvent)
    → HasKeys es
    → HasKeys (covered scope epoch effects es)
      × All (IsOpen effects) (covered scope epoch effects es)
unfolding covered HasKeys
covered-HasKeys scope epoch effects [] h = (tt, tt)
covered-HasKeys scope epoch effects (e ∷ es) h = ground (
  arith,
  covered-HasKeys scope epoch effects es h.1,
  exists-covered e.event_id scope epoch effects es h.0,
)

All-IsOpen :
    (id at : String) (effects : List SafetyEffect) (es : List KillBreakerEvent)
    → exists_row (λ f. f.event_id =ₛ id) es ≡ false
    → All (IsOpen effects) es
    → All (IsOpen (effects ++ (record { event_id = id; completed_at = at } ∷ []))) es
All-IsOpen id at effects [] h a = tt
All-IsOpen id at effects (e ∷ es) h a =
    let m : SafetyEffect = record { event_id = id; completed_at = at } in
    let rest = All-IsOpen id at effects es in
    ground (
      arith,
      exists-append (λ (x : SafetyEffect). x.event_id =ₛ e.event_id) effects (m ∷ []),
      rest,
      eq_iff id e.event_id,
      eq_iff e.event_id id,
    )

module _ (new_id : Tables → String) where
  -- What is relied on of `uuid.NewString`: the identifier drawn is not in the table.
  abbrev pub IsNew : Type 0
  IsNew = (t : Tables) → exists_row (λ a. a.alert_id =ₛ new_id t) t.alerts ≡ false

  supersede_total :
      (clear_id at : String) (es : List KillBreakerEvent) (t : Tables)
      → IsNew
      → HasKeys es
      → All (IsOpen t.effects) es
      → (r : List String × Tables) × (supersede new_id clear_id at es t ≡ ok r)
  unfolding supersede insert_effect append_safety_alert HasKeys
  supersede_total clear_id at [] t n k o = (([], t), refl)
  supersede_total clear_id at (e ∷ es) t n k o =
      let marker : SafetyEffect = record { event_id = e.event_id; completed_at = at } in
      let v = record t { effects = t.effects ++ (marker ∷ []) } in
      let w = record v { alerts = t.alerts ++ (superseded_alert new_id clear_id at e v ∷ []) } in
      let (r, q) =
        supersede_total clear_id at es w n k.1 (All-IsOpen e.event_id at t.effects es k.0 o.1) in
      ((e.event_id ∷ r.0, r.1), ground (arith, n v))

  write_clear_total :
      (c : KillClearEvent) (t : Tables)
      → IsNew
      → HasKeys t.events
      → exists_row (λ d. d.clear_id =ₛ c.clear_id) t.clears ≡ false
      → is_ok (write_clear new_id c t) ≡ true
  unfolding write_clear insert_clear supersede_unserved
  write_clear_total c t n k f =
      let v = record t { clears = t.clears ++ (c ∷ []) } in
      let es = covered c.scope c.cleared_epoch t.effects t.events in
      let (p, o) = covered-HasKeys c.scope c.cleared_epoch t.effects t.events k in
      let (r, q) = supersede_total c.clear_id c.recorded_at es v n p o in ground arith

  -- A clear under a new identifier, of tables whose events have different identifiers, succeeds just
  -- if its strategy is known, the scope has an active kill and the observed epoch is the scope's
  -- highest.
  pub clear_succeeds_iff :
      (clear_id : String) (scope : ClearScope) (actor reason : String) (observed : ℕ) (at : String)
      (t : Tables)
      → IsNew
      → HasKeys t.events
      → exists_row (λ d. d.clear_id =ₛ clear_id) t.clears ≡ false
      → (is_ok (append_kill_clear new_id clear_id scope actor reason observed at t) ≡ true) ↔ (
          (is_ok (audit_of scope t) ≡ true)
          × (scope_active scope t ≡ true)
          × (scope_max scope t ≡ observed))
  unfolding append_kill_clear
  clear_succeeds_iff clear_id scope actor reason observed at t n k f =
      elim (Result-cases (audit_of scope t)) [
        | inl (x, e) ↦ ground arith
        | inr (audit, e) ↦ ground (
          arith,
          ==_iff (scope_max scope t) observed,
          write_clear_total (clear_row new_id clear_id scope audit actor reason observed at) t n k
              f,
        )
      ]
