-- ===== src/Store/Unserved.antt =====
-- Which kills a clear covers, without the code's own query.
use alpha_mint_x.Base.{
  ℕ, ◌≡◌, String, Bool, true, false, List, [], ◌∷◌, ◌=ₛ◌, eq_iff, arith, Any, not, ◌&&◌, ◌≤◌,
  Option, none, some, ◌↔◌,
}
use alpha_mint_x.Store.Types.{
  EventKind, KillBreakerEvent, SafetyEffect, ClearScope, exists_row, is_kill, text_is,
}
use alpha_mint_x.Store.Kills.{is_served}
use alpha_mint_x.Store.Clears.{matches, is_at_most, covered}
use alpha_mint_x.Store.Cleared.{ids_of}

abbrev pub is_among : String → List String → Bool
is_among id ids = exists_row (λ x. x =ₛ id) ids

abbrev pub InScope : ClearScope → KillBreakerEvent → Type 0
InScope (ClearScope.strategy sid) e = e.strategy_id ≡ some sid
InScope (ClearScope.tenant tid) e = (e.strategy_id ≡ none) × (e.tenant_id ≡ some tid)
InScope ClearScope.platform e = (e.strategy_id ≡ none) × (e.tenant_id ≡ none)

abbrev pub IsUpTo : ℕ → Option ℕ → Type 0
IsUpTo m none = ⊥
IsUpTo m (some k) = k ≤ m

-- A kill of the scope, of an epoch up to the observed one, that has no marker.
abbrev pub IsUnserved : ClearScope → ℕ → List SafetyEffect → KillBreakerEvent → Type 0
IsUnserved scope observed effects e =
    (e.kind ≡ EventKind.kill)
    × InScope scope e
    × IsUpTo observed e.kill_epoch
    × (is_served e.event_id effects ≡ false)

is_kill_iff : (k : EventKind) → (is_kill k ≡ true) ↔ (k ≡ EventKind.kill)
is_kill_iff k = ground arith

text_is_iff : (o : Option String) (s : String) → (text_is o s ≡ true) ↔ (o ≡ some s)
text_is_iff none s = ground arith
text_is_iff (some t) s = ground (arith, eq_iff t s)

matches_iff :
    (scope : ClearScope) (e : KillBreakerEvent) → (matches scope e ≡ true) ↔ InScope scope e
matches_iff (ClearScope.strategy sid) e = text_is_iff e.strategy_id sid
matches_iff (ClearScope.tenant tid) e = ground (arith, text_is_iff e.tenant_id tid)
matches_iff ClearScope.platform e = ground arith

is_at_most_iff : (o : Option ℕ) (m : ℕ) → (is_at_most o m ≡ true) ↔ IsUpTo m o
is_at_most_iff none m = ground arith
is_at_most_iff (some k) m = ground arith

is_covered_iff :
    (scope : ClearScope) (m : ℕ) (effects : List SafetyEffect) (e : KillBreakerEvent)
    → ((is_kill e.kind
          && matches scope e
          && is_at_most e.kill_epoch m
          && not (is_served e.event_id effects))
        ≡ true)
      ↔ IsUnserved scope m effects e
is_covered_iff scope m effects e =
    ground (arith, is_kill_iff e.kind, matches_iff scope e, is_at_most_iff e.kill_epoch m)

pub covered_iff :
    (id : String) (scope : ClearScope) (m : ℕ) (effects : List SafetyEffect)
    (es : List KillBreakerEvent)
    → (is_among id (ids_of (covered scope m effects es)) ≡ true)
      ↔ Any (λ e. IsUnserved scope m effects e × (e.event_id ≡ id)) es
unfolding covered
covered_iff id scope m effects [] = ground arith
covered_iff id scope m effects (e ∷ es) = ground (
  arith,
  covered_iff id scope m effects es,
  is_covered_iff scope m effects e,
  eq_iff e.event_id id,
)

pub covered_empty :
    (scope : ClearScope) (m : ℕ) (effects : List SafetyEffect) (es : List KillBreakerEvent)
    → covered scope m effects es ≡ []
    → ¬ Any (IsUnserved scope m effects) es
unfolding covered
covered_empty scope m effects [] h = ground arith
covered_empty scope m effects (e ∷ es) h =
    ground (arith, covered_empty scope m effects es, is_covered_iff scope m effects e)
