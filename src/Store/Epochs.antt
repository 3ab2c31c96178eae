-- ===== src/Store/Epochs.antt =====
-- How an appended row changes the tests and the maxima of the store's queries.
use alpha_mint_x.Base.{
  ℕ, ◌≤◌, ◌≡◌, refl, Bool, true, false, ◌&&◌, ◌||◌, Option, none, some, List, [], ◌∷◌, ◌++◌, arith,
  ltb, if◌then◌else◌, String,
}
use alpha_mint_x.Store.Types.{
  ClearScope, KillBreakerEvent, KillClearEvent, Tables, is_above, is_kill, exists_row, max_with,
  max_epoch, max_cleared, tenant_of,
}
use alpha_mint_x.Store.Clears.{
  matches, watermark, active_kill, scope_active, scope_max, tenant_clause,
}

pub exists-append {ℓ} :
    {A : Type ℓ} (f : A → Bool) (xs ys : List A)
    → exists_row f (xs ++ ys) ≡ exists_row f xs || exists_row f ys
exists-append f [] ys = refl
exists-append f (x ∷ xs) ys = ground (arith, exists-append f xs ys)

exists-or {ℓ} :
    {A : Type ℓ} (k f g h : A → Bool) (xs : List A)
    → exists_row (λ x. k x && (f x || (g x || h x))) xs
      ≡ exists_row (λ x. k x && f x) xs
        || (exists_row (λ x. k x && g x) xs || exists_row (λ x. k x && h x) xs)
exists-or k f g h [] = refl
exists-or k f g h (x ∷ xs) = ground (arith, exists-or k f g h xs)

exists-none {ℓ} :
    {A : Type ℓ} (k : A → Bool) (xs : List A) → exists_row (λ x. k x && false) xs ≡ false
exists-none k [] = refl
exists-none k (x ∷ xs) = ground (arith, exists-none k xs)

pub max_epoch-append :
    (f : KillBreakerEvent → Bool) (es : List KillBreakerEvent) (e : KillBreakerEvent)
    → max_epoch f (es ++ (e ∷ []))
      ≡ (if f e then max_with e.kill_epoch (max_epoch f es) else max_epoch f es)
unfolding max_epoch
max_epoch-append f [] e = ground arith
max_epoch-append f (d ∷ es) e = ground (arith, max_epoch-append f es e)

pub max_epoch_mono :
    (f g : KillBreakerEvent → Bool) (es : List KillBreakerEvent)
    → ((e : KillBreakerEvent) → f e ≡ true → g e ≡ true)
    → max_epoch f es ≤ max_epoch g es
unfolding max_epoch
max_epoch_mono f g [] h = ground arith
max_epoch_mono f g (e ∷ es) h = ground (arith, max_epoch_mono f g es h, h e)

pub max_cleared-append :
    (f : KillClearEvent → Bool) (cs : List KillClearEvent) (c : KillClearEvent)
    → max_cleared f (cs ++ (c ∷ []))
      ≡ (if f c then max_with (some c.cleared_epoch) (max_cleared f cs) else max_cleared f cs)
unfolding max_cleared
max_cleared-append f [] c = ground arith
max_cleared-append f (d ∷ cs) c = ground (arith, max_cleared-append f cs c)

-- Some row of a kind is above a number just if the maximum is.
pub exists-is_above :
    (f g : KillBreakerEvent → Bool) (m : ℕ) (es : List KillBreakerEvent)
    → exists_row (λ e. f e && (g e && is_above e.kill_epoch m)) es
      ≡ ltb m (max_epoch (λ e. f e && g e) es)
unfolding max_epoch
exists-is_above f g m [] = ground arith
exists-is_above f g m (e ∷ es) = ground (arith, exists-is_above f g m es)

-- A scope is active just if its highest epoch is above its newest cleared epoch.
pub scope_active_lem :
    (scope : ClearScope) (t : Tables)
    → scope_active scope t ≡ ltb (watermark scope t) (scope_max scope t)
unfolding scope_active scope_max
scope_active_lem scope t =
    exists-is_above (λ e. is_kill e.kind) (matches scope) (watermark scope t) t.events

abbrev pub tenant_active : Option String → Tables → Bool
tenant_active none t = false
tenant_active (some tid) t = scope_active (ClearScope.tenant tid) t

tenant_clause-active :
    (tid : Option String) (t : Tables)
    → exists_row (λ e. is_kill e.kind && tenant_clause tid e t) t.events ≡ tenant_active tid t
unfolding scope_active
tenant_clause-active none t = exists-none (λ e. is_kill e.kind) t.events
tenant_clause-active (some tid) t = refl

-- A kill is active for a strategy just if the scope of the strategy, that of its tenant or that of
-- the platform is active.
pub active_kill_lem :
    (sid : String) (t : Tables)
    → active_kill sid t
      ≡ scope_active (ClearScope.strategy sid) t
        || (tenant_active (tenant_of sid t.strategies) t || scope_active ClearScope.platform t)
unfolding active_kill scope_active
active_kill_lem sid t = ground (
  arith,
  exists-or (λ e. is_kill e.kind)
      (λ e.
        matches (ClearScope.strategy sid) e
        && is_above e.kill_epoch (watermark (ClearScope.strategy sid) t))
      (λ e. tenant_clause (tenant_of sid t.strategies) e t)
      (λ e.
        matches ClearScope.platform e && is_above e.kill_epoch (watermark ClearScope.platform t))
      t.events,
  tenant_clause-active (tenant_of sid t.strategies) t,
)
