-- ===== src/Safety/Latch.antt =====
-- When the breaker of a strategy trips, and that it trips once a day.
use alpha_mint_x.Base.{
  String, ◌≡◌, refl, Bool, true, false, ◌≢◌, ◌⊎◌, inl, inr, Option, none, some, List, [], ◌∷◌, ◌=ₛ◌,
  eq_iff, arith, Option-cases, ◌↔◌, ap, sym, subst, ◌∙◌, Ordering,
}
use alpha_mint_x.Base.Int.{ℤ}
use alpha_mint_x.Numbers.{Numbers, greater_than, is_zero}
use alpha_mint_x.Safety.Types.{Alert, AlertKind, PositionRow, Ports}
use alpha_mint_x.Safety.Breaker.{
  alert_of, or_same, unless_dup, alert_daily, stale_among, stale_symbol, fire, alert_stale_mark,
  alert_pnl_error, evaluate_pnl, evaluate,
}

module _ (n : Numbers) (p : Ports n) where
  open n use {Amount, cmp, neg, zero_amount, of_text}
  open p use {
    Store, list_positions, breaker_active_today, append_breaker, append_alert, has_alert_today,
    limits_of, daily_pnl, mark, start_drive, fresh_id, utc_date,
  }

  -- Every open position of the rows has a fresh mark; a row whose quantity cannot be read has none.
  abbrev IsMarked : ℤ → Store → PositionRow → Option Amount → Type 0
  IsMarked now s r none = ⊥
  IsMarked now s r (some q) = (is_zero n q ≡ true) ⊎ (mark r.symbol now s ≢ none)

  unfoldable pub AllMarked : List PositionRow → ℤ → Store → Type 0
  AllMarked [] now s = Unit
  AllMarked (r ∷ rs) now s = IsMarked now s r (of_text r.qty_base) × AllMarked rs now s

  abbrev IsNamed : PositionRow → Type 0
  IsNamed r = (r.symbol =ₛ "") ≡ false

  unfoldable pub AllNamed : List PositionRow → Type 0
  AllNamed [] = Unit
  AllNamed (r ∷ rs) = IsNamed r × AllNamed rs

  stale_among_iff :
      (rs : List PositionRow) (now : ℤ) (s : Store)
      → AllNamed rs
      → (stale_among n p rs now s ≡ some "") ↔ AllMarked rs now s
  unfolding stale_among AllMarked AllNamed
  stale_among_iff [] now s h = ground arith
  stale_among_iff (r ∷ rs) now s h =
      ground (arith, stale_among_iff rs now s h.1, eq_iff r.symbol "")

  abbrev pub Marked : Option (List PositionRow) → ℤ → Store → Type 0
  Marked none now s = ⊥
  Marked (some rs) now s = AllMarked rs now s

  abbrev pub Named : Option (List PositionRow) → Type 0
  Named none = Unit
  Named (some rs) = AllNamed rs

  abbrev pub Reached : Option Amount → Amount → Type 0
  Reached none limit = ⊥
  Reached (some pnl) limit = greater_than n pnl (neg limit) ≡ false

  -- When the breaker trips: it has not on that day, the limit is set, every open position has a
  -- fresh mark, and the day's loss is at the limit or above.
  abbrev pub Trips : String → ℤ → Store → Type 0
  Trips sid now s =
      (breaker_active_today sid (utc_date now) s ≡ some false)
      × (cmp (limits_of sid s).daily_loss_limit_quote zero_amount ≡ Ordering.gt)
      × Marked (list_positions sid s) now s
      × Reached (daily_pnl sid now s) (limits_of sid s).daily_loss_limit_quote

  -- Nothing but at most one alert has been stored.
  abbrev pub OnlyAlert : Store → Store → Type 0
  OnlyAlert s s' = (s' ≡ s) ⊎ ((a : Alert) × (append_alert a s ≡ some s'))

  or_same-OnlyAlert : (a : Alert) (s : Store) → OnlyAlert s (or_same n p (append_alert a s) s)
  or_same-OnlyAlert a s = elim (Option-cases (append_alert a s)) [
    | inl e ↦ inl (ap (λ o. or_same n p o s) e)
    | inr (t, e) ↦ inr (a, e ∙ ap (λ o. some (or_same n p o s)) (sym e))
  ]

  unless_dup-OnlyAlert :
      (dup : Option Bool) (a : Alert) (s : Store) → OnlyAlert s (unless_dup n p dup a s)
  unless_dup-OnlyAlert none a s = inl refl
  unless_dup-OnlyAlert (some true) a s = inl refl
  unless_dup-OnlyAlert (some false) a s = or_same-OnlyAlert a s

  alert_daily-OnlyAlert :
      (kind : AlertKind) (sid ref cause : String) (now : ℤ) (s : Store)
      → OnlyAlert s (alert_daily n p kind sid ref cause now s)
  unfolding alert_daily
  alert_daily-OnlyAlert kind sid ref cause now s =
      unless_dup-OnlyAlert (has_alert_today kind sid ref (utc_date now) s)
        (alert_of n p kind sid ref cause now) s

  stale_symbol_iff :
      (sid : String) (now : ℤ) (s : Store)
      → Named (list_positions sid s)
      → (stale_symbol n p sid now s ≡ some "") ↔ Marked (list_positions sid s) now s
  unfolding stale_symbol
  stale_symbol_iff sid now s h = elim (Option-cases (list_positions sid s)) [
    | inl e ↦ ground arith
    | inr (rs, e) ↦ ground (arith, stale_among_iff rs now s)
  ]

  -- Where `Trips` holds, the row with the day's profit and the limit is appended, and a drive
  -- of the effects is started if that succeeds.
  breaker_fires :
      (sid : String) (pnl : Amount) (now : ℤ) (s : Store)
      → Named (list_positions sid s)
      → Trips sid now s
      → daily_pnl sid now s ≡ some pnl
      → evaluate n p sid now s ≡ fire n p sid pnl (limits_of sid s).daily_loss_limit_quote now s
  unfolding evaluate evaluate_pnl
  breaker_fires sid pnl now s h t e = ground (arith, stale_symbol_iff sid now s h)

  no_trip_alerts :
      (sid : String) (now : ℤ) (s : Store)
      → Named (list_positions sid s)
      → ¬ Trips sid now s
      → let s' = evaluate n p sid now s in
        (s' ≡ s)
        ⊎ (s' ≡ alert_daily n p AlertKind.breaker_limit_unset sid "" "" now s)
        ⊎ (s' ≡ alert_stale_mark n p sid now s)
        ⊎ (s' ≡ alert_pnl_error n p sid now s)
  unfolding evaluate evaluate_pnl
  no_trip_alerts sid now s h t = elim (Option-cases (stale_symbol n p sid now s)) [
    | inl e ↦ ground (arith, stale_symbol_iff sid now s h)
    | inr (x, e) ↦ ground (arith, stale_symbol_iff sid now s h, eq_iff x "")
  ]

  -- Where `Trips` does not hold, nothing happens but at most one alert.
  no_trip :
      (sid : String) (now : ℤ) (s : Store)
      → Named (list_positions sid s)
      → ¬ Trips sid now s
      → OnlyAlert s (evaluate n p sid now s)
  unfolding alert_stale_mark alert_pnl_error
  no_trip sid now s h t = elim (no_trip_alerts sid now s h t) [
    | inl e ↦ inl e
    | inr (inl e) ↦
        subst (OnlyAlert s) (sym e)
          (alert_daily-OnlyAlert AlertKind.breaker_limit_unset sid "" "" now s)
    | inr (inr (inl e)) ↦
        subst (OnlyAlert s) (sym e)
          (alert_daily-OnlyAlert AlertKind.breaker_mark_stale sid "stale_mark" "stale_mark" now s)
    | inr (inr (inr e)) ↦
        subst (OnlyAlert s) (sym e)
          (alert_daily-OnlyAlert AlertKind.breaker_mark_stale sid "pnl_error" "pnl_error" now s)
  ]

  -- What the store is relied on for: an appended breaker is read as active on its UTC day, and the
  -- start of a drive does not change that.
  pub record BreakerLaws : Type 0 where
    pub breaker_kept :
        (id sid : String) (pnl limit : Amount) (now : ℤ) (s s' : Store)
        → append_breaker id sid pnl limit now s ≡ some s'
        → breaker_active_today sid (utc_date now) s' ≡ some true
    pub drive_keeps_breaker :
        (sid day : String) (s : Store)
        → breaker_active_today sid day (start_drive s) ≡ breaker_active_today sid day s

  -- A breaker trips at most once on a UTC day: once its row is stored, it is active for that
  -- day, and to evaluate the strategy again on that day does nothing.
  pub breaker_once :
      (l : BreakerLaws) (sid : String) (pnl : Amount) (now after : ℤ) (s t : Store)
      → Named (list_positions sid s)
      → Trips sid now s
      → daily_pnl sid now s ≡ some pnl
      → append_breaker (fresh_id s) sid pnl (limits_of sid s).daily_loss_limit_quote now s ≡ some t
      → utc_date after ≡ utc_date now
      → let s' = evaluate n p sid now s in
        (breaker_active_today sid (utc_date now) s' ≡ some true) × (evaluate n p sid after s' ≡ s')
  unfolding evaluate fire
  breaker_once l sid pnl now after s t h trips e a d = ground (
    arith,
    breaker_fires sid pnl now s h trips e,
    l.breaker_kept (fresh_id s) sid pnl (limits_of sid s).daily_loss_limit_quote now s t a,
    l.drive_keeps_breaker sid (utc_date now) t,
  )
