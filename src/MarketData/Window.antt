-- ===== src/MarketData/Window.antt =====
-- Which mark is usable: the last one put, and only in its window.
use alpha_mint_x.Base.{
  String, ◌≡◌, refl, ap, ◌∙◌, Bool, true, false, Option, none, some, Option-cases, inl, inr, ◌*◌,
  List, [], ◌∷◌, ◌=ₛ◌, ◌↔◌, eq_iff, arith, if◌then◌else◌,
}
use alpha_mint_x.Base.Int.{ℤ, pos, ◌-ℤ◌, ◌+ℤ◌, ◌≤ℤ◌, -ℤ_parts, +ℤ_parts}
use alpha_mint_x.Numbers.{Numbers}
use alpha_mint_x.Gate.{second}
use alpha_mint_x.MarketData.Ticks.{
  Tick, TickStore, set_tick, put, tick_of, mark, future_skew_tolerance, is_out_of_window,
}

module _ (n : Numbers) where
  tick_of-set_tick :
      (k : String) (t : Tick n) (ts : List (Tick n))
      → tick_of n k (set_tick n t ts) ≡ (if t.symbol =ₛ k then some t else tick_of n k ts)
  unfolding tick_of set_tick
  tick_of-set_tick k t [] = refl
  tick_of-set_tick k t (u ∷ us) = ground (
    arith,
    eq_iff u.symbol t.symbol,
    eq_iff u.symbol k,
    eq_iff t.symbol k,
    tick_of-set_tick k t us,
  )

  -- The ticks of a feed, in the order in which they arrive.
  abbrev pub put_all : List (Tick n) → TickStore n → TickStore n
  put_all [] s = s
  put_all (t ∷ ts) s = put_all ts (put n t s)

  -- The last tick of a symbol.
  abbrev pub last_tick : String → List (Tick n) → Option (Tick n) → Option (Tick n)
  last_tick k [] o = o
  last_tick k (t ∷ ts) o = last_tick k ts (if t.symbol =ₛ k then some t else o)

  tick_of-put_all :
      (k : String) (ts : List (Tick n)) (s : TickStore n)
      → tick_of n k (put_all ts s).ticks ≡ last_tick k ts (tick_of n k s.ticks)
  unfolding put
  tick_of-put_all k [] s = refl
  tick_of-put_all k (t ∷ ts) s =
      tick_of-put_all k ts (put n t s) ∙ ap (last_tick k ts) (tick_of-set_tick k t s.ticks)

  max_age-put_all : (ts : List (Tick n)) (s : TickStore n) → (put_all ts s).max_age ≡ s.max_age
  unfolding put
  max_age-put_all [] s = refl
  max_age-put_all (t ∷ ts) s = max_age-put_all ts (put n t s)

  in_window_iff :
      (max_age now ts : ℤ)
      → (is_out_of_window n max_age (now -ℤ ts) ≡ false)
        ↔ ((ts ≤ℤ (now +ℤ future_skew_tolerance)) × ((now -ℤ ts) ≤ℤ max_age))
  in_window_iff max_age now ts = ground (
    arith,
    -ℤ_parts now ts,
    +ℤ_parts now future_skew_tolerance,
    -ℤ_parts (pos 0) future_skew_tolerance,
  )

  mark_lem :
      (k : String) (now : ℤ) (s : TickStore n) (t : Tick n)
      → tick_of n k s.ticks ≡ some t
      → mark n k now s ≡ (
          if is_out_of_window n s.max_age (now -ℤ t.ts)
          then (n.zero_amount, (some t.ts, false))
          else (t.mark, (some t.ts, true)))
  unfolding mark
  mark_lem k now s t h = ground arith

  mark_none :
      (k : String) (now : ℤ) (s : TickStore n)
      → tick_of n k s.ticks ≡ none
      → mark n k now s ≡ (n.zero_amount, (none, false))
  unfolding mark
  mark_none k now s h = ground arith

  -- What a mark is, by the last tick of its symbol, the maximal age and the present instant.
  abbrev pub MarkRule : Option (Tick n) → ℤ → ℤ → n.Amount × (Option ℤ × Bool) → Type 0
  MarkRule none max_age now (price, (at, usable)) =
      (usable ≡ false) × (at ≡ none) × (price ≡ n.zero_amount)
  MarkRule (some t) max_age now (price, (at, usable)) =
      ((usable ≡ true) ↔ ((t.ts ≤ℤ (now +ℤ pos (5 * second))) × ((now -ℤ t.ts) ≤ℤ max_age)))
      × (at ≡ some t.ts)
      × (price ≡ (if usable then t.mark else n.zero_amount))

  -- After a feed, a mark is usable just if its symbol has a tick and the last one is at most 5
  -- seconds in the future and at most the maximal age old; then it is the price of that tick, and
  -- otherwise no price leaves the store. The instant is that of the last tick, if there is one.
  pub mark_usable_iff :
      (k : String) (now : ℤ) (ts : List (Tick n)) (s : TickStore n)
      → MarkRule (last_tick k ts (tick_of n k s.ticks)) s.max_age now (mark n k now (put_all ts s))
  mark_usable_iff k now ts s = elim (Option-cases (last_tick k ts (tick_of n k s.ticks))) [
    | inl h ↦ ground (arith, mark_none k now (put_all ts s) (tick_of-put_all k ts s ∙ h))
    | inr (t, h) ↦ ground (
      arith,
      mark_lem k now (put_all ts s) t (tick_of-put_all k ts s ∙ h),
      max_age-put_all ts s,
      in_window_iff s.max_age now t.ts,
    )
  ]
