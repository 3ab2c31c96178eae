-- ===== src/MarketData/Ticks.antt =====
-- control-plane/internal/marketdata/store.go: the cache of the last tick of each symbol. An instant
-- is a number of nanoseconds.
use alpha_mint_x.Base.{
  String, Bool, true, false, ◌||◌, Option, none, some, List, [], ◌∷◌, ◌*◌, ◌=ₛ◌, if◌then◌else◌,
}
use alpha_mint_x.Base.Int.{ℤ, pos, ltb_ℤ, leb_ℤ, ◌-ℤ◌}
use alpha_mint_x.Numbers.{Numbers}
use alpha_mint_x.Gate.{second}

-- `futureSkewTolerance`, and its negative.
abbrev pub future_skew_tolerance : ℤ
future_skew_tolerance = pos (5 * second)

abbrev pub negated_tolerance : ℤ
negated_tolerance = pos 0 -ℤ future_skew_tolerance

module _ (n : Numbers) where
  open n use {Amount, zero_amount}

  pub record Tick : Type 0 where
    pub symbol : String
    pub mark : Amount
    pub ts : ℤ

  pub record TickStore : Type 0 where
    pub max_age : ℤ
    pub ticks : List Tick

  -- `NewStore`.
  unfoldable pub new_store : ℤ → Option TickStore
  new_store max_age =
      if leb_ℤ max_age (pos 0) then none else some (record { max_age = max_age; ticks = [] })

  unfoldable pub set_tick : Tick → List Tick → List Tick
  set_tick t [] = t ∷ []
  set_tick t (u ∷ us) =
      let rest = set_tick t us in if u.symbol =ₛ t.symbol then t ∷ us else u ∷ rest

  -- `Put`.
  unfoldable pub put : Tick → TickStore → TickStore
  put t s = record s { ticks = set_tick t s.ticks }

  unfoldable pub tick_of : String → List Tick → Option Tick
  tick_of symbol [] = none
  tick_of symbol (t ∷ ts) = if t.symbol =ₛ symbol then some t else tick_of symbol ts

  abbrev pub is_out_of_window : ℤ → ℤ → Bool
  is_out_of_window max_age age = ltb_ℤ age negated_tolerance || ltb_ℤ max_age age

  -- `Mark`: the price, the instant of the tick if there is one, and whether it is usable.
  unfoldable pub mark : String → ℤ → TickStore → Amount × (Option ℤ × Bool)
  mark symbol now s = elim (tick_of symbol s.ticks) [
    | none ↦ (zero_amount, (none, false))
    | some t ↦
        if is_out_of_window s.max_age (now -ℤ t.ts)
        then (zero_amount, (some t.ts, false))
        else (t.mark, (some t.ts, true))
  ]
