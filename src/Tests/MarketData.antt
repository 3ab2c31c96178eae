-- ===== src/Tests/MarketData.antt =====
-- Symbols and marks at concrete inputs (control-plane/internal/marketdata).
use alpha_mint_x.Base.{ℕ, ◌≡◌, refl, false, ◌*◌, some, List, [], ◌∷◌}
use alpha_mint_x.Base.Int.{pos}
use alpha_mint_x.Numbers.Whole.{whole}
use alpha_mint_x.Gate.{second}
use alpha_mint_x.MarketData.{
  to_upper, to_binance, from_binance, has_slash, before_suffix, split_by, Tick, TickStore, mark,
}
use alpha_mint_x.MarketData.RoundTrip.{to_binance-from_binance}
use alpha_mint_x.MarketData.Window.{MarkRule, put_all, mark_usable_iff}

-- btcusdt, and BTC/USDT.
abbrev venue : List ℕ
venue = 98 ∷ 116 ∷ 99 ∷ 117 ∷ 115 ∷ 100 ∷ 116 ∷ []

abbrev canonical : List ℕ
canonical = 66 ∷ 84 ∷ 67 ∷ 47 ∷ 85 ∷ 83 ∷ 68 ∷ 84 ∷ []

venue_split : from_binance venue ≡ some canonical
unfolding from_binance split_by before_suffix to_upper
venue_split = refl

venue_slash : has_slash venue ≡ false
unfolding has_slash
venue_slash = refl

to_binance-from_binance_example : to_binance canonical ≡ some (to_upper venue)
to_binance-from_binance_example = to_binance-from_binance venue canonical venue_slash venue_split

abbrev store : TickStore whole
store = record { max_age = pos (30 * second); ticks = [] }

abbrev tick : Tick whole
tick = record { symbol = "BTC/USDT"; mark = pos 100; ts = pos (7 * second) }

mark_usable_iff_example :
    MarkRule whole
      (some tick)
      (pos (30 * second))
      (pos (9 * second))
      (mark whole "BTC/USDT" (pos (9 * second)) (put_all whole (tick ∷ []) store))
mark_usable_iff_example = mark_usable_iff whole "BTC/USDT" (pos (9 * second)) (tick ∷ []) store
