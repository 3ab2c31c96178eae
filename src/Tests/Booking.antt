-- ===== src/Tests/Booking.antt =====
-- The booking of a venue's fill at a concrete journal (control-plane/internal/store/liveoms.go).
use alpha_mint_x.Base.{
  ℕ, suc, ◌≡◌, refl, true, false, not, none, some, [], ◌∷◌, Result, ok, if◌then◌else◌,
}
use alpha_mint_x.Base.Int.{pos, ◌+ℤ◌}
use alpha_mint_x.Numbers.Whole.{whole}
use alpha_mint_x.Store.{exists_row}
use alpha_mint_x.Live.{
  OrderStatus, LiveOrder, VenueFill, Journal, update_order, find_order, record_order_status,
  FillError, same_trade, insert_fill, fill_sums, fill_vwap, book_fill, record_venue_fill,
}
use alpha_mint_x.Live.Booked.{HasTrades, trade_booked_once}
use alpha_mint_x.Tests.Store.{at}

abbrev pub order : LiveOrder
order = record {
  order_id = "o1";
  proposal_id = none;
  origin = "proposal";
  strategy_id = "alpha";
  symbol = "BTC/USDT";
  class = "ENTRY";
  side = "buy";
  typ = "market";
  reduce_only = false;
  qty_base = "1";
  limit_price = none;
  stop_price = none;
  take_profit = none;
  fill_price = none;
  kill_epoch = 0;
  status = OrderStatus.open_status;
  submitted_at = at;
  filled_at = none;
  client_order_id = some "amx1-t-0";
  exchange_order_id = some "77";
}

abbrev fill : VenueFill
fill = record {
  fill_id = "f1";
  order_id = "o1";
  qty_base = "1";
  fill_price = "1";
  fee_quote = "0";
  fill_ts = at;
  venue_symbol = "BTCUSDT";
  exchange_trade_id = 5;
  venue_epoch = 0;
}

abbrev before : Journal
before = record { orders = order ∷ []; intents = []; recon = []; fills = []; rejections = [] }

abbrev after : Journal
after = record before {
  orders =
      record order {
        fill_price = some (whole.text (pos 1));
        filled_at = some at;
        status = OrderStatus.filled;
      }
      ∷ [];
  fills = fill ∷ [];
}

-- The accounting counts the fills that it is given.
abbrev count : ℕ → Result FillError ℕ
count b = ok (suc b)

before-HasTrades : HasTrades before.fills
unfolding HasTrades
before-HasTrades = tt

fill_recorded :
    record_venue_fill whole fill OrderStatus.filled count before 0 ≡ ok (true, (after, 1))
unfolding record_venue_fill book_fill insert_fill find_order fill_vwap fill_sums update_order
    record_order_status ◌+ℤ◌
fill_recorded = refl

trade_booked_once_example :
    HasTrades after.fills
    × (true ≡ not (exists_row (same_trade fill) before.fills))
    × ((if true then count 0 else ok 0) ≡ ok 1)
    × ((g : VenueFill) (s2 : OrderStatus) (book2 : ℕ → Result FillError ℕ)
        → same_trade g fill ≡ true
        → record_venue_fill whole g s2 book2 after 1 ≡ ok (false, (after, 1)))
trade_booked_once_example =
    trade_booked_once whole fill OrderStatus.filled count before 0 true after 1 before-HasTrades
      fill_recorded
