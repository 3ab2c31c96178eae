-- ===== src/Tests/Paper.antt =====
-- The paper OMS on concrete orders and books (control-plane/internal/oms/paper).
use alpha_mint_x.Base.{
  ℕ, zero, suc, ◌≡◌, refl, Bool, true, false, List, [], ◌∷◌, String, Ordering, ok, err, ◌⊎◌,
  if◌then◌else◌,
}
use alpha_mint_x.Base.Int.{ℤ, pos, ◌+ℤ◌, ◌-ℤ◌}
use alpha_mint_x.Numbers.{greater_than}
use alpha_mint_x.Numbers.Whole.{whole, whole-Laws}
use alpha_mint_x.Paper.{
  OmsError, Side, Kind, Class, Status, Order, Position, Oms, FillModel, EntryRequest,
  qty_for_notional, fill_position, side_sign, open_position, find_position, fill_protective,
  Outcome, protect, slipped_price, book_fill, put_order, apply_fill, set_position,
  cancel_open_protectives, fee_quote,
}
use alpha_mint_x.Paper.Reduce.{Shrinks, qty_at, fill_protective-Shrinks}
use alpha_mint_x.Paper.Sizing.{qty_for_notional_bounded, round_trip}
use alpha_mint_x.Paper.Operations.{Operation, perform_all, new, fills_priced}
use alpha_mint_x.Paper.Orderly.{AllPriced}
use alpha_mint_x.Paper.Guarded.{IsGuarded, protect-IsGuarded}

-- Identifiers of growing length, so that no two are the same.
abbrev name : ℕ → String
name zero = "o"
name (suc k) = "n"

abbrev accepts : Order whole → Bool
accepts o = true

abbrev declines : Order whole → Bool
declines o = false

abbrev model : FillModel whole
model = record { slippage_bps = pos 0; taker_bps = pos 0; maker_bps = pos 0 }

-- A stop to sell 7, against a position of 5 bought at 100.
abbrev stop : Order whole
stop = record {
  id = "s";
  strategy_id = "alpha";
  symbol = "BTC/USDT";
  order_class = Class.protective;
  side = Side.sell;
  kind = Kind.stop;
  reduce_only = true;
  qty_base = pos 7;
  limit_price = pos 0;
  stop_price = pos 95;
  take_profit = pos 0;
  fill_price = pos 0;
  fee_quote = pos 0;
  status = Status.open_status;
  kill_epoch = pos 1;
}

abbrev entry : Order whole
entry = record stop {
  id = "e";
  order_class = Class.entry;
  side = Side.buy;
  kind = Kind.limit;
  reduce_only = false;
  limit_price = pos 90;
  stop_price = pos 80;
}

abbrev held : Position whole
held = record {
  symbol = "BTC/USDT";
  qty_base = pos 5;
  entry_price = pos 100;
  fees_quote = pos 1;
  realized_pnl_quote = pos 3;
}

abbrev flat : Position whole
flat = record held { qty_base = pos 0; entry_price = pos 0 }

abbrev book : Oms whole
book = record {
  kill_epochs = ("alpha", pos 1) ∷ [];
  fill = model;
  orders = stop ∷ entry ∷ [];
  positions = record { strategy_id = "alpha"; position = held } ∷ [];
  next = 0;
}

-- After the stop has been filled at 94 for the whole position.
abbrev stopped : Order whole
stopped = record stop {
  qty_base = pos 5;
  fill_price = pos 94;
  fee_quote = pos 0;
  status = Status.filled;
}

abbrev after_stop : Oms whole
after_stop = record book {
  orders = stopped ∷ entry ∷ [];
  positions =
      record {
        strategy_id = "alpha";
        position = record held {
          qty_base = pos 0;
          entry_price = pos 0;
          realized_pnl_quote = pos 0 -ℤ pos 27;
        };
      }
      ∷ [];
}

stop_filled :
    fill_protective whole name accepts stop (pos 94) (pos 0) book
    ≡ (after_stop, Outcome.filled stopped)
unfolding fill_protective open_position find_position book_fill put_order apply_fill set_position
    fill_position fee_quote cancel_open_protectives ◌+ℤ◌ ◌-ℤ◌
stop_filled = refl

fill_protective-Shrinks_example : Shrinks whole whole-Laws Ordering.gt (pos 5) (
    qty_at whole whole-Laws name accepts
      (find_position whole "alpha" "BTC/USDT" after_stop.positions))
unfolding open_position find_position
fill_protective-Shrinks_example =
    fill_protective-Shrinks whole whole-Laws name accepts stop (pos 94) (pos 0) book held refl refl
      stop_filled

-- 100 at a price of 7.
qty_for_notional_bounded_example :
    (q : ℤ) × (greater_than whole (whole.mul q (pos 7)) (pos 100) ≡ false)
    × ((q ≡ pos 14) ⊎ ((q ≡ pos 14 -ℤ pos 1) × (greater_than whole (pos 98) (pos 100) ≡ true)))
    × (qty_for_notional whole (pos 100) (pos 7)
        ≡ (if greater_than whole q (pos 0) then ok q else err OmsError.qty_rounds_to_zero))
unfolding ◌-ℤ◌
qty_for_notional_bounded_example = qty_for_notional_bounded whole (pos 100) (pos 7) refl

round_trip_example :
    let r =
      fill_position whole Side.buy
        (pos 4)
        (pos 90)
        (pos 2)
        (fill_position whole Side.sell (pos 4) (pos 100) (pos 1) flat) in
    (r.qty_base ≡ pos 0)
    × (r.entry_price ≡ pos 0)
    × (r.fees_quote ≡ (pos 0 +ℤ pos 1) +ℤ pos 2)
    × (r.realized_pnl_quote
        ≡ ((pos 3 -ℤ pos 1)
            +ℤ whole.mul
                (whole.mul (pos 90 -ℤ whole.div (whole.mul (pos 100) (pos 4)) (pos 4)) (pos 4))
                (side_sign whole Side.sell))
          -ℤ pos 2)
round_trip_example =
    round_trip whole whole-Laws Side.sell (pos 4) (pos 100) (pos 1) (pos 90) (pos 2) flat refl refl
      refl

abbrev request : EntryRequest whole name accepts
request = record {
  strategy_id = "alpha";
  symbol = "BTC/USDT";
  side = Side.buy;
  kind = Kind.limit;
  limit_price = pos 90;
  size_quote = pos 1000;
  mark_price = pos 101;
  stop_price = pos 80;
  take_profit = pos 0;
  kill_epoch = pos 1;
}

abbrev day : List (Operation whole name accepts)
day =
    Operation.submit request
    ∷ Operation.tick (("BTC/USDT", pos 89) ∷ [])
    ∷ Operation.tick (("BTC/USDT", pos 79) ∷ [])
    ∷ []

fills_priced_example :
    AllPriced whole name accepts
      (perform_all whole name accepts day (new whole name accepts model)).orders
fills_priced_example = fills_priced whole name accepts model day

protect-IsGuarded_example :
    let (s, r) = protect whole name declines entry (pos 80) (pos 0) (pos 93) book in
    IsGuarded whole whole-Laws name declines r.error entry (pos 80) "o" s
unfolding slipped_price ◌+ℤ◌ ◌-ℤ◌
protect-IsGuarded_example =
    protect-IsGuarded whole whole-Laws name declines entry (pos 80) (pos 0) (pos 93) book refl refl
      refl refl refl
