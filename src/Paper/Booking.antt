-- ===== src/Paper/Booking.antt =====
-- control-plane/internal/oms/paper/orders.go: booking a fill, placing the protectives, the flatten,
-- and the cancel sweeps. `place` is the seam `placeProtective`: false is an error of the placement.
use alpha_mint_x.Base.{
  ℕ, Bool, true, false, ◌&&◌, not, String, Option, none, some, List, [], ◌∷◌, ◌=ₛ◌, if◌then◌else◌,
  Result, ok, err, ◌+◌,
}
use alpha_mint_x.Base.Int.{ℤ, pos, ltb_ℤ}
use alpha_mint_x.Numbers.{Numbers, sign, is_gt}
use alpha_mint_x.Paper.Types.{
  Class, Status, Kind, OmsError, is_entry, is_open_status, Order, Position, Oms, put, open_position,
  epoch_of, set_epoch,
}
use alpha_mint_x.Paper.Fills.{side_sign, close_side, slipped_price, fee_quote, apply_fill}

module _ (n : Numbers) (new_id : ℕ → String) (place : Order n → Bool) where
  open n use {Amount, zero_amount, abs}

  -- What a call returns besides the state: an order, if one is returned, and an error, if any.
  pub record Reply : Type 0 where
    pub order : Option (Order n)
    pub error : Option OmsError

  abbrev pub refused : OmsError → Reply
  refused e = record { order = none; error = some e }

  abbrev pub filled_order : Order n → Amount → Amount → Order n
  filled_order o price fee = record o {
    fill_price = price;
    fee_quote = fee;
    status = Status.filled;
  }

  -- `bookFillLocked`: the single path by which a fill is booked. The order comes back as it is left
  -- behind its pointer.
  unfoldable pub book_fill : Order n → Amount → Amount → Oms n → Result OmsError (Order n × Oms n)
  book_fill o price fee s =
      if is_gt (sign n price)
      then ok (
        filled_order o price fee,
        put n (filled_order o price fee)
            (apply_fill n o.strategy_id o.symbol o.side o.qty_base price fee s),
      )
      else err OmsError.non_positive_fill_price

  -- A protective of the two kinds that `placeProtectivesLocked` places.
  abbrev pub protective_for : String → Order n → Kind → Amount → Amount → Order n
  protective_for id entry kind limit_price stop_price = record {
    id = id;
    strategy_id = entry.strategy_id;
    symbol = entry.symbol;
    order_class = Class.protective;
    side = close_side n (side_sign n entry.side);
    kind = kind;
    reduce_only = true;
    qty_base = entry.qty_base;
    limit_price = limit_price;
    stop_price = stop_price;
    take_profit = zero_amount;
    fill_price = zero_amount;
    fee_quote = zero_amount;
    status = Status.open_status;
    kill_epoch = entry.kill_epoch;
  }

  abbrev pub place_one : Order n → Oms n → Oms n × Bool
  place_one o s =
      if place o
      then (put n o (record s { next = s.next + 1 }), true)
      else (record s { next = s.next + 1 }, false)

  abbrev pub place_stop : Order n → Amount → Oms n → Oms n × Bool
  place_stop entry price s =
      if is_gt (sign n price)
      then place_one (protective_for (new_id s.next) entry Kind.stop zero_amount price) s
      else (s, true)

  abbrev pub place_target : Order n → Amount → Oms n → Oms n × Bool
  place_target entry price s =
      if is_gt (sign n price)
      then place_one (protective_for (new_id s.next) entry Kind.take_profit price zero_amount) s
      else (s, true)

  -- `placeProtectivesLocked`: the stop, and if that is placed, the take-profit.
  unfoldable pub place_protectives : Order n → Amount → Amount → Oms n → Oms n × Bool
  place_protectives entry stop target s =
      let (s', placed) = place_stop entry stop s in
      if placed then place_target entry target s' else (s', false)

  -- The sweep of `cancelOpenProtectivesLocked`.
  abbrev pub cancels_protective : String → String → Order n → Bool
  cancels_protective s sym o =
      o.strategy_id =ₛ s
      && o.symbol =ₛ sym
      && not (is_entry o.order_class)
      && is_open_status o.status

  abbrev pub cancels_entry : String → Order n → Bool
  cancels_entry s o = o.strategy_id =ₛ s && is_entry o.order_class && is_open_status o.status

  abbrev pub cancel_if : (Order n → Bool) → Order n → Order n
  cancel_if test o = if test o then record o { status = Status.canceled } else o

  unfoldable pub sweep : (Order n → Bool) → List (Order n) → List (Order n)
  sweep test [] = []
  sweep test (o ∷ l) = cancel_if test o ∷ sweep test l

  unfoldable pub cancel_open_protectives : String → String → Oms n → Oms n
  unfolding sweep
  cancel_open_protectives s sym o = record o { orders = sweep (cancels_protective s sym) o.orders }

  -- `CancelOpenEntries`.
  unfoldable pub cancel_open_entries : String → Oms n → Oms n
  unfolding sweep
  cancel_open_entries s o = record o { orders = sweep (cancels_entry s) o.orders }

  abbrev pub raised : String → ℤ → Oms n → Oms n
  raised s e o =
      if ltb_ℤ (epoch_of n s o.kill_epochs) e
      then record o { kill_epochs = set_epoch n s e o.kill_epochs }
      else o

  -- `Kill`, and `RestoreKillEpoch`, which leaves the orders alone.
  unfoldable pub kill : String → ℤ → Oms n → Oms n
  unfolding cancel_open_entries
  kill s e o = cancel_open_entries s (raised s e o)

  unfoldable pub restore_kill_epoch : String → ℤ → Oms n → Oms n
  restore_kill_epoch s e o = raised s e o

  -- The order that a flatten sends.
  abbrev pub flatten_order : String → String → String → Position n → Order n
  flatten_order id s sym p = record {
    id = id;
    strategy_id = s;
    symbol = sym;
    order_class = Class.protective;
    side = close_side n p.qty_base;
    kind = Kind.market;
    reduce_only = true;
    qty_base = abs p.qty_base;
    limit_price = zero_amount;
    stop_price = zero_amount;
    take_profit = zero_amount;
    fill_price = zero_amount;
    fee_quote = zero_amount;
    status = Status.open_status;
    kill_epoch = pos 0;
  }

  abbrev after_flatten : Order n → Result OmsError (Order n × Oms n) → Oms n → Oms n × Reply
  after_flatten sent (err e) s = (s, record { order = some sent; error = some e })
  after_flatten sent (ok (o, s')) s =
      (cancel_open_protectives o.strategy_id o.symbol s', record { order = some o; error = none })

  -- The flatten of a position: queued, with no fill, where there is no usable mark.
  unfoldable pub flatten_position : Order n → Amount → Oms n → Oms n × Reply
  unfolding book_fill cancel_open_protectives
  flatten_position sent mark s =
      let price = slipped_price n s.fill sent.side mark in
      if is_gt (sign n mark)
      then after_flatten sent
          (book_fill sent price (fee_quote n sent.qty_base price s.fill.taker_bps) s) s
      else (s, record { order = some sent; error = none })

  abbrev pub flatten_found : Option (Position n) → String → String → Amount → Oms n → Oms n × Reply
  flatten_found none s sym mark o = (o, refused OmsError.no_open_position)
  flatten_found (some p) s sym mark o =
      let sent = flatten_order (new_id o.next) s sym p in
      flatten_position sent mark (put n sent (record o { next = o.next + 1 }))

  -- `Flatten` and `flattenLocked`.
  unfoldable pub flatten : String → String → Amount → Oms n → Oms n × Reply
  unfolding flatten_position
  flatten s sym mark o = flatten_found (open_position n s sym o) s sym mark o
