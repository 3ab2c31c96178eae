-- ===== src/Paper/Orders.antt =====
-- control-plane/internal/oms/paper/orders.go: the submission of an entry and the fill of a resting
-- limit entry.
use alpha_mint_x.Base.{
  ℕ, ◌+◌, Bool, false, ◌&&◌, String, Option, none, some, if◌then◌else◌, Result, ok, err,
}
use alpha_mint_x.Base.Int.{ℤ, ltb_ℤ}
use alpha_mint_x.Numbers.{Numbers, sign, is_gt}
use alpha_mint_x.Paper.Types.{
  Class, Side, Status, Kind, OmsError, is_entry, is_open_status, kind_eq, Order, Oms, put,
  find_order, epoch_of,
}
use alpha_mint_x.Paper.Fills.{slipped_price, fee_quote, qty_for_notional, limit_crossed}
use alpha_mint_x.Paper.Booking.{Reply, refused, book_fill, place_protectives, flatten}

module _ (n : Numbers) (new_id : ℕ → String) (place : Order n → Bool) where
  open n use {Amount, zero_amount}

  pub record EntryRequest : Type 0 where
    pub strategy_id : String
    pub symbol : String
    pub side : Side
    pub kind : Kind
    pub limit_price : Amount
    pub size_quote : Amount
    pub mark_price : Amount
    pub stop_price : Amount
    pub take_profit : Amount
    pub kill_epoch : ℤ

  -- The order of a submission, once its quantity is known. A market entry carries no prices: its
  -- protectives are placed at once from the request.
  abbrev pub entry_order : String → EntryRequest → Amount → Amount → Amount → Amount → Order n
  entry_order id req qty limit_price stop_price take_profit = record {
    id = id;
    strategy_id = req.strategy_id;
    symbol = req.symbol;
    order_class = Class.entry;
    side = req.side;
    kind = req.kind;
    reduce_only = false;
    qty_base = qty;
    limit_price = limit_price;
    stop_price = stop_price;
    take_profit = take_profit;
    fill_price = zero_amount;
    fee_quote = zero_amount;
    status = Status.open_status;
    kill_epoch = req.kill_epoch;
  }

  -- After a fill: the protectives, or, where one cannot be placed, the flatten of the position.
  -- The error of that flatten is dropped, as in the source.
  unfoldable pub protect : Order n → Amount → Amount → Amount → Oms n → Oms n × Reply n new_id place
  protect o stop target mark s =
      let (s', placed) = place_protectives n new_id place o stop target s in
      if placed then (s', record { order = some o; error = none }) else (
        (flatten n new_id place o.strategy_id o.symbol mark s').0,
        record { order = some o; error = some OmsError.placement_failed },
      )

  abbrev pub protect_limit :
      Result OmsError (Order n × Oms n) → Amount → Oms n → Oms n × Reply n new_id place
  protect_limit (err e) mark s = (s, refused n new_id place e)
  protect_limit (ok (o, s')) mark s = protect o o.stop_price o.take_profit mark s'

  -- `fillLimitEntryLocked`.
  unfoldable pub fill_limit_entry_at :
      Order n → Amount → Amount → Oms n → Oms n × Reply n new_id place
  unfolding protect
  fill_limit_entry_at o mark bps s =
      protect_limit
        (book_fill n new_id place o o.limit_price (fee_quote n o.qty_base o.limit_price bps) s) mark
        s

  abbrev pub limit_with_qty :
      Result OmsError Amount → EntryRequest → Oms n → Oms n × Reply n new_id place
  limit_with_qty (err e) req s = (s, refused n new_id place e)
  limit_with_qty (ok qty) req s =
      let o = entry_order (new_id s.next) req qty req.limit_price req.stop_price req.take_profit in
      let s' = put n o (record s { next = s.next + 1 }) in
      if is_gt (sign n req.mark_price) && limit_crossed n req.side req.mark_price req.limit_price
      then fill_limit_entry_at o req.mark_price s.fill.taker_bps s'
      else (s', record { order = some o; error = none })

  -- The case "limit" of `SubmitEntry`.
  unfoldable pub submit_limit : EntryRequest → Oms n → Oms n × Reply n new_id place
  unfolding fill_limit_entry_at
  submit_limit req s =
      if is_gt (sign n req.limit_price)
      then limit_with_qty (qty_for_notional n req.size_quote req.limit_price) req s
      else (s, refused n new_id place OmsError.non_positive_limit_price)

  abbrev pub protect_market :
      Order n
      → Result OmsError (Order n × Oms n)
      → EntryRequest
      → Oms n
      → Oms n × Reply n new_id place
  protect_market o (err e) req s =
      (put n (record o { status = Status.canceled }) s, refused n new_id place e)
  protect_market o (ok (filled, s')) req s =
      protect filled req.stop_price req.take_profit req.mark_price s'

  abbrev pub market_with_qty :
      Amount → Result OmsError Amount → EntryRequest → Oms n → Oms n × Reply n new_id place
  market_with_qty price (err e) req s = (s, refused n new_id place e)
  market_with_qty price (ok qty) req s =
      let o = entry_order (new_id s.next) req qty zero_amount zero_amount zero_amount in
      let s' = put n o (record s { next = s.next + 1 }) in
      protect_market o
        (book_fill n new_id place o price (fee_quote n qty price s.fill.taker_bps) s') req s'

  -- The case "market" of `SubmitEntry`.
  unfoldable pub submit_market : EntryRequest → Oms n → Oms n × Reply n new_id place
  unfolding protect
  submit_market req s =
      let price = slipped_price n s.fill req.side req.mark_price in
      if is_gt (sign n req.mark_price)
      then market_with_qty price (qty_for_notional n req.size_quote price) req s
      else (s, refused n new_id place OmsError.non_positive_mark_price)

  abbrev pub submit_kind : Kind → EntryRequest → Oms n → Oms n × Reply n new_id place
  submit_kind Kind.limit req s = submit_limit req s
  submit_kind Kind.market req s = submit_market req s
  submit_kind kind req s = (s, refused n new_id place OmsError.unknown_entry_type)

  -- `SubmitEntry`.
  unfoldable pub submit_entry : EntryRequest → Oms n → Oms n × Reply n new_id place
  unfolding submit_limit submit_market
  submit_entry req s =
      if ltb_ℤ req.kill_epoch (epoch_of n req.strategy_id s.kill_epochs)
      then (s, refused n new_id place OmsError.kill_epoch_stale)
      else if is_gt (sign n req.size_quote)
      then submit_kind req.kind req s
      else (s, refused n new_id place OmsError.non_positive_size)

  abbrev fillable : Order n → Bool
  fillable o = is_entry o.order_class && kind_eq o.kind Kind.limit && is_open_status o.status

  abbrev pub fill_found : Option (Order n) → Oms n → Oms n × Reply n new_id place
  fill_found none s = (s, refused n new_id place OmsError.no_open_limit_entry)
  fill_found (some o) s =
      if fillable o
      then fill_limit_entry_at o o.limit_price s.fill.maker_bps s
      else (s, refused n new_id place OmsError.no_open_limit_entry)

  -- `FillLimitEntry`.
  unfoldable pub fill_limit_entry : String → Oms n → Oms n × Reply n new_id place
  unfolding fill_limit_entry_at
  fill_limit_entry id s = fill_found (find_order n id s.orders) s
