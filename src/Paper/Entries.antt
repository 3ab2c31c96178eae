-- ===== src/Paper/Entries.antt =====
-- Entries book no fill at a price that is not positive.
use alpha_mint_x.Base.{ℕ, refl, Bool, String, Option, none, some, arith, Result, ok, err, ◌+◌}
use alpha_mint_x.Numbers.{Numbers}
use alpha_mint_x.Paper.Types.{Kind, OmsError, Order, Oms, find_order, put}
use alpha_mint_x.Paper.Fills.{fee_quote, slipped_price, qty_for_notional}
use alpha_mint_x.Paper.Booking.{place_protectives}
use alpha_mint_x.Paper.Orders.{
  EntryRequest, entry_order, protect, protect_limit, fill_limit_entry_at, limit_with_qty,
  submit_limit, protect_market, market_with_qty, submit_market, submit_kind, submit_entry,
  fill_found, fill_limit_entry,
}
use alpha_mint_x.Paper.Orderly.{
  AllPriced, FillPriced, put-AllPriced, book_fill-priced, place_protectives-priced, flatten-priced,
}

module _ (n : Numbers) (new_id : ℕ → String) (place : Order n → Bool) where
  open n use {Amount, zero_amount}

  pub protect-priced :
      (o : Order n) (stop target mark : Amount) (s : Oms n)
      → AllPriced n new_id place s.orders
      → AllPriced n new_id place (protect n new_id place o stop target mark s).0.orders
  unfolding protect
  protect-priced o stop target mark s a = ground (
    arith,
    place_protectives-priced n new_id place o stop target s,
    flatten-priced n new_id place o.strategy_id o.symbol mark
        (place_protectives n new_id place o stop target s).0,
  )

  protect_limit-priced :
      (r : Result OmsError (Order n × Oms n)) (mark : Amount) (s : Oms n)
      → FillPriced n new_id place r
      → AllPriced n new_id place s.orders
      → AllPriced n new_id place (protect_limit n new_id place r mark s).0.orders
  protect_limit-priced (err e) mark s f a = a
  protect_limit-priced (ok (o, s')) mark s f a =
      protect-priced o o.stop_price o.take_profit mark s' f

  pub fill_limit_entry_at-priced :
      (o : Order n) (mark bps : Amount) (s : Oms n)
      → AllPriced n new_id place s.orders
      → AllPriced n new_id place (fill_limit_entry_at n new_id place o mark bps s).0.orders
  unfolding fill_limit_entry_at
  fill_limit_entry_at-priced o mark bps s a =
      protect_limit-priced _ mark s
        (book_fill-priced n new_id place o o.limit_price (fee_quote n o.qty_base o.limit_price bps)
          s a)
        a

  pub fill_limit_entry-priced :
      (id : String) (s : Oms n)
      → AllPriced n new_id place s.orders
      → AllPriced n new_id place (fill_limit_entry n new_id place id s).0.orders
  unfolding fill_limit_entry
  fill_limit_entry-priced id s a = go (find_order n id s.orders)
    where
      go :
          (o : Option (Order n)) → AllPriced n new_id place (fill_found n new_id place o s).0.orders
      go none = a
      go (some o) = ground (arith, fill_limit_entry_at-priced o o.limit_price s.fill.maker_bps s a)

  limit-priced :
      (q : Result OmsError Amount) (req : EntryRequest n new_id place) (s : Oms n)
      → AllPriced n new_id place s.orders
      → AllPriced n new_id place (limit_with_qty n new_id place q req s).0.orders
  limit-priced (err e) req s a = a
  limit-priced (ok qty) req s a =
      let o =
        entry_order n new_id place (new_id s.next) req qty req.limit_price req.stop_price
          req.take_profit in
      let p = put-AllPriced n new_id place o s.orders refl a in
      ground (
        arith,
        fill_limit_entry_at-priced o req.mark_price s.fill.taker_bps
            (put n o (record s { next = s.next + 1 })) p,
      )

  protect_market-priced :
      (o : Order n) (r : Result OmsError (Order n × Oms n)) (req : EntryRequest n new_id place)
      (s : Oms n)
      → FillPriced n new_id place r
      → AllPriced n new_id place s.orders
      → AllPriced n new_id place (protect_market n new_id place o r req s).0.orders
  protect_market-priced o (err e) req s f a = put-AllPriced n new_id place _ s.orders refl a
  protect_market-priced o (ok (o', s')) req s f a =
      protect-priced o' req.stop_price req.take_profit req.mark_price s' f

  market-priced :
      (price : Amount) (q : Result OmsError Amount) (req : EntryRequest n new_id place) (s : Oms n)
      → AllPriced n new_id place s.orders
      → AllPriced n new_id place (market_with_qty n new_id place price q req s).0.orders
  market-priced price (err e) req s a = a
  market-priced price (ok qty) req s a =
      let o =
        entry_order n new_id place (new_id s.next) req qty zero_amount zero_amount zero_amount in
      let p = put-AllPriced n new_id place o s.orders refl a in
      protect_market-priced o _ req _ (book_fill-priced n new_id place o price _ _ p) p

  submit_kind-priced :
      (k : Kind) (req : EntryRequest n new_id place) (s : Oms n)
      → AllPriced n new_id place s.orders
      → AllPriced n new_id place (submit_kind n new_id place k req s).0.orders
  unfolding submit_limit submit_market
  submit_kind-priced Kind.limit req s a =
      ground (arith, limit-priced (qty_for_notional n req.size_quote req.limit_price) req s a)
  submit_kind-priced Kind.market req s a = ground (
    arith,
    market-priced (slipped_price n s.fill req.side req.mark_price)
        (qty_for_notional n req.size_quote (slipped_price n s.fill req.side req.mark_price)) req s
        a,
  )
  submit_kind-priced k req s a = a

  pub submit_entry-priced :
      (req : EntryRequest n new_id place) (s : Oms n)
      → AllPriced n new_id place s.orders
      → AllPriced n new_id place (submit_entry n new_id place req s).0.orders
  unfolding submit_entry
  submit_entry-priced req s a = ground (arith, submit_kind-priced req.kind req s a)
