-- ===== src/Paper/Sweeps.antt =====
-- The sweep of a tick books no fill at a price that is not positive, and so no sequence of
-- operations does.
use alpha_mint_x.Base.{
  ℕ, ◌≡◌, refl, Bool, true, String, Option, none, some, List, [], ◌∷◌, arith, Result, ok, err,
}
use alpha_mint_x.Numbers.{Numbers}
use alpha_mint_x.Paper.Types.{
  Class, Status, Kind, OmsError, Order, Position, Oms, find_order, put, open_position,
}
use alpha_mint_x.Paper.Fills.{fee_quote, slipped_price}
use alpha_mint_x.Paper.Booking.{Reply, book_fill}
use alpha_mint_x.Paper.Orders.{fill_limit_entry_at}
use alpha_mint_x.Paper.Ticks.{
  Outcome, after_fill, cut_to, fill_against, fill_protective, Sweep, note, note_entry, whole,
  exit_order, stop_order, target_order, entry_limit, each, pass, tick_symbol, tick_all,
  process_tick, open_orders, sort_by, usable,
}
use alpha_mint_x.Paper.Orderly.{
  priced, AllPriced, FillPriced, put-AllPriced, find_order-priced, book_fill-priced,
  cancel_open_protectives-priced,
}
use alpha_mint_x.Paper.Entries.{fill_limit_entry_at-priced}

module _ (n : Numbers) (new_id : ℕ → String) (place : Order n → Bool) where
  open n use {Amount, zero_amount}

  abbrev Priced : Oms n → Type 0
  Priced s = AllPriced n new_id place s.orders

  after_fill-Priced :
      (r : Result OmsError (Order n × Oms n)) (s : Oms n)
      → FillPriced n new_id place r
      → Priced s
      → Priced (after_fill n new_id place r s).0
  after_fill-Priced (err e) s f a = a
  after_fill-Priced (ok (o, s')) s f a =
      ground (arith, cancel_open_protectives-priced n new_id place o.strategy_id o.symbol s' f)

  against-priced :
      (p : Option (Position n)) (o : Order n) (price bps : Amount) (s : Oms n)
      → priced n new_id place o ≡ true
      → Priced s
      → Priced (fill_against n new_id place p o price bps s).0
  against-priced none o price bps s h a = put-AllPriced n new_id place _ s.orders refl a
  against-priced (some p) o price bps s h a =
      let cut = cut_to n new_id place o p in
      let kept = put-AllPriced n new_id place cut s.orders h a in
      ground (
        arith,
        after_fill-Priced
            (book_fill n new_id place cut price (fee_quote n cut.qty_base price bps) (put n cut s))
            (put n cut s)
            (book_fill-priced n new_id place cut price (fee_quote n cut.qty_base price bps)
              (put n cut s) kept)
            kept,
        put-AllPriced n new_id place (record o { status = Status.canceled }) s.orders refl a,
      )

  fill_protective-priced :
      (o : Order n) (price bps : Amount) (s : Oms n)
      → priced n new_id place o ≡ true
      → Priced s
      → Priced (fill_protective n new_id place o price bps s).0
  unfolding fill_protective
  fill_protective-priced o price bps s h a = against-priced _ o price bps s h a

  note-Priced :
      (w : Sweep n new_id place) (r : Oms n × Outcome n new_id place)
      → Priced r.0
      → Priced (note n new_id place w r).oms
  note-Priced w (s, Outcome.filled o) a = a
  note-Priced w (s, Outcome.skipped) a = a
  note-Priced w (s, Outcome.failed e) a = a

  note_entry-Priced :
      (w : Sweep n new_id place) (s : Oms n) (r : Reply n new_id place)
      → Priced s
      → Priced (note_entry n new_id place w (s, r)).oms
  note_entry-Priced w s r a = ground arith

  -- What the body of a loop over orders has to keep.
  abbrev Keeps : (Sweep n new_id place → Order n → Sweep n new_id place) → Type 0
  Keeps body =
      (w : Sweep n new_id place) (o : Order n)
      → priced n new_id place o ≡ true
      → Priced w.oms
      → Priced (body w o).oms

  whole-priced :
      (p : Option (Position n)) (o : Order n)
      → priced n new_id place o ≡ true
      → priced n new_id place (whole n new_id place p o) ≡ true
  whole-priced none o h = h
  whole-priced (some p) o h = h

  exit_order-Keeps : (mark : Amount) → Keeps (exit_order n new_id place mark)
  exit_order-Keeps mark w o h a =
      let x = whole n new_id place (open_position n o.strategy_id o.symbol w.oms) o in
      let hx = whole-priced (open_position n o.strategy_id o.symbol w.oms) o h in
      note-Priced w _ (
        fill_protective-priced x _ _ (put n x w.oms) hx
          (put-AllPriced n new_id place x w.oms.orders hx a))

  stop_order-Keeps : (mark : Amount) → Keeps (stop_order n new_id place mark)
  stop_order-Keeps mark w o h a =
      let price = slipped_price n w.oms.fill o.side mark in
      ground (
        arith,
        note-Priced w (fill_protective n new_id place o price w.oms.fill.taker_bps w.oms)
            (fill_protective-priced o price w.oms.fill.taker_bps w.oms h a),
      )

  target_order-Keeps : (mark : Amount) → Keeps (target_order n new_id place mark)
  target_order-Keeps mark w o h a = ground (
    arith,
    note-Priced w (fill_protective n new_id place o o.limit_price w.oms.fill.maker_bps w.oms)
        (fill_protective-priced o o.limit_price w.oms.fill.maker_bps w.oms h a),
  )

  entry_limit-Keeps : (mark : Amount) → Keeps (entry_limit n new_id place mark)
  entry_limit-Keeps mark w o h a =
      let r = fill_limit_entry_at n new_id place o mark w.oms.fill.maker_bps w.oms in
      ground (
        arith,
        note_entry-Priced w r.0 r.1
            (fill_limit_entry_at-priced n new_id place o mark w.oms.fill.maker_bps w.oms a),
      )

  each-Priced :
      (body : Sweep n new_id place → Order n → Sweep n new_id place) (ids : List String)
      (w : Sweep n new_id place)
      → Keeps body
      → Priced w.oms
      → Priced (each n new_id place body ids w).oms
  unfolding each
  each-Priced body [] w k a = a
  each-Priced body (id ∷ ids) w k a =
      each-Priced body ids _ k (go (find_order n id w.oms.orders) refl)
    where
      go :
          (o : Option (Order n))
          → find_order n id w.oms.orders ≡ o
          → Priced (elim o as (λ x. Sweep n new_id place) [ none ↦ w | some x ↦ body w x ]).oms
      go none e = a
      go (some x) e = k w x (find_order-priced n new_id place id w.oms.orders a e) a

  pass-Priced :
      (body : Sweep n new_id place → Order n → Sweep n new_id place) (sym : String) (c : Class)
      (k : Kind) (w : Sweep n new_id place)
      → Keeps body
      → Priced w.oms
      → Priced (pass n new_id place body sym c k w).oms
  pass-Priced body sym c k w keeps a =
      each-Priced body (open_orders n new_id place sym c k w.oms) w keeps a

  tick_symbol-Priced :
      (sym : String) (mark : Amount) (w : Sweep n new_id place)
      → Priced w.oms
      → Priced (tick_symbol n new_id place sym mark w).oms
  unfolding tick_symbol
  tick_symbol-Priced sym mark w a =
      let exits =
        pass n new_id place (exit_order n new_id place mark) sym Class.protective Kind.market in
      let stops =
        pass n new_id place (stop_order n new_id place mark) sym Class.protective Kind.stop in
      let targets =
        pass n new_id place (target_order n new_id place mark) sym Class.protective
          Kind.take_profit in
      let a1 =
        pass-Priced (exit_order n new_id place mark) sym Class.protective Kind.market w
          (exit_order-Keeps mark) a in
      let a2 =
        pass-Priced (stop_order n new_id place mark) sym Class.protective Kind.stop (exits w)
          (stop_order-Keeps mark) a1 in
      let a3 =
        pass-Priced (target_order n new_id place mark) sym Class.protective Kind.take_profit
          (stops (exits w)) (target_order-Keeps mark) a2 in
      pass-Priced (entry_limit n new_id place mark) sym Class.entry Kind.limit
        (targets (stops (exits w))) (entry_limit-Keeps mark) a3

  tick_all-Priced :
      (l : List (String × Amount)) (w : Sweep n new_id place)
      → Priced w.oms
      → Priced (tick_all n new_id place l w).oms
  unfolding tick_all
  tick_all-Priced [] w a = a
  tick_all-Priced ((sym, mark) ∷ l) w a =
      tick_all-Priced l (tick_symbol n new_id place sym mark w) (tick_symbol-Priced sym mark w a)

  pub process_tick-Priced :
      (marks : List (String × Amount)) (s : Oms n)
      → Priced s
      → Priced (process_tick n new_id place marks s).oms
  unfolding process_tick
  process_tick-Priced marks s a =
      tick_all-Priced (sort_by (λ m. m.0) (usable n new_id place marks))
        (record { oms = s; fills = []; errors = [] }) a
