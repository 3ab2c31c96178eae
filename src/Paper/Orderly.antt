-- ===== src/Paper/Orderly.antt =====
-- No fill is ever booked at a price that is not positive, over every sequence of operations.
use alpha_mint_x.Base.{
  ℕ, ◌≡◌, refl, Bool, true, String, Option, none, some, List, [], ◌∷◌, arith, All, Result, ok, err,
}
use alpha_mint_x.Base.Int.{ℤ}
use alpha_mint_x.Numbers.{Numbers, sign, is_gt}
use alpha_mint_x.Paper.Types.{
  Kind, Status, OmsError, Order, Position, Oms, find_order, put_order, open_position,
}
use alpha_mint_x.Paper.Fills.{apply_fill, fee_quote, slipped_price}
use alpha_mint_x.Paper.Booking.{
  sweep, book_fill, place_protectives, cancel_open_protectives, cancel_open_entries, kill, raised,
  flatten_found, flatten_order, filled_order, protective_for, place_one, place_stop,
  flatten_position, flatten,
}

module _ (n : Numbers) (new_id : ℕ → String) (place : Order n → Bool) where
  open n use {Amount, zero_amount}

  -- A filled order has a positive fill price.
  abbrev pub priced : Order n → Bool
  priced o = elim o.status [ Status.filled ↦ is_gt (sign n o.fill_price) | _ ↦ true ]

  abbrev pub AllPriced : List (Order n) → Type 0
  AllPriced = All (λ o. priced o ≡ true)

  pub put-AllPriced :
      (o : Order n) (l : List (Order n))
      → priced o ≡ true
      → AllPriced l
      → AllPriced (put_order n o l)
  unfolding put_order
  put-AllPriced o [] h a = (h, tt)
  put-AllPriced o (p ∷ l) h a = ground (arith, put-AllPriced o l)

  pub sweep-AllPriced :
      (test : Order n → Bool) (l : List (Order n))
      → AllPriced l
      → AllPriced (sweep n new_id place test l)
  unfolding sweep
  sweep-AllPriced test [] a = tt
  sweep-AllPriced test (o ∷ l) a = ground (arith, sweep-AllPriced test l)

  pub find_order-priced :
      (k : String) (l : List (Order n)) {o : Order n}
      → AllPriced l
      → find_order n k l ≡ some o
      → priced o ≡ true
  unfolding find_order
  find_order-priced k [] a h = ground arith
  find_order-priced k (p ∷ l) {o} a h = ground (arith, find_order-priced k l {o = o})

  -- What a booked fill leaves behind.
  abbrev pub FillPriced : Result OmsError (Order n × Oms n) → Type 0
  FillPriced (ok (o, s)) = AllPriced s.orders
  FillPriced (err e) = Unit

  apply_fill-orders :
      (o : Order n) (price fee : Amount) (s : Oms n)
      → (apply_fill n o.strategy_id o.symbol o.side o.qty_base price fee s).orders ≡ s.orders
  unfolding apply_fill
  apply_fill-orders o price fee s = refl

  pub book_fill-priced :
      (o : Order n) (price fee : Amount) (s : Oms n)
      → AllPriced s.orders
      → FillPriced (book_fill n new_id place o price fee s)
  unfolding book_fill
  book_fill-priced o price fee s a = ground (
    arith,
    apply_fill-orders o price fee s,
    put-AllPriced (filled_order n new_id place o price fee) s.orders,
  )

  place_one-priced :
      (o : Order n) (s : Oms n)
      → priced o ≡ true
      → AllPriced s.orders
      → AllPriced (place_one n new_id place o s).0.orders
  place_one-priced o s h a = ground (arith, put-AllPriced o s.orders)

  pub place_protectives-priced :
      (o : Order n) (stop target : Amount) (s : Oms n)
      → AllPriced s.orders
      → AllPriced (place_protectives n new_id place o stop target s).0.orders
  unfolding place_protectives
  place_protectives-priced o stop target s a = ground (
    arith,
    place_one-priced (protective_for n new_id place (new_id s.next) o Kind.stop zero_amount stop) s,
    place_one-priced
        (protective_for n new_id place (new_id s.next) o Kind.take_profit target zero_amount) s,
    place_one-priced
        (protective_for n new_id place (new_id (place_stop n new_id place o stop s).0.next) o
          Kind.take_profit target zero_amount)
        (place_stop n new_id place o stop s).0,
  )

  pub cancel_open_protectives-priced :
      (t sym : String) (s : Oms n)
      → AllPriced s.orders
      → AllPriced (cancel_open_protectives n new_id place t sym s).orders
  unfolding cancel_open_protectives
  cancel_open_protectives-priced t sym s a = sweep-AllPriced _ s.orders a

  pub cancel_open_entries-priced :
      (t : String) (s : Oms n)
      → AllPriced s.orders
      → AllPriced (cancel_open_entries n new_id place t s).orders
  unfolding cancel_open_entries
  cancel_open_entries-priced t s a = sweep-AllPriced _ s.orders a

  pub kill-priced :
      (t : String) (e : ℤ) (s : Oms n)
      → AllPriced s.orders
      → AllPriced (kill n new_id place t e s).orders
  unfolding kill
  kill-priced t e s a = cancel_open_entries-priced t (raised n new_id place t e s) (ground arith)

  flatten_position-priced :
      (o : Order n) (mark : Amount) (s : Oms n)
      → AllPriced s.orders
      → AllPriced (flatten_position n new_id place o mark s).0.orders
  unfolding flatten_position
  flatten_position-priced o mark s a =
      go (book_fill n new_id place o price (fee_quote n o.qty_base price s.fill.taker_bps) s)
        (book_fill-priced o price (fee_quote n o.qty_base price s.fill.taker_bps) s a) refl
    where
      price : Amount
      price = slipped_price n s.fill o.side mark

      go :
          (r : Result OmsError (Order n × Oms n))
          → FillPriced r
          → book_fill n new_id place o price (fee_quote n o.qty_base price s.fill.taker_bps) s ≡ r
          → AllPriced (flatten_position n new_id place o mark s).0.orders
      go (err e) f h = ground arith
      go (ok (o', s')) f h =
          ground (arith, cancel_open_protectives-priced o'.strategy_id o'.symbol s')

  pub flatten-priced :
      (t sym : String) (mark : Amount) (s : Oms n)
      → AllPriced s.orders
      → AllPriced (flatten n new_id place t sym mark s).0.orders
  unfolding flatten
  flatten-priced t sym mark s a = go (open_position n t sym s)
    where
      go :
          (p : Option (Position n))
          → AllPriced (flatten_found n new_id place p t sym mark s).0.orders
      go none = a
      go (some p) =
          flatten_position-priced (flatten_order n new_id place (new_id s.next) t sym p) mark _
            (put-AllPriced (flatten_order n new_id place (new_id s.next) t sym p) s.orders refl a)
