-- ===== src/Paper/Guarded.antt =====
-- A filled entry is never left without a stop: the stop rests in the book, or the position has been
-- flattened.
use alpha_mint_x.Base.{
  ℕ, ◌+◌, ◌≡◌, refl, Bool, true, false, String, Option, none, some, inl, inr, ◌⊎◌, ◌≢◌, arith, ◌=ₛ◌,
  eq_iff, Ordering,
}
use alpha_mint_x.Numbers.{Numbers, sign}
use alpha_mint_x.Numbers.Laws.{Laws, cmp_add_zero}
use alpha_mint_x.Paper.Types.{
  Class, Status, Side, Kind, OmsError, Order, Position, Oms, find_order, put_order, open_position,
  find_position,
}
use alpha_mint_x.Paper.Fills.{side_sign, close_side, slipped_price, apply_fill, fee_quote}
use alpha_mint_x.Paper.Booking.{
  book_fill, protective_for, place_protectives, flatten_order, flatten_position, flatten_found,
  flatten, cancel_open_protectives,
}
use alpha_mint_x.Paper.Orders.{protect}
use alpha_mint_x.Paper.Maps.{find_order-put_order, fill_position-qty, find_position-apply_fill}

module _ (n : Numbers) (l : Laws n) (new_id : ℕ → String) (place : Order n → Bool) where
  open n use {Amount, zero_amount, add, mul, neg, abs, cmp}

  -- Closing the whole of a position leaves nothing.
  close_whole : (a : Amount) → add a (mul (side_sign n (close_side n a)) (abs a)) ≡ zero_amount
  close_whole a = go (cmp a zero_amount) refl
    where
      go :
          (c : Ordering)
          → cmp a zero_amount ≡ c
          → add a (mul (side_sign n (close_side n a)) (abs a)) ≡ zero_amount
      go Ordering.gt e = ground (arith, l.abs_of_pos a e, l.neg_one_mul a, l.add_neg a)
      go Ordering.lt e = ground (arith, l.abs_of_neg a e, l.one_mul (neg a), l.add_neg a)
      go Ordering.eq e = ground (
        arith,
        l.eq_of_cmp a zero_amount e,
        l.abs_zero,
        l.one_mul zero_amount,
        l.add_zero zero_amount,
      )

  -- The fill of a flatten leaves the book flat.
  flatten_fill_flat :
      (t sym : String) (p : Position n) (price fee : Amount) (s : Oms n)
      → find_position n t sym s.positions ≡ some p
      → open_position n t sym
          (apply_fill n t sym (close_side n p.qty_base) (abs p.qty_base) price fee s)
        ≡ none
  unfolding open_position
  flatten_fill_flat t sym p price fee s e = ground (
    arith,
    find_position-apply_fill n t sym t sym (close_side n p.qty_base) (abs p.qty_base) price fee s,
    eq_iff t t,
    eq_iff sym sym,
    (fill_position-qty n (close_side n p.qty_base) (abs p.qty_base) price fee p).0,
    close_whole p.qty_base,
    l.cmp_refl zero_amount,
  )

  open_position-found :
      (t sym : String) (s : Oms n) {p : Position n}
      → open_position n t sym s ≡ some p
      → find_position n t sym s.positions ≡ some p
  unfolding open_position
  open_position-found t sym s {p} h = ground arith

  flatten_position_flat :
      (t sym id : String) (p : Position n) (mark : Amount) (s : Oms n)
      → find_position n t sym s.positions ≡ some p
      → sign n mark ≡ Ordering.gt
      → sign n (slipped_price n s.fill (close_side n p.qty_base) mark) ≡ Ordering.gt
      → open_position n t sym
          (flatten_position n new_id place (flatten_order n new_id place id t sym p) mark s).0
        ≡ none
  unfolding flatten_position book_fill cancel_open_protectives open_position
  flatten_position_flat t sym id p mark s e m c =
      let price = slipped_price n s.fill (close_side n p.qty_base) mark in
      ground (
        arith,
        flatten_fill_flat t sym p price (fee_quote n (abs p.qty_base) price s.fill.taker_bps) s e,
      )

  -- A flatten at a usable mark, whose slipped price is positive on both sides, leaves no position
  -- open for its strategy and symbol.
  flatten_flat :
      (t sym : String) (mark : Amount) (s : Oms n)
      → sign n mark ≡ Ordering.gt
      → sign n (slipped_price n s.fill Side.buy mark) ≡ Ordering.gt
      → sign n (slipped_price n s.fill Side.sell mark) ≡ Ordering.gt
      → open_position n t sym (flatten n new_id place t sym mark s).0 ≡ none
  unfolding flatten
  flatten_flat t sym mark s m b c = go (open_position n t sym s) refl
    where
      positive : (x : Side) → sign n (slipped_price n s.fill x mark) ≡ Ordering.gt
      positive Side.buy = b
      positive Side.sell = c

      go :
          (o : Option (Position n))
          → open_position n t sym s ≡ o
          → open_position n t sym (flatten_found n new_id place o t sym mark s).0 ≡ none
      go none e = e
      go (some p) e =
          flatten_position_flat t sym (new_id s.next) p mark _ (open_position-found t sym s e) m
            (positive (close_side n p.qty_base))

  place_protectives-fill :
      (o : Order n) (stop target : Amount) (s : Oms n)
      → (place_protectives n new_id place o stop target s).0.fill ≡ s.fill
  unfolding place_protectives
  place_protectives-fill o stop target s = ground arith

  -- The stop that is placed first is still there when the take-profit has been placed.
  placed_stop :
      (o : Order n) (stop target : Amount) (s : Oms n)
      → sign n stop ≡ Ordering.gt
      → (new_id (s.next + 1) =ₛ new_id s.next) ≡ false
      → (place_protectives n new_id place o stop target s).1 ≡ true
      → find_order n (new_id s.next) (place_protectives n new_id place o stop target s).0.orders
        ≡ some (protective_for n new_id place (new_id s.next) o Kind.stop zero_amount stop)
  unfolding place_protectives
  placed_stop o stop target s h d e = ground (
    arith,
    eq_iff (new_id s.next) (new_id s.next),
    find_order-put_order n (new_id s.next)
        (protective_for n new_id place (new_id s.next) o Kind.stop zero_amount stop) s.orders,
    find_order-put_order n (new_id s.next)
        (protective_for n new_id place (new_id (s.next + 1)) o Kind.take_profit target zero_amount)
        (put_order n (protective_for n new_id place (new_id s.next) o Kind.stop zero_amount stop)
          s.orders),
  )

  abbrev pub against : Side → Side
  against Side.buy = Side.sell
  against Side.sell = Side.buy

  -- An open order that protects a filled entry: of its strategy and symbol, on the other side, which
  -- only reduces, for the quantity of the entry, at the stop.
  abbrev pub IsStopFor : Order n → Amount → Order n → Type 0
  IsStopFor entry stop x =
      (x.strategy_id ≡ entry.strategy_id)
      × (x.symbol ≡ entry.symbol)
      × (x.side ≡ against entry.side)
      × (x.kind ≡ Kind.stop)
      × (x.order_class ≡ Class.protective)
      × (x.reduce_only ≡ true)
      × (x.qty_base ≡ entry.qty_base)
      × (x.stop_price ≡ stop)
      × (x.status ≡ Status.open_status)

  -- What the protection of a filled entry comes to, by its error: with none, the stop rests, and
  -- otherwise no position is open.
  abbrev pub IsGuarded : Option OmsError → Order n → Amount → String → Oms n → Type 0
  IsGuarded none o stop id s =
      (x : Order n) × (find_order n id s.orders ≡ some x) × IsStopFor o stop x
  IsGuarded (some e) o stop id s = open_position n o.strategy_id o.symbol s ≡ none

  close_side-side_sign : (x : Side) → close_side n (side_sign n x) ≡ against x
  close_side-side_sign Side.buy = ground (arith, l.one_pos)
  close_side-side_sign Side.sell = ground (
    arith,
    cmp_add_zero n l (n.of_int 1) zero_amount,
    l.add_zero (n.of_int 1),
    l.one_pos,
    l.cmp_flip zero_amount (neg (n.of_int 1)),
  )

  protective_for-IsStopFor :
      (id : String) (o : Order n) (stop : Amount)
      → IsStopFor o stop (protective_for n new_id place id o Kind.stop zero_amount stop)
  protective_for-IsStopFor id o stop =
      (refl, refl, close_side-side_sign o.side, refl, refl, refl, refl, refl, refl)

  stop_or_flat :
      (o : Order n) (stop target mark : Amount) (s : Oms n)
      → sign n stop ≡ Ordering.gt
      → (new_id (s.next + 1) =ₛ new_id s.next) ≡ false
      → sign n mark ≡ Ordering.gt
      → sign n (slipped_price n s.fill Side.buy mark) ≡ Ordering.gt
      → sign n (slipped_price n s.fill Side.sell mark) ≡ Ordering.gt
      → let (s', r) = protect n new_id place o stop target mark s in
        ((r.error ≡ none)
          × (find_order n (new_id s.next) s'.orders
              ≡ some (protective_for n new_id place (new_id s.next) o Kind.stop zero_amount stop)))
        ⊎ ((r.error ≢ none) × (open_position n o.strategy_id o.symbol s' ≡ none))
  unfolding protect
  stop_or_flat o stop target mark s h d m b c = ground (
    arith,
    placed_stop o stop target s h d,
    place_protectives-fill o stop target s,
    flatten_flat o.strategy_id o.symbol mark (place_protectives n new_id place o stop target s).0 m,
  )

  guard_of :
      (e : Option OmsError) (o : Order n) (stop : Amount) (id : String) (s : Oms n)
      → ((e ≡ none)
          × (find_order n id s.orders
              ≡ some (protective_for n new_id place id o Kind.stop zero_amount stop)))
        ⊎ ((e ≢ none) × (open_position n o.strategy_id o.symbol s ≡ none))
      → IsGuarded e o stop id s
  guard_of none o stop id s (inl (e, f)) = (_, f, protective_for-IsStopFor id o stop)
  guard_of none o stop id s (inr (e, f)) = elim (e refl) [ ]
  guard_of (some x) o stop id s (inl (e, f)) = ground arith
  guard_of (some x) o stop id s (inr (e, f)) = f

  -- After an entry with a stop is filled, at a usable mark whose slipped prices are positive, either
  -- an open reduce-only stop order of its strategy and symbol rests at the stop, on the side against
  -- the entry and for exactly the filled quantity, or a protective could not be placed and the
  -- position has been flattened: it is never left open without a stop.
  pub protect-IsGuarded :
      (o : Order n) (stop target mark : Amount) (s : Oms n)
      → sign n stop ≡ Ordering.gt
      → (new_id (s.next + 1) =ₛ new_id s.next) ≡ false
      → sign n mark ≡ Ordering.gt
      → sign n (slipped_price n s.fill Side.buy mark) ≡ Ordering.gt
      → sign n (slipped_price n s.fill Side.sell mark) ≡ Ordering.gt
      → let (s', r) = protect n new_id place o stop target mark s in
        IsGuarded r.error o stop (new_id s.next) s'
  protect-IsGuarded o stop target mark s h d m b c =
      let (s', r) = protect n new_id place o stop target mark s in
      guard_of r.error o stop (new_id s.next) s' (stop_or_flat o stop target mark s h d m b c)
