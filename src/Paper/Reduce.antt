-- ===== src/Paper/Reduce.antt =====
-- A protective fill only ever reduces: it never opens a position and never flips one.
use alpha_mint_x.Base.{
  ℕ, ◌≡◌, Bool, true, false, ◌⊎◌, inl, inr, String, Option, none, some, eq_iff, arith, Ordering,
}
use alpha_mint_x.Numbers.{Numbers, sign, is_ge, is_le}
use alpha_mint_x.Numbers.Laws.{Laws, cmp_sub_zero, cmp_sub_self, cmp_add_self, cmp_add_zero}
use alpha_mint_x.Paper.Types.{Position, Oms, Order, open_position, find_position}
use alpha_mint_x.Paper.Fills.{side_sign, close_side, min_amount, fee_quote, apply_fill}
use alpha_mint_x.Paper.Booking.{book_fill, cancel_open_protectives}
use alpha_mint_x.Paper.Ticks.{fill_protective, filled}
use alpha_mint_x.Paper.Maps.{fill_position-qty, find_position-apply_fill}

abbrev flat_sign : Ordering → Bool
flat_sign Ordering.eq = true
flat_sign _ = false

module _ (n : Numbers) (new_id : ℕ → String) (place : Order n → Bool) where
  open n use {Amount, abs}

  open_position-find :
      (s sym : String) (o : Oms n) {p : Position n}
      → open_position n s sym o ≡ some p
      → (find_position n s sym o.positions ≡ some p) × (flat_sign (sign n p.qty_base) ≡ false)
  unfolding open_position
  open_position-find s sym o {p} h = ground arith

  -- What a booked protective fill has done to the books: the fill of the quantity cut to the
  -- position, on the side that closes it.
  fill_protective-books :
      (o : Order n) (price bps : Amount) (s : Oms n) (p : Position n) {s' : Oms n} {o' : Order n}
      → open_position n o.strategy_id o.symbol s ≡ some p
      → fill_protective n new_id place o price bps s ≡ (s', filled o')
      → (o.side ≡ close_side n p.qty_base)
        × (s'.positions
            ≡ (apply_fill n o.strategy_id o.symbol o.side
                (min_amount n o.qty_base (abs p.qty_base))
                price
                (fee_quote n (min_amount n o.qty_base (abs p.qty_base)) price bps)
                s).positions)
  unfolding fill_protective book_fill cancel_open_protectives apply_fill
  fill_protective-books o price bps s p {s'} {o'} e h = ground arith

  -- With no open position to reduce, a protective order books nothing.
  fill_protective_opens_nothing :
      (o : Order n) (price bps : Amount) (s : Oms n)
      → open_position n o.strategy_id o.symbol s ≡ none
      → (fill_protective n new_id place o price bps s).0.positions ≡ s.positions
  unfolding fill_protective
  fill_protective_opens_nothing o price bps s e = ground arith

module _ (n : Numbers) (l : Laws n) where
  open n use {Amount, zero_amount, add, mul, neg, abs, cmp}

  -- `b` is what a reduction may leave of `a`, a quantity of the given sign: closer to zero, and not
  -- beyond it.
  abbrev pub Shrinks : Ordering → Amount → Amount → Type 0
  Shrinks Ordering.gt a b = (is_ge (cmp b zero_amount) ≡ true) × (cmp b a ≡ Ordering.lt)
  Shrinks Ordering.lt a b = (is_le (cmp b zero_amount) ≡ true) × (cmp b a ≡ Ordering.gt)
  Shrinks Ordering.eq a b = ⊥

  -- Closing the smaller of an order's quantity and of the position shrinks the position.
  pub close-Shrinks :
      (a q : Amount)
      → (cmp a zero_amount ≡ Ordering.gt) ⊎ (cmp a zero_amount ≡ Ordering.lt)
      → cmp q zero_amount ≡ Ordering.gt
      → Shrinks
          (cmp a zero_amount)
          a
          (add a (mul (side_sign n (close_side n a)) (min_amount n q (abs a))))
  close-Shrinks a q (inl h) g = ground (
    arith,
    l.abs_of_pos a h,
    l.neg_one_mul a,
    l.neg_one_mul q,
    cmp_sub_zero n l a a,
    cmp_sub_zero n l a q,
    cmp_sub_self n l a a,
    cmp_sub_self n l a q,
    l.cmp_flip a zero_amount,
    l.cmp_flip q zero_amount,
    l.cmp_refl a,
    l.cmp_flip a q,
  )
  close-Shrinks a q (inr h) g = ground (
    arith,
    l.abs_of_neg a h,
    l.one_mul (neg a),
    l.one_mul q,
    cmp_add_zero n l a (neg a),
    cmp_add_zero n l a q,
    cmp_add_self n l a (neg a),
    cmp_add_self n l a q,
    l.cmp_refl (neg a),
    l.add_neg a,
    l.cmp_flip a zero_amount,
    l.cmp_flip q (neg a),
  )

module _ (n : Numbers) (l : Laws n) (new_id : ℕ → String) (place : Order n → Bool) where
  open n use {Amount, zero_amount, abs, cmp}

  -- The quantity of a book, zero where there is none.
  abbrev pub qty_at : Option (Position n) → Amount
  qty_at none = zero_amount
  qty_at (some p) = p.qty_base

  -- A protective order of a positive quantity that is filled against an open position leaves that
  -- position closer to flat, on the same side or flat.
  pub fill_protective-Shrinks :
      (o : Order n) (price bps : Amount) (s : Oms n) (p : Position n) {s' : Oms n} {o' : Order n}
      → open_position n o.strategy_id o.symbol s ≡ some p
      → cmp o.qty_base zero_amount ≡ Ordering.gt
      → fill_protective n new_id place o price bps s ≡ (s', filled o')
      → Shrinks n l
          (cmp p.qty_base zero_amount)
          p.qty_base
          (qty_at (find_position n o.strategy_id o.symbol s'.positions))
  fill_protective-Shrinks o price bps s p {s'} {o'} e g h =
      let (side, books) = fill_protective-books n new_id place o price bps s p e h in
      let (found, live) = open_position-find n new_id place o.strategy_id o.symbol s e in
      let m = min_amount n o.qty_base (abs p.qty_base) in
      ground (
        arith,
        find_position-apply_fill n o.strategy_id o.symbol o.strategy_id o.symbol o.side m price
            (fee_quote n m price bps) s,
        eq_iff o.strategy_id o.strategy_id,
        eq_iff o.symbol o.symbol,
        (fill_position-qty n o.side m price (fee_quote n m price bps) p).0,
        close-Shrinks n l p.qty_base o.qty_base,
      )
