-- ===== src/Paper/Sizing.antt =====
-- The sizing of an entry, and the accounts of a round trip.
use alpha_mint_x.Base.{
  ℕ, suc, ◌≡◌, refl, false, some, arith, Ordering, ok, err, true, Bool-cases, inl, inr, ◌⊎◌,
  if◌then◌else◌,
}
use alpha_mint_x.Numbers.{Numbers, greater_than}
use alpha_mint_x.Numbers.Laws.{Laws, cmp_add_zero}
use alpha_mint_x.Paper.Types.{OmsError, Side, Position}
use alpha_mint_x.Paper.Fills.{step_down, qty_for_notional, fill_position, side_sign}

module _ (n : Numbers) where
  open n use {Amount, zero_amount, add, sub, mul, div, round, last_place, cmp}

  -- What is relied on of the decimals: `Round(8)` of a quotient is at most half a last place above it,
  -- so one last place below the rounded quotient, the divisor is not too much.
  abbrev pub RoundsClose : Amount → Amount → Type 0
  RoundsClose size price =
      greater_than n (mul (sub (round 8 (div size price)) (last_place 8)) price) size ≡ false

  -- The loop of the sizing ends within two rounds, whatever more it is given, at the rounded quotient
  -- if that keeps the size, and otherwise one step below it.
  step_down_ends :
      (f : ℕ) (size price : Amount)
      → RoundsClose size price
      → let r = round 8 (div size price) in
        step_down n (suc (suc f)) size price r
        ≡ (if greater_than n (mul r price) size then some (sub r (last_place 8)) else some r)
  unfolding step_down
  step_down_ends f size price h = ground arith

  -- Where the rounding of the quotient is close, the sizing ends, in a quantity at which the price
  -- keeps the notional cap: the rounded quotient, or the step below it if the quotient itself would be
  -- above the cap. The result is this quantity if it is positive, and otherwise the error that it
  -- rounds to zero.
  pub qty_for_notional_bounded :
      (size price : Amount)
      → RoundsClose size price
      → let r = round 8 (div size price) in
        (q : Amount) × (greater_than n (mul q price) size ≡ false)
        × ((q ≡ r) ⊎ ((q ≡ sub r (last_place 8)) × (greater_than n (mul r price) size ≡ true)))
        × (qty_for_notional n size price
            ≡ (if greater_than n q zero_amount then ok q else err OmsError.qty_rounds_to_zero))
  unfolding qty_for_notional
  qty_for_notional_bounded size price h =
      let r = round 8 (div size price) in
      elim (Bool-cases (greater_than n (mul r price) size)) [
        | inl e ↦
            (sub r (last_place 8), h, inr (refl, e), ground (arith, step_down_ends 0 size price h))
        | inr e ↦ (r, e, inl refl, ground (arith, step_down_ends 0 size price h))
      ]

module _ (n : Numbers) (l : Laws n) where
  open n use {Amount, zero_amount, of_int, add, sub, mul, div, neg, abs, round, cmp}

  abbrev pub opposite : Side → Side
  opposite Side.buy = Side.sell
  opposite Side.sell = Side.buy

  -- The entry price of a position that one fill opens, which is the price itself if it has at most 8
  -- places: see `entry_of_places`.
  abbrev pub entry_of : Amount → Amount → Amount
  entry_of price q = div (mul price q) q

  entry_of_places :
      (price q : Amount)
      → round 8 price ≡ price
      → cmp q zero_amount ≡ Ordering.gt
      → entry_of price q ≡ price
  entry_of_places price q places positive = cc (l.div_mul price q positive)

  average_of_one :
      (e a p q : Amount)
      → a ≡ zero_amount
      → e ≡ zero_amount
      → div (add (mul e (abs a)) (mul p q)) (add (abs a) q) ≡ entry_of p q
  average_of_one e a p q flat empty = cc (
    l.abs_zero,
    l.zero_mul zero_amount,
    l.add_comm zero_amount (mul p q),
    l.add_zero (mul p q),
    l.add_comm zero_amount q,
    l.add_zero q,
  )

  -- What a fill makes of a flat book.
  abbrev opened : Side → Amount → Amount → Amount → Position n → Position n
  opened side q price fee p = record p {
    qty_base = mul (side_sign n side) q;
    entry_price = entry_of price q;
    fees_quote = add zero_amount fee;
    realized_pnl_quote = sub p.realized_pnl_quote fee;
  }

  signed_pos :
      (side : Side) (q : Amount)
      → cmp q zero_amount ≡ Ordering.gt
      → cmp (mul (side_sign n side) q) zero_amount
        ≡ elim side [ Side.buy ↦ Ordering.gt | Side.sell ↦ Ordering.lt ]
  signed_pos Side.buy q h = ground (arith, l.one_mul q)
  signed_pos Side.sell q h = ground (
    arith,
    l.neg_one_mul q,
    cmp_add_zero n l q zero_amount,
    l.add_zero q,
    l.cmp_flip zero_amount (neg q),
  )

  open_lem :
      (side : Side) (q price fee : Amount) (p : Position n)
      → cmp p.qty_base zero_amount ≡ Ordering.eq
      → p.entry_price ≡ zero_amount
      → cmp q zero_amount ≡ Ordering.gt
      → fill_position n side q price fee p ≡ opened side q price fee p
  unfolding fill_position
  open_lem side q price fee p flat empty positive = ground (
    arith,
    l.eq_of_cmp p.qty_base zero_amount flat,
    average_of_one p.entry_price p.qty_base price q (l.eq_of_cmp p.qty_base zero_amount flat) empty,
    l.add_comm zero_amount (mul (side_sign n side) q),
    l.add_zero (mul (side_sign n side) q),
    signed_pos side q positive,
  )

  -- What the fill that closes it makes of a position.
  abbrev closed : Side → Amount → Amount → Amount → Position n → Position n
  closed side q price fee p = record p {
    qty_base = zero_amount;
    entry_price = zero_amount;
    fees_quote = add p.fees_quote fee;
    realized_pnl_quote =
        sub
          (add p.realized_pnl_quote
            (round 8 (mul (mul (sub price p.entry_price) q) (side_sign n side))))
          fee;
  }

  neg_neg : (q : Amount) → neg (neg q) ≡ q
  neg_neg q = cc (
    l.add_assoc q (neg q) (neg (neg q)),
    l.add_neg q,
    l.add_neg (neg q),
    l.add_zero q,
    l.add_comm zero_amount (neg (neg q)),
    l.add_zero (neg (neg q)),
  )

  abs_signed :
      (side : Side) (q : Amount)
      → cmp q zero_amount ≡ Ordering.gt
      → abs (mul (side_sign n side) q) ≡ q
  abs_signed Side.buy q h = ground (arith, l.one_mul q, l.abs_of_pos q h)
  abs_signed Side.sell q h =
      ground (arith, l.neg_one_mul q, l.abs_of_neg (neg q), signed_pos Side.sell q h, neg_neg q)

  cancels :
      (side : Side) (q : Amount)
      → add (mul (side_sign n side) q) (mul (side_sign n (opposite side)) q) ≡ zero_amount
  cancels Side.buy q = cc (l.one_mul q, l.neg_one_mul q, l.add_neg q)
  cancels Side.sell q = cc (l.one_mul q, l.neg_one_mul q, l.add_neg q, l.add_comm q (neg q))

  close_lem :
      (side : Side) (q price fee : Amount) (p : Position n)
      → p.qty_base ≡ mul (side_sign n side) q
      → cmp q zero_amount ≡ Ordering.gt
      → fill_position n (opposite side) q price fee p ≡ closed side q price fee p
  unfolding fill_position
  close_lem Side.buy q price fee p e positive = ground (
    arith,
    signed_pos Side.buy q positive,
    signed_pos Side.sell q positive,
    abs_signed Side.buy q positive,
    cancels Side.buy q,
    l.cmp_refl q,
    l.cmp_refl zero_amount,
  )
  close_lem Side.sell q price fee p e positive = ground (
    arith,
    signed_pos Side.buy q positive,
    signed_pos Side.sell q positive,
    abs_signed Side.sell q positive,
    cancels Side.sell q,
    l.cmp_refl q,
    l.cmp_refl zero_amount,
  )

  -- A round trip from a flat book without an entry price, a fill of one side and then one of the other
  -- side of the same positive quantity, ends flat. The profit that it realizes is the rounded
  -- difference of the second price and the entry price on that quantity, with the sign of the side
  -- that opened, less the two fees, and the fees that it records are those two: none is counted twice.
  -- The entry price is the product of the first price and the quantity, divided by the quantity.
  pub round_trip :
      (side : Side) (q p1 f1 p2 f2 : Amount) (p : Position n)
      → cmp p.qty_base zero_amount ≡ Ordering.eq
      → p.entry_price ≡ zero_amount
      → cmp q zero_amount ≡ Ordering.gt
      → let r = fill_position n (opposite side) q p2 f2 (fill_position n side q p1 f1 p) in
        (r.qty_base ≡ zero_amount)
        × (r.entry_price ≡ zero_amount)
        × (r.fees_quote ≡ add (add zero_amount f1) f2)
        × (r.realized_pnl_quote
            ≡ sub
                (add
                  (sub p.realized_pnl_quote f1)
                  (round 8 (mul (mul (sub p2 (div (mul p1 q) q)) q) (side_sign n side))))
                f2)
  round_trip side q p1 f1 p2 f2 p flat empty positive =
      rw
        (
          open_lem side q p1 f1 p flat empty positive,
          close_lem side q p2 f2 (opened side q p1 f1 p) refl positive,
        )
        (refl, refl, refl, refl)
