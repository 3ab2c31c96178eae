-- ===== src/PaperGate/Agreement.antt =====
-- The replay of the paper gate against the books of the paper order manager.
use alpha_mint_x.Base.{◌≡◌, true, false, Ordering, arith, ◌⊎◌, inl, inr, ap, sym, subst}
use alpha_mint_x.Numbers.{Numbers, greater_than, is_zero, sign}
use alpha_mint_x.Numbers.Laws.{Laws, flip, cmp_add_zero, cmp_sub_zero}
use alpha_mint_x.Paper.{Side, Position, side_sign, fill_position, same_sign}
use alpha_mint_x.PaperGate.Replay.{Fill, ReplayBook, Step, replay_fill, replay_qty, replay_sized}

module _ (n : Numbers) (l : Laws n) where
  open n use {Amount, zero_amount, add, sub, mul, neg, abs, cmp, of_int}

  -- A replayed book that is the book of the order manager.
  abbrev pub Matches : ReplayBook n → Position n → Type 0
  Matches b p = (b.qty ≡ p.qty_base) × (b.avg ≡ p.entry_price)

  abbrev Signed : Side → Amount → Amount → Type 0
  Signed Side.buy q d = d ≡ q
  Signed Side.sell q d = d ≡ neg q

  cmp_neg_zero : (q : Amount) → cmp (neg q) zero_amount ≡ flip (cmp q zero_amount)
  cmp_neg_zero q = cc (
    l.cmp_add_right (neg q) zero_amount q,
    l.add_comm (neg q) q,
    l.add_neg q,
    l.add_comm zero_amount q,
    l.add_zero q,
    l.cmp_flip q zero_amount,
  )

  -- A fill of the same sign does not leave the position flat.
  not_zero_same :
      (q d : Amount)
      → is_zero n q ≡ false
      → same_sign n (sign n q) (sign n d) ≡ true
      → is_zero n (add q d) ≡ false
  not_zero_same q d h s =
      ground (arith, cmp_add_zero n l q d, l.eq_of_cmp d (neg q), cmp_neg_zero q)

  Signed-side : (side : Side) (q : Amount) → Signed side q (mul (side_sign n side) q)
  Signed-side Side.buy q = l.one_mul q
  Signed-side Side.sell q = l.neg_one_mul q

  -- Nor does a fill of more than the position, which flips it.
  not_zero_flip :
      (side : Side) (q a : Amount)
      → cmp a zero_amount ≡ Ordering.gt
      → greater_than n a (abs q) ≡ true
      → is_zero n (add q (mul (side_sign n side) a)) ≡ false
  not_zero_flip Side.buy q a s g = ground (
    arith,
    Signed-side Side.buy a,
    cmp_add_zero n l q a,
    l.eq_of_cmp a (neg q),
    l.eq_of_cmp q zero_amount,
    cmp_neg_zero q,
    l.abs_of_pos q,
    l.abs_of_neg q,
    l.cmp_refl (neg q),
  )
  not_zero_flip Side.sell q a s g = ground (
    arith,
    Signed-side Side.sell a,
    cmp_sub_zero n l q a,
    l.eq_of_cmp q a,
    l.abs_of_pos a,
    l.cmp_refl a,
  )

  -- Nor does a fill from flat.
  not_zero_flat :
      (side : Side) (q a : Amount)
      → cmp a zero_amount ≡ Ordering.gt
      → is_zero n q ≡ true
      → is_zero n (add q (mul (side_sign n side) a)) ≡ false
  not_zero_flat Side.buy q a s z =
      ground
        (arith, Signed-side Side.buy a, l.eq_of_cmp q zero_amount, l.add_comm q a, l.add_zero a)
  not_zero_flat Side.sell q a s z = ground (
    arith,
    Signed-side Side.sell a,
    cmp_sub_zero n l q a,
    l.eq_of_cmp q zero_amount,
    l.cmp_flip a zero_amount,
  )

  abs_pos_or_zero : (q : Amount) → (q ≡ zero_amount) ⊎ (cmp (abs q) zero_amount ≡ Ordering.gt)
  abs_pos_or_zero q =
      ground (arith, l.eq_of_cmp q zero_amount, l.abs_of_pos q, l.abs_of_neg q, cmp_neg_zero q)

  total_pos :
      (q a : Amount)
      → cmp a zero_amount ≡ Ordering.gt
      → cmp (add (abs q) a) zero_amount ≡ Ordering.gt
  total_pos q a h = elim (abs_pos_or_zero q) [
    | inl e ↦ cc (e, l.abs_zero, l.add_comm zero_amount a, l.add_zero a, h)
    | inr g ↦
        l.gt_trans (add (abs q) a) a zero_amount
          (cc (l.cmp_add_right (abs q) zero_amount a, l.add_comm zero_amount a, l.add_zero a, g)) h
  ]

  replay_qty_full :
      (f : Fill n) (b : ReplayBook n) → f.reduce_only ≡ false → replay_qty n f b ≡ f.qty_base
  unfolding replay_qty
  replay_qty_full f b r = ground arith

  replay_fill_full :
      (f : Fill n) (b : ReplayBook n)
      → f.reduce_only ≡ false
      → replay_fill n f b ≡ replay_sized n f.qty_base (mul (side_sign n f.side) f.qty_base) f b
  unfolding replay_fill
  replay_fill_full f b r =
      ap (λ q. replay_sized n q (mul (side_sign n f.side) q) f b) (replay_qty_full f b r)

  abbrev pub Follows : Fill n → Step n → Position n → Position n → Type 0
  Follows f st p p' =
      Matches st.book p'
      × (p'.realized_pnl_quote ≡ sub (add p.realized_pnl_quote st.gross) f.fee_quote)

  sized-Matches :
      (f : Fill n) (b : ReplayBook n) (p : Position n)
      → Matches b p
      → cmp f.qty_base zero_amount ≡ Ordering.gt
      → Follows f
          (replay_sized n f.qty_base (mul (side_sign n f.side) f.qty_base) f b)
          p
          (fill_position n f.side f.qty_base f.fill_price f.fee_quote p)
  unfolding fill_position
  sized-Matches f b p m q = ground (
    arith,
    not_zero_same p.qty_base (mul (side_sign n f.side) f.qty_base),
    not_zero_flip f.side p.qty_base f.qty_base q,
    not_zero_flat f.side p.qty_base f.qty_base q,
    total_pos p.qty_base f.qty_base q,
    l.add_zero p.realized_pnl_quote,
  )

  -- A fill of a positive quantity that is not reduce-only does to a replayed book what it does to the
  -- book of the order manager: if the two match before it, they match after it, and the profit that
  -- the replay adds to the equity, less the fee, is what the order manager realizes.
  pub replay_agrees :
      (f : Fill n) (b : ReplayBook n) (p : Position n)
      → Matches b p
      → f.reduce_only ≡ false
      → cmp f.qty_base zero_amount ≡ Ordering.gt
      → Follows f
          (replay_fill n f b)
          p
          (fill_position n f.side f.qty_base f.fill_price f.fee_quote p)
  replay_agrees f b p m r q =
      subst (λ st. Follows f st p (fill_position n f.side f.qty_base f.fill_price f.fee_quote p))
        (sym (replay_fill_full f b r)) (sized-Matches f b p m q)
