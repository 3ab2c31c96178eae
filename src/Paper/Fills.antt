-- ===== src/Paper/Fills.antt =====
-- The arithmetic of fills: control-plane/internal/oms/paper/paper.go and `applyFill`,
-- `stopTriggered`, `limitCrossed` of orders.go and ticks.go.
use alpha_mint_x.Base.{
  ℕ, zero, suc, Bool, true, false, ◌||◌, String, Option, none, some, Ordering, if◌then◌else◌,
  Result, ok, err,
}
use alpha_mint_x.Numbers.{
  Numbers, sign, is_zero, is_gt, greater_than, greater_than_or_equal, less_than_or_equal, less_than,
}
use alpha_mint_x.Contract.{Decimal, parse_decimal}
use alpha_mint_x.Paper.Types.{Side, OmsError, Position, FillModel, Oms, find_position, set_position}

module _ (n : Numbers) where
  open n use {
    Amount, zero_amount, of_int, add, sub, mul, div, neg, abs, round, shift_down, last_place,
  }

  abbrev pub one : Amount
  one = of_int 1

  -- `sideSign` and `closeSide`.
  abbrev pub side_sign : Side → Amount
  side_sign Side.buy = one
  side_sign Side.sell = neg one

  abbrev pub close_side : Amount → Side
  close_side qty = if is_gt (sign n qty) then Side.sell else Side.buy

  abbrev pub round8 : Amount → Amount
  round8 d = round 8 d

  abbrev parsed : Option (Decimal n) → Option Amount
  parsed none = none
  parsed (some d) = some d.value

  abbrev with_fees : Amount → Option Amount → Option Amount → Option (FillModel n)
  with_fees slip (some taker) (some maker) =
      some (record { slippage_bps = slip; taker_bps = taker; maker_bps = maker })
  with_fees slip taker maker = none

  abbrev with_slippage : Option Amount → Option Amount → Option Amount → Option (FillModel n)
  with_slippage none taker maker = none
  with_slippage (some slip) taker maker =
      if greater_than_or_equal n slip (of_int 10000) then none else with_fees slip taker maker

  -- `parseFillModel`, from the three texts; `none` is an error.
  unfoldable pub parse_fill_model : String → String → String → Option (FillModel n)
  parse_fill_model slip taker maker =
      with_slippage (parsed (parse_decimal n slip)) (parsed (parse_decimal n taker))
        (parsed (parse_decimal n maker))

  -- The loop of `qtyForNotional`, with fuel: a step down while the notional is above the size.
  unfoldable pub step_down : ℕ → Amount → Amount → Amount → Option Amount
  step_down zero size price qty = none
  step_down (suc f) size price qty =
      let rest = step_down f size price (sub qty (last_place 8)) in
      if greater_than n (mul qty price) size then rest else some qty

  abbrev positive_qty : Option Amount → Result OmsError Amount
  positive_qty none = err OmsError.out_of_rounds
  positive_qty (some qty) = if is_gt (sign n qty) then ok qty else err OmsError.qty_rounds_to_zero

  -- `qtyForNotional`. Two rounds are fuel enough: see `Paper.Sizing`.
  unfoldable pub qty_for_notional : Amount → Amount → Result OmsError Amount
  unfolding step_down
  qty_for_notional size price = positive_qty (step_down 2 size price (round8 (div size price)))

  -- `slippedPrice`.
  unfoldable pub slipped_price : FillModel n → Side → Amount → Amount
  slipped_price fill Side.buy mark = round8 (mul mark (add one (shift_down 4 fill.slippage_bps)))
  slipped_price fill Side.sell mark = round8 (mul mark (sub one (shift_down 4 fill.slippage_bps)))

  -- `feeQuote`.
  unfoldable pub fee_quote : Amount → Amount → Amount → Amount
  fee_quote qty price bps = round8 (mul (mul qty price) (shift_down 4 bps))

  -- `stopTriggered` and `limitCrossed`.
  abbrev pub stop_triggered : Side → Amount → Amount → Bool
  stop_triggered Side.sell mark stop = less_than_or_equal n mark stop
  stop_triggered Side.buy mark stop = greater_than_or_equal n mark stop

  abbrev pub limit_crossed : Side → Amount → Amount → Bool
  limit_crossed Side.buy mark limit = less_than_or_equal n mark limit
  limit_crossed Side.sell mark limit = greater_than_or_equal n mark limit

  abbrev pub same_sign : Ordering → Ordering → Bool
  same_sign Ordering.lt Ordering.lt = true
  same_sign Ordering.eq Ordering.eq = true
  same_sign Ordering.gt Ordering.gt = true
  same_sign _ _ = false

  -- `decimal.NewFromInt(int64(qty.Sign()))`.
  abbrev pub sign_amount : Ordering → Amount
  sign_amount Ordering.lt = neg one
  sign_amount Ordering.eq = zero_amount
  sign_amount Ordering.gt = one

  -- `decimal.Min`: the first, unless the second is less.
  abbrev pub min_amount : Amount → Amount → Amount
  min_amount a b = if less_than n b a then b else a

  -- The profit on the part that a fill closes.
  abbrev pub closed_gross : Position n → Amount → Amount → Amount
  closed_gross p qty price = round8 (
      mul (mul (sub price p.entry_price) (min_amount qty (abs p.qty_base)))
        (sign_amount (sign n p.qty_base)))

  -- The entry price and the realized profit after a fill, before its fee.
  abbrev revalued : Position n → Amount → Amount → Amount → Position n
  revalued p delta qty price =
      if is_zero n p.qty_base || same_sign (sign n p.qty_base) (sign n delta)
      then record p {
        entry_price =
            div (add (mul p.entry_price (abs p.qty_base)) (mul price qty))
              (add (abs p.qty_base) qty);
      }
      else record p {
        entry_price = if greater_than n qty (abs p.qty_base) then price else p.entry_price;
        realized_pnl_quote = add p.realized_pnl_quote (closed_gross p qty price);
      }

  -- The fees restart where a position opens from flat.
  abbrev fresh_lifecycle : Position n → Position n
  fresh_lifecycle p = if is_zero n p.qty_base then record p { fees_quote = zero_amount } else p

  abbrev settled : Position n → Amount → Amount → Position n
  settled p delta fee =
      let q = add p.qty_base delta in
      record p {
        fees_quote = add p.fees_quote fee;
        realized_pnl_quote = sub p.realized_pnl_quote fee;
        qty_base = q;
        entry_price = if is_zero n q then zero_amount else p.entry_price;
      }

  -- `applyFill` on the position itself.
  unfoldable pub fill_position : Side → Amount → Amount → Amount → Position n → Position n
  fill_position side qty price fee p =
      let delta = mul (side_sign side) qty in
      settled (revalued (fresh_lifecycle p) delta qty price) delta fee

  abbrev pub flat_position : String → Position n
  flat_position sym = record {
    symbol = sym;
    qty_base = zero_amount;
    entry_price = zero_amount;
    fees_quote = zero_amount;
    realized_pnl_quote = zero_amount;
  }

  abbrev pub position_or_flat : String → Option (Position n) → Position n
  position_or_flat sym none = flat_position sym
  position_or_flat sym (some p) = p

  -- `applyFill`: a missing book starts flat.
  unfoldable pub apply_fill : String → String → Side → Amount → Amount → Amount → Oms n → Oms n
  unfolding fill_position
  apply_fill s sym side qty price fee o = record o {
    positions =
        set_position n s
          (fill_position side qty price fee
            (position_or_flat sym (find_position n s sym o.positions)))
          o.positions;
  }
