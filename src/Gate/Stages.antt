-- ===== src/Gate/Stages.antt =====
-- What each part of the gate lets through: one equivalence for each, which the theorems on whole
-- verdicts put together.
use alpha_mint_x.Base.{
  ◌≡◌, refl, ◌↔◌, Bool, true, false, Option, none, some, List, [], ◌∷◌, String, eq_iff, arith,
  Ordering, Any,
}
use alpha_mint_x.Base.Int.{leb_ℤ, ◌+ℤ◌}
use alpha_mint_x.Numbers.{Numbers, greater_than, less_than, is_zero}
use alpha_mint_x.Contract.{is_open, Decision, Decimal, Proposal, check_stop_and_target}
use alpha_mint_x.Gate.Types.{RiskLimits, RuntimeState, entry_price}
use alpha_mint_x.Gate.Checks.{
  contains, daily_loss, drawdown_breached, stop_distance_pct, check_stop, check_open,
}
use alpha_mint_x.Gate.Evaluate.{evaluate_size, evaluate_rate, is_close, evaluate_order, worst_of}

pub contains_iff : (xs : List String) (s : String) → (contains xs s ≡ true) ↔ Any (λ x. x ≡ s) xs
unfolding contains
contains_iff [] s = ground arith
contains_iff (x ∷ xs) s = ground (arith, eq_iff x s, contains_iff xs s)

abbrev pub is_reject : Decision → Bool
is_reject Decision.reject = true
is_reject _ = false

module _ (n : Numbers) where
  open n use {Amount, add, less, low_confidence, cmp, zero_amount}

  -- The conditions of steps 9 and 10.
  abbrev pub HasRoom : RiskLimits n → RuntimeState n → Type 0
  HasRoom limits state =
      (leb_ℤ limits.max_open_positions
          (state.open_positions_count +ℤ state.pending_entry_orders_count)
        ≡ false)
      × (is_zero n limits.per_position_notional_cap_quote ≡ false)

  pub evaluate_size_iff :
      (p : Proposal n) (limits : RiskLimits n) (state : RuntimeState n)
      → (is_reject (evaluate_size n p limits state).decision ≡ false) ↔ HasRoom limits state
  unfolding evaluate_size
  evaluate_size_iff p limits state = ground arith

  -- The condition of step 8.
  abbrev pub HasToken : RiskLimits n → RuntimeState n → Type 0
  HasToken limits state =
      leb_ℤ limits.max_orders_per_minute state.entry_orders_in_last_minute ≡ false

  -- Step 7: the stop is placed, its distance is in the band, and the loss at it is bounded.
  abbrev pub StopHolds : Proposal n → RiskLimits n → Amount → Amount → Amount → Type 0
  StopHolds p limits entry worst stop =
      (check_stop_and_target n p.action entry stop p.take_profit ≡ [])
      × (less_than n (stop_distance_pct n entry stop) limits.min_stop_distance_pct ≡ false)
      × (greater_than n (stop_distance_pct n entry stop) limits.max_stop_distance_pct ≡ false)
      × (greater_than n worst limits.max_loss_at_stop_quote ≡ false)

  pub check_stop_iff :
      (p : Proposal n) (limits : RiskLimits n) (entry worst stop : Amount)
      → (check_stop n p limits entry worst stop ≡ none) ↔ StopHolds p limits entry worst stop
  unfolding check_stop
  check_stop_iff p limits entry worst stop = ground arith

  abbrev StopLossHolds : Proposal n → RiskLimits n → Amount → Amount → Option (Decimal n) → Type 0
  StopLossHolds p limits entry worst none = limits.require_stop_loss ≡ false
  StopLossHolds p limits entry worst (some stop) = StopHolds p limits entry worst stop.value

  -- The conditions of steps 4 to 7 and of the low-confidence rule.
  abbrev pub OpenHolds : Proposal n → RiskLimits n → RuntimeState n → Amount → Amount → Type 0
  OpenHolds p limits state entry worst =
      (less p.confidence low_confidence ≡ false)
      × (state.breaker_active ≡ false)
      × (cmp (add (daily_loss n state) worst) limits.daily_loss_limit_quote ≡ Ordering.lt)
      × (drawdown_breached n limits state ≡ false)
      × Any (λ x. x ≡ p.symbol) limits.symbol_whitelist
      × StopLossHolds p limits entry worst p.stop_loss

  pub check_open_iff :
      (p : Proposal n) (limits : RiskLimits n) (state : RuntimeState n) (entry worst : Amount)
      → (check_open n p limits state entry worst ≡ none) ↔ OpenHolds p limits state entry worst
  unfolding check_open
  check_open_iff p limits state entry worst = go p.stop_loss refl
    where
      go :
          (stop : Option (Decimal n))
          → p.stop_loss ≡ stop
          → (check_open n p limits state entry worst ≡ none) ↔ OpenHolds p limits state entry worst
      go none e = ground (arith, contains_iff limits.symbol_whitelist p.symbol)
      go (some stop) e = ground (
        arith,
        contains_iff limits.symbol_whitelist p.symbol,
        check_stop_iff p limits entry worst stop.value,
      )

  pub evaluate_rate_iff :
      (p : Proposal n) (limits : RiskLimits n) (state : RuntimeState n)
      → is_close p.action ≡ false
      → (is_reject (evaluate_rate n p limits state).decision ≡ false)
        ↔ (HasToken limits state × HasRoom limits state)
  unfolding evaluate_rate
  evaluate_rate_iff p limits state h = ground (arith, evaluate_size_iff p limits state)

  -- What an opening proposal has to meet from step 3 on.
  abbrev pub OrderHolds : Proposal n → RiskLimits n → RuntimeState n → Type 0
  OrderHolds p limits state =
      (cmp (entry_price n p state) zero_amount ≡ Ordering.gt)
      × OpenHolds p limits state (entry_price n p state) (worst_of n p state)
      × HasToken limits state
      × HasRoom limits state

  pub evaluate_order_iff :
      (p : Proposal n) (limits : RiskLimits n) (state : RuntimeState n)
      → is_open p.action ≡ true
      → (is_reject (evaluate_order n p limits state).decision ≡ false) ↔ OrderHolds p limits state
  unfolding evaluate_order
  evaluate_order_iff p limits state h = ground (
    arith,
    check_open_iff p limits state (entry_price n p state) (worst_of n p state),
    evaluate_rate_iff p limits state,
  )
