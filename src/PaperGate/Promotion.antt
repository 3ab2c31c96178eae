-- ===== src/PaperGate/Promotion.antt =====
-- When the paper gate passes.
use alpha_mint_x.Base.{true, false, ◌&&◌, ◌≡◌, ◌⊎◌, ◌↔◌, ◌≤◌, List, [], ◌∷◌, length, arith}
use alpha_mint_x.Numbers.{Numbers, greater_than_or_equal, less_than_or_equal, is_zero, is_gt, sign}
use alpha_mint_x.PaperGate.Replay.{Trade, replay}
use alpha_mint_x.PaperGate.Rule.{
  Input, min_window, elapsed, quarter, all_passed, avg_notional, gross_profit, gross_loss,
  conditions_of, cond_min_days, cond_min_closed_trades, cond_min_avg_notional, cond_max_drawdown,
  cond_profit_factor, evaluate_gate,
}

module _ (n : Numbers) where
  open n use {Amount, zero_amount, mul, div, of_int}

  -- A profit without a loss, or a profit of at least the loss.
  abbrev pub Earned : Amount → Amount → Type 0
  Earned gp gl =
      ((is_zero n gl ≡ true) × (is_gt (sign n gp) ≡ true))
      ⊎ ((is_zero n gl ≡ false) × (greater_than_or_equal n (div gp gl) (of_int 1) ≡ true))

  -- The rule of the gate, on the trades and the largest drawdown of the window.
  abbrev pub Qualifies : Input n → List (Trade n) → Amount → Type 0
  Qualifies i ts max_dd =
      (i.window_ok ≡ true)
      × (min_window ≤ elapsed i.now i.window_start)
      × (30 ≤ length ts)
      × (i.limits_ok ≡ true)
      × (is_gt (sign n i.notional_cap) ≡ true)
      × (greater_than_or_equal n (avg_notional n ts) (mul i.notional_cap (quarter n)) ≡ true)
      × (is_gt (sign n i.seed) ≡ true)
      × (is_gt (sign n i.max_drawdown_pct) ≡ true)
      × (less_than_or_equal n max_dd i.max_drawdown_pct ≡ true)
      × Earned (gross_profit n zero_amount ts) (gross_loss n zero_amount ts)

  Qualifies-iff :
      (i : Input n) (ts : List (Trade n)) (max_dd : Amount)
      → ((i.window_ok && all_passed (conditions_of n i ts max_dd)) ≡ true) ↔ Qualifies i ts max_dd
  unfolding cond_min_days cond_min_closed_trades cond_min_avg_notional cond_max_drawdown
      cond_profit_factor
  Qualifies-iff i [] max_dd = ground arith
  Qualifies-iff i (t ∷ ts) max_dd = ground arith

  -- The gate passes exactly when the window qualifies: it is open and 14 days old, holds at least 30
  -- closed trades, of an average closing notional of at least a quarter of the cap, with a drawdown
  -- within the limit and a profit that is not zero and at least the loss, and the limits and the
  -- capital are set.
  pub evaluate_gate_passes :
      (i : Input n)
      → let w = replay n i.fills i.seed in
        ((evaluate_gate n i).passed ≡ true) ↔ Qualifies i w.trades w.max_drawdown
  unfolding evaluate_gate
  evaluate_gate_passes i =
      let w = replay n i.fills i.seed in ground (arith, Qualifies-iff i w.trades w.max_drawdown)
