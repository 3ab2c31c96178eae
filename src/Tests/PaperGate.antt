-- ===== src/Tests/PaperGate.antt =====
-- The paper gate on concrete fills (control-plane/internal/papergate).
use alpha_mint_x.Base.{ℕ, zero, suc, ◌*◌, ◌≡◌, ◌↔◌, refl, true, false, List, [], ◌∷◌}
use alpha_mint_x.Base.Int.{pos, ◌-ℤ◌, ◌+ℤ◌}
use alpha_mint_x.Numbers.Whole.{whole, whole-Laws}
use alpha_mint_x.Gate.{second}
use alpha_mint_x.Paper.{Side, flat_position, fill_position}
use alpha_mint_x.PaperGate.{
  Fill, flat_book, replay_fill, replay, Input, evaluate_gate, walk_fills, walk_fill, replay_qty,
  set_book, find_book, cond_min_days, cond_min_closed_trades, cond_min_avg_notional,
  cond_max_drawdown, cond_profit_factor, gross_profit, gross_loss, total_notional,
}
use alpha_mint_x.PaperGate.Agreement.{Follows, replay_agrees}
use alpha_mint_x.PaperGate.Promotion.{Qualifies, evaluate_gate_passes}

abbrev buy : Fill whole
buy = record {
  symbol = "BTC/USDT";
  side = Side.buy;
  reduce_only = false;
  qty_base = pos 5;
  fill_price = pos 100;
  fee_quote = pos 1;
}

abbrev sell : Fill whole
sell = record buy { side = Side.sell; reduce_only = true; fill_price = pos 110 }

abbrev rounds : ℕ → List (Fill whole)
rounds zero = []
rounds (suc k) = buy ∷ sell ∷ rounds k

abbrev window : Input whole
window = record {
  window_ok = true;
  window_start = pos 0;
  now = pos (15 * 24 * 3600 * second);
  fills = rounds 30;
  limits_ok = true;
  notional_cap = pos 600;
  max_drawdown_pct = pos 20;
  seed = pos 1000;
}

passes : (evaluate_gate whole window).passed ≡ true
unfolding evaluate_gate replay walk_fills walk_fill replay_fill replay_qty set_book find_book
    cond_min_days cond_min_closed_trades cond_min_avg_notional cond_max_drawdown cond_profit_factor
    total_notional gross_profit gross_loss ◌-ℤ◌ ◌+ℤ◌
passes = refl

replay_agrees_example :
    Follows whole whole-Laws buy
      (replay_fill whole buy (flat_book whole))
      (flat_position whole "BTC/USDT")
      (fill_position whole Side.buy (pos 5) (pos 100) (pos 1) (flat_position whole "BTC/USDT"))
replay_agrees_example =
    replay_agrees whole whole-Laws buy (flat_book whole) (flat_position whole "BTC/USDT")
      (refl, refl) refl refl

evaluate_gate_passes_example :
    ((evaluate_gate whole window).passed ≡ true)
    ↔ Qualifies whole window
        (replay whole (rounds 30) (pos 1000)).trades
        (replay whole (rounds 30) (pos 1000)).max_drawdown
evaluate_gate_passes_example = evaluate_gate_passes whole window
