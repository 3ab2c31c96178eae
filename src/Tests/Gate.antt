-- ===== src/Tests/Gate.antt =====
-- The theorems on verdicts at concrete proposals (control-plane/internal/riskgate).
use alpha_mint_x.Base.{◌≡◌, refl, ◌↔◌, true, false, none, some, [], ◌∷◌}
use alpha_mint_x.Base.Int.{ℤ, pos, ◌+ℤ◌, ◌-ℤ◌}
use alpha_mint_x.Numbers.Whole.{whole}
use alpha_mint_x.Contract.{
  validate_order_fields, Action, EntryType, TimeInForce, Signal, Decision, Decimal, AnalystSummary,
  Proposal, validate, matches_uuid, matches_symbol, check_stop_and_target,
}
use alpha_mint_x.Gate.{
  Autonomy, RiskLimits, RuntimeState, entry_price, worst_case, check_open, check_envelope, evaluate,
  effective_size, is_l2, evaluate_standing, evaluate_order, evaluate_rate, evaluate_size,
  check_stop,
}
use alpha_mint_x.Gate.Stages.{is_reject, OrderHolds, HasToken}
use alpha_mint_x.Contract.Rules.{EntryHolds, ActionHolds, LimitPlaced, validate_order_fields_iff}
use alpha_mint_x.Gate.Open.{Stands, open_cleared_iff, Protects, open_protected}
use alpha_mint_x.Gate.Verdicts.{
  WellFormed, verdict-WellFormed, SizeRule, MustEscalate, open_size_bounded, close_exempt_iff,
  KillReasons, kill_refuses_all,
}

abbrev pub price : ℤ → Decimal whole
price d = record { value = d; raw = "" }

abbrev pub opinion : AnalystSummary whole
opinion = record { signal = Signal.bullish; confidence = 70; summary = "trend" }

-- Opens a long position of 1000 at 100 with the stop at 95.
abbrev pub long : Proposal whole
long = record {
  version = "1.0";
  proposal_id = "0123abcd-0000-4000-8000-00000000000a";
  strategy_id = "0123abcd-0000-4000-8000-00000000000b";
  agent_trace_id = "0123abcd-0000-4000-8000-00000000000c";
  created_at = record { instant = pos 1000; raw = "2026-01-01T00:00:00Z" };
  symbol = "BTC/USDT";
  action = Action.open_long;
  size_quote = price (pos 1000);
  entry = record { entry_type = EntryType.limit; limit_price = some (price (pos 100)) };
  stop_loss = some (price (pos 95));
  take_profit = some (price (pos 120));
  time_in_force = TimeInForce.gtc;
  confidence = 80;
  reasoning = "breakout";
  analyst_summaries = record { market = opinion; news = opinion; fundamental = opinion };
  debate_summary = "agreed";
  model_costs = [];
}

abbrev pub exit : Proposal whole
exit = record long {
  action = Action.close;
  entry = record { entry_type = EntryType.market; limit_price = none };
  stop_loss = none;
  take_profit = none;
}

abbrev wait : Proposal whole
wait = record exit { action = Action.hold; size_quote = price (pos 0) }

abbrev pub limits : RiskLimits whole
limits = record {
  symbol_whitelist = "ETH/USDT" ∷ "BTC/USDT" ∷ [];
  max_open_positions = pos 3;
  per_position_notional_cap_quote = pos 600;
  daily_loss_limit_quote = pos 200;
  max_drawdown_pct = pos 20;
  max_loss_at_stop_quote = pos 50;
  min_stop_distance_pct = pos 1;
  max_stop_distance_pct = pos 10;
  max_orders_per_minute = pos 5;
  require_stop_loss = true;
  allocated_capital_quote = pos 10000;
  accounting_quote = "USDT";
  staleness_threshold_seconds = pos 0;
  l1_approval_timeout_seconds = pos 600;
  l2_envelope = some (record { max_size_quote = pos 700; allowed_symbols = "BTC/USDT" ∷ [] });
}

abbrev pub state : RuntimeState whole
state = record {
  kill_active = false;
  kill_epoch = pos 1;
  breaker_active = false;
  autonomy = Autonomy.l2;
  equity_quote = pos 9000;
  peak_equity_quote = pos 10000;
  daily_realized_pnl_quote = pos 0 -ℤ pos 40;
  reserved_worst_case_quote = pos 10;
  open_positions_count = pos 1;
  pending_entry_orders_count = pos 1;
  entry_orders_in_last_minute = pos 2;
  mark_price = pos 101;
  est_taker_fee_rate = pos 0;
}

abbrev killed : RuntimeState whole
killed = record state { kill_active = true }

-- The size is above the cap, and within the envelope once it is clipped.
long_clipped :
    (evaluate whole long limits state "v" (pos 2000)).clipped_size_quote ≡ some (price (pos 600))
unfolding evaluate evaluate_standing evaluate_order evaluate_rate evaluate_size check_open
    check_stop check_envelope entry_price worst_case validate matches_uuid matches_symbol
    check_stop_and_target ◌-ℤ◌ ◌+ℤ◌
long_clipped = refl

long_passes : is_reject (evaluate whole long limits state "v" (pos 2000)).decision ≡ false
unfolding evaluate evaluate_standing evaluate_order evaluate_rate evaluate_size check_open
    check_stop check_envelope entry_price worst_case validate matches_uuid matches_symbol
    check_stop_and_target ◌-ℤ◌ ◌+ℤ◌
long_passes = refl

open_cleared_iff_example :
    (is_reject (evaluate whole long limits state "v" (pos 2000)).decision ≡ false)
    ↔ (Stands whole long limits state (pos 2000) × OrderHolds whole long limits state)
open_cleared_iff_example = open_cleared_iff whole long limits state "v" (pos 2000) refl

open_protected_example : Protects whole long limits state long.stop_loss
open_protected_example = open_protected whole long limits state "v" (pos 2000) refl long_passes

verdict-WellFormed_example :
    let v = evaluate whole long limits killed "v" (pos 2000) in
    WellFormed whole v.decision v.clipped_size_quote v.reasons
verdict-WellFormed_example = verdict-WellFormed whole long limits killed "v" (pos 2000)

open_size_bounded_example :
    let v = evaluate whole long limits state "v" (pos 2000) in
    SizeRule whole v.decision v.clipped_size_quote long.size_quote.value
      limits.per_position_notional_cap_quote
    × ((v.decision ≡ Decision.escalate)
        ↔ MustEscalate whole
            (is_l2 state.autonomy)
            limits.l2_envelope
            long.symbol
            (effective_size whole long limits))
open_size_bounded_example =
    open_size_bounded whole long limits state "v" (pos 2000) refl long_passes

close_exempt_iff_example :
    ((evaluate whole exit limits state "v" (pos 2000)).decision ≡ Decision.approve)
    ↔ (Stands whole exit limits state (pos 2000) × HasToken whole limits state)
close_exempt_iff_example = close_exempt_iff whole exit limits state "v" (pos 2000) refl

kill_refuses_all_example :
    let v = evaluate whole exit limits killed "v" (pos 2000) in
    (v.decision ≡ Decision.reject) × KillReasons whole exit v.reasons
kill_refuses_all_example = kill_refuses_all whole exit limits killed "v" (pos 2000) refl

validate_order_fields_iff_example : (validate_order_fields whole long ≡ []) ↔ (
    EntryHolds whole long.entry.entry_type long.entry.limit_price
    × ActionHolds whole long.action long.size_quote.value long.stop_loss long.take_profit
    × LimitPlaced whole long.action long.entry.entry_type long.entry.limit_price long.stop_loss
        long.take_profit)
validate_order_fields_iff_example = validate_order_fields_iff whole long
