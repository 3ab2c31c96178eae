-- ===== src/PaperGate/Rule.antt =====
-- control-plane/internal/papergate/papergate.go, and the conditions of replay.go: the report of the
-- gate. An instant is a number of nanoseconds; a time in a report is its instant, not its text.
use alpha_mint_x.Base.{
  ℕ, String, Bool, true, false, ◌&&◌, ◌||◌, not, Option, none, some, List, [], ◌∷◌, ◌*◌, ◌/◌,
  length, leb, if◌then◌else◌,
}
use alpha_mint_x.Base.Int.{ℤ, pos_part, ◌-ℤ◌}
use alpha_mint_x.Numbers.{Numbers, greater_than_or_equal, less_than_or_equal, is_zero, is_gt, sign}
use alpha_mint_x.Gate.{second}
use alpha_mint_x.PaperGate.Replay.{Fill, Trade, replay}

pub data ConditionName : Type 0 where
  min_days min_closed_trades min_avg_notional max_drawdown profit_factor : ConditionName

pub record Condition : Type 0 where
  pub name : ConditionName
  pub passed : Bool
  pub measured : String
  pub required : String

pub record Report : Type 0 where
  pub passed : Bool
  pub window_started_at : Option ℤ
  pub evaluated_at : ℤ
  pub conditions : List Condition

-- `minWindow` and `minTrades`.
abbrev pub min_window : ℕ
min_window = 14 * 24 * 3600 * second

abbrev pub min_trades : ℕ
min_trades = 30

abbrev unmet : ConditionName → Condition
unmet name = record { name = name; passed = false; measured = "0"; required = "0" }

-- The age of the window, at least zero.
abbrev pub elapsed : ℤ → ℤ → ℕ
elapsed now start = pos_part (now -ℤ start)

abbrev pub all_passed : List Condition → Bool
all_passed [] = true
all_passed (c ∷ cs) = c.passed && all_passed cs

module _ (n : Numbers) where
  open n use {Amount, zero_amount, add, mul, div, neg, of_int, text}

  pub record Input : Type 0 where
    pub window_ok : Bool
    pub window_start : ℤ
    pub now : ℤ
    pub fills : List (Fill n)
    pub limits_ok : Bool
    pub notional_cap : Amount
    pub max_drawdown_pct : Amount
    pub seed : Amount

  -- The constant 0.25.
  abbrev pub quarter : Amount
  quarter = div (of_int 1) (of_int 4)

  unfoldable pub cond_min_days : Input → Condition
  cond_min_days i = record {
    name = ConditionName.min_days;
    passed = leb min_window (elapsed i.now i.window_start);
    measured = text (div (of_int (elapsed i.now i.window_start / second)) (of_int 86400));
    required = "14";
  }

  unfoldable pub cond_min_closed_trades : List (Trade n) → Condition
  cond_min_closed_trades ts = record {
    name = ConditionName.min_closed_trades;
    passed = leb min_trades (length ts);
    measured = text (of_int (length ts));
    required = text (of_int min_trades);
  }

  unfoldable pub total_notional : Amount → List (Trade n) → Amount
  total_notional sum [] = sum
  total_notional sum (t ∷ ts) = total_notional (add sum t.closing_notional) ts

  abbrev pub avg_notional : List (Trade n) → Amount
  avg_notional ts = div (total_notional zero_amount ts) (of_int (length ts))

  abbrev required_of : Bool → Amount → String
  required_of ok a = if ok then text a else "0"

  abbrev pub cap_ok : Input → Bool
  cap_ok i = i.limits_ok && is_gt (sign n i.notional_cap)

  unfoldable pub cond_min_avg_notional : Input → List (Trade n) → Condition
  cond_min_avg_notional i [] = record {
    name = ConditionName.min_avg_notional;
    passed = false;
    measured = "0";
    required = required_of (cap_ok i) (mul i.notional_cap quarter);
  }
  cond_min_avg_notional i (t ∷ ts) = record {
    name = ConditionName.min_avg_notional;
    passed =
        cap_ok i && greater_than_or_equal n (avg_notional (t ∷ ts)) (mul i.notional_cap quarter);
    measured = text (avg_notional (t ∷ ts));
    required = required_of (cap_ok i) (mul i.notional_cap quarter);
  }

  abbrev is_empty : List (Trade n) → Bool
  is_empty [] = true
  is_empty (t ∷ ts) = false

  abbrev pub drawdown_ok : Input → Bool
  drawdown_ok i = i.limits_ok && is_gt (sign n i.max_drawdown_pct)

  unfoldable pub cond_max_drawdown : Input → List (Trade n) → Amount → Condition
  cond_max_drawdown i ts max_dd =
      if is_empty ts || not (is_gt (sign n i.seed))
      then record {
        name = ConditionName.max_drawdown;
        passed = false;
        measured = "0";
        required = required_of (drawdown_ok i) i.max_drawdown_pct;
      }
      else record {
        name = ConditionName.max_drawdown;
        passed = drawdown_ok i && less_than_or_equal n max_dd i.max_drawdown_pct;
        measured = text max_dd;
        required = required_of (drawdown_ok i) i.max_drawdown_pct;
      }

  -- The gross profit and the gross loss.
  unfoldable pub gross_profit : Amount → List (Trade n) → Amount
  gross_profit gp [] = gp
  gross_profit gp (t ∷ ts) = gross_profit (if is_gt (sign n t.pnl) then add gp t.pnl else gp) ts

  unfoldable pub gross_loss : Amount → List (Trade n) → Amount
  gross_loss gl [] = gl
  gross_loss gl (t ∷ ts) = gross_loss (if is_gt (sign n t.pnl) then gl else add gl (neg t.pnl)) ts

  abbrev factor_condition : Bool → String → Condition
  factor_condition ok measured = record {
    name = ConditionName.profit_factor;
    passed = ok;
    measured = measured;
    required = text (of_int 1);
  }

  abbrev pub factor_of : Amount → Amount → Condition
  factor_of gp gl =
      if is_zero n gl && is_gt (sign n gp)
      then factor_condition true (text gp)
      else if is_zero n gl
      then factor_condition false "0"
      else factor_condition (greater_than_or_equal n (div gp gl) (of_int 1)) (text (div gp gl))

  unfoldable pub cond_profit_factor : List (Trade n) → Condition
  cond_profit_factor [] = factor_condition false "0"
  cond_profit_factor (t ∷ ts) =
      factor_of (gross_profit zero_amount (t ∷ ts)) (gross_loss zero_amount (t ∷ ts))

  abbrev pub conditions_of : Input → List (Trade n) → Amount → List Condition
  conditions_of i ts max_dd =
      cond_min_days i
      ∷ cond_min_closed_trades ts
      ∷ cond_min_avg_notional i ts
      ∷ cond_max_drawdown i ts max_dd
      ∷ cond_profit_factor ts
      ∷ []

  -- `Evaluate`.
  unfoldable pub evaluate_gate : Input → Report
  evaluate_gate i =
      let w = replay n i.fills i.seed in
      if i.window_ok
      then record {
        passed = all_passed (conditions_of i w.trades w.max_drawdown);
        window_started_at = some i.window_start;
        evaluated_at = i.now;
        conditions = conditions_of i w.trades w.max_drawdown;
      }
      else record {
        passed = false;
        window_started_at = none;
        evaluated_at = i.now;
        conditions =
            unmet ConditionName.min_days
            ∷ unmet ConditionName.min_closed_trades
            ∷ unmet ConditionName.min_avg_notional
            ∷ unmet ConditionName.max_drawdown
            ∷ unmet ConditionName.profit_factor
            ∷ [];
      }
