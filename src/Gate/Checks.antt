-- ===== src/Gate/Checks.antt =====
-- control-plane/internal/riskgate/checks.go: the checks that only an opening proposal is put to
-- (steps 4 to 7), and the envelope of step 11. A reason is its code.
use alpha_mint_x.Base.{
  Bool, true, false, ◌&&◌, ◌||◌, not, String, Option, none, some, List, [], ◌∷◌, ◌=ₛ◌,
  if◌then◌else◌,
}
use alpha_mint_x.Numbers.{
  Numbers, less_than, greater_than, greater_than_or_equal, sign, is_lt, is_gt,
}
use alpha_mint_x.Contract.{Code, Decimal, Proposal, check_stop_and_target}
use alpha_mint_x.Gate.Types.{is_l2, L2Envelope, RiskLimits, RuntimeState, hundred}

-- `slices.Contains`.
unfoldable pub contains : List String → String → Bool
contains [] s = false
contains (x ∷ xs) s = x =ₛ s || contains xs s

abbrev first_code : List Code → Option Code → Option Code
first_code [] rest = rest
first_code (c ∷ cs) rest = some c

module _ (n : Numbers) where
  open n use {Amount, add, sub, mul, div, neg, abs, zero_amount, less, low_confidence}

  -- Today's loss with the reserved exposure, before the order.
  abbrev pub daily_loss : RuntimeState n → Amount
  daily_loss state =
      add
        (if is_lt (sign n state.daily_realized_pnl_quote)
          then neg state.daily_realized_pnl_quote
          else zero_amount)
        state.reserved_worst_case_quote

  -- `(peak - equity) * 100 > max_drawdown_pct * peak`, for a positive peak.
  abbrev pub drawdown_breached : RiskLimits n → RuntimeState n → Bool
  drawdown_breached limits state =
      is_gt (sign n state.peak_equity_quote)
      && greater_than n (mul (sub state.peak_equity_quote state.equity_quote) (hundred n))
          (mul limits.max_drawdown_pct state.peak_equity_quote)

  -- The distance of the stop, in percent of the entry price.
  abbrev pub stop_distance_pct : Amount → Amount → Amount
  stop_distance_pct entry stop = div (mul (abs (sub entry stop)) (hundred n)) entry

  -- Step 7, once the stop is known.
  unfoldable pub check_stop : Proposal n → RiskLimits n → Amount → Amount → Amount → Option Code
  check_stop p limits entry worst stop =
      first_code (check_stop_and_target n p.action entry stop p.take_profit) (
        if less_than n (stop_distance_pct entry stop) limits.min_stop_distance_pct
          || greater_than n (stop_distance_pct entry stop) limits.max_stop_distance_pct
        then some Code.invalid_stop_placement
        else if greater_than n worst limits.max_loss_at_stop_quote
        then some Code.risk_per_trade_exceeded
        else none)

  -- Step 7.
  abbrev check_stop_loss :
      Proposal n → RiskLimits n → Amount → Amount → Option (Decimal n) → Option Code
  check_stop_loss p limits entry worst none =
      if limits.require_stop_loss then some Code.missing_stop_loss else none
  check_stop_loss p limits entry worst (some stop) = check_stop p limits entry worst stop.value

  -- `checkOpen`: the first reason to refuse an opening proposal.
  unfoldable pub check_open :
      Proposal n → RiskLimits n → RuntimeState n → Amount → Amount → Option Code
  unfolding contains
  check_open p limits state entry worst =
      if less p.confidence low_confidence
      then some Code.low_confidence
      else if state.breaker_active
      then some Code.daily_loss_limit_breached
      else if greater_than_or_equal n (add (daily_loss state) worst) limits.daily_loss_limit_quote
      then some Code.daily_loss_limit_breached
      else if drawdown_breached limits state
      then some Code.max_drawdown_breached
      else if not (contains limits.symbol_whitelist p.symbol)
      then some Code.symbol_not_whitelisted
      else check_stop_loss p limits entry worst p.stop_loss

  abbrev check_within : String → Amount → L2Envelope n → Option Code
  check_within symbol size env =
      if greater_than n size env.max_size_quote
      then some Code.escalated_above_envelope
      else if not (contains env.allowed_symbols symbol)
      then some Code.escalated_above_envelope
      else none

  abbrev check_some_envelope : Bool → Option (L2Envelope n) → String → Amount → Option Code
  check_some_envelope true (some env) symbol size = check_within symbol size env
  check_some_envelope applies env symbol size = none

  -- `checkEnvelope`.
  unfoldable pub check_envelope : Proposal n → RiskLimits n → RuntimeState n → Amount → Option Code
  unfolding contains
  check_envelope p limits state size =
      check_some_envelope (is_l2 state.autonomy) limits.l2_envelope p.symbol size
