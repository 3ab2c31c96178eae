-- ===== src/Gate/Evaluate.antt =====
-- control-plane/internal/riskgate/evaluate.go. The identifier that `uuid.NewString` makes for the
-- verdict is the argument `fresh`; times are nanoseconds. `evaluate` is cut where the source has its
-- steps 3 and 9, so that each part has a few tests.
use alpha_mint_x.Base.{
  ℕ, ◌*◌, Bool, true, false, ◌&&◌, not, String, Option, none, some, List, [], ◌∷◌, ◌=ₛ◌,
  if◌then◌else◌,
}
use alpha_mint_x.Base.Int.{ℤ, pos, pos_part, ltb_ℤ, leb_ℤ, ◌+ℤ◌, ◌-ℤ◌}
use alpha_mint_x.Numbers.{Numbers, greater_than, sign, is_gt, is_zero}
use alpha_mint_x.Contract.{
  Code, Action, is_open, Decision, schema_version, Decimal, new_decimal, Proposal, Verdict,
  validate,
}
use alpha_mint_x.Gate.Types.{
  default_staleness_threshold_seconds, future_skew_tolerance_seconds, second, RiskLimits,
  RuntimeState, entry_price, worst_case, snapshot,
}
use alpha_mint_x.Gate.Checks.{check_open, check_envelope}

abbrev pub is_hold : Action → Bool
is_hold Action.hold = true
is_hold _ = false

abbrev pub is_close : Action → Bool
is_close Action.close = true
is_close _ = false

-- The threshold in force: a value that is not positive means the default.
abbrev pub staleness_seconds : ℤ → ℕ
staleness_seconds t = if leb_ℤ t (pos 0) then default_staleness_threshold_seconds else pos_part t

-- `now - created > threshold`, and `created - now > 5 s`.
abbrev pub is_stale : ℤ → ℤ → ℤ → Bool
is_stale threshold created now = ltb_ℤ (pos (staleness_seconds threshold * second)) (now -ℤ created)

abbrev pub is_future : ℤ → ℤ → Bool
is_future created now = ltb_ℤ (pos (future_skew_tolerance_seconds * second)) (created -ℤ now)

module _ (n : Numbers) where
  open n use {Amount, zero_amount}

  -- What `build` is given besides the proposal, the limits, the state and the clock: the decision,
  -- the clipped size and the reasons.
  pub record Outcome : Type 0 where
    pub decision : Decision
    pub clipped : Option (Decimal n)
    pub reasons : List Code

  -- `approve` and `reject`.
  abbrev pub approved : Outcome
  approved = record { decision = Decision.approve; clipped = none; reasons = [] }

  abbrev pub rejected : List Code → Outcome
  rejected cs = record { decision = Decision.reject; clipped = none; reasons = cs }

  -- `build`.
  unfoldable pub build :
      Proposal n → Outcome → RiskLimits n → RuntimeState n → String → ℤ → Verdict n
  build p o limits state fresh now = record {
    version = schema_version;
    verdict_id = fresh;
    proposal_id = p.proposal_id;
    decision = o.decision;
    clipped_size_quote = o.clipped;
    reasons = o.reasons;
    limits_snapshot = snapshot n limits state;
    evaluated_at = now;
  }

  -- The worst case of an opening proposal with a stop; zero for any other.
  abbrev worst_at : Bool → Option (Decimal n) → Amount → Amount → Amount → Amount
  worst_at true (some stop) size entry fee = worst_case n size entry stop.value fee
  worst_at opens stop size entry fee = zero_amount

  abbrev pub worst_of : Proposal n → RuntimeState n → Amount
  worst_of p state =
      worst_at (is_open p.action) p.stop_loss p.size_quote.value (entry_price n p state)
        state.est_taker_fee_rate

  -- The post-clip effective size of step 10.
  abbrev pub effective_size : Proposal n → RiskLimits n → Amount
  effective_size p limits =
      if greater_than n p.size_quote.value limits.per_position_notional_cap_quote
      then limits.per_position_notional_cap_quote
      else p.size_quote.value

  abbrev pub is_clipped : Proposal n → RiskLimits n → Bool
  is_clipped p limits = greater_than n p.size_quote.value limits.per_position_notional_cap_quote

  -- The verdict of step 11 and of what follows it, by the escalation and by whether the size was
  -- clipped.
  abbrev settle : Option Code → Bool → Amount → Outcome
  settle (some e) true size = record {
    decision = Decision.escalate;
    clipped = none;
    reasons = Code.notional_cap_clipped ∷ e ∷ [];
  }
  settle (some e) false size = record {
    decision = Decision.escalate;
    clipped = none;
    reasons = e ∷ [];
  }
  settle none true size = record {
    decision = Decision.clip;
    clipped = some (new_decimal n size);
    reasons = Code.notional_cap_clipped ∷ [];
  }
  settle none false size = approved

  -- Steps 9 to 11.
  unfoldable pub evaluate_size : Proposal n → RiskLimits n → RuntimeState n → Outcome
  evaluate_size p limits state =
      if leb_ℤ limits.max_open_positions
        (state.open_positions_count +ℤ state.pending_entry_orders_count)
      then rejected (Code.max_positions_reached ∷ [])
      else if is_zero n limits.per_position_notional_cap_quote
      then rejected (Code.notional_cap_zero ∷ [])
      else settle (check_envelope n p limits state (effective_size p limits)) (is_clipped p limits)
          (effective_size p limits)

  -- Step 8 and what follows it.
  unfoldable pub evaluate_rate : Proposal n → RiskLimits n → RuntimeState n → Outcome
  evaluate_rate p limits state =
      if leb_ℤ limits.max_orders_per_minute state.entry_orders_in_last_minute
      then rejected (Code.order_rate_exceeded ∷ [])
      else if is_close p.action
      then approved
      else evaluate_size p limits state

  abbrev or_reject : Option Code → Outcome → Outcome
  or_reject (some c) rest = rejected (c ∷ [])
  or_reject none rest = rest

  -- From step 3 on: an order, not a `hold`.
  unfoldable pub evaluate_order : Proposal n → RiskLimits n → RuntimeState n → Outcome
  evaluate_order p limits state =
      if is_open p.action && not (is_gt (sign n (entry_price n p state)))
      then rejected (Code.mark_price_unavailable ∷ [])
      else if is_close p.action
      then evaluate_rate p limits state
      else or_reject (check_open n p limits state (entry_price n p state) (worst_of p state))
          (evaluate_rate p limits state)

  abbrev or_violations : List Code → Outcome → Outcome
  or_violations [] rest = rest
  or_violations (c ∷ cs) rest = rejected (c ∷ cs)

  -- Steps 1 and 2, and `hold`.
  unfoldable pub evaluate_standing : Proposal n → RiskLimits n → RuntimeState n → ℤ → Outcome
  evaluate_standing p limits state now =
      if state.kill_active
      then rejected (Code.kill_switch_active ∷ [])
      else if is_stale limits.staleness_threshold_seconds p.created_at.instant now
      then rejected (Code.proposal_stale ∷ [])
      else if is_future p.created_at.instant now
      then rejected (Code.proposal_stale ∷ [])
      else if is_hold p.action
      then approved
      else evaluate_order p limits state

  -- All steps, from 0a.
  unfoldable pub decide : Proposal n → RiskLimits n → RuntimeState n → ℤ → Outcome
  decide p limits state now =
      if not (p.version =ₛ schema_version)
      then rejected (Code.unsupported_schema_version ∷ [])
      else or_violations (validate n p) (evaluate_standing p limits state now)

  -- `Evaluate`.
  unfoldable pub evaluate : Proposal n → RiskLimits n → RuntimeState n → String → ℤ → Verdict n
  unfolding decide build
  evaluate p limits state fresh now = build p (decide p limits state now) limits state fresh now
