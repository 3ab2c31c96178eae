-- ===== src/Contract/Validate.antt =====
-- control-plane/internal/contract/validate.go: all violations of a proposal, in the order of the
-- source. A violation is its code.
use Prim.Native.String.{count}
use alpha_mint_x.Base.{
  Bool, true, false, ◌&&◌, ◌||◌, not, Option, none, some, List, [], ◌∷◌, ◌++◌, ltb, ◌=ₛ◌,
  if◌then◌else◌, is_none, length,
}
use alpha_mint_x.Base.Int.{pos, ltb_ℤ}
use alpha_mint_x.Numbers.{Numbers, less_than, greater_than, sign, is_gt, is_zero}
use alpha_mint_x.Contract.Types.{
  Code, Action, is_open, EntryType, TimeInForce, Signal, schema_version, Decimal, AnalystSummary,
  AnalystSummaries, ModelCost, Proposal,
}
use alpha_mint_x.Contract.Patterns.{codes, matches_uuid, matches_symbol}

-- `if test { vs = append(vs, violation(code, …)) }`.
abbrev pub violation_if : Bool → Code → List Code
violation_if true c = c ∷ []
violation_if false c = []

abbrev known_action : Action → Bool
known_action (Action.other s) = false
known_action _ = true

abbrev known_time_in_force : TimeInForce → Bool
known_time_in_force (TimeInForce.other s) = false
known_time_in_force _ = true

abbrev known_signal : Signal → Bool
known_signal (Signal.other s) = false
known_signal _ = true

abbrev is_hold : Action → Bool
is_hold Action.hold = true
is_hold _ = false

module _ (n : Numbers) where
  open n use {Amount, Score, less, score_zero, score_one}

  abbrev out_of_unit : Score → Bool
  out_of_unit c = less c score_zero || less score_one c

  -- The body of the loop of `validateSummaries`, for one analyst.
  pub validate_summary : AnalystSummary n → List Code
  validate_summary s =
      violation_if (not (known_signal s.signal)) Code.schema_invalid
      ++ (violation_if (out_of_unit s.confidence) Code.schema_invalid
          ++ violation_if (ltb 2000 (count s.summary)) Code.schema_invalid)

  pub validate_summaries : AnalystSummaries n → List Code
  unfolding validate_summary
  validate_summaries s =
      validate_summary s.market ++ (validate_summary s.news ++ validate_summary s.fundamental)

  -- The loop of `validateModelCosts`.
  pub validate_each_cost : List (ModelCost n) → List Code
  validate_each_cost [] = []
  validate_each_cost (c ∷ cs) =
      violation_if (ltb 64 (count c.node) || ltb 64 (count c.model)) Code.schema_invalid
      ++ (violation_if (ltb_ℤ c.input_tokens (pos 0) || ltb_ℤ c.output_tokens (pos 0))
            Code.schema_invalid
          ++ validate_each_cost cs)

  pub validate_model_costs : List (ModelCost n) → List Code
  unfolding validate_each_cost
  validate_model_costs costs =
      violation_if (ltb 32 (length costs)) Code.schema_invalid ++ validate_each_cost costs

  -- The test of an optional take-profit.
  abbrev target_violation : (Amount → Bool) → Option (Decimal n) → List Code
  target_violation good none = []
  target_violation good (some t) = violation_if (not (good t.value)) Code.invalid_take_profit

  abbrev stop_and_target : Action → Amount → Amount → Option (Decimal n) → List Code
  stop_and_target Action.open_long entry stop target =
      violation_if (not (less_than n stop entry)) Code.invalid_stop_placement
      ++ target_violation (λ t. greater_than n t entry) target
  stop_and_target Action.open_short entry stop target =
      violation_if (not (greater_than n stop entry)) Code.invalid_stop_placement
      ++ target_violation (λ t. less_than n t entry) target
  stop_and_target _ entry stop target = []

  -- `CheckStopAndTarget`.
  unfoldable pub check_stop_and_target : Action → Amount → Amount → Option (Decimal n) → List Code
  check_stop_and_target action entry stop target =
      if is_gt (sign n entry)
      then stop_and_target action entry stop target
      else Code.invalid_stop_placement ∷ []

  -- The `switch` on the entry type in `validateOrderFields`.
  abbrev pub entry_violations : EntryType → Option (Decimal n) → List Code
  entry_violations EntryType.limit price = violation_if (is_none price) Code.schema_invalid
  entry_violations EntryType.market price = violation_if (not (is_none price)) Code.schema_invalid
  entry_violations (EntryType.other s) price = Code.schema_invalid ∷ []

  -- Rules 1 and 2 against a known entry price.
  abbrev pub placement_violations :
      Action → EntryType → Option (Decimal n) → Option (Decimal n) → Option (Decimal n) → List Code
  placement_violations action EntryType.limit (some price) (some stop) target =
      check_stop_and_target action price.value stop.value target
  placement_violations action kind price stop target = []

  abbrev pub action_violations : Proposal n → List Code
  action_violations p =
      if is_open p.action
      then violation_if (is_none p.stop_loss) Code.missing_stop_loss
        ++ violation_if (not (is_gt (sign n p.size_quote.value))) Code.invalid_size
      else violation_if (not (is_none p.stop_loss)) Code.schema_invalid
        ++ (violation_if (not (is_none p.take_profit)) Code.schema_invalid
            ++ violation_if (is_hold p.action && not (is_zero n p.size_quote.value))
                Code.invalid_size)

  -- `validateOrderFields`.
  unfoldable pub validate_order_fields : Proposal n → List Code
  validate_order_fields p =
      entry_violations p.entry.entry_type p.entry.limit_price
      ++ (action_violations p
          ++ placement_violations p.action p.entry.entry_type p.entry.limit_price p.stop_loss
              p.take_profit)

  -- The part of `Validate` before the helpers are called.
  unfoldable pub validate_envelope : Proposal n → List Code
  unfolding matches_uuid matches_symbol
  validate_envelope p =
      violation_if (not (p.version =ₛ schema_version)) Code.unsupported_schema_version
      ++ (violation_if (not (matches_uuid (codes p.proposal_id))) Code.schema_invalid
          ++ (violation_if (not (matches_uuid (codes p.strategy_id))) Code.schema_invalid
              ++ (violation_if (not (matches_uuid (codes p.agent_trace_id))) Code.schema_invalid
                  ++ (violation_if (p.created_at.raw =ₛ "") Code.schema_invalid
                      ++ (violation_if (not (matches_symbol 0 (codes p.symbol))) Code.schema_invalid
                          ++ (violation_if (not (known_action p.action)) Code.schema_invalid
                              ++ (violation_if (not (known_time_in_force p.time_in_force))
                                    Code.schema_invalid
                                  ++ (violation_if (out_of_unit p.confidence) Code.schema_invalid
                                      ++ (violation_if (ltb 8000 (count p.reasoning))
                                            Code.schema_invalid
                                          ++ violation_if (ltb 4000 (count p.debate_summary))
                                              Code.schema_invalid)))))))))

  -- `Validate`: all violations found.
  unfoldable pub validate : Proposal n → List Code
  unfolding validate_envelope validate_summaries validate_model_costs validate_order_fields
  validate p =
      validate_envelope p
      ++ (validate_summaries p.analyst_summaries
          ++ (validate_model_costs p.model_costs ++ validate_order_fields p))
