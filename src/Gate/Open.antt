-- ===== src/Gate/Open.antt =====
-- The verdict on an opening proposal: it is refused unless every step lets it through.
use alpha_mint_x.Base.{
  ◌≡◌, refl, ◌↔◌, ◌⊎◌, true, false, Option, none, some, [], String, ◌=ₛ◌, arith, Ordering, is_none,
}
use alpha_mint_x.Base.Int.{ℤ}
use alpha_mint_x.Numbers.{Numbers, greater_than}
use alpha_mint_x.Contract.{is_open, Decimal, Proposal, validate, schema_version}
use alpha_mint_x.Contract.Rules.{valid_open_sized, Placed, check_stop_and_target_iff}
use alpha_mint_x.Gate.Types.{RiskLimits, RuntimeState, entry_price}
use alpha_mint_x.Gate.Evaluate.{
  is_stale, is_future, is_hold, worst_of, evaluate_order, evaluate_standing, decide, evaluate,
}
use alpha_mint_x.Gate.Stages.{is_reject, OrderHolds, evaluate_order_iff}

module _ (n : Numbers) where
  open n use {Amount, cmp, zero_amount}

  -- Steps 0a to 2: a supported and valid document, no kill, and an age within both bounds.
  abbrev pub Stands : Proposal n → RiskLimits n → RuntimeState n → ℤ → Type 0
  Stands p limits state now =
      ((p.version =ₛ schema_version) ≡ true)
      × (validate n p ≡ [])
      × (state.kill_active ≡ false)
      × (is_stale limits.staleness_threshold_seconds p.created_at.instant now ≡ false)
      × (is_future p.created_at.instant now ≡ false)

  pub decide_iff :
      (p : Proposal n) (limits : RiskLimits n) (state : RuntimeState n) (now : ℤ)
      → (is_reject (decide n p limits state now).decision ≡ false) ↔ (
          Stands p limits state now
          × ((is_hold p.action ≡ true)
              ⊎ ((is_hold p.action ≡ false)
                  × (is_reject (evaluate_order n p limits state).decision ≡ false))))
  unfolding decide evaluate_standing
  decide_iff p limits state now = ground arith

  -- The verdict on an opening proposal is a refusal unless all of the steps 0a to 10 hold, and it
  -- is none if they do.
  pub open_cleared_iff :
      (p : Proposal n) (limits : RiskLimits n) (state : RuntimeState n) (fresh : String) (now : ℤ)
      → is_open p.action ≡ true
      → (is_reject (evaluate n p limits state fresh now).decision ≡ false)
        ↔ (Stands p limits state now × OrderHolds n p limits state)
  unfolding evaluate
  open_cleared_iff p limits state fresh now o =
      ground (arith, decide_iff p limits state now, evaluate_order_iff n p limits state o)

  -- What protects an opening proposal: a stop on the losing side of a positive entry price, with
  -- the loss at it bounded.
  abbrev pub Protects : Proposal n → RiskLimits n → RuntimeState n → Option (Decimal n) → Type 0
  Protects p limits state none = ⊥
  Protects p limits state (some stop) =
      (cmp (entry_price n p state) zero_amount ≡ Ordering.gt)
      × Placed n p.action (entry_price n p state) stop.value p.take_profit
      × (greater_than n (worst_of n p state) limits.max_loss_at_stop_quote ≡ false)

  Protects-of_holds :
      (p : Proposal n) (limits : RiskLimits n) (state : RuntimeState n) (s : Option (Decimal n))
      → p.stop_loss ≡ s
      → is_none p.stop_loss ≡ false
      → OrderHolds n p limits state
      → Protects p limits state s
  Protects-of_holds p limits state none e h o = ground arith
  Protects-of_holds p limits state (some stop) e h o =
      ground (
        arith,
        check_stop_and_target_iff n p.action (entry_price n p state) stop.value p.take_profit,
      )

  -- Every opening proposal that the gate lets through, clipped or escalated included, has a stop on
  -- the losing side of a positive entry price, whatever `require_stop_loss` says, and its worst-case
  -- loss at that stop is not above `max_loss_at_stop_quote`.
  pub open_protected :
      (p : Proposal n) (limits : RiskLimits n) (state : RuntimeState n) (fresh : String) (now : ℤ)
      → is_open p.action ≡ true
      → is_reject (evaluate n p limits state fresh now).decision ≡ false
      → Protects p limits state p.stop_loss
  open_protected p limits state fresh now o h =
      let (stands, holds) = (open_cleared_iff p limits state fresh now o).0 h in
      Protects-of_holds p limits state p.stop_loss refl (valid_open_sized n p stands.1 o).0 holds
