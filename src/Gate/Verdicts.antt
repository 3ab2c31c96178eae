-- ===== src/Gate/Verdicts.antt =====
-- What a verdict says: its size, its reasons, and the verdicts on what opens nothing.
use alpha_mint_x.Base.{
  ◌≡◌, ◌≢◌, ◌↔◌, ◌⊎◌, Bool, true, false, Option, none, some, List, [], ◌∷◌, String, arith, Ordering,
  eq_iff,
}
use alpha_mint_x.Base.Int.{ℤ}
use alpha_mint_x.Numbers.{Numbers}
use alpha_mint_x.Contract.{
  Action, is_open, Decision, Decimal, Proposal, Code, validate, new_decimal, schema_version,
}
use alpha_mint_x.Gate.Types.{RiskLimits, RuntimeState, L2Envelope, is_l2}
use alpha_mint_x.Gate.Checks.{check_envelope, contains}
use alpha_mint_x.Gate.Evaluate.{
  effective_size, evaluate_size, evaluate_rate, evaluate_order, evaluate_standing, decide, evaluate,
}
use alpha_mint_x.Gate.Stages.{is_reject, HasToken}
use alpha_mint_x.Gate.Open.{Stands}

module _ (n : Numbers) where
  open n use {Amount, cmp, zero_amount}

  -- What an outcome may say: a refusal has reasons, an approval has none, a clip has one and a size,
  -- an escalation has reasons and no size.
  abbrev pub WellFormed : Decision → Option (Decimal n) → List Code → Type 0
  WellFormed Decision.reject none (c ∷ cs) = Unit
  WellFormed Decision.approve none [] = Unit
  WellFormed Decision.clip (some d) (c ∷ []) = c ≡ Code.notional_cap_clipped
  WellFormed Decision.escalate none (c ∷ cs) = Unit
  WellFormed d s cs = ⊥

  size-WellFormed :
      (p : Proposal n) (limits : RiskLimits n) (state : RuntimeState n)
      → let o = evaluate_size n p limits state in WellFormed o.decision o.clipped o.reasons
  unfolding evaluate_size
  size-WellFormed p limits state = ground arith

  order-WellFormed :
      (p : Proposal n) (limits : RiskLimits n) (state : RuntimeState n)
      → let o = evaluate_order n p limits state in WellFormed o.decision o.clipped o.reasons
  unfolding evaluate_order evaluate_rate
  order-WellFormed p limits state = ground (arith, size-WellFormed p limits state)

  -- Every verdict, on any document whatever, is well formed: a rejection and an escalation have
  -- reasons and no size, an approval has neither, and a clip has a size and the clip as its one reason.
  pub verdict-WellFormed :
      (p : Proposal n) (limits : RiskLimits n) (state : RuntimeState n) (fresh : String) (now : ℤ)
      → let v = evaluate n p limits state fresh now in
        WellFormed v.decision v.clipped_size_quote v.reasons
  unfolding evaluate decide evaluate_standing
  verdict-WellFormed p limits state fresh now = ground (arith, order-WellFormed p limits state)

  -- A decision on an opening proposal that is no refusal is that of steps 9 to 11.
  open_outcome :
      (p : Proposal n) (limits : RiskLimits n) (state : RuntimeState n) (now : ℤ)
      → is_open p.action ≡ true
      → is_reject (decide n p limits state now).decision ≡ false
      → decide n p limits state now ≡ evaluate_size n p limits state
  unfolding decide evaluate_standing evaluate_order evaluate_rate
  open_outcome p limits state now o h = ground arith

  -- The order is outside the L2 envelope: larger than its size after the clip, or of a symbol that
  -- it does not list.
  abbrev pub Exceeds : L2Envelope n → String → Amount → Type 0
  Exceeds env symbol size =
      (cmp size env.max_size_quote ≡ Ordering.gt) ⊎ (contains env.allowed_symbols symbol ≡ false)

  abbrev pub MustEscalate : Bool → Option (L2Envelope n) → String → Amount → Type 0
  MustEscalate true (some env) symbol size = Exceeds env symbol size
  MustEscalate applies env symbol size = ⊥

  -- What a decision says of the size, for a requested size and a cap.
  abbrev pub SizeRule : Decision → Option (Decimal n) → Amount → Amount → Type 0
  SizeRule Decision.approve s size cap = cmp size cap ≢ Ordering.gt
  SizeRule Decision.clip s size cap = (s ≡ some (new_decimal n cap)) × (cmp size cap ≡ Ordering.gt)
  SizeRule d s size cap = Unit

  size-SizeRule :
      (p : Proposal n) (limits : RiskLimits n) (state : RuntimeState n)
      → let o = evaluate_size n p limits state in
        SizeRule o.decision o.clipped p.size_quote.value limits.per_position_notional_cap_quote
  unfolding evaluate_size
  size-SizeRule p limits state = ground arith

  size_escalates :
      (p : Proposal n) (limits : RiskLimits n) (state : RuntimeState n)
      → is_reject (evaluate_size n p limits state).decision ≡ false
      → ((evaluate_size n p limits state).decision ≡ Decision.escalate)
        ↔ MustEscalate
            (is_l2 state.autonomy)
            limits.l2_envelope
            p.symbol
            (effective_size n p limits)
  unfolding evaluate_size check_envelope
  size_escalates p limits state h = ground arith

  -- An opening proposal that is let through keeps the notional cap: approved as it is, it is not
  -- above the cap, and clipped, it was above and gets the cap itself. It is sent to a human exactly
  -- when the strategy is at L2 and the size after the clip, or the symbol, is outside the envelope. So
  -- an opening that flips the direction is not escalated for that.
  pub open_size_bounded :
      (p : Proposal n) (limits : RiskLimits n) (state : RuntimeState n) (fresh : String) (now : ℤ)
      → is_open p.action ≡ true
      → is_reject (evaluate n p limits state fresh now).decision ≡ false
      → let v = evaluate n p limits state fresh now in
        SizeRule v.decision v.clipped_size_quote p.size_quote.value
          limits.per_position_notional_cap_quote
        × ((v.decision ≡ Decision.escalate)
            ↔ MustEscalate
                (is_l2 state.autonomy)
                limits.l2_envelope
                p.symbol
                (effective_size n p limits))
  unfolding evaluate
  open_size_bounded p limits state fresh now o h =
      let e = open_outcome p limits state now o h in
      let k = size_escalates p limits state (rw (← e) h) in
      (rw e (size-SizeRule p limits state), rw e k)

  -- A `close` passes whenever its document is valid, there is no kill, it is neither stale nor from
  -- the future, and the order rate leaves room: no loss, price, whitelist, position or size limit is
  -- asked of it. It is then approved as it is.
  pub close_exempt_iff :
      (p : Proposal n) (limits : RiskLimits n) (state : RuntimeState n) (fresh : String) (now : ℤ)
      → p.action ≡ Action.close
      → ((evaluate n p limits state fresh now).decision ≡ Decision.approve)
        ↔ (Stands n p limits state now × HasToken n limits state)
  unfolding evaluate decide evaluate_standing evaluate_order evaluate_rate
  close_exempt_iff p limits state fresh now c = ground arith

  -- A `hold` is approved whenever its document stands, whatever the limits and the rate.
  hold_approved_iff :
      (p : Proposal n) (limits : RiskLimits n) (state : RuntimeState n) (fresh : String) (now : ℤ)
      → p.action ≡ Action.hold
      → ((evaluate n p limits state fresh now).decision ≡ Decision.approve)
        ↔ Stands n p limits state now
  unfolding evaluate decide evaluate_standing
  hold_approved_iff p limits state fresh now c = ground arith

  -- The reasons of a refusal under a kill: the version of the document if it is not supported, else
  -- its violations if it has any, else the kill alone.
  abbrev pub KillReasons : Proposal n → List Code → Type 0
  KillReasons p reasons =
      ((p.version ≢ schema_version) × (reasons ≡ Code.unsupported_schema_version ∷ []))
      ⊎ ((p.version ≡ schema_version) × (validate n p ≢ []) × (reasons ≡ validate n p))
      ⊎ ((p.version ≡ schema_version)
          × (validate n p ≡ [])
          × (reasons ≡ Code.kill_switch_active ∷ []))

  -- While a kill stands no proposal passes, an exit no more than an entry. The one reason given is
  -- the kill, unless the version of the document is not supported or it has violations, which are
  -- then the reasons.
  pub kill_refuses_all :
      (p : Proposal n) (limits : RiskLimits n) (state : RuntimeState n) (fresh : String) (now : ℤ)
      → state.kill_active ≡ true
      → let v = evaluate n p limits state fresh now in
        (v.decision ≡ Decision.reject) × KillReasons p v.reasons
  unfolding evaluate decide evaluate_standing
  kill_refuses_all p limits state fresh now k = ground (arith, eq_iff p.version schema_version)
