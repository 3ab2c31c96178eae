-- ===== src/Gate/Service.antt =====
-- control-plane/internal/riskgate/service.go: the gate with its memory of verdicts. The hash of a
-- proposal (`json.Marshal`, then `sha256.Sum256`) is the parameter `digest`, `none` where marshaling
-- fails. The map of verdicts is an association list, written only at a key that it lacks.
use alpha_mint_x.Base.{
  ◌≡◌, String, Option, none, some, List, [], ◌∷◌, ◌=ₛ◌, eq_iff, if◌then◌else◌, Result, ok, err,
  arith,
}
use alpha_mint_x.Base.Int.{ℤ}
use alpha_mint_x.Numbers.{Numbers}
use alpha_mint_x.Contract.{Proposal, Verdict}
use alpha_mint_x.Gate.Types.{RiskLimits, RuntimeState}
use alpha_mint_x.Gate.Evaluate.{evaluate}

pub data ServiceError : Type 0 where
  marshal_failed idempotency_conflict : ServiceError

module _ (n : Numbers) (digest : Proposal n → Option String) where
  -- `stored`.
  pub record Stored : Type 0 where
    pub verdict : Verdict n
    pub hash : String

  abbrev pub Verdicts : Type 0
  Verdicts = List (String × Stored)

  unfoldable pub find : String → Verdicts → Option Stored
  find k [] = none
  find k ((j, v) ∷ m) = if j =ₛ k then some v else find k m

  -- The arguments of one call, and the identifier that its verdict would get.
  pub record Call : Type 0 where
    pub proposal : Proposal n
    pub limits : RiskLimits n
    pub state : RuntimeState n
    pub now : ℤ
    pub fresh : String

  abbrev pub Answer : Type 0
  Answer = Result ServiceError (Verdict n)

  abbrev answer_stored : Option Stored → String → Option Answer
  answer_stored none hash = none
  answer_stored (some st) hash =
      some (if st.hash =ₛ hash then ok st.verdict else err ServiceError.idempotency_conflict)

  -- `lookup`: `none` where the identifier has no verdict yet.
  unfoldable pub lookup : Verdicts → String → String → Option Answer
  lookup m id hash = answer_stored (find id m) hash

  abbrev insert_or_fetch : Option Stored → Verdicts → String → Stored → Verdicts × Verdict n
  insert_or_fetch none m id st = ((id, st) ∷ m, st.verdict)
  insert_or_fetch (some first) m id st = (m, first.verdict)

  -- The second critical section of `Service.Evaluate`: the first persisted verdict wins.
  unfoldable pub commit : Verdicts → String → Stored → Verdicts × Verdict n
  commit m id st = insert_or_fetch (find id m) m id st

  abbrev pub verdict_of : Call → Verdict n
  verdict_of c = evaluate n c.proposal c.limits c.state c.fresh c.now

  -- `Evaluate` from the hash on.
  abbrev evaluate_hashed : Option Answer → Verdicts → Call → String → Verdicts × Answer
  evaluate_hashed (some a) m c hash = (m, a)
  evaluate_hashed none m c hash =
      let (m', v) =
        commit m c.proposal.proposal_id (record { verdict = verdict_of c; hash = hash }) in
      (m', ok v)

  abbrev evaluate_digested : Option String → Verdicts → Call → Verdicts × Answer
  evaluate_digested none m c = (m, err ServiceError.marshal_failed)
  evaluate_digested (some hash) m c =
      evaluate_hashed (lookup m c.proposal.proposal_id hash) m c hash

  -- `Service.Evaluate`, run with no other call between its critical sections.
  unfoldable pub service_evaluate : Verdicts → Call → Verdicts × Answer
  unfolding lookup commit
  service_evaluate m c = evaluate_digested (digest c.proposal) m c

  -- A first call for an identifier stores the verdict that the gate reaches and returns it.
  service_first :
      (m : Verdicts) (c : Call) (hash : String)
      → find c.proposal.proposal_id m ≡ none
      → digest c.proposal ≡ some hash
      → let (m', a) = service_evaluate m c in
        (a ≡ ok (verdict_of c))
        × (find c.proposal.proposal_id m' ≡ some (record { verdict = verdict_of c; hash = hash }))
  unfolding service_evaluate find
  service_first m c hash f d = ground (arith, eq_iff c.proposal.proposal_id c.proposal.proposal_id)

  -- A second call with the same identifier and the same payload, whatever the limits, the state and
  -- the clock have become, returns the verdict of the first and stores nothing; with another payload
  -- it is a conflict and stores nothing.
  service_idempotent :
      (m : Verdicts) (c : Call) (st : Stored) (hash : String)
      → find c.proposal.proposal_id m ≡ some st
      → digest c.proposal ≡ some hash
      → service_evaluate m c
        ≡ (m, if st.hash =ₛ hash then ok st.verdict else err ServiceError.idempotency_conflict)
  unfolding service_evaluate
  service_idempotent m c st hash f d = ground arith
