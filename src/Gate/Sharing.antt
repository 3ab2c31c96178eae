-- ===== src/Gate/Sharing.antt =====
-- Calls of the gate service that run at once. `Service.Evaluate` (riskgate/service.go) holds the
-- lock of its strategy throughout, and the lock of the map in two critical sections: an event is one
-- of these, and a schedule is any sequence of events.
pub mod Agreement
use alpha_mint_x.Base.{
  ℕ, zero, suc, ◌≡◌, refl, Bool, true, false, not, String, Option, none, some, List, [], ◌∷◌, ◌=ₛ◌,
  eq_iff, if◌then◌else◌, Result, ok, err, arith, All, Any, inl, inr, subst, sym, ◌∙◌,
  some-injective,
}
use alpha_mint_x.Numbers.{Numbers}
use alpha_mint_x.Contract.{Proposal, Verdict}
use alpha_mint_x.Gate.Service.{
  Stored, Verdicts, find, Call, Answer, lookup, commit, verdict_of, ServiceError,
}

module _ (n : Numbers) (digest : Proposal n → Option String) where
  -- A call between its critical sections, with its hash.
  pub record Waiting : Type 0 where
    pub call : Call n digest
    pub hash : String

  -- The map, the calls that hold the lock of their strategy, and what calls have returned, each
  -- with the identifier of its proposal.
  pub record World : Type 0 where
    pub verdicts : Verdicts n digest
    pub waiting : List Waiting
    pub returned : List (String × Answer n digest)

  pub data Event : Type 0 where
    start : Call n digest → Event
    finish : ℕ → Event

  pub holds_lock : List Waiting → String → Bool
  holds_lock [] s = false
  holds_lock (w ∷ ws) s = if w.call.proposal.strategy_id =ₛ s then true else holds_lock ws s

  abbrev answer_start : Option (Answer n digest) → Call n digest → String → World → World
  answer_start none c hash w = record w { waiting = record { call = c; hash = hash } ∷ w.waiting }
  answer_start (some a) c hash w = record w { returned = (c.proposal.proposal_id, a) ∷ w.returned }

  abbrev start_unless : Bool → Call n digest → String → World → World
  start_unless true c hash w = w
  start_unless false c hash w =
      answer_start (lookup n digest w.verdicts c.proposal.proposal_id hash) c hash w

  abbrev start_digested : Option String → Call n digest → World → World
  start_digested none c w = record w {
    returned = (c.proposal.proposal_id, err ServiceError.marshal_failed) ∷ w.returned;
  }
  start_digested (some hash) c w =
      start_unless (holds_lock w.waiting c.proposal.strategy_id) c hash w

  pub pick : ℕ → List Waiting → Option Waiting
  pick i [] = none
  pick zero (w ∷ ws) = some w
  pick (suc i) (w ∷ ws) = pick i ws

  pub drop_at : ℕ → List Waiting → List Waiting
  drop_at i [] = []
  drop_at zero (w ∷ ws) = ws
  drop_at (suc i) (w ∷ ws) = w ∷ drop_at i ws

  abbrev finish_picked : Option Waiting → ℕ → World → World
  finish_picked none i w = w
  finish_picked (some x) i w =
      let (m, v) =
        commit n digest w.verdicts x.call.proposal.proposal_id
          (record { verdict = verdict_of n digest x.call; hash = x.hash }) in
      record {
        verdicts = m;
        waiting = drop_at i w.waiting;
        returned = (x.call.proposal.proposal_id, ok v) ∷ w.returned;
      }

  -- One event. A call whose strategy is locked does not start; no call to finish, no change.
  unfoldable pub step : World → Event → World
  unfolding holds_lock pick drop_at
  step w (start c) = start_digested (digest c.proposal) c w
  step w (finish i) = finish_picked (pick i w.waiting) i w

  unfoldable pub run : World → List Event → World
  run w [] = w
  run w (e ∷ es) = run (step w e) es

  -- The service before its first call.
  abbrev pub idle : World
  idle = record { verdicts = []; waiting = []; returned = [] }
