-- ===== src/Tests/Sharing.antt =====
-- The gate service on concrete calls and schedules (control-plane/internal/riskgate/service.go).
use alpha_mint_x.Base.{◌≡◌, refl, Option, some, List, [], ◌∷◌, String, inl, inr, ok}
use alpha_mint_x.Base.Int.{pos}
use alpha_mint_x.Numbers.Whole.{whole}
use alpha_mint_x.Contract.{Proposal}
use alpha_mint_x.Gate.Service.{Stored, Verdicts, find, Call, verdict_of, lookup, commit}
use alpha_mint_x.Gate.Sharing.{Event, start, finish, run, step, idle}
use alpha_mint_x.Gate.Sharing.Agreement.{one_verdict, race_hides_conflict}
use alpha_mint_x.Tests.Gate.{long, limits, state}

-- A digest that tells the strategies apart.
abbrev digest : Proposal whole → Option String
digest p = some p.strategy_id

abbrev call : Call whole digest
call = record { proposal = long; limits = limits; state = state; now = pos 2000; fresh = "v1" }

-- The same identifier from another strategy.
abbrev copy : Call whole digest
copy = record {
  proposal = record long { strategy_id = "0123abcd-0000-4000-8000-0000000000ff" };
  limits = limits;
  state = state;
  now = pos 2000;
  fresh = "v2";
}

abbrev kept : Stored whole digest
kept = record { verdict = verdict_of whole digest call; hash = long.strategy_id }

abbrev known : Verdicts whole digest
known = (long.proposal_id, kept) ∷ []

abbrev schedule : List (Event whole digest)
schedule = start call ∷ start copy ∷ finish 1 ∷ finish 0 ∷ []

one_verdict_example : verdict_of whole digest call ≡ verdict_of whole digest call
unfolding run step lookup commit find
one_verdict_example =
    one_verdict whole digest schedule long.proposal_id (verdict_of whole digest call)
      (verdict_of whole digest call) (inl refl) (inr (inl refl))

race_hides_conflict_example :
    (run whole digest (idle whole digest) schedule).returned
    ≡ (long.proposal_id, ok (verdict_of whole digest call))
      ∷ (long.proposal_id, ok (verdict_of whole digest call))
      ∷ []
race_hides_conflict_example =
    race_hides_conflict whole digest call copy long.strategy_id copy.proposal.strategy_id refl refl
      refl refl
