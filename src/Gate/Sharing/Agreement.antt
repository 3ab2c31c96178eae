-- ===== src/Gate/Sharing/Agreement.antt =====
-- Under every schedule the gate service answers with one verdict for one identifier, and what the
-- second critical section of riskgate/service.go does to a racing duplicate.
use alpha_mint_x.Base.{
  ℕ, ◌≡◌, refl, Bool, true, false, String, Option, none, some, List, [], ◌∷◌, ◌=ₛ◌, eq_iff, ok, err,
  arith, All, Any, inl, inr, subst,
}
use alpha_mint_x.Numbers.{Numbers}
use alpha_mint_x.Contract.{Proposal, Verdict}
use alpha_mint_x.Gate.Service.{Stored, Verdicts, find, Call, Answer, lookup, commit, verdict_of}
use alpha_mint_x.Gate.Sharing.{
  Waiting, World, Event, start, finish, holds_lock, answer_start, start_unless, start_digested,
  pick, finish_picked, step, run, idle,
}

module _ (n : Numbers) (digest : Proposal n → Option String) where
  -- The verdict that the map holds for an identifier.
  abbrev pub verdict_at : Verdicts n digest → String → Option (Verdict n)
  verdict_at m id = elim (find n digest id m) [ none ↦ none | some st ↦ some st.verdict ]

  -- What a returned answer has to do with the map: a verdict is the one that is stored.
  abbrev pub Agrees : Verdicts n digest → String × Answer n digest → Type 0
  Agrees m (id, ok v) = verdict_at m id ≡ some v
  Agrees m (id, err e) = Unit

  abbrev pub AllAgree : Verdicts n digest → List (String × Answer n digest) → Type 0
  AllAgree m = All (Agrees m)

  commit-keeps :
      (m : Verdicts n digest) (id j : String) (st : Stored n digest) {v : Verdict n}
      → verdict_at m j ≡ some v
      → verdict_at (commit n digest m id st).0 j ≡ some v
  unfolding commit find
  commit-keeps m id j st h = ground (arith, eq_iff id j)

  commit-stores :
      (m : Verdicts n digest) (id : String) (st : Stored n digest)
      → verdict_at (commit n digest m id st).0 id ≡ some (commit n digest m id st).1
  unfolding commit find
  commit-stores m id st = ground (arith, eq_iff id id)

  commit-AllAgree :
      (m : Verdicts n digest) (id : String) (st : Stored n digest)
      (l : List (String × Answer n digest))
      → AllAgree m l
      → AllAgree (commit n digest m id st).0 l
  commit-AllAgree m id st [] h = tt
  commit-AllAgree m id st ((j, ok v) ∷ l) h =
      (commit-keeps m id j st h.0, commit-AllAgree m id st l h.1)
  commit-AllAgree m id st ((j, err e) ∷ l) h = (tt, commit-AllAgree m id st l h.1)

  lookup-Agrees :
      (m : Verdicts n digest) (id hash : String) {a : Answer n digest}
      → lookup n digest m id hash ≡ some a
      → Agrees m (id, a)
  unfolding lookup
  lookup-Agrees m id hash {a = ok v} h = ground arith
  lookup-Agrees m id hash {a = err e} h = tt

  start-AllAgree :
      (w : World n digest) (c : Call n digest) (hash : String)
      → AllAgree w.verdicts w.returned
      → let w' =
          answer_start n digest (lookup n digest w.verdicts c.proposal.proposal_id hash) c hash w in
        AllAgree w'.verdicts w'.returned
  start-AllAgree w c hash h = go (lookup n digest w.verdicts c.proposal.proposal_id hash) refl
    where
      go :
          (o : Option (Answer n digest))
          → lookup n digest w.verdicts c.proposal.proposal_id hash ≡ o
          → let w' = answer_start n digest o c hash w in AllAgree w'.verdicts w'.returned
      go none e = h
      go (some a) e = (lookup-Agrees w.verdicts c.proposal.proposal_id hash e, h)

  unless-AllAgree :
      (locked : Bool) (c : Call n digest) (hash : String) (w : World n digest)
      → AllAgree w.verdicts w.returned
      → AllAgree
          (start_unless n digest locked c hash w).verdicts
          (start_unless n digest locked c hash w).returned
  unless-AllAgree true c hash w h = h
  unless-AllAgree false c hash w h = start-AllAgree w c hash h

  picked-AllAgree :
      (o : Option (Waiting n digest)) (i : ℕ) (w : World n digest)
      → AllAgree w.verdicts w.returned
      → let w' = finish_picked n digest o i w in AllAgree w'.verdicts w'.returned
  picked-AllAgree none i w h = h
  picked-AllAgree (some x) i w h = (
    commit-stores w.verdicts x.call.proposal.proposal_id _,
    commit-AllAgree w.verdicts x.call.proposal.proposal_id _ w.returned h,
  )

  start_digested-AllAgree :
      (d : Option String) (c : Call n digest) (w : World n digest)
      → AllAgree w.verdicts w.returned
      → AllAgree (start_digested n digest d c w).verdicts (start_digested n digest d c w).returned
  start_digested-AllAgree none c w h = (tt, h)
  start_digested-AllAgree (some hash) c w h =
      unless-AllAgree (holds_lock n digest w.waiting c.proposal.strategy_id) c hash w h

  step-AllAgree :
      (w : World n digest) (e : Event n digest)
      → AllAgree w.verdicts w.returned
      → AllAgree (step n digest w e).verdicts (step n digest w e).returned
  unfolding step
  step-AllAgree w (start c) h = start_digested-AllAgree (digest c.proposal) c w h
  step-AllAgree w (finish i) h = picked-AllAgree (pick n digest i w.waiting) i w h

  run-AllAgree :
      (w : World n digest) (es : List (Event n digest))
      → AllAgree w.verdicts w.returned
      → AllAgree (run n digest w es).verdicts (run n digest w es).returned
  unfolding run
  run-AllAgree w [] h = h
  run-AllAgree w (e ∷ es) h = run-AllAgree (step n digest w e) es (step-AllAgree w e h)

  abbrev pub Among : String × Answer n digest → List (String × Answer n digest) → Type 0
  Among a = Any (λ x. x ≡ a)

  agree-Among :
      (m : Verdicts n digest) (id : String) (v : Verdict n) (l : List (String × Answer n digest))
      → AllAgree m l
      → Among (id, ok v) l
      → verdict_at m id ≡ some v
  agree-Among m id v [] h a = elim a [ ]
  agree-Among m id v (x ∷ l) h a = elim a [
    | inl e ↦ subst (Agrees m) e h.0
    | inr b ↦ agree-Among m id v l h.1 b
  ]

  -- However many calls run at once, at most one verdict is ever returned for an identifier: any two
  -- calls that return a verdict for it return the same one.
  pub one_verdict :
      (es : List (Event n digest)) (id : String) (v v' : Verdict n)
      → Among (id, ok v) (run n digest (idle n digest) es).returned
      → Among (id, ok v') (run n digest (idle n digest) es).returned
      → v ≡ v'
  one_verdict es id v v' a b =
      let agreed = run-AllAgree (idle n digest) es tt in
      let w = run n digest (idle n digest) es in
      cc (
        agree-Among w.verdicts id v w.returned agreed a,
        agree-Among w.verdicts id v' w.returned agreed b,
      )

  -- Two proposals with one identifier, of different strategies and with different payloads, that
  -- both look it up before either has stored its verdict: the second is not told of the conflict,
  -- it is given the verdict of the other proposal.
  pub race_hides_conflict :
      (a b : Call n digest) (ha hb : String)
      → a.proposal.proposal_id ≡ b.proposal.proposal_id
      → (a.proposal.strategy_id =ₛ b.proposal.strategy_id) ≡ false
      → digest a.proposal ≡ some ha
      → digest b.proposal ≡ some hb
      → (run n digest (idle n digest) (start a ∷ start b ∷ finish 1 ∷ finish 0 ∷ [])).returned
        ≡ (b.proposal.proposal_id, ok (verdict_of n digest a))
          ∷ (a.proposal.proposal_id, ok (verdict_of n digest a))
          ∷ []
  unfolding run step lookup commit find
  race_hides_conflict a b ha hb same apart da db =
      ground (arith, eq_iff a.proposal.proposal_id b.proposal.proposal_id)
