-- ===== src/Live/Sends.antt =====
-- What holds of every placement that is sent to the venue.
use alpha_mint_x.Base.{
  ℕ, zero, suc, ◌≤◌, ◌≡◌, refl, sym, subst, String, Bool, true, false, Option, none, some, List, [],
  ◌∷◌, leb, arith, All, Result, ok, err, Option-cases, inl, inr, if◌then◌else◌,
}
use alpha_mint_x.Store.{StoreError, Tables, global_max_kill_epoch}
use alpha_mint_x.Store.Histories.{Reach, here, next}
use alpha_mint_x.Live.Types.{OrderIntent, Journal, find_intent}
use alpha_mint_x.Live.Writes.{append_recon_event, get_order_intent}
use alpha_mint_x.Live.Submit.{
  Placement, World, PlaceAnswer, QueryAnswer, Commits, Turn, Script, Outcome, resolved, waiting,
  retry, failed, commit, place, is_stale, with_journal, written, abandon_stale, reject_definite,
  refused, adopt_ack, query_tries, last_attempt,
}
use alpha_mint_x.Live.Transmit.{
  next_attempt, after_event, poison, resolve_ambiguous, answered, unless_revoked,
  unless_claim_revoked, unless_stale, transmit, go_on, claimed, send_intent,
}

Reach-trans :
    (new_row : Tables → String) (r s t : Tables)
    → Reach new_row r s
    → Reach new_row s t
    → Reach new_row r t
Reach-trans new_row r s u h here = h
Reach-trans new_row r s u h (next {t} k st) = next (Reach-trans new_row r s t h k) st

-- The row of an attempt is there, and its claim is not revoked.
abbrev pub HasClaim : String → Journal → Type 0
HasClaim id j =
    (row : OrderIntent) × (find_intent id j.intents ≡ some row) × (row.claim_revoked_at ≡ none)

-- `Between` bounds what is committed between the kill re-check of a send and the send itself.
module _ (new_row : Tables → String) (Between : Tables → Tables → Type 0) (start : Tables) where
  -- A placement whose kill re-check was made after the start, under no later kill of the strategy than
  -- the stamp, whose claim was not revoked when it was read again, and between whose check and send no more is
  -- committed than in one turn.
  abbrev pub IsChecked : String → ℕ → Placement → Type 0
  IsChecked sid epoch p =
      Reach new_row start p.checked_tables
      × (global_max_kill_epoch sid p.checked_tables ≤ epoch)
      × HasClaim p.client_order_id p.claim_journal
      × Between p.checked_tables p.tables

  abbrev pub IsGood : String → ℕ → World → Type 0
  IsGood sid epoch w = Reach new_row start w.tables × All (IsChecked sid epoch) w.sent

  -- The rest of the program commits transactions.
  abbrev pub IsCommitted : Commits → Type 0
  IsCommitted c = (t : Tables) → Reach new_row t (c.kills t)

  abbrev pub IsPlayedTurn : Turn → Type 0
  IsPlayedTurn t =
      IsCommitted t.others
      × IsCommitted t.before_claim
      × IsCommitted t.before_place
      × ((u : Tables) → Between u (t.before_place.kills (t.before_claim.kills u)))

  abbrev pub IsPlayed : Script → Type 0
  IsPlayed s = IsCommitted s.before × IsCommitted s.after × All IsPlayedTurn s.turns

  -- The next attempt has the stamp of the intent.
  abbrev HasStamp : OrderIntent → Outcome → Type 0
  HasStamp i (retry j) = (j.strategy_id ≡ i.strategy_id) × (j.kill_epoch ≡ i.kill_epoch)
  HasStamp i _ = Unit

  abbrev IsFine : OrderIntent → Outcome × World → Type 0
  IsFine i (o, w) = HasStamp i o × IsGood i.strategy_id i.kill_epoch w

  written-IsFine :
      (i : OrderIntent) (o : Outcome) (w : World) (r : Result StoreError Journal)
      → HasStamp i o
      → IsGood i.strategy_id i.kill_epoch w
      → IsFine i (written o w r)
  written-IsFine i o w (err e) h g = (tt, g)
  written-IsFine i o w (ok j) h g = (h, g)

  refused-IsFine :
      (i : OrderIntent) (filter : Bool) (w : World) (r : Result StoreError Journal)
      → IsGood i.strategy_id i.kill_epoch w
      → IsFine i (refused filter w r)
  refused-IsFine i filter w (err e) g = (tt, g)
  refused-IsFine i filter w (ok j) g = (tt, g)

  either-IsFine :
      (i : OrderIntent) (b : Bool) (x y : Outcome × World)
      → IsFine i x
      → IsFine i y
      → IsFine i (if b then x else y)
  either-IsFine i true x y p q = p
  either-IsFine i false x y p q = q

  commit-IsGood :
      (sid : String) (epoch : ℕ) (c : Commits) (w : World)
      → IsCommitted c
      → IsGood sid epoch w
      → IsGood sid epoch (commit c w)
  commit-IsGood sid epoch c w h g =
      (Reach-trans new_row start w.tables (c.kills w.tables) g.0 (h w.tables), g.1)

  module _ (new_id : Journal → String) (attempt_id : String → ℕ → String) (now : String) where
    after_event-IsFine :
        (i : OrderIntent) (w : World)
        → IsGood i.strategy_id i.kill_epoch w
        → IsFine i (after_event new_id attempt_id now i w)
    after_event-IsFine i w g = either-IsFine i (is_stale i w) _ _ (written-IsFine i _ w _ tt g) (
        either-IsFine i (leb last_attempt i.attempt) _ _ (written-IsFine i _ w _ tt g)
          (written-IsFine i (retry (next_attempt new_id attempt_id now i)) w _ (refl, refl) g))

    poison-IsFine :
        (c : Commits) (i : OrderIntent) (w : World)
        → IsCommitted c
        → IsGood i.strategy_id i.kill_epoch w
        → IsFine i (poison new_id attempt_id now c i w)
    unfolding poison append_recon_event
    poison-IsFine c i w h g =
        after_event-IsFine i _ (Reach-trans new_row start _ _ g.0 (h w.tables), g.1)

    resolve_ambiguous-IsFine :
        (tries : ℕ) (queries : List QueryAnswer) (c : Commits) (i : OrderIntent) (w : World)
        → IsCommitted c
        → IsGood i.strategy_id i.kill_epoch w
        → IsFine i (resolve_ambiguous new_id attempt_id now tries queries c i w)
    unfolding resolve_ambiguous adopt_ack
    resolve_ambiguous-IsFine zero queries c i w h g = (tt, g)
    resolve_ambiguous-IsFine (suc n) [] c i w h g = (tt, g)
    resolve_ambiguous-IsFine (suc n) (QueryAnswer.found id venue ∷ qs) c i w h g =
        written-IsFine i resolved w _ tt g
    resolve_ambiguous-IsFine (suc n) (QueryAnswer.not_found ∷ qs) c i w h g =
        poison-IsFine c i w h g
    resolve_ambiguous-IsFine (suc n) (QueryAnswer.unreachable ∷ qs) c i w h g =
        resolve_ambiguous-IsFine n qs c i w h g

    answered-IsFine :
        (a : PlaceAnswer) (queries : List QueryAnswer) (c : Commits) (i : OrderIntent) (w : World)
        (again : Outcome × World)
        → IsCommitted c
        → IsGood i.strategy_id i.kill_epoch w
        → IsFine i again
        → IsFine i (answered new_id attempt_id now a queries c i w again)
    unfolding adopt_ack reject_definite
    answered-IsFine (PlaceAnswer.acked id venue) qs c i w again h g f =
        written-IsFine i resolved w _ tt g
    answered-IsFine (PlaceAnswer.definite_reject filter) qs c i w again h g f =
        refused-IsFine i filter w _ g
    answered-IsFine (PlaceAnswer.throttled true) qs c i w again h g f = f
    answered-IsFine (PlaceAnswer.throttled false) qs c i w again h g f =
        resolve_ambiguous-IsFine query_tries qs c i w h g
    answered-IsFine PlaceAnswer.ambiguous qs c i w again h g f =
        resolve_ambiguous-IsFine query_tries qs c i w h g

    place-IsGood :
        (i : OrderIntent) (v : World) (j : Journal) (w : World)
        → is_stale i v ≡ false
        → HasClaim i.client_order_id j
        → Reach new_row start v.tables
        → Between v.tables w.tables
        → IsGood i.strategy_id i.kill_epoch w
        → IsGood i.strategy_id i.kill_epoch (place i v.tables j w)
    place-IsGood i v j w k c r q g = (g.0, ((r, ground arith, c, q), g.1))

    unless_revoked-IsFine :
        (i : OrderIntent) (w : World) (at : Option String) (send : Outcome × World)
        → IsGood i.strategy_id i.kill_epoch w
        → (at ≡ none → IsFine i send)
        → IsFine i (unless_revoked new_id attempt_id now at w send)
    unless_revoked-IsFine i w none send g f = f refl
    unless_revoked-IsFine i w (some at) send g f = (tt, g)

    unless_claim_revoked-IsFine :
        (i : OrderIntent) (w : World) (row : Result StoreError OrderIntent) (send : Outcome × World)
        → IsGood i.strategy_id i.kill_epoch w
        → ((k : OrderIntent) → row ≡ ok k → k.claim_revoked_at ≡ none → IsFine i send)
        → IsFine i (unless_claim_revoked new_id attempt_id now row w send)
    unless_claim_revoked-IsFine i w (err e) send g f = (tt, g)
    unless_claim_revoked-IsFine i w (ok k) send g f =
        unless_revoked-IsFine i w k.claim_revoked_at send g (f k refl)

    unless_stale-IsFine :
        (i : OrderIntent) (w : World) (stale : Bool) (rest : Outcome × World)
        → IsGood i.strategy_id i.kill_epoch w
        → (stale ≡ false → IsFine i rest)
        → IsFine i (unless_stale new_id attempt_id now stale i w rest)
    unfolding abandon_stale
    unless_stale-IsFine i w true rest g f = written-IsFine i _ w _ tt g
    unless_stale-IsFine i w false rest g f = f refl

    get_order_intent-HasClaim :
        (id : String) (j : Journal) (k : OrderIntent)
        → get_order_intent id j ≡ ok k
        → k.claim_revoked_at ≡ none
        → HasClaim id j
    unfolding get_order_intent
    get_order_intent-HasClaim id j k h e = elim (Option-cases (find_intent id j.intents)) [
      | inl q ↦ ground arith
      | inr (r, q) ↦ (r, q, ground arith)
    ]

    transmit-IsFine :
        (ts : List Turn) (queries : List QueryAnswer) (c : Commits) (i : OrderIntent) (w : World)
        → All IsPlayedTurn ts
        → IsCommitted c
        → IsGood i.strategy_id i.kill_epoch w
        → IsFine i (transmit new_id attempt_id now ts queries c i w)
    unfolding transmit
    transmit-IsFine [] qs c i w a h g = (tt, g)
    transmit-IsFine (t ∷ ts) qs c i w a h g =
        let (c1, c2, c3, c4) = a.0 in
        let v = commit t.others w in
        let u = commit t.before_claim v in
        let y = commit t.before_place u in
        let x = place i v.tables u.journal y in
        let gv = commit-IsGood i.strategy_id i.kill_epoch t.others w c1 g in
        let gu = commit-IsGood i.strategy_id i.kill_epoch t.before_claim v c2 gv in
        let gy = commit-IsGood i.strategy_id i.kill_epoch t.before_place u c3 gu in
        unless_stale-IsFine i v (is_stale i v) _ gv (λ q.
          unless_claim_revoked-IsFine i u (get_order_intent i.client_order_id u.journal) _ gu
            (λ row r e.
              let d =
                place-IsGood i v u.journal y q
                  (get_order_intent-HasClaim i.client_order_id u.journal row r e) gv.0 (c4 v.tables)
                  gy in
              answered-IsFine t.answer qs c i x _ h d (transmit-IsFine ts qs c i x a.1 h d)))

    go_on-IsFine :
        (send : OrderIntent → World → Outcome × World) (i : OrderIntent) (r : Outcome × World)
        → IsFine i r
        → ((j : OrderIntent) (w : World)
            → IsGood j.strategy_id j.kill_epoch w
            → IsGood j.strategy_id j.kill_epoch (send j w).1)
        → IsGood i.strategy_id i.kill_epoch (go_on new_id attempt_id now send r).1
    go_on-IsFine send i (resolved, w) f k = f.1
    go_on-IsFine send i (waiting, w) f k = f.1
    go_on-IsFine send i (failed e, w) f k = f.1
    go_on-IsFine send i (retry j, w) f k =
        let (s, e) = f.0 in
        subst (λ x. IsGood x i.kill_epoch (send j w).1) s
          (subst (λ n. IsGood j.strategy_id n (send j w).1) e
            (k j w (
              subst (λ x. IsGood x j.kill_epoch w) (sym s)
                (subst (λ n. IsGood i.strategy_id n w) (sym e) f.1))))

    claimed-IsGood :
        (s : Script) (i : OrderIntent) (w : World) (send : OrderIntent → World → Outcome × World)
        (r : Result StoreError (Bool × Journal))
        → IsPlayed s
        → IsGood i.strategy_id i.kill_epoch w
        → ((j : OrderIntent) (w : World)
            → IsGood j.strategy_id j.kill_epoch w
            → IsGood j.strategy_id j.kill_epoch (send j w).1)
        → IsGood i.strategy_id i.kill_epoch (claimed new_id attempt_id now s i w send r).1
    claimed-IsGood s i w send (err e) a g k = g
    claimed-IsGood s i w send (ok (false, j)) a g k = g
    claimed-IsGood s i w send (ok (true, j)) a g k =
        go_on-IsFine send i _
          (transmit-IsFine s.turns s.queries s.after i (with_journal w j) a.2 a.1 g) k

    pub send_intent-IsGood :
        (ss : List Script) (i : OrderIntent) (w : World)
        → All IsPlayed ss
        → IsGood i.strategy_id i.kill_epoch w
        → IsGood i.strategy_id i.kill_epoch (send_intent new_id attempt_id now ss i w).1
    unfolding send_intent
    send_intent-IsGood [] i w a g = g
    send_intent-IsGood (s ∷ ss) i w a g =
        claimed-IsGood s i (commit s.before w) _ _ a.0
          (commit-IsGood i.strategy_id i.kill_epoch s.before w a.0.0 g)
          (λ j v. send_intent-IsGood ss j v a.1)
