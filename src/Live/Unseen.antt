-- ===== src/Live/Unseen.antt =====
-- The kill switch and the live entries: no entry is sent under a kill that it has not seen.
use alpha_mint_x.Base.{
  ◌≤◌, ◌≡◌, refl, sym, subst, ◌∙◌, String, Bool, true, false, ◌&&◌, not, Option, none, some, List,
  [], ◌∷◌, arith, All, Result, ok, err, inl, inr, if◌then◌else◌,
}
use alpha_mint_x.Base.Results.{Result-cases}
use alpha_mint_x.Numbers.{Numbers}
use alpha_mint_x.Store.{StoreError, Tables, global_max_kill_epoch, active_kill}
use alpha_mint_x.Store.Histories.{Reach}
use alpha_mint_x.Store.Stamps.{no_kill_unseen}
use alpha_mint_x.Live.Types.{Journal}
use alpha_mint_x.Live.Submit.{Placement, World, Script, with_journal}
use alpha_mint_x.Live.Filters.{EntryError}
use alpha_mint_x.Live.Entry.{
  Submission, Manager, Reads, Draws, EntryOutcome, stamp_entry, prepare_entry, attempt_id,
  intent_row, send_journaled, journal_and_send, submit_prepared, record_rejection, submit_entry,
}
use alpha_mint_x.Live.Sends.{HasClaim, IsChecked, IsPlayed, send_intent-IsGood}

All-map :
    {P Q : Placement → Type 0} (ps : List Placement)
    → ((p : Placement) → P p → Q p)
    → All P ps
    → All Q ps
All-map [] f h = tt
All-map (p ∷ ps) f h = (f p h.0, All-map ps f h.1)

module _ (n : Numbers) (date_of : String → String) where
  -- The stamp of a prepared entry, and the check it has passed.
  abbrev IsStamped : Submission n → Reads → Submission n → Type 0
  IsStamped s r t =
      (t.strategy_id ≡ s.strategy_id)
      × (t.kill_epoch ≡ global_max_kill_epoch s.strategy_id r.at_stamp)
      × (active_kill s.strategy_id r.at_check ≡ false)

  stamp_entry-IsStamped :
      (now : String) (r : Reads) (s t : Submission n)
      → stamp_entry n date_of now r s ≡ ok t
      → IsStamped s r t
  unfolding stamp_entry
  stamp_entry-IsStamped now r s t h = ground arith

  prepare_entry-IsStamped :
      (m : Manager n) (now : String) (r : Reads) (s : Submission n) (size : n.Amount)
      (t : Submission n) (venue : String)
      → prepare_entry n date_of m now r s size ≡ ok (t, venue)
      → IsStamped s r t
  unfolding prepare_entry
  prepare_entry-IsStamped m now r s size t venue h =
      elim (Result-cases (stamp_entry n date_of now r s)) [
        | inl (e, q) ↦ ground arith
        | inr (v, q) ↦ ground (arith, stamp_entry-IsStamped now r s v q)
      ]

  module _ (new_row : Tables → String) (Between : Tables → Tables → Type 0) where
    -- A placement before which no kill was active for the strategy at the re-check of its turn, and
    -- its claim was not revoked when it was read again.
    abbrev pub IsClear : String → Placement → Type 0
    IsClear sid p =
        (active_kill sid p.checked_tables ≡ false)
        × HasClaim p.client_order_id p.claim_journal
        × Between p.checked_tables p.tables

    IsChecked-IsClear :
        (r : Reads) (s t : Submission n) (p : Placement)
        → IsStamped s r t
        → Reach new_row r.at_stamp r.at_check
        → IsChecked new_row Between r.at_check t.strategy_id t.kill_epoch p
        → IsClear s.strategy_id p
    IsChecked-IsClear r s t p (i, e, a) h (k, m, c, q) =
        let b : global_max_kill_epoch s.strategy_id p.checked_tables
            ≤ global_max_kill_epoch s.strategy_id r.at_stamp =
          subst (λ x. global_max_kill_epoch s.strategy_id p.checked_tables ≤ x) e
            (subst (λ x. global_max_kill_epoch x p.checked_tables ≤ t.kill_epoch) i m) in
        (no_kill_unseen new_row s.strategy_id r.at_stamp r.at_check p.checked_tables h k a b, c, q)

    either-IsClear :
        (sid : String) (b : Bool) (x y : EntryOutcome × World)
        → All (IsClear sid) x.1.sent
        → All (IsClear sid) y.1.sent
        → All (IsClear sid) (if b then x else y).1.sent
    either-IsClear sid true x y p q = p
    either-IsClear sid false x y p q = q

    send_journaled-IsClear :
        (d : Draws) (r : Reads) (s t : Submission n) (venue : String) (scripts : List Script)
        (w : World) (j : Result StoreError Journal)
        → IsStamped s r t
        → Reach new_row r.at_stamp r.at_check
        → Reach new_row r.at_check w.tables
        → All (IsPlayed new_row Between r.at_check) scripts
        → w.sent ≡ []
        → All
            (IsClear s.strategy_id)
            (send_journaled d (intent_row n date_of d t venue) scripts w j).1.sent
    send_journaled-IsClear d r s t venue scripts w (err x) e h k q z =
        subst (All (IsClear s.strategy_id)) (sym z) tt
    send_journaled-IsClear d r s t venue scripts w (ok j) e h k q z =
        All-map _ (λ p. IsChecked-IsClear r s t p e h)
          (send_intent-IsGood new_row Between r.at_check d.new_id attempt_id d.now scripts
            (intent_row n date_of d t venue) (with_journal w j) q
            (
              k,
              subst (All (IsChecked new_row Between r.at_check t.strategy_id t.kill_epoch)) (sym z)
                  tt,
            )).1

    submit_prepared-IsClear :
        (d : Draws) (r : Reads) (s : Submission n) (scripts : List Script) (w : World)
        (prepared : Result EntryError (Submission n × String))
        → ((t : Submission n) (venue : String) → prepared ≡ ok (t, venue) → IsStamped s r t)
        → Reach new_row r.at_stamp r.at_check
        → Reach new_row r.at_check w.tables
        → All (IsPlayed new_row Between r.at_check) scripts
        → w.sent ≡ []
        → All (IsClear s.strategy_id) (submit_prepared n date_of d scripts w prepared).1.sent
    unfolding journal_and_send
    submit_prepared-IsClear d r s scripts w (err x) e h k q z =
        subst (All (IsClear s.strategy_id)) (sym z) tt
    submit_prepared-IsClear d r s scripts w (ok (t, venue)) e h k q z =
        send_journaled-IsClear d r s t venue scripts w _ (e t venue refl) h k q z

    record_rejection_sent :
        (d : Draws) (sid : String) (payload : Option String) (w : World)
        → (record_rejection n date_of d sid payload w).sent ≡ w.sent
    record_rejection_sent d sid none w = refl
    record_rejection_sent d sid (some payload) w = refl

    -- The reads of an entry are of the kills in this order, with any transactions in between, before
    -- and after every check, and `Between` holds of what one turn commits between its kill re-check
    -- and its send. Then each placement that the venue is sent follows a re-check at which no kill was
    -- active for the strategy, and a re-read of its claim that was not revoked, and from the tables of
    -- the re-check to those at the send `Between` holds.
    pub entry_sends-IsClear :
        (m : Manager n) (d : Draws) (r : Reads) (s : Submission n) (size : n.Amount)
        (payload : Option String) (scripts : List Script) (w : World)
        → Reach new_row r.at_stamp r.at_check
        → Reach new_row r.at_check w.tables
        → All (IsPlayed new_row Between r.at_check) scripts
        → w.sent ≡ []
        → All (IsClear s.strategy_id) (submit_entry n date_of m d r s size payload scripts w).1.sent
    unfolding submit_entry
    entry_sends-IsClear m d r s size payload scripts w h k q z =
        either-IsClear s.strategy_id (m.reconciled && not m.reset_pending) _ _
          (submit_prepared-IsClear d r s scripts w _
            (λ t venue e. prepare_entry-IsStamped m d.now r s size t venue e) h k q z)
          (subst (All (IsClear s.strategy_id))
            (sym (record_rejection_sent d s.strategy_id payload w ∙ z)) tt)
