-- ===== src/Live/Attempts.antt =====
-- The sends end: an intent has ten attempts at most.
use alpha_mint_x.Base.{
  ℕ, zero, suc, ◌+◌, ◌≤◌, ◌<◌, ◌≡◌, refl, String, Bool, true, false, not, Option, none, some, List,
  [], ◌∷◌, length, leb, arith, All, Result, ok, err, if◌then◌else◌,
}
use alpha_mint_x.Base.Results.{◌>>=◌}
use alpha_mint_x.Store.{StoreError, exists_row}
use alpha_mint_x.Live.Types.{OrderStatus, OrderIntent, Journal}
use alpha_mint_x.Live.Writes.{
  append_recon_event, record_order_status, record_intent_attempt, get_order_intent,
}
use alpha_mint_x.Live.Submit.{
  SubmitError, World, PlaceAnswer, QueryAnswer, Commits, Turn, Script, Outcome, resolved, waiting,
  retry, failed, commit, place, is_stale, with_journal, written, abandon_stale, reject_definite,
  refused, reject_with, adopt_ack, query_tries, last_attempt,
}
use alpha_mint_x.Live.Transmit.{
  next_attempt, reject_as, after_event, poison, resolve_ambiguous, answered, unless_revoked,
  unless_claim_revoked, unless_stale, transmit, go_on, claimed, send_intent,
}

-- The venue says to send again.
abbrev pub waits : PlaceAnswer → Bool
waits (PlaceAnswer.throttled true) = true
waits _ = false

-- The script goes on until the attempt is decided: some send is answered otherwise, and the queries
-- are as many as the tries.
abbrev pub IsDecided : Script → Type 0
IsDecided s =
    (exists_row (λ (t : Turn). not (waits t.answer)) s.turns ≡ true)
    × (query_tries ≤ length s.queries)

-- Resolved, or an error.
abbrev pub IsSettled : Outcome → Type 0
IsSettled resolved = Unit
IsSettled (failed e) = Unit
IsSettled waiting = ⊥
IsSettled (retry i) = ⊥

-- Resolved, an error, or the next attempt where there is one.
abbrev Proceeds : OrderIntent → Outcome → Type 0
Proceeds i resolved = Unit
Proceeds i (failed e) = Unit
Proceeds i waiting = ⊥
Proceeds i (retry j) = (j.attempt ≡ suc i.attempt) × (i.attempt < last_attempt)

written-Proceeds :
    (i : OrderIntent) (o : Outcome) (w : World) (r : Result StoreError Journal)
    → Proceeds i o
    → Proceeds i (written o w r).0
written-Proceeds i o w (err e) h = tt
written-Proceeds i o w (ok j) h = h

refused-Proceeds :
    (i : OrderIntent) (filter : Bool) (w : World) (r : Result StoreError Journal)
    → Proceeds i (refused filter w r).0
refused-Proceeds i filter w (err e) = tt
refused-Proceeds i filter w (ok j) = tt

either-Proceeds :
    (i : OrderIntent) (b : Bool) (x y : Outcome × World)
    → Proceeds i x.0
    → (b ≡ false → Proceeds i y.0)
    → Proceeds i (if b then x else y).0
either-Proceeds i true x y p q = p
either-Proceeds i false x y p q = q refl

module _ (new_id : Journal → String) (attempt_id : String → ℕ → String) (now : String) where
  reject_as-Proceeds :
      (e : SubmitError) (i : OrderIntent) (w : World)
      → Proceeds i (reject_as new_id attempt_id now e i w).0
  reject_as-Proceeds e i w =
      written-Proceeds i (failed e) w
        (record_order_status i.order_id OrderStatus.rejected w.journal >>= (λ r. ok r.1)) tt

  after_event-Proceeds :
      (i : OrderIntent) (w : World) → Proceeds i (after_event new_id attempt_id now i w).0
  after_event-Proceeds i w =
      let next = next_attempt new_id attempt_id now i in
      let late = reject_as new_id attempt_id now SubmitError.attempts_exhausted i w in
      let more = written (retry next) w (record_intent_attempt next w.journal) in
      either-Proceeds i (is_stale i w)
        (reject_as new_id attempt_id now SubmitError.kill_epoch_stale i w)
        (if leb last_attempt i.attempt then late else more)
        (reject_as-Proceeds SubmitError.kill_epoch_stale i w)
        (λ a.
          either-Proceeds i (leb last_attempt i.attempt) late more
            (reject_as-Proceeds SubmitError.attempts_exhausted i w)
            (λ b.
              written-Proceeds i (retry next) w (record_intent_attempt next w.journal)
                (refl, ground arith)))

  resolve_ambiguous-Proceeds :
      (tries : ℕ) (queries : List QueryAnswer) (c : Commits) (i : OrderIntent) (w : World)
      → tries ≤ length queries
      → Proceeds i (resolve_ambiguous new_id attempt_id now tries queries c i w).0
  unfolding resolve_ambiguous adopt_ack poison append_recon_event
  resolve_ambiguous-Proceeds zero qs c i w h = tt
  resolve_ambiguous-Proceeds (suc n) [] c i w h = ground arith
  resolve_ambiguous-Proceeds (suc n) (QueryAnswer.found id venue ∷ qs) c i w h =
      written-Proceeds i resolved w _ tt
  resolve_ambiguous-Proceeds (suc n) (QueryAnswer.not_found ∷ qs) c i w h = after_event-Proceeds i _
  resolve_ambiguous-Proceeds (suc n) (QueryAnswer.unreachable ∷ qs) c i w h =
      resolve_ambiguous-Proceeds n qs c i w (ground arith)

  answered-Proceeds :
      (a : PlaceAnswer) (qs : List QueryAnswer) (c : Commits) (i : OrderIntent) (w : World)
      (again : Outcome × World)
      → query_tries ≤ length qs
      → (waits a ≡ true → Proceeds i again.0)
      → Proceeds i (answered new_id attempt_id now a qs c i w again).0
  unfolding adopt_ack reject_definite
  answered-Proceeds (PlaceAnswer.acked id venue) qs c i w again h f =
      written-Proceeds i resolved w _ tt
  answered-Proceeds (PlaceAnswer.definite_reject filter) qs c i w again h f =
      refused-Proceeds i filter w _
  answered-Proceeds (PlaceAnswer.throttled true) qs c i w again h f = f refl
  answered-Proceeds (PlaceAnswer.throttled false) qs c i w again h f =
      resolve_ambiguous-Proceeds query_tries qs c i w h
  answered-Proceeds PlaceAnswer.ambiguous qs c i w again h f =
      resolve_ambiguous-Proceeds query_tries qs c i w h

  unless_revoked-Proceeds :
      (i : OrderIntent) (w : World) (at : Option String) (send : Outcome × World)
      → Proceeds i send.0
      → Proceeds i (unless_revoked new_id attempt_id now at w send).0
  unless_revoked-Proceeds i w none send f = f
  unless_revoked-Proceeds i w (some at) send f = tt

  unless_claim_revoked-Proceeds :
      (i : OrderIntent) (w : World) (row : Result StoreError OrderIntent) (send : Outcome × World)
      → Proceeds i send.0
      → Proceeds i (unless_claim_revoked new_id attempt_id now row w send).0
  unless_claim_revoked-Proceeds i w (err e) send f = tt
  unless_claim_revoked-Proceeds i w (ok k) send f =
      unless_revoked-Proceeds i w k.claim_revoked_at send f

  unless_stale-Proceeds :
      (i : OrderIntent) (w : World) (stale : Bool) (rest : Outcome × World)
      → Proceeds i rest.0
      → Proceeds i (unless_stale new_id attempt_id now stale i w rest).0
  unfolding abandon_stale
  unless_stale-Proceeds i w true rest f =
      written-Proceeds i (failed SubmitError.kill_epoch_stale) w
        (reject_with new_id now "kill_epoch_stale" i w.journal) tt
  unless_stale-Proceeds i w false rest f = f

  transmit-Proceeds :
      (ts : List Turn) (qs : List QueryAnswer) (c : Commits) (i : OrderIntent) (w : World)
      → exists_row (λ (t : Turn). not (waits t.answer)) ts ≡ true
      → query_tries ≤ length qs
      → Proceeds i (transmit new_id attempt_id now ts qs c i w).0
  unfolding transmit
  transmit-Proceeds [] qs c i w h l = ground arith
  transmit-Proceeds (t ∷ ts) qs c i w h l =
      let v = commit t.others w in
      let u = commit t.before_claim v in
      let x = place i v.tables u.journal (commit t.before_place u) in
      unless_stale-Proceeds i v (is_stale i v) _ (
        unless_claim_revoked-Proceeds i u (get_order_intent i.client_order_id u.journal) _ (
          answered-Proceeds t.answer qs c i x _ l
            (λ e. transmit-Proceeds ts qs c i x (ground arith) l)))

  go_on-IsSettled :
      (send : OrderIntent → World → Outcome × World) (i : OrderIntent) (r : Outcome × World)
      → Proceeds i r.0
      → ((j : OrderIntent) (w : World)
          → j.attempt ≡ suc i.attempt
          → i.attempt < last_attempt
          → IsSettled (send j w).0)
      → IsSettled (go_on new_id attempt_id now send r).0
  go_on-IsSettled send i (resolved, w) p f = tt
  go_on-IsSettled send i (failed e, w) p f = tt
  go_on-IsSettled send i (waiting, w) p f = elim p [ ]
  go_on-IsSettled send i (retry j, w) p f = f j w p.0 p.1

  claimed-IsSettled :
      (s : Script) (i : OrderIntent) (w : World) (send : OrderIntent → World → Outcome × World)
      (r : Result StoreError (Bool × Journal))
      → IsDecided s
      → ((j : OrderIntent) (w : World)
          → j.attempt ≡ suc i.attempt
          → i.attempt < last_attempt
          → IsSettled (send j w).0)
      → IsSettled (claimed new_id attempt_id now s i w send r).0
  claimed-IsSettled s i w send (err e) d f = tt
  claimed-IsSettled s i w send (ok (false, j)) d f = tt
  claimed-IsSettled s i w send (ok (true, j)) d f =
      go_on-IsSettled send i _
        (transmit-Proceeds s.turns s.queries s.after i (with_journal w j) d.0 d.1) f

  -- An intent whose attempt is a digit is resolved or fails within ten attempts, whatever the venue
  -- answers, where each attempt is decided: the venue does not say for ever to send again.
  pub sends_end :
      (ss : List Script) (i : OrderIntent) (w : World)
      → All IsDecided ss
      → i.attempt ≤ last_attempt
      → last_attempt < i.attempt + length ss
      → IsSettled (send_intent new_id attempt_id now ss i w).0
  unfolding send_intent
  sends_end [] i w d a l = ground arith
  sends_end (s ∷ ss) i w d a l =
      claimed-IsSettled s i (commit s.before w) _ _ d.0
        (λ j v e m. sends_end ss j v d.1 (ground arith) (ground arith))
