-- ===== src/Live/Transmit.antt =====
-- control-plane/internal/oms/live/submit.go: the loops over the sends of an attempt, the queries of
-- an ambiguous one, and the attempts of an intent.
use alpha_mint_x.Base.{
  ℕ, zero, suc, String, Bool, true, false, Option, none, some, List, [], ◌∷◌, leb, Result, ok, err,
  if◌then◌else◌,
}
use alpha_mint_x.Base.Results.{◌>>=◌}
use alpha_mint_x.Store.{StoreError}
use alpha_mint_x.Live.Types.{OrderStatus, OrderIntent, Journal}
use alpha_mint_x.Live.Writes.{
  append_recon_event, record_intent_claim, record_intent_attempt, record_order_status,
  get_order_intent,
}
use alpha_mint_x.Live.Submit.{
  SubmitError, World, PlaceAnswer, QueryAnswer, Commits, Turn, Script, Outcome, resolved, waiting,
  retry, failed, commit, place, is_stale, with_journal, written, last_attempt, query_tries,
  event_of, abandon_stale, reject_definite, adopt_ack,
}

module _ (new_id : Journal → String) (attempt_id : String → ℕ → String) (now : String) where
  abbrev pub next_attempt : OrderIntent → OrderIntent
  next_attempt i = record i {
    attempt = suc i.attempt;
    client_order_id = attempt_id i.intent_token (suc i.attempt);
    journaled_at = now;
    claimed_at = none;
    claim_revoked_at = none;
  }

  -- The order is rejected, and an error is returned.
  abbrev pub reject_as : SubmitError → OrderIntent → World → Outcome × World
  reject_as e i w =
      written (failed e) w
        (do r ← record_order_status i.order_id OrderStatus.rejected w.journal; ok r.1)

  -- The end of `resolveAmbiguous` for an id that the venue does not know: the event, the kill
  -- re-check, the bound on the attempts, and the next attempt.
  abbrev pub after_event : OrderIntent → World → Outcome × World
  after_event i w =
      if is_stale i w
      then reject_as SubmitError.kill_epoch_stale i w
      else if leb last_attempt i.attempt
      then reject_as SubmitError.attempts_exhausted i w
      else written (retry (next_attempt i)) w (record_intent_attempt (next_attempt i) w.journal)

  unfoldable pub poison : Commits → OrderIntent → World → Outcome × World
  poison after i w =
      elim (append_recon_event
        (event_of new_id now "intent_resolved_absent" i none "poisoned" w.journal) w.journal) [
          | err e ↦ (failed (SubmitError.store_failed e), w)
          | ok j ↦ after_event i (commit after (with_journal w j))
        ]

  -- `resolveAmbiguous`, with the tries that are left.
  unfoldable pub resolve_ambiguous :
      ℕ → List QueryAnswer → Commits → OrderIntent → World → Outcome × World
  resolve_ambiguous zero queries after i w = (failed SubmitError.venue_unreachable, w)
  resolve_ambiguous (suc tries) [] after i w = (waiting, w)
  resolve_ambiguous (suc tries) (QueryAnswer.found id venue ∷ queries) after i w =
      adopt_ack new_id now true i id venue w
  resolve_ambiguous (suc tries) (QueryAnswer.not_found ∷ queries) after i w = poison after i w
  resolve_ambiguous (suc tries) (QueryAnswer.unreachable ∷ queries) after i w =
      resolve_ambiguous tries queries after i w

  -- The classes of an answer; `again` is the rest of the loop.
  abbrev pub answered :
      PlaceAnswer
      → List QueryAnswer
      → Commits
      → OrderIntent
      → World
      → Outcome × World
      → Outcome × World
  answered (PlaceAnswer.acked id venue) queries after i w again =
      adopt_ack new_id now false i id venue w
  answered (PlaceAnswer.definite_reject filter) queries after i w again =
      reject_definite new_id now filter i w
  answered (PlaceAnswer.throttled true) queries after i w again = again
  answered (PlaceAnswer.throttled false) queries after i w again =
      resolve_ambiguous query_tries queries after i w
  answered PlaceAnswer.ambiguous queries after i w again =
      resolve_ambiguous query_tries queries after i w

  -- The checks before a send, each in the world that it reads: the kills, then the claim of the
  -- attempt's row.
  abbrev pub unless_revoked : Option String → World → Outcome × World → Outcome × World
  unless_revoked none w send = send
  unless_revoked (some at) w send = (resolved, w)

  abbrev pub unless_claim_revoked :
      Result StoreError OrderIntent → World → Outcome × World → Outcome × World
  unless_claim_revoked (err e) w send = (failed (SubmitError.store_failed e), w)
  unless_claim_revoked (ok row) w send = unless_revoked row.claim_revoked_at w send

  abbrev pub unless_stale : Bool → OrderIntent → World → Outcome × World → Outcome × World
  unless_stale true i w rest = abandon_stale new_id now i w
  unless_stale false i w rest = rest

  -- `transmit`: the kill re-check, the re-read of the claim and the send, three steps between which
  -- the rest of the program commits; again while the venue says to wait.
  unfoldable pub transmit :
      List Turn → List QueryAnswer → Commits → OrderIntent → World → Outcome × World
  transmit [] queries after i w = (waiting, w)
  transmit (t ∷ ts) queries after i w =
      let v = commit t.others w in
      let u = commit t.before_claim v in
      let x = place i v.tables u.journal (commit t.before_place u) in
      let again = transmit ts queries after i x in
      unless_stale (is_stale i v) i v (
        unless_claim_revoked (get_order_intent i.client_order_id u.journal) u
          (answered t.answer queries after i x again))

  -- What follows an attempt: the next one, if there is one.
  abbrev pub go_on : (OrderIntent → World → Outcome × World) → Outcome × World → Outcome × World
  go_on send (resolved, w) = (resolved, w)
  go_on send (waiting, w) = (waiting, w)
  go_on send (failed e, w) = (failed e, w)
  go_on send (retry i, w) = send i w

  -- What follows a claim: nothing where it was lost.
  abbrev pub claimed :
      Script
      → OrderIntent
      → World
      → (OrderIntent → World → Outcome × World)
      → Result StoreError (Bool × Journal)
      → Outcome × World
  claimed s i w send (err e) = (failed (SubmitError.store_failed e), w)
  claimed s i w send (ok (false, j)) = (resolved, w)
  claimed s i w send (ok (true, j)) =
      go_on send (transmit s.turns s.queries s.after i (with_journal w j))

  -- `sendIntent`: claim, transmit, and repeat with the next attempt.
  unfoldable pub send_intent : List Script → OrderIntent → World → Outcome × World
  send_intent [] i w = (waiting, w)
  send_intent (s ∷ ss) i w =
      let v = commit s.before w in
      claimed s i v (send_intent ss) (record_intent_claim i.client_order_id now v.journal)
