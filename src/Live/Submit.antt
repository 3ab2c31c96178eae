-- ===== src/Live/Submit.antt =====
-- control-plane/internal/oms/live/submit.go, clientorderid.go: from the journaled intent to the venue.
-- What the venue answers, and what the rest of the program commits before a send, are scripts; the
-- venue keeps the placements that it has been sent. Waits and log lines are dropped.
use alpha_mint_x.Base.{
  ℕ, String, Bool, ◌||◌, Option, none, some, List, ◌∷◌, ltb, Result, ok, err, if◌then◌else◌,
}
use alpha_mint_x.Base.Results.{◌>>=◌}
use alpha_mint_x.Store.{StoreError, Tables, global_max_kill_epoch}
use alpha_mint_x.Live.Types.{OrderStatus, OrderIntent, ReconEvent, Journal}
use alpha_mint_x.Live.Writes.{append_recon_event, record_exchange_ack, record_order_status}
use alpha_mint_x.Live.Status.{local_status}

-- The bound of `resolveAmbiguous`: the attempt is a single digit.
abbrev pub last_attempt : ℕ
last_attempt = 9

-- The tries of `resolveAmbiguous`.
abbrev pub query_tries : ℕ
query_tries = 5

pub data SubmitError : Type 0 where
  kill_epoch_stale exchange_rejected venue_unreachable attempts_exhausted : SubmitError
  store_failed : StoreError → SubmitError

-- What the venue holds of a placement: the attempt. With it stand the tables that the kill re-check
-- before it has read, the journal that the re-read of its claim has read, and the tables and the
-- journal as they were when it was sent.
pub record Placement : Type 0 where
  pub client_order_id : String
  pub checked_tables : Tables
  pub claim_journal : Journal
  pub tables : Tables
  pub journal : Journal

pub record World : Type 0 where
  pub tables : Tables
  pub journal : Journal
  pub sent : List Placement
  pub filters_stale : Bool

-- `PlaceOrder`: an acknowledgment, or an error by its class; a rejection may name a filter, and a
-- throttled answer may say when to send again.
pub data PlaceAnswer : Type 0 where
  acked : String → String → PlaceAnswer
  definite_reject throttled : Bool → PlaceAnswer
  ambiguous : PlaceAnswer

-- `QueryOrder`.
pub data QueryAnswer : Type 0 where
  found : String → String → QueryAnswer
  not_found unreachable : QueryAnswer

-- What the rest of the program commits between two steps: on the kills, and on the journal.
pub record Commits : Type 0 where
  pub kills : Tables → Tables
  pub writes : Journal → Journal

-- One send: what is committed before the kill re-check, between that and the re-read of the claim, and
-- between that and the placement, and the venue's answer.
pub record Turn : Type 0 where
  pub others : Commits
  pub before_claim : Commits
  pub before_place : Commits
  pub answer : PlaceAnswer

-- One attempt: what is committed before its claim, its sends, the answers to the queries, and what
-- is committed before the check that follows them.
pub record Script : Type 0 where
  pub before : Commits
  pub turns : List Turn
  pub queries : List QueryAnswer
  pub after : Commits

-- The end of an attempt: resolved, the next attempt, an error, or still waiting for the venue.
pub data Outcome : Type 0 where
  resolved waiting : Outcome
  retry : OrderIntent → Outcome
  failed : SubmitError → Outcome

abbrev pub commit : Commits → World → World
commit c w = record w { tables = c.kills w.tables; journal = c.writes w.journal }

-- The placement of an attempt, after its two reads: the venue has it, whatever it answers.
abbrev pub place : OrderIntent → Tables → Journal → World → World
place i read_tables read_journal w = record w {
  sent =
      record {
        client_order_id = i.client_order_id;
        checked_tables = read_tables;
        claim_journal = read_journal;
        tables = w.tables;
        journal = w.journal;
      }
      ∷ w.sent;
}

-- The kill re-check of `transmit` and of `resolveAmbiguous`.
abbrev pub is_stale : OrderIntent → World → Bool
is_stale i w = ltb i.kill_epoch (global_max_kill_epoch i.strategy_id w.tables)

abbrev pub with_journal : World → Journal → World
with_journal w j = record w { journal = j }

-- The state after a chain of writes of which each is kept, and the outcome if all succeed.
abbrev pub written : Outcome → World → Result StoreError Journal → Outcome × World
written o w (err e) = (failed (SubmitError.store_failed e), w)
written o w (ok j) = (o, with_journal w j)

-- The end of `rejectDefinite`: the filters are marked as stale after the transaction, where the
-- venue has named one.
abbrev pub refused : Bool → World → Result StoreError Journal → Outcome × World
refused filter w (err e) = (failed (SubmitError.store_failed e), w)
refused filter w (ok j) = (
  failed SubmitError.exchange_rejected,
  record w { journal = j; filters_stale = w.filters_stale || filter },
)

module _ (new_id : Journal → String) (now : String) where
  abbrev pub event_of : String → OrderIntent → Option String → String → Journal → ReconEvent
  event_of kind i exchange_id details j = record {
    event_id = new_id j;
    kind = kind;
    run_id = none;
    strategy_id = some i.strategy_id;
    symbol = some i.symbol;
    client_order_id = some i.client_order_id;
    exchange_order_id = exchange_id;
    details = details;
    recorded_at = now;
  }

  -- The transaction of `abandonStale` and of `rejectDefinite`.
  abbrev pub reject_with : String → OrderIntent → Journal → Result StoreError Journal
  reject_with reason i j = do
    r ← record_order_status i.order_id OrderStatus.rejected j
    append_recon_event (event_of "intent_resolved_absent" i none reason r.1) r.1

  unfoldable pub abandon_stale : OrderIntent → World → Outcome × World
  abandon_stale i w =
      written (failed SubmitError.kill_epoch_stale) w (reject_with "kill_epoch_stale" i w.journal)

  unfoldable pub reject_definite : Bool → OrderIntent → World → Outcome × World
  reject_definite filter i w = refused filter w (reject_with "rejected" i w.journal)

  abbrev adopt_status : OrderIntent → String → Journal → Result StoreError Journal
  adopt_status i venue j = elim (local_status venue) [
    | none ↦ ok j
    | some mapped ↦ (do r ← record_order_status i.order_id mapped j; ok r.1)
  ]

  -- `adoptAck`, whose writes are separate: what precedes an error is kept, and the error is the
  -- outcome. An order that takes the acknowledgment takes the status and the event as well.
  unfoldable pub adopt_ack : Bool → OrderIntent → String → String → World → Outcome × World
  adopt_ack with_event i exchange_id venue w = written resolved w (do
    j ← record_exchange_ack i.order_id exchange_id w.journal
    k ← adopt_status i venue j
    if with_event
        then append_recon_event (event_of "intent_resolved_present" i (some exchange_id) venue k) k
        else ok k)
