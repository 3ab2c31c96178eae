-- ===== src/Tests/Live.antt =====
-- A live entry at a concrete venue and journal (control-plane/internal/oms/live).
use alpha_mint_x.Base.{ℕ, ◌≡◌, refl, String, true, false, none, some, List, [], ◌∷◌, All, arith}
use alpha_mint_x.Base.Int.{pos}
use alpha_mint_x.Numbers.Whole.{whole}
use alpha_mint_x.Store.{
  Tables, breaker_active_today, active_kill, global_max_kill_epoch, tenant_of, max_epoch,
}
use alpha_mint_x.Store.Histories.{here}
use alpha_mint_x.Live.{
  OrderStatus, status_rank, LiveOrder, OrderIntent, Journal, update_order, find_order,
  update_intent, find_intent, insert_order, insert_order_intent, insert_journaled_order,
  append_recon_event, record_intent_claim, record_intent_attempt, record_exchange_ack,
  record_order_status, get_order_intent, local_status, World, Placement, PlaceAnswer, QueryAnswer,
  Commits, Script, adopt_ack, poison, resolve_ambiguous, transmit, send_intent, SymbolFilters,
  passive_price, normalize_entry_qty, shaved_qty, Submission, Manager, Reads, Draws, EntryOutcome,
  stamp_entry, attempt_id, intent_row, order_row, reference_price, prepare_entry, journal_and_send,
  submit_entry,
}
use alpha_mint_x.Live.Unseen.{IsClear, entry_sends-IsClear}
use alpha_mint_x.Live.Sends.{IsPlayed}
use alpha_mint_x.Live.Ranks.{report_all, highest_rank, reports_settle}
use alpha_mint_x.Live.Claims.{ClaimWrite}
use alpha_mint_x.Live.Attempts.{IsDecided, IsSettled, sends_end}
use alpha_mint_x.Tests.Store.{new_id, calm, at}

abbrev empty : Journal
empty = record { orders = []; intents = []; recon = []; fills = []; rejections = [] }

abbrev world : World
world = record { tables = calm; journal = empty; sent = []; filters_stale = false }

abbrev filters : SymbolFilters whole
filters = record {
  tick = pos 1;
  step = pos 1;
  min_qty = pos 1;
  max_qty = pos 100;
  min_notional = pos 10;
}

abbrev manager : Manager whole
manager = record {
  reconciled = true;
  reset_pending = false;
  venue_of = λ symbol. some "BTCUSDT";
  symbol_filters_for = λ venue. some filters;
  mark = λ symbol. some (pos 100);
}

abbrev draws : Draws
draws = record { new_id = λ j. "event"; order_id = "o1"; token = "t"; now = at }

abbrev entry : Submission whole
entry = record {
  strategy_id = "alpha";
  symbol = "BTC/USDT";
  class = "ENTRY";
  side = "buy";
  typ = "market";
  origin = "proposal";
  reduce_only = false;
  proposal_id = some "p1";
  kill_epoch = 0;
  qty = pos 0;
  limit_price = pos 0;
  stop_price = pos 95;
  take_profit = pos 0;
}

abbrev nothing : Commits
nothing = record { kills = λ t. t; writes = λ j. j }

abbrev answers : List QueryAnswer
answers =
    QueryAnswer.unreachable ∷ QueryAnswer.not_found ∷ QueryAnswer.unreachable
    ∷ QueryAnswer.unreachable ∷ QueryAnswer.unreachable ∷ []

-- The first attempt is ambiguous and unknown to the venue, the second is throttled once and taken.
abbrev scripts : List Script
scripts =
    record {
      before = nothing;
      turns =
          record {
            others = nothing;
            before_claim = nothing;
            before_place = nothing;
            answer = PlaceAnswer.ambiguous;
          }
          ∷ [];
      queries = answers;
      after = nothing;
    }
    ∷ record {
      before = nothing;
      turns =
          record {
            others = nothing;
            before_claim = nothing;
            before_place = nothing;
            answer = PlaceAnswer.throttled true;
          }
          ∷ record {
            others = nothing;
            before_claim = nothing;
            before_place = nothing;
            answer = PlaceAnswer.acked "77" "NEW";
          }
          ∷ [];
      queries = answers;
      after = nothing;
    }
    ∷ []

abbrev reads : Reads
reads = record { at_breaker = calm; at_stamp = calm; at_check = calm }

abbrev date_of : String → String
date_of text = text

abbrev run : EntryOutcome × World
run = submit_entry whole date_of manager draws reads entry (pos 1000) none scripts world

abbrev sent_ids : List Placement → List String
sent_ids [] = []
sent_ids (p ∷ ps) = p.client_order_id ∷ sent_ids ps

-- Three placements are sent, the newest first.
run_sent : sent_ids run.1.sent ≡ "amx1-t-1" ∷ "amx1-t-1" ∷ "amx1-t-0" ∷ []
unfolding submit_entry prepare_entry stamp_entry breaker_active_today active_kill
    global_max_kill_epoch tenant_of max_epoch reference_price passive_price normalize_entry_qty
    shaved_qty journal_and_send insert_journaled_order insert_order insert_order_intent find_order
    find_intent update_order update_intent send_intent record_intent_claim transmit get_order_intent
    resolve_ambiguous poison append_recon_event record_intent_attempt adopt_ack record_exchange_ack
    local_status record_order_status attempt_id
run_sent = refl

-- Nothing is committed between a check and its send.
abbrev Same : Tables → Tables → Type 0
Same t u = t ≡ u

scripts-IsPlayed : All (IsPlayed new_id Same calm) scripts
scripts-IsPlayed = (
  ((λ t. here), (λ t. here), (((λ t. here), (λ t. here), (λ t. here), (λ t. refl)), tt)),
  (
    (
      (λ t. here),
      (λ t. here),
      (
        ((λ t. here), (λ t. here), (λ t. here), (λ t. refl)),
        (((λ t. here), (λ t. here), (λ t. here), (λ t. refl)), tt),
      ),
    ),
    tt,
  ),
)

entry_sends-IsClear_example : All (IsClear whole date_of new_id Same "alpha") run.1.sent
entry_sends-IsClear_example =
    entry_sends-IsClear whole date_of new_id Same manager draws reads entry (pos 1000) none scripts
      world here here scripts-IsPlayed refl

-- The ninth attempt of an intent whose rows are not there.
abbrev intent : OrderIntent
intent = record (intent_row whole date_of draws entry "BTCUSDT") {
  attempt = 8;
  client_order_id = "amx1-t-8";
}

scripts-IsDecided : All IsDecided scripts
scripts-IsDecided = ground arith

sends_end_example : IsSettled (send_intent draws.new_id attempt_id draws.now scripts intent world).0
sends_end_example =
    sends_end draws.new_id attempt_id draws.now scripts intent world scripts-IsDecided
      (ground arith) (ground arith)

-- A stale report after the fill of an order.
abbrev order : LiveOrder
order = order_row whole date_of draws entry

abbrev journal : Journal
journal = record empty { orders = order ∷ []; intents = intent ∷ [] }

abbrev reports : List (String × OrderStatus)
reports = ("o1", OrderStatus.filled) ∷ ("o1", OrderStatus.open_status) ∷ []

order_found : find_order "o1" journal.orders ≡ some order
unfolding find_order
order_found = refl

reports_settle_example :
    (p : LiveOrder) × (find_order "o1" (report_all reports journal).orders ≡ some p)
    × (status_rank p.status ≡ highest_rank "o1" reports 0)
    × (◌≡◌ {A = ℕ} 0 3 → p.status ≡ OrderStatus.pending_new)
reports_settle_example = reports_settle reports "o1" journal order order_found

-- Two claims and a revocation of one attempt.
abbrev writes : List ClaimWrite
writes =
    ClaimWrite.claim "amx1-t-8" at
    ∷ ClaimWrite.revoke "amx1-t-8" at
    ∷ ClaimWrite.claim "amx1-t-8" at
    ∷ []
