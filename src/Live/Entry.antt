-- ===== src/Live/Entry.antt =====
-- control-plane/internal/oms/live/submit.go: `submitEntry` and `journalAndSend`. The three reads of
-- the safety tables are of three states, since other transactions may be committed in between.
use Prim.Native.String.{slice, ◌++◌ as ◌+ₛ◌}
use alpha_mint_x.Base.{
  ℕ, ◌+◌, String, Bool, true, false, ◌&&◌, not, Option, none, some, List, [], ◌∷◌, ◌++◌, ◌=ₛ◌,
  Result, ok, err, if◌then◌else◌,
}
use alpha_mint_x.Base.Results.{◌>>=◌}
use alpha_mint_x.Numbers.{Numbers, is_gt, sign}
use alpha_mint_x.Store.{
  StoreError, Tables, breaker_active_today, global_max_kill_epoch, active_kill,
}
use alpha_mint_x.Live.Types.{OrderStatus, LiveOrder, OrderIntent, Journal}
use alpha_mint_x.Live.Writes.{insert_journaled_order}
use alpha_mint_x.Live.Submit.{SubmitError, World, Script, Outcome, failed, with_journal}
use alpha_mint_x.Live.Transmit.{send_intent}
use alpha_mint_x.Live.Filters.{EntryError, SymbolFilters, passive_price, normalize_entry_qty}

-- `submission`.
pub record Submission (n : Numbers) : Type 0 where
  pub strategy_id : String
  pub symbol : String
  pub class : String
  pub side : String
  pub typ : String
  pub origin : String
  pub reduce_only : Bool
  pub proposal_id : Option String
  pub kill_epoch : ℕ
  pub qty : n.Amount
  pub limit_price : n.Amount
  pub stop_price : n.Amount
  pub take_profit : n.Amount

-- What the manager knows when it is asked: `reconciled`, `resetPending`, `venueOf`,
-- `symbolFiltersFor` and the fresh marks.
pub record Manager (n : Numbers) : Type 0 where
  pub reconciled : Bool
  pub reset_pending : Bool
  pub venue_of : String → Option String
  pub symbol_filters_for : String → Option (SymbolFilters n)
  pub mark : String → Option n.Amount

-- The tables at the three reads.
pub record Reads : Type 0 where
  pub at_breaker : Tables
  pub at_stamp : Tables
  pub at_check : Tables

-- `attemptID`: `amx1-<token>-<attempt>`, for an attempt of one digit.
unfoldable pub attempt_id : String → ℕ → String
attempt_id token attempt = "amx1-" +ₛ token +ₛ "-" +ₛ slice "0123456789" attempt (attempt + 1)

-- What is drawn or rendered outside: the identifiers, the intent's token and the time.
pub record Draws : Type 0 where
  pub new_id : Journal → String
  pub order_id : String
  pub token : String
  pub now : String

pub data EntryOutcome : Type 0 where
  refused_entry : EntryError → EntryOutcome
  submitted : Outcome → EntryOutcome

abbrev or_error {ℓ} : {A : Type ℓ} → EntryError → Option A → Result EntryError A
or_error e none = err e
or_error e (some a) = ok a

abbrev require : EntryError → Bool → Result EntryError Bool
require e true = ok true
require e false = err e

abbrev pub send_journaled :
    Draws → OrderIntent → List Script → World → Result StoreError Journal → Outcome × World
send_journaled d i scripts w (err e) = (failed (SubmitError.store_failed e), w)
send_journaled d i scripts w (ok j) =
    send_intent d.new_id attempt_id d.now scripts i (with_journal w j)

module _ (n : Numbers) (date_of : String → String) where
  open n use {Amount, text}

  -- The breaker, then the stamp, then the standing kill: the stamped submission.
  unfoldable pub stamp_entry : String → Reads → Submission n → Result EntryError (Submission n)
  stamp_entry now r s = do
    _ ←
        require EntryError.breaker_active
          (not (breaker_active_today date_of s.strategy_id (date_of now) r.at_breaker))
    _ ← require EntryError.kill_switch_active (not (active_kill s.strategy_id r.at_check))
    ok (record s { kill_epoch = global_max_kill_epoch s.strategy_id r.at_stamp })

  -- The limit price at the tick and the reference price, by the type of the entry.
  unfoldable pub reference_price :
      Manager n → SymbolFilters n → Submission n → Result EntryError (Amount × Amount)
  reference_price m f s =
      let limit = passive_price n s.side s.limit_price f.tick in
      if s.typ =ₛ "limit"
      then (if is_gt (sign n s.limit_price)
          then ok (limit, limit)
          else err EntryError.limit_not_positive)
      else if s.typ =ₛ "market"
      then elim (m.mark s.symbol) [
        | none ↦ err EntryError.no_fresh_mark
        | some mark ↦ ok (s.limit_price, mark)
      ]
      else err EntryError.unknown_type

  -- The checks of `submitEntry` after the gate, and the normalized submission with its venue symbol.
  unfoldable pub prepare_entry :
      Manager n → String → Reads → Submission n → Amount → Result EntryError (Submission n × String)
  prepare_entry m now r s size = do
    t ← stamp_entry now r s
    venue ← or_error EntryError.not_configured (m.venue_of s.symbol)
    f ← or_error EntryError.filter_unavailable (m.symbol_filters_for venue)
    _ ← require EntryError.size_not_positive (is_gt (sign n size))
    (limit, ref) ← reference_price m f s
    qty ← normalize_entry_qty n size ref f
    ok (record t { limit_price = limit; qty = qty }, venue)

  -- `optDec`.
  abbrev opt_dec : Amount → Option String
  opt_dec d = if is_gt (sign n d) then some (text d) else none

  abbrev pub order_row : Draws → Submission n → LiveOrder
  order_row d s = record {
    order_id = d.order_id;
    proposal_id = s.proposal_id;
    origin = s.origin;
    strategy_id = s.strategy_id;
    symbol = s.symbol;
    class = s.class;
    side = s.side;
    typ = s.typ;
    reduce_only = s.reduce_only;
    qty_base = text s.qty;
    limit_price = opt_dec s.limit_price;
    stop_price = opt_dec s.stop_price;
    take_profit = opt_dec s.take_profit;
    fill_price = none;
    kill_epoch = s.kill_epoch;
    status = OrderStatus.pending_new;
    submitted_at = d.now;
    filled_at = none;
    client_order_id = none;
    exchange_order_id = none;
  }

  abbrev pub intent_row : Draws → Submission n → String → OrderIntent
  intent_row d s venue = record {
    client_order_id = attempt_id d.token 0;
    intent_token = d.token;
    attempt = 0;
    order_id = d.order_id;
    strategy_id = s.strategy_id;
    symbol = s.symbol;
    venue_symbol = venue;
    side = s.side;
    typ = s.typ;
    qty_base = text s.qty;
    limit_price = opt_dec s.limit_price;
    stop_price = opt_dec s.stop_price;
    origin = s.origin;
    proposal_id = s.proposal_id;
    kill_epoch = s.kill_epoch;
    journaled_at = d.now;
    claimed_at = none;
    claim_revoked_at = none;
  }

  -- `journalAndSend`: nothing is sent that is not journaled.
  unfoldable pub journal_and_send :
      Draws → Submission n → String → List Script → World → Outcome × World
  journal_and_send d s venue scripts w =
      send_journaled d (intent_row d s venue) scripts w
        (insert_journaled_order (order_row d s) (intent_row d s venue) w.journal)

  -- The recorded drop of `preflightGate`.
  abbrev pub record_rejection : Draws → String → Option String → World → World
  record_rejection d sid none w = w
  record_rejection d sid (some payload) w = record w {
    journal = record w.journal {
      rejections =
          w.journal.rejections
          ++ (record {
            strategy_id = sid;
            received_at = d.now;
            reason = "RECONCILE_PENDING";
            payload = payload;
          }
              ∷ []);
    };
  }

  abbrev pub submit_prepared :
      Draws → List Script → World → Result EntryError (Submission n × String) → EntryOutcome × World
  submit_prepared d scripts w (err e) = (EntryOutcome.refused_entry e, w)
  submit_prepared d scripts w (ok r) =
      let (o, u) = journal_and_send d r.0 r.1 scripts w in (EntryOutcome.submitted o, u)

  -- `submitEntry`, of which `preflightGate` is the first step.
  unfoldable pub submit_entry :
      Manager n
      → Draws
      → Reads
      → Submission n
      → Amount
      → Option String
      → List Script
      → World
      → EntryOutcome × World
  submit_entry m d r s size payload scripts w =
      if m.reconciled && not m.reset_pending
      then submit_prepared d scripts w (prepare_entry m d.now r s size)
      else (
        EntryOutcome.refused_entry EntryError.reconcile_pending,
        record_rejection d s.strategy_id payload w,
      )
