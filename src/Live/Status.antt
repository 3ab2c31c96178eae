-- ===== src/Live/Status.antt =====
-- control-plane/internal/oms/live/fsm.go: the statuses of the venue and the advance of an order.
use alpha_mint_x.Base.{
  String, Bool, ◌||◌, Option, none, some, ◌=ₛ◌, ◌==◌, ltb, Result, ok, if◌then◌else◌,
}
use alpha_mint_x.Base.Results.{◌>>=◌}
use alpha_mint_x.Store.{StoreError}
use alpha_mint_x.Live.Types.{OrderStatus, status_rank, LiveOrder, ReconEvent, Journal}
use alpha_mint_x.Live.Writes.{record_order_status, append_recon_event}

-- `isTerminal`.
abbrev pub is_terminal : OrderStatus → Bool
is_terminal s = status_rank s == 3

-- `localStatus`; `none` keeps the current status.
unfoldable pub local_status : String → Option OrderStatus
local_status venue =
    if venue =ₛ "NEW"
    then some OrderStatus.open_status
    else if venue =ₛ "PARTIALLY_FILLED"
    then some OrderStatus.partially_filled
    else if venue =ₛ "FILLED"
    then some OrderStatus.filled
    else if venue =ₛ "CANCELED"
    then some OrderStatus.canceled
    else if venue =ₛ "REJECTED"
    then some OrderStatus.rejected
    else if (venue =ₛ "EXPIRED") || (venue =ₛ "EXPIRED_IN_MATCH")
    then some OrderStatus.expired
    else none

-- `protectiveShaped`.
unfoldable pub protective_shaped : String → Bool
protective_shaped typ =
    (typ =ₛ "STOP_LOSS")
    || (typ =ₛ "STOP_LOSS_LIMIT")
    || (typ =ₛ "TAKE_PROFIT")
    || (typ =ₛ "TAKE_PROFIT_LIMIT")

module _ (new_id : Journal → String) (now : String) where
  abbrev dropped_event : LiveOrder → String → Option String → Journal → ReconEvent
  dropped_event o venue run j = record {
    event_id = new_id j;
    kind = "stale_update_dropped";
    run_id = run;
    strategy_id = some o.strategy_id;
    symbol = some o.symbol;
    client_order_id = o.client_order_id;
    exchange_order_id = none;
    details = venue;
    recorded_at = now;
  }

  -- `advanceStatus`: a report that would move the order back is dropped, and the drop is recorded.
  -- Statuses of different ranks differ, so the two tests of the source are one.
  abbrev record_drop :
      LiveOrder
      → String
      → Option String
      → OrderStatus
      → OrderStatus × Journal
      → Result StoreError (OrderStatus × Journal)
  record_drop o venue run mapped (kept, j) =
      if ltb (status_rank mapped) (status_rank kept)
      then (do k ← append_recon_event (dropped_event o venue run j) j; ok (kept, k))
      else ok (kept, j)

  unfoldable pub advance_status :
      LiveOrder → String → Option String → Journal → Result StoreError (OrderStatus × Journal)
  advance_status o venue run j = elim (local_status venue) [
    | none ↦ ok (o.status, j)
    | some mapped ↦ (do
      r ← record_order_status o.order_id mapped j
      record_drop o venue run mapped r)
  ]
