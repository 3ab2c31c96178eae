-- ===== src/Live/Types.antt =====
-- control-plane/internal/store/liveoms.go and types.go: the rows of the live order manager's tables.
-- A decimal is its text, as in the columns.
use alpha_mint_x.Base.{ℕ, String, Bool, Option, none, some, List, [], ◌∷◌, ◌=ₛ◌, if◌then◌else◌}

-- The statuses of `statusRank`.
pub data OrderStatus : Type 0 where
  pending_new open_status partially_filled filled canceled rejected expired : OrderStatus

abbrev pub status_rank : OrderStatus → ℕ
status_rank OrderStatus.pending_new = 0
status_rank OrderStatus.open_status = 1
status_rank OrderStatus.partially_filled = 2
status_rank OrderStatus.filled = 3
status_rank OrderStatus.canceled = 3
status_rank OrderStatus.rejected = 3
status_rank OrderStatus.expired = 3

-- A row of `orders`, with its live columns.
pub record LiveOrder : Type 0 where
  pub order_id : String
  pub proposal_id : Option String
  pub origin : String
  pub strategy_id : String
  pub symbol : String
  pub class : String
  pub side : String
  pub typ : String
  pub reduce_only : Bool
  pub qty_base : String
  pub limit_price : Option String
  pub stop_price : Option String
  pub take_profit : Option String
  pub fill_price : Option String
  pub kill_epoch : ℕ
  pub status : OrderStatus
  pub submitted_at : String
  pub filled_at : Option String
  pub client_order_id : Option String
  pub exchange_order_id : Option String

-- A row of `order_intents`.
pub record OrderIntent : Type 0 where
  pub client_order_id : String
  pub intent_token : String
  pub attempt : ℕ
  pub order_id : String
  pub strategy_id : String
  pub symbol : String
  pub venue_symbol : String
  pub side : String
  pub typ : String
  pub qty_base : String
  pub limit_price : Option String
  pub stop_price : Option String
  pub origin : String
  pub proposal_id : Option String
  pub kill_epoch : ℕ
  pub journaled_at : String
  pub claimed_at : Option String
  pub claim_revoked_at : Option String

-- A row of `oms_recon_events`; the details are the reason or the status that they name.
pub record ReconEvent : Type 0 where
  pub event_id : String
  pub kind : String
  pub run_id : Option String
  pub strategy_id : Option String
  pub symbol : Option String
  pub client_order_id : Option String
  pub exchange_order_id : Option String
  pub details : String
  pub recorded_at : String

-- A row of `fills`, with the identity of the venue's trade.
pub record VenueFill : Type 0 where
  pub fill_id : String
  pub order_id : String
  pub qty_base : String
  pub fill_price : String
  pub fee_quote : String
  pub fill_ts : String
  pub venue_symbol : String
  pub exchange_trade_id : ℕ
  pub venue_epoch : ℕ

-- A row of `rejected_submissions`.
pub record RejectedSubmission : Type 0 where
  pub strategy_id : String
  pub received_at : String
  pub reason : String
  pub payload : String

pub record Journal : Type 0 where
  pub orders : List LiveOrder
  pub intents : List OrderIntent
  pub recon : List ReconEvent
  pub fills : List VenueFill
  pub rejections : List RejectedSubmission

-- `UPDATE orders SET ... WHERE order_id = ?`, whose key is the order's identifier.
unfoldable pub update_order : (LiveOrder → LiveOrder) → String → List LiveOrder → List LiveOrder
update_order change id [] = []
update_order change id (o ∷ os) =
    let rest = update_order change id os in if o.order_id =ₛ id then change o ∷ rest else o ∷ rest

unfoldable pub find_order : String → List LiveOrder → Option LiveOrder
find_order id [] = none
find_order id (o ∷ os) = if o.order_id =ₛ id then some o else find_order id os

unfoldable pub update_intent :
    (OrderIntent → OrderIntent) → String → List OrderIntent → List OrderIntent
update_intent change id [] = []
update_intent change id (i ∷ is) =
    let rest = update_intent change id is in
    if i.client_order_id =ₛ id then change i ∷ rest else i ∷ rest

unfoldable pub find_intent : String → List OrderIntent → Option OrderIntent
find_intent id [] = none
find_intent id (i ∷ is) = if i.client_order_id =ₛ id then some i else find_intent id is
