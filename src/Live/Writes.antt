-- ===== src/Live/Writes.antt =====
-- control-plane/internal/store/liveoms.go: the writes of the live order manager's journal. Each is
-- a transaction: on an error nothing has been written.
use alpha_mint_x.Base.{
  String, Bool, true, false, not, ◌&&◌, none, some, List, [], ◌∷◌, ◌++◌, ◌=ₛ◌, leb, ◌==◌, is_none,
  Result, ok, err, if◌then◌else◌,
}
use alpha_mint_x.Base.Results.{◌>>=◌}
use alpha_mint_x.Store.{StoreError, exists_row}
use alpha_mint_x.Live.Types.{
  OrderStatus, status_rank, LiveOrder, OrderIntent, ReconEvent, Journal, update_order, find_order,
  update_intent, find_intent,
}

-- Another row with the token and the attempt of an intent.
abbrev has_attempt : OrderIntent → List OrderIntent → Bool
has_attempt i is =
    exists_row (λ k. (k.intent_token =ₛ i.intent_token) && (k.attempt == i.attempt)) is

-- `insertOrderIntent`: the key and the attempt of the token must be new, and the order known.
unfoldable pub insert_order_intent : OrderIntent → Journal → Result StoreError Journal
insert_order_intent i j =
    if is_none (find_intent i.client_order_id j.intents)
      && not (has_attempt i j.intents)
      && not (is_none (find_order i.order_id j.orders))
    then ok (record j { intents = j.intents ++ (i ∷ []) })
    else err StoreError.constraint

-- `insertOrder`, whose key must be new.
unfoldable pub insert_order : LiveOrder → Journal → Result StoreError Journal
insert_order o j = elim (find_order o.order_id j.orders) [
  | some k ↦ err StoreError.constraint
  | none ↦ ok (record j { orders = j.orders ++ (o ∷ []) })
]

abbrev set_client_order_id : String → LiveOrder → LiveOrder
set_client_order_id id o = record o { client_order_id = some id }

-- `InsertJournaledOrder`.
unfoldable pub insert_journaled_order :
    LiveOrder → OrderIntent → Journal → Result StoreError Journal
insert_journaled_order o i j = do
  k ← insert_order o j
  insert_order_intent i (record k {
    orders = update_order (set_client_order_id i.client_order_id) o.order_id k.orders;
  })

unfoldable pub append_recon_event : ReconEvent → Journal → Result StoreError Journal
append_recon_event e j = ok (record j { recon = j.recon ++ (e ∷ []) })

abbrev pub is_free : OrderIntent → Bool
is_free i = is_none i.claimed_at && is_none i.claim_revoked_at

abbrev pub set_claimed : String → OrderIntent → OrderIntent
set_claimed at i = record i { claimed_at = some at }

-- `RecordIntentClaim`: false where the attempt is claimed or revoked already.
unfoldable pub record_intent_claim : String → String → Journal → Result StoreError (Bool × Journal)
record_intent_claim id at j = elim (find_intent id j.intents) [
  | none ↦ err StoreError.not_found
  | some i ↦
      if is_free i
      then ok (true, record j { intents = update_intent (set_claimed at) id j.intents })
      else ok (false, j)
]

abbrev pub set_revoked : String → OrderIntent → OrderIntent
set_revoked at i = record i { claim_revoked_at = some at }

-- `RecordIntentClaimRevoked`, by `resolveOnce`.
unfoldable pub record_intent_claim_revoked : String → String → Journal → Result StoreError Journal
record_intent_claim_revoked id at j = elim (find_intent id j.intents) [
  | none ↦ err StoreError.not_found
  | some i ↦
      if is_none i.claim_revoked_at
      then ok (record j { intents = update_intent (set_revoked at) id j.intents })
      else ok j
]

-- `RecordIntentAttempt`.
unfoldable pub record_intent_attempt : OrderIntent → Journal → Result StoreError Journal
record_intent_attempt i j = elim (find_order i.order_id j.orders) [
  | none ↦ err StoreError.not_found
  | some o ↦ insert_order_intent i (record j {
    orders = update_order (set_client_order_id i.client_order_id) i.order_id j.orders;
  })
]

abbrev set_exchange_order_id : String → LiveOrder → LiveOrder
set_exchange_order_id id o = record o { exchange_order_id = some id }

-- `RecordExchangeAck`.
unfoldable pub record_exchange_ack : String → String → Journal → Result StoreError Journal
record_exchange_ack id exchange_id j = elim (find_order id j.orders) [
  | none ↦ err StoreError.not_found
  | some o ↦ ok (record j { orders = update_order (set_exchange_order_id exchange_id) id j.orders })
]

abbrev pub set_status : OrderStatus → LiveOrder → LiveOrder
set_status s o = record o { status = s }

-- `recordOrderStatus`: a status whose rank is not above the current one changes nothing.
unfoldable pub record_order_status :
    String → OrderStatus → Journal → Result StoreError (OrderStatus × Journal)
record_order_status id s j = elim (find_order id j.orders) [
  | none ↦ err StoreError.not_found
  | some o ↦
      if leb (status_rank s) (status_rank o.status)
      then ok (o.status, j)
      else ok (s, record j { orders = update_order (set_status s) id j.orders })
]

-- `GetOrderIntent`.
unfoldable pub get_order_intent : String → Journal → Result StoreError OrderIntent
get_order_intent id j = elim (find_intent id j.intents) [
  | none ↦ err StoreError.not_found
  | some i ↦ ok i
]
