-- ===== src/Live/Fills.antt =====
-- control-plane/internal/store/liveoms.go: the booking of a venue's fill, `RecordVenueFill`. The
-- accounting of the caller is a parameter, on a state of its own; the transaction is the whole.
use alpha_mint_x.Base.{
  String, Bool, true, false, ◌&&◌, Option, none, some, List, [], ◌∷◌, ◌++◌, ◌=ₛ◌, ◌==◌, Result, ok,
  err, if◌then◌else◌,
}
use alpha_mint_x.Numbers.{Numbers, is_gt, sign}
use alpha_mint_x.Store.{StoreError, exists_row}
use alpha_mint_x.Live.Types.{OrderStatus, LiveOrder, VenueFill, Journal, update_order, find_order}
use alpha_mint_x.Live.Writes.{record_order_status}

pub data FillError : Type 0 where
  bad_decimal no_quantity accounting : FillError
  fill_store : StoreError → FillError

-- The identity of a trade: the venue's epoch, the symbol and the trade's number.
abbrev pub same_trade : VenueFill → VenueFill → Bool
same_trade f g =
    (g.venue_epoch == f.venue_epoch)
    && (g.venue_symbol =ₛ f.venue_symbol)
    && (g.exchange_trade_id == f.exchange_trade_id)

infixl 5 ◌>>=◌
abbrev ◌>>=◌ {ℓ κ} :
    {A : Type ℓ} {B : Type κ} → Result FillError A → (A → Result FillError B) → Result FillError B
err e >>= f = err e
ok a >>= f = f a

abbrev pub stored {ℓ} : {A : Type ℓ} → Result StoreError A → Result FillError A
stored (err e) = err (FillError.fill_store e)
stored (ok a) = ok a

-- The insert: the fill's identifier must be new and its order known.
unfoldable pub insert_fill : VenueFill → Journal → Result FillError Journal
insert_fill f j =
    if exists_row (λ g. g.fill_id =ₛ f.fill_id) j.fills
    then err (FillError.fill_store StoreError.constraint)
    else elim (find_order f.order_id j.orders) [
      | none ↦ err (FillError.fill_store StoreError.constraint)
      | some o ↦ ok (record j { fills = j.fills ++ (f ∷ []) })
    ]

abbrev pub set_fill : String → String → LiveOrder → LiveOrder
set_fill price at o = record o { fill_price = some price; filled_at = some at }

module _ (n : Numbers) where
  open n use {Amount, add, mul, div, round, zero_amount, of_text, text}

  abbrev parsed : Option Amount → Result FillError Amount
  parsed none = err FillError.bad_decimal
  parsed (some d) = ok d

  -- The sums of `fillVWAP`: the quantity and the notional of an order's fills.
  unfoldable pub fill_sums :
      String → List VenueFill → Amount × Amount → Result FillError (Amount × Amount)
  fill_sums id [] sums = ok sums
  fill_sums id (f ∷ fs) (qty, notional) =
      if f.order_id =ₛ id
      then (do
        q ← parsed (of_text f.qty_base)
        p ← parsed (of_text f.fill_price)
        fill_sums id fs (add qty q, add notional (mul q p)))
      else fill_sums id fs (qty, notional)

  -- `fillVWAP`.
  unfoldable pub fill_vwap : String → List VenueFill → Result FillError String
  fill_vwap id fs = do
    (qty, notional) ← fill_sums id fs (zero_amount, zero_amount)
    if is_gt (sign n qty) then ok (text (round 8 (div notional qty))) else err FillError.no_quantity

  module _ {Books : Type 0} where
    -- The order's price and time of the fill, its status, and the accounting.
    unfoldable pub book_fill :
        VenueFill
        → OrderStatus
        → (Books → Result FillError Books)
        → Journal
        → Books
        → Result FillError (Bool × (Journal × Books))
    book_fill f s book j b = do
      k ← insert_fill f j
      price ← fill_vwap f.order_id k.fills
      r ← stored (
          record_order_status f.order_id s
            (record k { orders = update_order (set_fill price f.fill_ts) f.order_id k.orders }))
      c ← book b
      ok (true, (r.1, c))

    -- `RecordVenueFill`: a trade that is booked already changes nothing.
    unfoldable pub record_venue_fill :
        VenueFill
        → OrderStatus
        → (Books → Result FillError Books)
        → Journal
        → Books
        → Result FillError (Bool × (Journal × Books))
    record_venue_fill f s book j b =
        if exists_row (same_trade f) j.fills then ok (false, (j, b)) else book_fill f s book j b
