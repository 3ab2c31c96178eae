-- ===== src/Live/Accounting.antt =====
-- control-plane/internal/oms/live/fills.go: the accounting of a fill, what runs inside the transaction
-- of `bookVenueFill`, and the status that a backfilled fill implies.
use alpha_mint_x.Base.{
  String, Bool, ◌||◌, Option, none, some, List, [], ◌∷◌, ◌++◌, ◌=ₛ◌, Result, ok, err, if◌then◌else◌,
}
use alpha_mint_x.Base.Results.{◌>>=◌}
use alpha_mint_x.Numbers.{Numbers, sign, is_zero, greater_than, greater_than_or_equal}
use alpha_mint_x.RunState.{StrategyState, max_amount}
use alpha_mint_x.Paper.{same_sign, sign_amount, min_amount}
use alpha_mint_x.Live.Types.{OrderStatus, VenueFill}
use alpha_mint_x.Live.Fills.{FillError}
use alpha_mint_x.Live.Rows.{
  PositionRow, Obligation, PendingFee, Books, FillTarget, get_position, upsert_position, get_state,
  upsert_state,
}

module _ (n : Numbers) where
  open n use {Amount, zero_amount, of_int, add, sub, mul, div, neg, abs, round, of_text, text}

  pub record BookState : Type 0 where
    pub qty : Amount
    pub entry : Amount
    pub fees : Amount
    pub realized : Amount

  abbrev fresh_fees : BookState → BookState
  fresh_fees b = if is_zero n b.qty then record b { fees = zero_amount } else b

  -- An opening fill averages the entry price, another one realizes the profit on what it closes.
  abbrev open_or_close : Amount → Amount → Amount → BookState → BookState
  open_or_close delta qty price b =
      if is_zero n b.qty || same_sign n (sign n b.qty) (sign n delta)
      then record b {
        entry = div (add (mul b.entry (abs b.qty)) (mul price qty)) (add (abs b.qty) qty);
      }
      else let gross = round 8 (
          mul (mul (sub price b.entry) (min_amount n qty (abs b.qty)))
            (sign_amount n (sign n b.qty))) in
        record b {
          realized = add b.realized gross;
          entry = if greater_than n qty (abs b.qty) then price else b.entry;
        }

  -- The fee is charged and the quantity moved; a flat book has no entry price.
  abbrev charge : Amount → Amount → BookState → BookState
  charge delta fee b =
      let q = add b.qty delta in
      record b {
        fees = add b.fees fee;
        realized = sub b.realized fee;
        qty = q;
        entry = if is_zero n q then zero_amount else b.entry;
      }

  -- `applyFill`.
  unfoldable pub apply_fill : String → Amount → Amount → Amount → BookState → BookState
  apply_fill side qty price fee b =
      let delta = mul (if side =ₛ "buy" then of_int 1 else neg (of_int 1)) qty in
      charge delta fee (open_or_close delta qty price (fresh_fees b))

  abbrev parse_dec : String → Result FillError Amount
  parse_dec s = elim (of_text s) [ none ↦ err FillError.bad_decimal | some d ↦ ok d ]

  -- `loadBook`: a missing row is the zero book.
  abbrev load_row : Option PositionRow → Result FillError BookState
  load_row none = ok (record {
    qty = zero_amount;
    entry = zero_amount;
    fees = zero_amount;
    realized = zero_amount;
  })
  load_row (some row) = do
    qty ← parse_dec row.qty_base
    entry ← parse_dec row.entry_price
    fees ← parse_dec row.fees_quote
    realized ← parse_dec row.realized_pnl_quote
    ok (record { qty = qty; entry = entry; fees = fees; realized = realized })

  unfoldable pub load_book : String → String → Books → Result FillError BookState
  load_book s sym k = load_row (get_position s sym k.positions)

  abbrev pub row_of : String → String → BookState → PositionRow
  row_of s sym b = record {
    strategy_id = s;
    symbol = sym;
    qty_base = text b.qty;
    entry_price = text b.entry;
    fees_quote = text b.fees;
    realized_pnl_quote = text b.realized;
  }

  -- The equity, the peak and the daily figure before the fill: those of the row, or the capital. A row
  -- of an earlier day restarts the daily figure.
  abbrev pub figures_before :
      Amount → String → Option StrategyState → Result FillError (Amount × (Amount × Amount))
  figures_before allocated today none = ok (allocated, (allocated, zero_amount))
  figures_before allocated today (some row) = do
    equity ← parse_dec row.equity_quote
    peak ← parse_dec row.peak_equity_quote
    daily ← if row.utc_date =ₛ today then parse_dec row.daily_realized_pnl_quote else ok zero_amount
    ok (equity, (peak, daily))

  abbrev pub advanced : Amount → String → Amount × (Amount × Amount) → StrategyState
  advanced delta today (equity, (peak, daily)) = record {
    equity_quote = text (add equity delta);
    peak_equity_quote = text (max_amount n peak (add equity delta));
    daily_realized_pnl_quote = text (add daily delta);
    utc_date = today;
  }

  -- `persistBook`.
  unfoldable pub persist_book :
      Amount → String → String → String → BookState → Amount → Books → Result FillError Books
  persist_book allocated today s sym b delta k = do
    before ← figures_before allocated today (get_state s k.states)
    ok (record k {
      positions = upsert_position (row_of s sym b) k.positions;
      states = upsert_state s (advanced delta today before) k.states;
    })

  abbrev obligations_of : FillTarget → String → List String → List Obligation
  obligations_of t due [] = []
  obligations_of t due (kind ∷ kinds) =
      record { entry_order_id = t.order_id; strategy_id = t.strategy_id; kind = kind; due_at = due }
      ∷ obligations_of t due kinds

  abbrev fees_of : Option PendingFee → List PendingFee
  fees_of none = []
  fees_of (some p) = p ∷ []

  -- The obligations of an entry are inserted, and the fee of a commission that waits for a mark.
  abbrev pub armed : FillTarget → String → Option PendingFee → Books → Books
  armed t due pending k = record k {
    obligations = k.obligations ++ obligations_of t due t.protective_kinds;
    pending_fees = k.pending_fees ++ fees_of pending;
  }

  -- The function that `bookVenueFill` passes to `RecordVenueFill`, with the flag `flat`.
  unfoldable pub account_fill :
      Amount
      → String
      → String
      → FillTarget
      → Option PendingFee
      → Amount
      → Amount
      → Amount
      → Books × Bool
      → Result FillError (Books × Bool)
  account_fill allocated today due t pending qty price fee (k, was) = do
    b ← load_book t.strategy_id t.symbol k
    let c = apply_fill t.side qty price fee b
    m ← persist_book allocated today t.strategy_id t.symbol c (sub c.realized b.realized) k
    ok (armed t due pending m, is_zero n c.qty)

  -- `bookedQty`, of the order's fills.
  unfoldable pub booked_qty : String → List VenueFill → Amount → Result FillError Amount
  booked_qty id [] sum = ok sum
  booked_qty id (f ∷ fs) sum =
      if f.order_id =ₛ id
      then (do q ← parse_dec f.qty_base; booked_qty id fs (add sum q))
      else booked_qty id fs sum

  -- `deriveFillStatus`.
  unfoldable pub derive_fill_status :
      FillTarget → Amount → List VenueFill → Result FillError OrderStatus
  derive_fill_status t qty fs = if t.qty_base =ₛ "" then ok OrderStatus.partially_filled else (do
    orig ← parse_dec t.qty_base
    booked ← booked_qty t.order_id fs zero_amount
    ok (
        if greater_than_or_equal n (add booked qty) orig
        then OrderStatus.filled
        else OrderStatus.partially_filled))
