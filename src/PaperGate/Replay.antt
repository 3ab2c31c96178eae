-- ===== src/PaperGate/Replay.antt =====
-- control-plane/internal/papergate/replay.go: the walk over the fills of the paper window, with one
-- book for each symbol, the closed trades and the equity curve. A timestamp of a fill, which the
-- gate ignores, is dropped.
use alpha_mint_x.Base.{
  String, Bool, ◌||◌, Option, none, some, List, [], ◌∷◌, ◌++◌, ◌=ₛ◌, if◌then◌else◌,
}
use alpha_mint_x.Numbers.{Numbers, greater_than, is_zero, is_gt, sign}
use alpha_mint_x.Paper.{Side, side_sign, round8, min_amount, same_sign, sign_amount}

module _ (n : Numbers) where
  open n use {Amount, zero_amount, add, sub, mul, div, abs, of_int}

  pub record Fill : Type 0 where
    pub symbol : String
    pub side : Side
    pub reduce_only : Bool
    pub qty_base : Amount
    pub fill_price : Amount
    pub fee_quote : Amount

  pub record Trade : Type 0 where
    pub pnl : Amount
    pub closing_notional : Amount

  -- `book`.
  pub record ReplayBook : Type 0 where
    pub qty : Amount
    pub avg : Amount
    pub pnl : Amount
    pub notional : Amount

  abbrev pub flat_book : ReplayBook
  flat_book = record {
    qty = zero_amount;
    avg = zero_amount;
    pnl = zero_amount;
    notional = zero_amount;
  }

  abbrev pub book_or_flat : Option ReplayBook → ReplayBook
  book_or_flat none = flat_book
  book_or_flat (some b) = b

  -- `books[f.Symbol]` and the write.
  unfoldable pub find_book : String → List (String × ReplayBook) → Option ReplayBook
  find_book k [] = none
  find_book k ((j, b) ∷ m) = if j =ₛ k then some b else find_book k m

  unfoldable pub set_book :
      String → ReplayBook → List (String × ReplayBook) → List (String × ReplayBook)
  set_book k b [] = (k, b) ∷ []
  set_book k b ((j, c) ∷ m) = if j =ₛ k then (k, b) ∷ m else (j, c) ∷ set_book k b m

  -- The clamp of a reduce-only fill.
  unfoldable pub replay_qty : Fill → ReplayBook → Amount
  replay_qty f b =
      if f.reduce_only
      then (if is_zero n b.qty || same_sign n (sign n b.qty) (sign n (side_sign n f.side))
          then zero_amount
          else min_amount n f.qty_base (abs b.qty))
      else f.qty_base

  abbrev pub opens : Amount → ReplayBook → Bool
  opens delta b = is_zero n b.qty || same_sign n (sign n b.qty) (sign n delta)

  -- An opening or increasing fill.
  abbrev pub increased : Amount → Amount → Fill → ReplayBook → ReplayBook
  increased qty delta f b = record b {
    avg =
        if is_gt (sign n (add (abs b.qty) qty))
        then div (add (mul b.avg (abs b.qty)) (mul f.fill_price qty)) (add (abs b.qty) qty)
        else b.avg;
    qty = add b.qty delta;
    pnl = sub b.pnl f.fee_quote;
  }

  -- The profit that a reducing fill realizes.
  abbrev pub reduced_gross : Amount → Fill → ReplayBook → Amount
  reduced_gross qty f b = round8 n (
      mul (mul (sub f.fill_price b.avg) (min_amount n qty (abs b.qty)))
        (sign_amount n (sign n b.qty)))

  -- Whether a reducing fill ends the span: at flat, or beyond.
  abbrev pub ends_span : Amount → Amount → ReplayBook → Bool
  ends_span qty delta b = is_zero n (add b.qty delta) || greater_than n qty (abs b.qty)

  -- The trade of the span up to a reducing fill.
  abbrev pub span_trade : Amount → Fill → ReplayBook → Trade
  span_trade qty f b = record {
    pnl = sub (add b.pnl (reduced_gross qty f b)) f.fee_quote;
    closing_notional = add b.notional (mul (min_amount n qty (abs b.qty)) f.fill_price);
  }

  abbrev pub reduced : Amount → Amount → Fill → ReplayBook → ReplayBook
  reduced qty delta f b =
      if ends_span qty delta b
      then record {
        qty = add b.qty delta;
        avg = if greater_than n qty (abs b.qty) then f.fill_price else zero_amount;
        pnl = zero_amount;
        notional = zero_amount;
      }
      else record {
        qty = add b.qty delta;
        avg = b.avg;
        pnl = (span_trade qty f b).pnl;
        notional = (span_trade qty f b).closing_notional;
      }

  -- What one fill does: the book, the trade that it closes, and the profit that it realizes.
  pub record Step : Type 0 where
    pub book : ReplayBook
    pub closed : List Trade
    pub gross : Amount

  abbrev pub replay_sized : Amount → Amount → Fill → ReplayBook → Step
  replay_sized qty delta f b =
      if opens delta b
      then record { book = increased qty delta f b; closed = []; gross = zero_amount }
      else record {
        book = reduced qty delta f b;
        closed = if ends_span qty delta b then span_trade qty f b ∷ [] else [];
        gross = reduced_gross qty f b;
      }

  unfoldable pub replay_fill : Fill → ReplayBook → Step
  unfolding replay_qty
  replay_fill f b = let qty = replay_qty f b in replay_sized qty (mul (side_sign n f.side) qty) f b

  -- The state of `walk`.
  pub record Walk : Type 0 where
    pub books : List (String × ReplayBook)
    pub trades : List Trade
    pub equity : Amount
    pub peak : Amount
    pub max_drawdown : Amount

  -- `decimal.Max`.
  abbrev pub max_amount : Amount → Amount → Amount
  max_amount a b = if greater_than n b a then b else a

  abbrev pub drawdown_pct : Amount → Amount → Amount
  drawdown_pct peak equity = mul (div (sub peak equity) peak) (of_int 100)

  abbrev walked : Amount → Fill → Step → Walk → Walk
  walked seed f st w =
      let equity = sub (add w.equity st.gross) f.fee_quote in
      let peak = max_amount w.peak equity in
      record {
        books = set_book f.symbol st.book w.books;
        trades = w.trades ++ st.closed;
        equity = equity;
        peak = peak;
        max_drawdown =
            if is_gt (sign n seed)
            then max_amount w.max_drawdown (drawdown_pct peak equity)
            else w.max_drawdown;
      }

  unfoldable pub walk_fill : Amount → Fill → Walk → Walk
  walk_fill seed f w = walked seed f (replay_fill f (book_or_flat (find_book f.symbol w.books))) w

  unfoldable pub walk_fills : Amount → List Fill → Walk → Walk
  walk_fills seed [] w = w
  walk_fills seed (f ∷ fs) w = walk_fills seed fs (walk_fill seed f w)

  -- `replay`.
  unfoldable pub replay : List Fill → Amount → Walk
  replay fs seed =
      walk_fills seed fs
        record { books = []; trades = []; equity = seed; peak = seed; max_drawdown = zero_amount }
