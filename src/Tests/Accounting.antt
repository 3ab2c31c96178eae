-- ===== src/Tests/Accounting.antt =====
-- The accounting of a live fill at concrete books (control-plane/internal/oms/live/fills.go).
use alpha_mint_x.Base.{
  inr, arith, eq_iff, String, ◌≡◌, refl, false, ◌&&◌, ◌=ₛ◌, none, some, [], ◌∷◌, ok, if◌then◌else◌,
}
use alpha_mint_x.Base.Int.{pos, ◌+ℤ◌, ◌-ℤ◌}
use alpha_mint_x.Numbers.{is_zero}
use alpha_mint_x.Numbers.Whole.{whole}
use alpha_mint_x.RunState.{StrategyState}
use alpha_mint_x.Paper.{Position, fill_position}
use alpha_mint_x.Live.{
  PositionRow, Books, FillTarget, BookState, get_position, get_state, apply_fill, account_fill,
  order_target,
}
use alpha_mint_x.Live.Agreement.{book_of, side_of, apply_fill-fill_position}
use alpha_mint_x.Live.Settled.{HasBook, HasFigures, IsRowOf, IsAdvanced, account_fill-Settles}
use alpha_mint_x.Tests.Booking.{order}

-- Long 2 at 10, of which 3 are sold at 14 for a fee of 1: the position flips.
abbrev long : Position whole
long = record {
  symbol = "BTC/USDT";
  qty_base = pos 2;
  entry_price = pos 10;
  fees_quote = pos 0;
  realized_pnl_quote = pos 0;
}

flipped : (apply_fill whole "sell" (pos 3) (pos 14) (pos 1) (book_of whole long)).realized ≡ pos 7
unfolding apply_fill ◌+ℤ◌ ◌-ℤ◌
flipped = refl

apply_fill-fill_position_example :
    apply_fill whole "sell" (pos 3) (pos 14) (pos 1) (book_of whole long)
    ≡ book_of whole (fill_position whole (side_of whole "sell") (pos 3) (pos 14) (pos 1) long)
apply_fill-fill_position_example =
    apply_fill-fill_position whole "sell" (pos 3) (pos 14) (pos 1) long

abbrev yesterday : StrategyState
yesterday = record {
  equity_quote = "1";
  peak_equity_quote = "1";
  daily_realized_pnl_quote = "1";
  utc_date = "2026-01-01";
}

abbrev books : Books
books = record {
  positions =
      record {
        strategy_id = "alpha";
        symbol = "BTC/USDT";
        qty_base = "1";
        entry_price = "1";
        fees_quote = "0";
        realized_pnl_quote = "0";
      }
      ∷ [];
  states = ("alpha", yesterday) ∷ [];
  obligations = [];
  pending_fees = [];
}

abbrev book : BookState whole
book = record { qty = pos 1; entry = pos 1; fees = pos 0; realized = pos 0 }

abbrev target : FillTarget
target = order_target order

book_held : HasBook whole (get_position "alpha" "BTC/USDT" books.positions) book
unfolding get_position
book_held = (refl, refl, refl, refl)

figures_held :
    HasFigures whole (pos 0) "2026-01-02" (get_state "alpha" books.states) (pos 1) (pos 1) (pos 0)
unfolding get_state
figures_held =
    (refl, refl, inr ((λ e. ground (arith, eq_iff yesterday.utc_date "2026-01-02")), refl))

abbrev bought : BookState whole
bought = apply_fill whole target.side (pos 1) (pos 1) (pos 0) book

account_fill-Settles_example :
    (m : Books) × (row : PositionRow) × (st : StrategyState) × (account_fill whole
        (pos 0)
        "2026-01-02"
        "later"
        target
        none
        (pos 1)
        (pos 1)
        (pos 0)
        (books, false)
      ≡ ok (m, is_zero whole bought.qty))
    × IsRowOf whole row "alpha" "BTC/USDT" bought
    × IsAdvanced whole st "2026-01-02" (pos 1) (pos 1) (pos 0) (bought.realized -ℤ pos 0)
    × ((s sym : String)
        → get_position s sym m.positions ≡ (
            if "alpha" =ₛ s && "BTC/USDT" =ₛ sym
            then some row
            else get_position s sym books.positions))
    × ((s : String)
        → get_state s m.states ≡ (if "alpha" =ₛ s then some st else get_state s books.states))
account_fill-Settles_example =
    account_fill-Settles whole (pos 0) "2026-01-02" "later" target none (pos 1) (pos 1) (pos 0)
      books false book (pos 1) (pos 1) (pos 0) book_held figures_held
