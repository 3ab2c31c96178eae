-- ===== src/Live/Agreement.antt =====
-- The accounting of live fills against that of the paper order manager
-- (control-plane/internal/oms/live/fills.go and control-plane/internal/oms/paper/paper.go).
use alpha_mint_x.Base.{◌≡◌, String, ◌=ₛ◌, arith, if◌then◌else◌}
use alpha_mint_x.Numbers.{Numbers}
use alpha_mint_x.Paper.{Side, Position, fill_position}
use alpha_mint_x.Live.Accounting.{BookState, apply_fill}

module _ (n : Numbers) where
  -- The book of a position of the paper order manager, and its side.
  abbrev pub book_of : Position n → BookState n
  book_of p = record {
    qty = p.qty_base;
    entry = p.entry_price;
    fees = p.fees_quote;
    realized = p.realized_pnl_quote;
  }

  abbrev pub side_of : String → Side
  side_of side = if side =ₛ "buy" then Side.buy else Side.sell

  -- A fill does to a book of the live order manager exactly what it does to the same book of the paper
  -- one: to the quantity, the entry price, the fees and the realized profit, on every branch.
  pub apply_fill-fill_position :
      (side : String) (qty price fee : n.Amount) (p : Position n)
      → apply_fill n side qty price fee (book_of p)
        ≡ book_of (fill_position n (side_of side) qty price fee p)
  unfolding apply_fill fill_position
  apply_fill-fill_position side qty price fee p = ground arith
