-- ===== src/Live/Settled.antt =====
-- What the accounting of a live fill leaves in the tables (control-plane/internal/oms/live/fills.go).
use alpha_mint_x.Base.{
  ◌≡◌, String, Bool, ◌&&◌, ◌=ₛ◌, Option, some, List, [], ◌∷◌, eq_iff, arith, ok, if◌then◌else◌,
  Option-cases, inl, inr, ◌⊎◌, ◌≢◌, none, refl, Ordering,
}
use alpha_mint_x.Numbers.{Numbers, is_zero}
use alpha_mint_x.RunState.{StrategyState, max_amount}
use alpha_mint_x.Live.Rows.{
  PositionRow, PendingFee, Books, FillTarget, get_position, upsert_position, get_state,
  upsert_state,
}
use alpha_mint_x.Live.Accounting.{
  BookState, apply_fill, load_book, row_of, figures_before, advanced, persist_book, armed,
  account_fill,
}

get_position-upsert_position :
    (r : PositionRow) (s sym : String) (ps : List PositionRow)
    → get_position s sym (upsert_position r ps)
      ≡ (if r.strategy_id =ₛ s && r.symbol =ₛ sym then some r else get_position s sym ps)
unfolding get_position upsert_position
get_position-upsert_position r s sym [] = ground arith
get_position-upsert_position r s sym (p ∷ ps) = ground (
  arith,
  get_position-upsert_position r s sym ps,
  eq_iff p.strategy_id r.strategy_id,
  eq_iff p.strategy_id s,
  eq_iff r.strategy_id s,
  eq_iff p.symbol r.symbol,
  eq_iff p.symbol sym,
  eq_iff r.symbol sym,
)

get_state-upsert_state :
    (s t : String) (st : StrategyState) (rows : List (String × StrategyState))
    → get_state t (upsert_state s st rows) ≡ (if s =ₛ t then some st else get_state t rows)
unfolding get_state upsert_state
get_state-upsert_state s t st [] = ground arith
get_state-upsert_state s t st ((u, old) ∷ rows) =
    ground (arith, get_state-upsert_state s t st rows, eq_iff u s, eq_iff u t, eq_iff s t)

module _ (n : Numbers) where
  open n use {Amount, zero_amount, add, sub, cmp, of_text, text}

  -- The book that a row of `positions` holds, that of no row being empty.
  abbrev pub HasBook : Option PositionRow → BookState n → Type 0
  HasBook none b =
      (b.qty ≡ zero_amount)
      × (b.entry ≡ zero_amount)
      × (b.fees ≡ zero_amount)
      × (b.realized ≡ zero_amount)
  HasBook (some row) b =
      (of_text row.qty_base ≡ some b.qty)
      × (of_text row.entry_price ≡ some b.entry)
      × (of_text row.fees_quote ≡ some b.fees)
      × (of_text row.realized_pnl_quote ≡ some b.realized)

  -- The daily figure that counts today: that of the row if it is of today, and zero otherwise.
  abbrev pub HasDaily : StrategyState → String → Amount → Type 0
  HasDaily row today daily =
      ((row.utc_date ≡ today) × (of_text row.daily_realized_pnl_quote ≡ some daily))
      ⊎ ((row.utc_date ≢ today) × (daily ≡ zero_amount))

  -- The equity, the peak and the daily figure that a row of `strategy_state` holds today; without a
  -- row, the first two are the allocated capital.
  abbrev pub HasFigures : Amount → String → Option StrategyState → Amount → Amount → Amount → Type 0
  HasFigures allocated today none equity peak daily =
      (equity ≡ allocated) × (peak ≡ allocated) × (daily ≡ zero_amount)
  HasFigures allocated today (some row) equity peak daily =
      (of_text row.equity_quote ≡ some equity)
      × (of_text row.peak_equity_quote ≡ some peak)
      × HasDaily row today daily

  -- The larger of two amounts.
  abbrev pub IsLarger : Amount → Amount → Amount → Type 0
  IsLarger a b c = ((c ≡ b) × (cmp b a ≡ Ordering.gt)) ⊎ ((c ≡ a) × (cmp b a ≢ Ordering.gt))

  abbrev pub IsRowOf : PositionRow → String → String → BookState n → Type 0
  IsRowOf row s sym b =
      (row.strategy_id ≡ s)
      × (row.symbol ≡ sym)
      × (row.qty_base ≡ text b.qty)
      × (row.entry_price ≡ text b.entry)
      × (row.fees_quote ≡ text b.fees)
      × (row.realized_pnl_quote ≡ text b.realized)

  -- The row of a strategy after a profit or loss of `gain`.
  abbrev pub IsAdvanced : StrategyState → String → Amount → Amount → Amount → Amount → Type 0
  IsAdvanced row today equity peak daily gain =
      (row.equity_quote ≡ text (add equity gain))
      × ((higher : Amount) × IsLarger peak (add equity gain) higher
          × (row.peak_equity_quote ≡ text higher))
      × (row.daily_realized_pnl_quote ≡ text (add daily gain))
      × (row.utc_date ≡ today)

  load_book-HasBook :
      (s sym : String) (k : Books) (b : BookState n)
      → HasBook (get_position s sym k.positions) b
      → load_book n s sym k ≡ ok b
  unfolding load_book
  load_book-HasBook s sym k b h = elim (Option-cases (get_position s sym k.positions)) [
    | inl e ↦ ground arith
    | inr (row, e) ↦ ground arith
  ]

  figures_before-HasFigures :
      (allocated : Amount) (today : String) (o : Option StrategyState) (equity peak daily : Amount)
      → HasFigures allocated today o equity peak daily
      → figures_before n allocated today o ≡ ok (equity, (peak, daily))
  figures_before-HasFigures allocated today none equity peak daily h = ground arith
  figures_before-HasFigures allocated today (some row) equity peak daily h =
      ground (arith, eq_iff row.utc_date today)

  advanced-IsAdvanced :
      (today : String) (equity peak daily gain : Amount)
      → IsAdvanced (advanced n gain today (equity, (peak, daily))) today equity peak daily gain
  advanced-IsAdvanced today equity peak daily gain =
      (refl, (max_amount n peak (add equity gain), ground arith, refl), refl, refl)

  -- Of books whose rows for the position and the strategy can be read, the accounting of a fill
  -- succeeds. The position's row is then the book after the fill, and the strategy's row has its
  -- equity and its daily figure advanced by what the fill realized, less its fee, with the larger of
  -- the peak and the new equity, and the daily figure restarted on a new day. No other position and no
  -- other strategy changes, and `flat` says whether the position is closed.
  pub account_fill-Settles :
      (allocated : Amount) (today due : String) (t : FillTarget) (pending : Option PendingFee)
      (qty price fee : Amount) (k : Books) (was : Bool) (b : BookState n)
      (equity peak daily : Amount)
      → HasBook (get_position t.strategy_id t.symbol k.positions) b
      → HasFigures allocated today (get_state t.strategy_id k.states) equity peak daily
      → let c = apply_fill n t.side qty price fee b in
        (m : Books) × (row : PositionRow) × (st : StrategyState) × (account_fill n allocated today
            due t pending qty price fee
            (k, was)
          ≡ ok (m, is_zero n c.qty))
        × IsRowOf row t.strategy_id t.symbol c
        × IsAdvanced st today equity peak daily (sub c.realized b.realized)
        × ((s sym : String)
            → get_position s sym m.positions ≡ (
                if t.strategy_id =ₛ s && t.symbol =ₛ sym
                then some row
                else get_position s sym k.positions))
        × ((s : String)
            → get_state s m.states ≡ (if t.strategy_id =ₛ s then some st else get_state s k.states))
  unfolding account_fill persist_book
  account_fill-Settles allocated today due t pending qty price fee k was b equity peak daily h g =
      let c = apply_fill n t.side qty price fee b in
      let r = row_of n t.strategy_id t.symbol c in
      let gain = sub c.realized b.realized in
      let st = advanced n gain today (equity, (peak, daily)) in
      (
        armed n t due pending (record k {
          positions = upsert_position r k.positions;
          states = upsert_state t.strategy_id st k.states;
        }),
        r,
        st,
        ground (
          arith,
          load_book-HasBook t.strategy_id t.symbol k b h,
          figures_before-HasFigures allocated today (get_state t.strategy_id k.states) equity peak
              daily g,
        ),
        (refl, refl, refl, refl, refl, refl),
        advanced-IsAdvanced today equity peak daily gain,
        λ s sym. get_position-upsert_position r s sym k.positions,
        λ s. get_state-upsert_state t.strategy_id s st k.states,
      )
