-- ===== src/Live/Booked.antt =====
-- Every trade of the venue is booked once at most, from whatever source it comes and however often.
use alpha_mint_x.Base.{
  ◌≡◌, refl, String, Bool, true, false, not, List, [], ◌∷◌, ◌++◌, eq_iff, arith, Result, ok,
  Option-cases, Bool-cases, inl, inr, if◌then◌else◌,
}
use alpha_mint_x.Base.Results.{Result-cases}
use alpha_mint_x.Numbers.{Numbers}
use alpha_mint_x.Store.{exists_row}
use alpha_mint_x.Store.Epochs.{exists-append}
use alpha_mint_x.Live.Types.{OrderStatus, VenueFill, Journal, find_order, update_order}
use alpha_mint_x.Live.Writes.{record_order_status}
use alpha_mint_x.Live.Fills.{
  FillError, same_trade, insert_fill, set_fill, fill_vwap, book_fill, record_venue_fill,
}

-- No trade stands twice.
unfoldable pub HasTrades : List VenueFill → Type 0
HasTrades [] = Unit
HasTrades (f ∷ fs) = (exists_row (same_trade f) fs ≡ false) × HasTrades fs

same_trade_sym : (f g : VenueFill) → same_trade f g ≡ same_trade g f
same_trade_sym f g =
    ground (arith, eq_iff f.venue_symbol g.venue_symbol, eq_iff g.venue_symbol f.venue_symbol)

HasTrades-append :
    (fs : List VenueFill) (f : VenueFill)
    → HasTrades fs
    → exists_row (same_trade f) fs ≡ false
    → HasTrades (fs ++ (f ∷ []))
unfolding HasTrades
HasTrades-append [] f h e = (refl, tt)
HasTrades-append (g ∷ fs) f h e =
    ground (
      arith,
      HasTrades-append fs f h.1,
      exists-append (same_trade g) fs (f ∷ []),
      same_trade_sym f g,
    )

insert_fill-fills :
    (f : VenueFill) (j k : Journal) → insert_fill f j ≡ ok k → k.fills ≡ j.fills ++ (f ∷ [])
unfolding insert_fill
insert_fill-fills f j k h = elim (Option-cases (find_order f.order_id j.orders)) [
  | inl e ↦ ground arith
  | inr (o, e) ↦ ground arith
]

record_order_status-fills :
    (id : String) (s now : OrderStatus) (j k : Journal)
    → record_order_status id s j ≡ ok (now, k)
    → k.fills ≡ j.fills
unfolding record_order_status
record_order_status-fills id s now j k h = elim (Option-cases (find_order id j.orders)) [
  | inl e ↦ ground arith
  | inr (o, e) ↦ ground arith
]

same_trade_refl : (f : VenueFill) → same_trade f f ≡ true
same_trade_refl f = ground (arith, eq_iff f.venue_symbol f.venue_symbol)

exists_same :
    (f g : VenueFill) (fs : List VenueFill)
    → same_trade g f ≡ true
    → exists_row (same_trade g) fs ≡ exists_row (same_trade f) fs
exists_same f g [] h = refl
exists_same f g (x ∷ fs) h = ground (
  arith,
  exists_same f g fs h,
  eq_iff x.venue_symbol g.venue_symbol,
  eq_iff x.venue_symbol f.venue_symbol,
  eq_iff f.venue_symbol g.venue_symbol,
)

module _ (n : Numbers) {Books : Type 0} where
  book_fill-fills :
      (f : VenueFill) (s : OrderStatus) (book : Books → Result FillError Books) (j : Journal)
      (b : Books) (new : Bool) (k : Journal) (c : Books)
      → book_fill n f s book j b ≡ ok (new, (k, c))
      → (new ≡ true) × (k.fills ≡ j.fills ++ (f ∷ [])) × (book b ≡ ok c)
  unfolding book_fill
  book_fill-fills f s book j b new k c h = elim (Result-cases (insert_fill f j)) [
    | inl (x, e) ↦ ground arith
    | inr (v, e) ↦ elim (Result-cases (fill_vwap n f.order_id v.fills)) [
      | inl (x, p) ↦ ground arith
      | inr (price, p) ↦
          let w = record v {
            orders = update_order (set_fill price f.fill_ts) f.order_id v.orders;
          } in
          elim (Result-cases (record_order_status f.order_id s w)) [
            | inl (x, q) ↦ ground arith
            | inr ((now, y), q) ↦ elim (Result-cases (book b)) [
              | inl (x, r) ↦ ground arith
              | inr (d, r) ↦ ground (
                arith,
                insert_fill-fills f j v e,
                record_order_status-fills f.order_id s now w y q,
              )
            ]
          ]
    ]
  ]

  recorded :
      (f : VenueFill) (s : OrderStatus) (book : Books → Result FillError Books) (j : Journal)
      (b : Books) (new : Bool) (k : Journal) (c : Books)
      → record_venue_fill n f s book j b ≡ ok (new, (k, c))
      → (new ≡ not (exists_row (same_trade f) j.fills))
        × (k.fills ≡ (if new then j.fills ++ (f ∷ []) else j.fills))
        × ((if new then book b else ok b) ≡ ok c)
  unfolding record_venue_fill
  recorded f s book j b new k c h = elim (Bool-cases (exists_row (same_trade f) j.fills)) [
    | inl e ↦ ground arith
    | inr e ↦ ground (arith, book_fill-fills f s book j b new k c)
  ]

  -- A recorded fill leaves no trade that stands twice: it is new just if its trade was not there, in
  -- which case the accounting was applied, and afterwards it is there. To record a fill of that trade
  -- again, with whatever identifier, status and accounting, changes nothing.
  pub trade_booked_once :
      (f : VenueFill) (s : OrderStatus) (book : Books → Result FillError Books) (j : Journal)
      (b : Books) (new : Bool) (k : Journal) (c : Books)
      → HasTrades j.fills
      → record_venue_fill n f s book j b ≡ ok (new, (k, c))
      → HasTrades k.fills
        × (new ≡ not (exists_row (same_trade f) j.fills))
        × ((if new then book b else ok b) ≡ ok c)
        × ((g : VenueFill) (s2 : OrderStatus) (book2 : Books → Result FillError Books)
            → same_trade g f ≡ true
            → record_venue_fill n g s2 book2 k c ≡ ok (false, (k, c)))
  unfolding record_venue_fill
  trade_booked_once f s book j b new k c t h =
      let (i, e, p) = recorded f s book j b new k c h in
      let x = exists-append (same_trade f) j.fills (f ∷ []) in
      (
        ground (arith, HasTrades-append j.fills f t),
        i,
        p,
        λ g s2 book2 q. ground (arith, exists_same f g k.fills q, x, same_trade_refl f),
      )
