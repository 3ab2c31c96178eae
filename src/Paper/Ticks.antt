-- ===== src/Paper/Ticks.antt =====
-- control-plane/internal/oms/paper/ticks.go and restore.go: the trigger sweep of a tick, and the
-- seams that load persisted state. `marks` is the map of the tick, each symbol once.
use Prim.Native.String.{compare as compare_text}
use alpha_mint_x.Base.{
  ℕ, Bool, ◌&&◌, not, String, Option, none, some, List, [], ◌∷◌, ◌++◌, ◌=ₛ◌, if◌then◌else◌, Result,
  ok, err, is_none, Ordering,
}
use alpha_mint_x.Numbers.{Numbers, sign, is_gt}
use alpha_mint_x.Paper.Types.{
  Class, Status, Kind, OmsError, is_open_status, class_eq, kind_eq, side_eq, Order, Position, Oms,
  put, find_order, open_position, set_position,
}
use alpha_mint_x.Paper.Fills.{
  close_side, slipped_price, fee_quote, min_amount, stop_triggered, limit_crossed,
}
use alpha_mint_x.Paper.Booking.{Reply, book_fill, cancel_open_protectives}
use alpha_mint_x.Paper.Orders.{fill_limit_entry_at}

-- Insertion into a list that is sorted by a text, and the sort.
unfoldable pub insert_by {ℓ} : {A : Type ℓ} → (A → String) → A → List A → List A
insert_by key a [] = a ∷ []
insert_by key a (b ∷ l) = elim (compare_text (key b) (key a)) [
  | Ordering.lt ↦ b ∷ insert_by key a l
  | _ ↦ a ∷ b ∷ l
]

unfoldable pub sort_by {ℓ} : {A : Type ℓ} → (A → String) → List A → List A
unfolding insert_by
sort_by key [] = []
sort_by key (a ∷ l) = insert_by key a (sort_by key l)

module _ (n : Numbers) (new_id : ℕ → String) (place : Order n → Bool) where
  open n use {Amount, zero_amount, abs}

  -- What a protective fill comes to: an order that was filled, none, or an error.
  pub data Outcome : Type 0 where
    filled : Order n → Outcome
    skipped : Outcome
    failed : OmsError → Outcome

  abbrev pub after_fill : Result OmsError (Order n × Oms n) → Oms n → Oms n × Outcome
  after_fill (err e) s = (s, failed e)
  after_fill (ok (o, s')) s = (
    elim (open_position n o.strategy_id o.symbol s') [
      | none ↦ cancel_open_protectives n new_id place o.strategy_id o.symbol s'
      | some p ↦ s'
    ],
    filled o,
  )

  -- The order with its quantity cut to the position, filled.
  abbrev pub fill_cut : Order n → Amount → Amount → Oms n → Oms n × Outcome
  fill_cut o price bps s =
      after_fill (book_fill n new_id place o price (fee_quote n o.qty_base price bps) (put n o s))
        (put n o s)

  abbrev pub cut_to : Order n → Position n → Order n
  cut_to o p = record o { qty_base = min_amount n o.qty_base (abs p.qty_base) }

  abbrev pub fill_against :
      Option (Position n) → Order n → Amount → Amount → Oms n → Oms n × Outcome
  fill_against none o price bps s = (put n (record o { status = Status.canceled }) s, skipped)
  fill_against (some p) o price bps s =
      if side_eq (close_side n p.qty_base) o.side
      then fill_cut (cut_to o p) price bps s
      else (put n (record o { status = Status.canceled }) s, skipped)

  -- `fillProtectiveLocked`.
  unfoldable pub fill_protective : Order n → Amount → Amount → Oms n → Oms n × Outcome
  unfolding open_position
  fill_protective o price bps s =
      fill_against (open_position n o.strategy_id o.symbol s) o price bps s

  -- `openOrdersLocked`: the identifiers, in order.
  abbrev selects : String → Class → Kind → Order n → Bool
  selects sym c k o =
      o.symbol =ₛ sym && class_eq o.order_class c && kind_eq o.kind k && is_open_status o.status

  unfoldable pub select : String → Class → Kind → List (Order n) → List String
  select sym c k [] = []
  select sym c k (o ∷ l) =
      let rest = select sym c k l in if selects sym c k o then o.id ∷ rest else rest

  unfoldable pub open_orders : String → Class → Kind → Oms n → List String
  unfolding select
  open_orders sym c k s = sort_by (λ id. id) (select sym c k s.orders)

  -- A sweep: the state, the fills booked so far and the errors.
  pub record Sweep : Type 0 where
    pub oms : Oms n
    pub fills : List (Order n)
    pub errors : List OmsError

  abbrev pub note : Sweep → Oms n × Outcome → Sweep
  note w (s, filled o) = record { oms = s; fills = w.fills ++ o ∷ []; errors = w.errors }
  note w (s, skipped) = record w { oms = s }
  note w (s, failed e) = record { oms = s; fills = w.fills; errors = w.errors ++ e ∷ [] }

  -- The `ord.QtyBase = pos.QtyBase.Abs()` of a queued exit.
  abbrev pub whole : Option (Position n) → Order n → Order n
  whole none o = o
  whole (some p) o = record o { qty_base = abs p.qty_base }

  abbrev pub exit_order : Amount → Sweep → Order n → Sweep
  exit_order mark w o = note w (
      fill_protective (whole (open_position n o.strategy_id o.symbol w.oms) o)
        (slipped_price n w.oms.fill o.side mark) w.oms.fill.taker_bps
        (put n (whole (open_position n o.strategy_id o.symbol w.oms) o) w.oms))

  abbrev pub stop_order : Amount → Sweep → Order n → Sweep
  stop_order mark w o =
      if is_open_status o.status && stop_triggered n o.side mark o.stop_price
      then note w
          (fill_protective o (slipped_price n w.oms.fill o.side mark) w.oms.fill.taker_bps w.oms)
      else w

  abbrev pub target_order : Amount → Sweep → Order n → Sweep
  target_order mark w o =
      if is_open_status o.status && limit_crossed n o.side mark o.limit_price
      then note w (fill_protective o o.limit_price w.oms.fill.maker_bps w.oms)
      else w

  -- An entry fill whose protective could not be placed is an error, and is not among the fills.
  abbrev pub note_entry : Sweep → Oms n × Reply n new_id place → Sweep
  note_entry w (s, r) = elim r.error [
    | none ↦ elim r.order [
      | none ↦ record w { oms = s }
      | some o ↦ record { oms = s; fills = w.fills ++ o ∷ []; errors = w.errors }
    ]
    | some e ↦ record { oms = s; fills = w.fills; errors = w.errors ++ e ∷ [] }
  ]

  abbrev pub entry_limit : Amount → Sweep → Order n → Sweep
  entry_limit mark w o =
      if is_open_status o.status && limit_crossed n o.side mark o.limit_price
      then note_entry w (fill_limit_entry_at n new_id place o mark w.oms.fill.maker_bps w.oms)
      else w

  -- One loop over identifiers; each order is read again from the map, as through its pointer.
  unfoldable pub each : (Sweep → Order n → Sweep) → List String → Sweep → Sweep
  each body [] w = w
  each body (id ∷ ids) w =
      each body ids (elim (find_order n id w.oms.orders) [ none ↦ w | some o ↦ body w o ])

  -- One of the four loops over the open orders of a symbol.
  abbrev pub pass : (Sweep → Order n → Sweep) → String → Class → Kind → Sweep → Sweep
  pass body sym c k w = each body (open_orders sym c k w.oms) w

  -- The body of the loop over symbols: queued exits, stops, take-profits, entry limits.
  unfoldable pub tick_symbol : String → Amount → Sweep → Sweep
  unfolding each open_orders fill_protective
  tick_symbol sym mark w = pass (entry_limit mark) sym Class.entry Kind.limit (
      pass (target_order mark) sym Class.protective Kind.take_profit (
        pass (stop_order mark) sym Class.protective Kind.stop
          (pass (exit_order mark) sym Class.protective Kind.market w)))

  unfoldable pub usable : List (String × Amount) → List (String × Amount)
  usable [] = []
  usable ((sym, mark) ∷ l) =
      let rest = usable l in if is_gt (sign n mark) then (sym, mark) ∷ rest else rest

  unfoldable pub tick_all : List (String × Amount) → Sweep → Sweep
  unfolding tick_symbol
  tick_all [] w = w
  tick_all ((sym, mark) ∷ l) w = tick_all l (tick_symbol sym mark w)

  -- `ProcessTick`.
  unfoldable pub process_tick : List (String × Amount) → Oms n → Sweep
  unfolding usable tick_all
  process_tick marks s =
      tick_all (sort_by (λ m. m.0) (usable marks)) (record { oms = s; fills = []; errors = [] })

  -- `RestoreOrder` and `RestorePosition`; `RestoreKillEpoch` is in `Paper.Booking`.
  unfoldable pub restore_order : Order n → Oms n → Result OmsError (Oms n)
  restore_order o s =
      if o.id =ₛ ""
      then err OmsError.empty_order_id
      else if not (is_open_status o.status)
      then err OmsError.not_open_status
      else if not (is_none (find_order n o.id s.orders))
      then err OmsError.already_present
      else ok (put n o s)

  unfoldable pub restore_position : String → Position n → Oms n → Oms n
  restore_position s p o = record o { positions = set_position n s p o.positions }
