-- ===== src/Contract/Rules.antt =====
-- What a proposal without violations satisfies, whatever else is asked of it.
use alpha_mint_x.Base.{
  ◌≡◌, true, false, none, [], arith, Ordering, append-eq-nil, is_none, Option, some, ◌↔◌, List, ◌∷◌,
  ◌++◌,
}
use alpha_mint_x.Numbers.{Numbers}
use alpha_mint_x.Contract.Types.{Code, Action, EntryType, Decimal, is_open, Proposal}
use alpha_mint_x.Contract.Validate.{
  action_violations, entry_violations, placement_violations, validate_order_fields, validate,
  validate_envelope, check_stop_and_target, validate_summaries, validate_model_costs,
}

module _ (n : Numbers) where
  open n use {Amount, cmp, zero_amount}

  -- The placement of contract rules 1 and 2: the stop on the losing side of the entry, the target,
  -- if there is one, on the winning side.
  abbrev pub Placed : Action → Amount → Amount → Option (Decimal n) → Type 0
  Placed Action.open_long entry stop none = cmp stop entry ≡ Ordering.lt
  Placed Action.open_long entry stop (some t) =
      (cmp stop entry ≡ Ordering.lt) × (cmp t.value entry ≡ Ordering.gt)
  Placed Action.open_short entry stop none = cmp stop entry ≡ Ordering.gt
  Placed Action.open_short entry stop (some t) =
      (cmp stop entry ≡ Ordering.gt) × (cmp t.value entry ≡ Ordering.lt)
  Placed action entry stop target = Unit

  -- `CheckStopAndTarget` finds nothing exactly when the entry price is positive and the stop and
  -- the target are placed.
  pub check_stop_and_target_iff :
      (action : Action) (entry stop : Amount) (target : Option (Decimal n))
      → (check_stop_and_target n action entry stop target ≡ [])
        ↔ ((cmp entry zero_amount ≡ Ordering.gt) × Placed action entry stop target)
  unfolding check_stop_and_target
  check_stop_and_target_iff Action.open_long entry stop target = ground arith
  check_stop_and_target_iff _ entry stop target = ground arith

  order_fields_of_valid : (p : Proposal n) → validate n p ≡ [] → validate_order_fields n p ≡ []
  unfolding validate
  order_fields_of_valid p h =
      let tail = (append-eq-nil (validate_envelope n p) _ h).1 in
      let rest = (append-eq-nil (validate_summaries n p.analyst_summaries) _ tail).1 in
      (append-eq-nil (validate_model_costs n p.model_costs) _ rest).1

  parts_of_order_fields :
      (p : Proposal n)
      → validate_order_fields n p ≡ []
      → (entry_violations n p.entry.entry_type p.entry.limit_price ≡ [])
        × (action_violations n p ≡ [])
        × (placement_violations n p.action p.entry.entry_type p.entry.limit_price p.stop_loss
              p.take_profit
            ≡ [])
  unfolding validate_order_fields
  parts_of_order_fields p h =
      let (e, r) = append-eq-nil (entry_violations n p.entry.entry_type p.entry.limit_price) _ h in
      let (a, s) = append-eq-nil (action_violations n p) _ r in (e, a, s)

  -- An opening proposal without violations has a stop and a positive size.
  pub valid_open_sized :
      (p : Proposal n)
      → validate n p ≡ []
      → is_open p.action ≡ true
      → (is_none p.stop_loss ≡ false) × (cmp p.size_quote.value zero_amount ≡ Ordering.gt)
  valid_open_sized p h o = ground (arith, parts_of_order_fields p (order_fields_of_valid p h))

  -- The entry of an order: a limit with a price, or a market without one.
  abbrev pub EntryHolds : EntryType → Option (Decimal n) → Type 0
  EntryHolds EntryType.limit price = is_none price ≡ false
  EntryHolds EntryType.market price = price ≡ none
  EntryHolds (EntryType.other s) price = ⊥

  -- Rules 1 and 2 on a limit entry with a stop.
  abbrev pub LimitPlaced :
      Action → EntryType → Option (Decimal n) → Option (Decimal n) → Option (Decimal n) → Type 0
  LimitPlaced action EntryType.limit (some price) (some stop) target =
      (cmp price.value zero_amount ≡ Ordering.gt) × Placed action price.value stop.value target
  LimitPlaced action kind price stop target = Unit

  -- What each action asks of the size and of the stops.
  abbrev pub ActionHolds : Action → Amount → Option (Decimal n) → Option (Decimal n) → Type 0
  ActionHolds Action.open_long size stop target =
      (is_none stop ≡ false) × (cmp size zero_amount ≡ Ordering.gt)
  ActionHolds Action.open_short size stop target =
      (is_none stop ≡ false) × (cmp size zero_amount ≡ Ordering.gt)
  ActionHolds Action.hold size stop target =
      (stop ≡ none) × (target ≡ none) × (cmp size zero_amount ≡ Ordering.eq)
  ActionHolds _ size stop target = (stop ≡ none) × (target ≡ none)

  entry_iff :
      (kind : EntryType) (price : Option (Decimal n))
      → (entry_violations n kind price ≡ []) ↔ EntryHolds kind price
  entry_iff EntryType.limit price = ground arith
  entry_iff EntryType.market price = ground arith
  entry_iff (EntryType.other s) price = ground arith

  append_of_nil : (xs ys : List Code) → xs ≡ [] → ys ≡ [] → xs ++ ys ≡ []
  append_of_nil [] ys e h = h
  append_of_nil (x ∷ xs) ys e h = ground arith

  placement_iff :
      (action : Action) (kind : EntryType) (price stop target : Option (Decimal n))
      → (placement_violations n action kind price stop target ≡ [])
        ↔ LimitPlaced action kind price stop target
  placement_iff action EntryType.limit (some price) (some stop) target =
      check_stop_and_target_iff action price.value stop.value target
  placement_iff action EntryType.limit (some price) none target = ground arith
  placement_iff action EntryType.limit none stop target = ground arith
  placement_iff action EntryType.market price stop target = ground arith
  placement_iff action (EntryType.other s) price stop target = ground arith

  action_iff :
      (p : Proposal n)
      → (action_violations n p ≡ [])
        ↔ ActionHolds p.action p.size_quote.value p.stop_loss p.take_profit
  action_iff p = ground arith

  -- The order fields of a proposal have no violation exactly when the entry is a limit with a price
  -- or a market without one, the action has the size and the stops that it asks for, and a limit entry
  -- with a stop has a positive price with the stop and the target on their sides of it.
  pub validate_order_fields_iff :
      (p : Proposal n)
      → (validate_order_fields n p ≡ []) ↔ (
          EntryHolds p.entry.entry_type p.entry.limit_price
          × ActionHolds p.action p.size_quote.value p.stop_loss p.take_profit
          × LimitPlaced p.action p.entry.entry_type p.entry.limit_price p.stop_loss p.take_profit)
  unfolding validate_order_fields
  validate_order_fields_iff p = (
    λ h.
        let (e, a, s) = parts_of_order_fields p h in
        (
          (entry_iff p.entry.entry_type p.entry.limit_price).0 e,
          (action_iff p).0 a,
          (placement_iff p.action p.entry.entry_type p.entry.limit_price p.stop_loss
                p.take_profit).0
              s,
        ),
    λ h.
        append_of_nil (entry_violations n p.entry.entry_type p.entry.limit_price) _
          ((entry_iff p.entry.entry_type p.entry.limit_price).1 h.0)
          (append_of_nil (action_violations n p) _ ((action_iff p).1 h.1) (
            (placement_iff p.action p.entry.entry_type p.entry.limit_price p.stop_loss
                p.take_profit).1
              h.2)),
  )
