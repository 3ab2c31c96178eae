-- ===== src/Live/Filters.antt =====
-- control-plane/internal/oms/live/filters.go: the venue's filters, and the size of an entry.
use alpha_mint_x.Base.{String, Bool, ◌&&◌, ◌||◌, not, ◌=ₛ◌, Result, ok, err, if◌then◌else◌}
use alpha_mint_x.Numbers.{Numbers, is_gt, is_lt, greater_than, sign}

-- Why an entry is refused before it is journaled.
pub data EntryError : Type 0 where
  reconcile_pending breaker_active kill_switch_active not_configured : EntryError
  filter_unavailable size_not_positive limit_not_positive no_fresh_mark unknown_type : EntryError
  price_not_positive below_min_notional filter_rejected : EntryError

-- `symbolFilters`.
pub record SymbolFilters (n : Numbers) : Type 0 where
  pub tick : n.Amount
  pub step : n.Amount
  pub min_qty : n.Amount
  pub max_qty : n.Amount
  pub min_notional : n.Amount

module _ (n : Numbers) where
  open n use {Amount, sub, mul, div, cmp, floor, ceil}

  -- `floorToStep`.
  abbrev pub floor_to_step : Amount → Amount → Amount
  floor_to_step d step = mul (floor (div d step)) step

  -- `ceilToStep`.
  abbrev pub ceil_to_step : Amount → Amount → Amount
  ceil_to_step d step = mul (ceil (div d step)) step

  -- `passivePrice`.
  unfoldable pub passive_price : String → Amount → Amount → Amount
  passive_price side price tick =
      if side =ₛ "buy" then floor_to_step price tick else ceil_to_step price tick

  -- One step less where the rounded size is above the cap.
  unfoldable pub shaved_qty : Amount → Amount → SymbolFilters n → Amount
  shaved_qty size price f =
      let qty = floor_to_step (div size price) f.step in
      if greater_than n (mul qty price) size then sub qty f.step else qty

  abbrev is_below_minima : Amount → Amount → SymbolFilters n → Bool
  is_below_minima qty price f =
      not (is_gt (sign n qty))
      || is_lt (cmp qty f.min_qty)
      || is_lt (cmp (mul qty price) f.min_notional)

  -- `normalizeEntryQty`.
  unfoldable pub normalize_entry_qty : Amount → Amount → SymbolFilters n → Result EntryError Amount
  normalize_entry_qty size price f =
      let qty = shaved_qty size price f in
      if not (is_gt (sign n price))
      then err EntryError.price_not_positive
      else if is_below_minima qty price f
      then err EntryError.below_min_notional
      else if is_gt (sign n f.max_qty) && greater_than n qty f.max_qty
      then err EntryError.filter_rejected
      else ok qty
