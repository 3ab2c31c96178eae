-- ===== src/Live/Rows.antt =====
-- control-plane/internal/oms/live/fills.go: the rows that the accounting of a fill reads and writes,
-- those of `positions` and `strategy_state`, the obligations and the pending fees. An `updated_at` is
-- dropped, and of the last two the fresh identifier, the time of writing and what a later resolution
-- sets.
use alpha_mint_x.Base.{
  String, Bool, ◌&&◌, Option, none, some, List, [], ◌∷◌, ◌++◌, ◌=ₛ◌, if◌then◌else◌,
}
use alpha_mint_x.RunState.{StrategyState}
use alpha_mint_x.Live.Types.{LiveOrder}

-- A row of `positions`.
pub record PositionRow : Type 0 where
  pub strategy_id : String
  pub symbol : String
  pub qty_base : String
  pub entry_price : String
  pub fees_quote : String
  pub realized_pnl_quote : String

-- A row of `protective_obligations`, and one of `pending_fill_fees`.
pub record Obligation : Type 0 where
  pub entry_order_id : String
  pub strategy_id : String
  pub kind : String
  pub due_at : String

pub record PendingFee : Type 0 where
  pub fill_id : String
  pub commission : String
  pub commission_asset : String

pub record Books : Type 0 where
  pub positions : List PositionRow
  pub states : List (String × StrategyState)
  pub obligations : List Obligation
  pub pending_fees : List PendingFee

abbrev is_row : String → String → PositionRow → Bool
is_row s sym p = p.strategy_id =ₛ s && p.symbol =ₛ sym

unfoldable pub get_position : String → String → List PositionRow → Option PositionRow
get_position s sym [] = none
get_position s sym (p ∷ ps) = if is_row s sym p then some p else get_position s sym ps

unfoldable pub upsert_position : PositionRow → List PositionRow → List PositionRow
upsert_position r [] = r ∷ []
upsert_position r (p ∷ ps) =
    if is_row r.strategy_id r.symbol p then r ∷ ps else p ∷ upsert_position r ps

unfoldable pub get_state : String → List (String × StrategyState) → Option StrategyState
get_state s [] = none
get_state s ((t, st) ∷ rows) = if t =ₛ s then some st else get_state s rows

unfoldable pub upsert_state :
    String → StrategyState → List (String × StrategyState) → List (String × StrategyState)
upsert_state s st [] = (s, st) ∷ []
upsert_state s st ((t, old) ∷ rows) =
    if t =ₛ s then (s, st) ∷ rows else (t, old) ∷ upsert_state s st rows

-- `protectiveKindsOf`.
abbrev kind_if : String → Option String → List String
kind_if kind none = []
kind_if kind (some price) = kind ∷ []

abbrev pub protective_kinds_of : LiveOrder → List String
protective_kinds_of o = kind_if "sl" o.stop_price ++ kind_if "tp" o.take_profit

-- `fillTarget`, as the accounting reads it.
pub record FillTarget : Type 0 where
  pub order_id : String
  pub strategy_id : String
  pub symbol : String
  pub side : String
  pub qty_base : String
  pub protective_kinds : List String

-- `orderTarget`: only an entry has obligations.
abbrev pub order_target : LiveOrder → FillTarget
order_target o = record {
  order_id = o.order_id;
  strategy_id = o.strategy_id;
  symbol = o.symbol;
  side = o.side;
  qty_base = o.qty_base;
  protective_kinds = if o.class =ₛ "ENTRY" then protective_kinds_of o else [];
}
