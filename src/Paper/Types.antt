-- ===== src/Paper/Types.antt =====
-- control-plane/internal/oms/paper/paper.go: orders, positions, the fill model and the state of the
-- OMS. Its maps are association lists; an order is changed in place through its identifier, as the
-- source changes it through a pointer. Identifiers of new orders come from `uuid.NewString`: they
-- are `new_id k` for a counter `k` in the state.
use alpha_mint_x.Base.{
  ℕ, Bool, true, false, ◌&&◌, String, Option, none, some, List, [], ◌∷◌, ◌=ₛ◌, if◌then◌else◌,
}
use alpha_mint_x.Base.Int.{ℤ, pos}
use alpha_mint_x.Numbers.{Numbers, sign, is_eq}

pub data Class : Type 0 where
  entry protective : Class

pub data Side : Type 0 where
  buy sell : Side

pub data Status : Type 0 where
  open_status filled canceled : Status

-- The field `Type` of an order.
pub data Kind : Type 0 where
  market limit stop take_profit : Kind
  other : String → Kind

abbrev pub is_entry : Class → Bool
is_entry Class.entry = true
is_entry Class.protective = false

abbrev pub is_open_status : Status → Bool
is_open_status Status.open_status = true
is_open_status _ = false

abbrev pub class_eq : Class → Class → Bool
class_eq Class.entry Class.entry = true
class_eq Class.protective Class.protective = true
class_eq _ _ = false

abbrev pub side_eq : Side → Side → Bool
side_eq Side.buy Side.buy = true
side_eq Side.sell Side.sell = true
side_eq _ _ = false

abbrev pub kind_eq : Kind → Kind → Bool
kind_eq Kind.market Kind.market = true
kind_eq Kind.limit Kind.limit = true
kind_eq Kind.stop Kind.stop = true
kind_eq Kind.take_profit Kind.take_profit = true
kind_eq (Kind.other s) (Kind.other t) = s =ₛ t
kind_eq _ _ = false

-- The errors of the package, one for each.
pub data OmsError : Type 0 where
  kill_epoch_stale unknown_entry_type non_positive_size non_positive_limit_price : OmsError
  non_positive_mark_price non_positive_fill_price qty_rounds_to_zero : OmsError
  placement_failed no_open_position no_open_limit_entry : OmsError
  empty_order_id not_open_status already_present : OmsError
  -- No error of the source: the rounds of `qty_for_notional` are used up, which they never are.
  out_of_rounds : OmsError

module _ (n : Numbers) where
  open n use {Amount, zero_amount}

  pub record Order : Type 0 where
    pub id : String
    pub strategy_id : String
    pub symbol : String
    pub order_class : Class
    pub side : Side
    pub kind : Kind
    pub reduce_only : Bool
    pub qty_base : Amount
    pub limit_price : Amount
    pub stop_price : Amount
    pub take_profit : Amount
    pub fill_price : Amount
    pub fee_quote : Amount
    pub status : Status
    pub kill_epoch : ℤ

  pub record Position : Type 0 where
    pub symbol : String
    pub qty_base : Amount
    pub entry_price : Amount
    pub fees_quote : Amount
    pub realized_pnl_quote : Amount

  -- `fillModel`, in basis points.
  pub record FillModel : Type 0 where
    pub slippage_bps : Amount
    pub taker_bps : Amount
    pub maker_bps : Amount

  -- A position book with its key.
  pub record Book : Type 0 where
    pub strategy_id : String
    pub position : Position

  pub record Oms : Type 0 where
    pub kill_epochs : List (String × ℤ)
    pub fill : FillModel
    pub orders : List Order
    pub positions : List Book
    pub next : ℕ

  -- `killEpochs[strategyID]`, zero on a missing key, and the write.
  unfoldable pub epoch_of : String → List (String × ℤ) → ℤ
  epoch_of k [] = pos 0
  epoch_of k ((j, e) ∷ m) = if j =ₛ k then e else epoch_of k m

  unfoldable pub set_epoch : String → ℤ → List (String × ℤ) → List (String × ℤ)
  set_epoch k e [] = (k, e) ∷ []
  set_epoch k e ((j, d) ∷ m) = if j =ₛ k then (k, e) ∷ m else (j, d) ∷ set_epoch k e m

  abbrev pub has_key : String → String → Book → Bool
  has_key s sym b = b.strategy_id =ₛ s && b.position.symbol =ₛ sym

  -- `positions[positionKey{s, sym}]` and the write.
  unfoldable pub find_position : String → String → List Book → Option Position
  find_position s sym [] = none
  find_position s sym (b ∷ m) = if has_key s sym b then some b.position else find_position s sym m

  unfoldable pub set_position : String → Position → List Book → List Book
  set_position s p [] = record { strategy_id = s; position = p } ∷ []
  set_position s p (b ∷ m) =
      if has_key s p.symbol b
      then record { strategy_id = s; position = p } ∷ m
      else b ∷ set_position s p m

  -- `orders[id]` and the write; a new order goes to the end.
  unfoldable pub find_order : String → List Order → Option Order
  find_order k [] = none
  find_order k (o ∷ m) = if o.id =ₛ k then some o else find_order k m

  unfoldable pub put_order : Order → List Order → List Order
  put_order o [] = o ∷ []
  put_order o (p ∷ m) = if p.id =ₛ o.id then o ∷ m else p ∷ put_order o m

  abbrev pub put : Order → Oms → Oms
  put o s = record s { orders = put_order o s.orders }

  -- A position that is there and not flat.
  abbrev nonzero : Option Position → Option Position
  nonzero none = none
  nonzero (some p) = if is_eq (sign n p.qty_base) then none else some p

  -- `Position`, and the guard `!ok || pos.QtyBase.IsZero()`.
  unfoldable pub open_position : String → String → Oms → Option Position
  unfolding find_position
  open_position s sym o = nonzero (find_position s sym o.positions)

  abbrev pnl_of : Option Position → Amount
  pnl_of none = zero_amount
  pnl_of (some p) = p.realized_pnl_quote

  -- `RealizedPnL`.
  unfoldable pub realized_pnl : String → String → Oms → Amount
  unfolding find_position
  realized_pnl s sym o = pnl_of (find_position s sym o.positions)

  -- `KillEpoch`.
  unfoldable pub kill_epoch : String → Oms → ℤ
  unfolding epoch_of
  kill_epoch s o = epoch_of s o.kill_epochs
