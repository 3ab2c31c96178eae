-- ===== src/Live/Ranks.antt =====
-- The statuses of the orders under any sequence of reports.
use alpha_mint_x.Base.{
  ℕ, ◌≤◌, ◌≡◌, refl, ap, ◌∙◌, String, none, some, List, [], ◌∷◌, ◌=ₛ◌, eq_iff, ltb, arith, Result,
  ok, err, Option-cases, inl, inr, if◌then◌else◌,
}
use alpha_mint_x.Store.{StoreError}
use alpha_mint_x.Live.Types.{OrderStatus, status_rank, LiveOrder, Journal, update_order, find_order}
use alpha_mint_x.Live.Writes.{record_order_status, set_status}

find_order-update_order :
    (k id : String) (s : OrderStatus) (os : List LiveOrder)
    → find_order k (update_order (set_status s) id os) ≡ elim (find_order k os) [
      | none ↦ none
      | some o ↦ if id =ₛ k then some (set_status s o) else some o
    ]
unfolding find_order update_order
find_order-update_order k id s [] = refl
find_order-update_order k id s (o ∷ os) = ground (
  arith,
  eq_iff o.order_id k,
  eq_iff o.order_id id,
  eq_iff id k,
  find_order-update_order k id s os,
)

-- The journal after a report, which is dropped where its order is not there.
abbrev pub after_report : Result StoreError (OrderStatus × Journal) → Journal → Journal
after_report (err e) j = j
after_report (ok r) j = r.1

abbrev pub report_all : List (String × OrderStatus) → Journal → Journal
report_all [] j = j
report_all ((id, s) ∷ rs) j = report_all rs (after_report (record_order_status id s j) j)

abbrev pub higher : ℕ → ℕ → ℕ
higher a b = if ltb a b then b else a

-- The highest of a rank and those that are reported of an order.
abbrev pub highest_rank : String → List (String × OrderStatus) → ℕ → ℕ
highest_rank id [] r = r
highest_rank id ((k, s) ∷ rs) r =
    highest_rank id rs (if k =ₛ id then higher r (status_rank s) else r)

rank_le : (s : OrderStatus) → status_rank s ≤ 3
rank_le s = ground arith

abbrev reported : String → String → OrderStatus → LiveOrder → LiveOrder
reported id k s o =
    if k =ₛ id
    then (if ltb (status_rank o.status) (status_rank s) then set_status s o else o)
    else o

reported_rank :
    (id k : String) (s : OrderStatus) (o : LiveOrder)
    → status_rank (reported id k s o).status
      ≡ (if k =ₛ id then higher (status_rank o.status) (status_rank s) else status_rank o.status)
reported_rank id k s o = ground arith

reported_terminal :
    (id k : String) (s : OrderStatus) (o : LiveOrder)
    → status_rank o.status ≡ 3
    → (reported id k s o).status ≡ o.status
reported_terminal id k s o h = ground (arith, rank_le s)

find_order-after_report :
    (id k : String) (s : OrderStatus) (j : Journal) (o : LiveOrder)
    → find_order id j.orders ≡ some o
    → find_order id (after_report (record_order_status k s j) j).orders ≡ some (reported id k s o)
unfolding record_order_status
find_order-after_report id k s j o h = elim (Option-cases (find_order k j.orders)) [
  | inl e ↦ ground (arith, eq_iff k id)
  | inr (q, e) ↦ ground (arith, eq_iff k id, find_order-update_order id k s j.orders)
]

-- After any sequence of reports, in whatever order they arrive, an order's rank is the highest of
-- its rank before and those reported of it; a terminal status stays as it was.
pub reports_settle :
    (rs : List (String × OrderStatus)) (id : String) (j : Journal) (o : LiveOrder)
    → find_order id j.orders ≡ some o
    → (p : LiveOrder) × (find_order id (report_all rs j).orders ≡ some p)
      × (status_rank p.status ≡ highest_rank id rs (status_rank o.status))
      × (status_rank o.status ≡ 3 → p.status ≡ o.status)
reports_settle [] id j o h = (o, h, refl, λ e. refl)
reports_settle ((k, s) ∷ rs) id j o h =
    let q = reported id k s o in
    let e = reported_terminal id k s o in
    let (p, f, r, t) =
      reports_settle rs id (after_report (record_order_status k s j) j) q
        (find_order-after_report id k s j o h) in
    (
      p,
      f,
      r ∙ ap (highest_rank id rs) (reported_rank id k s o),
      λ z. t (ap status_rank (e z) ∙ z) ∙ e z,
    )
