-- ===== src/RunState/Shut.antt =====
-- From a persisted kill to the gate: while it stands, every proposal of the strategy is rejected.
use alpha_mint_x.Base.{
  ℕ, ◌≡◌, String, Bool, false, ◌||◌, Option, none, some, ◌=ₛ◌, arith, ok, Option-cases, inl, inr,
}
use alpha_mint_x.Base.Int.{ℤ}
use alpha_mint_x.Numbers.{Numbers}
use alpha_mint_x.Contract.{Proposal, Decision}
use alpha_mint_x.Gate.{RiskLimits, RuntimeState, evaluate}
use alpha_mint_x.Gate.Verdicts.{kill_refuses_all}
use alpha_mint_x.Store.{ClearScope, Tables, active_kill, exists_row}
use alpha_mint_x.Store.Standing.{IsBounded, Binds, append_scope_kill, kill_stands}
use alpha_mint_x.RunState.Hydrate.{
  Hydrator, StrategyState, today_of, hydrate, figures, fold_positions, daily_pnl,
}

module _ (n : Numbers) where
  hydrate_kill_active :
      (h : Hydrator n) (sid lifecycle symbol : String) (t : Tables) (state : RuntimeState n)
      → hydrate n h sid lifecycle symbol t ≡ some state
      → state.kill_active ≡ active_kill sid t || (lifecycle =ₛ "killed")
  unfolding hydrate
  hydrate_kill_active h sid lifecycle symbol t state e = elim (Option-cases (h.snapshot sid)) [
    | inl p ↦ ground arith
    | inr (snap, p) ↦
        elim (Option-cases (fold_positions n h.marks snap.positions (0, n.zero_amount))) [
          | inl q ↦ ground arith
          | inr (folded, q) ↦ elim (Option-cases (figures n h snap.state)) [
            | inl r ↦ ground arith
            | inr (f, r) ↦ elim (Option-cases (h.rate_count sid)) [
              | inl s ↦ ground arith
              | inr (rate, s) ↦ ground arith
            ]
          ]
        ]
  ]

  -- A kill that is stored for a scope shuts the gate at once for each strategy it binds: every
  -- proposal that is evaluated with a state hydrated from the tables after it is rejected.
  pub kill_shuts_gate :
      (scope : ClearScope) (id sid actor at : String) (flatten : Bool) (t : Tables)
      → IsBounded t
      → Binds scope sid t
      → exists_row (λ e. e.event_id =ₛ id) t.events ≡ false
      → (epoch : ℕ) × (u : Tables) × (append_scope_kill scope id actor at flatten t ≡ ok (epoch, u))
        × ((h : Hydrator n) (lifecycle symbol : String) (state : RuntimeState n) (p : Proposal n)
              (limits : RiskLimits n) (fresh : String) (now : ℤ)
            → hydrate n h sid lifecycle symbol u ≡ some state
            → (evaluate n p limits state fresh now).decision ≡ Decision.reject)
  kill_shuts_gate scope id sid actor at flatten t b s f =
      let (epoch, u, e, _, a, _) = kill_stands scope id sid actor at flatten t b s f in
      (
        epoch,
        u,
        e,
        λ h lifecycle symbol state p limits fresh now q.
            (kill_refuses_all n p limits state fresh now
              (ground (arith, hydrate_kill_active h sid lifecycle symbol u state q))).0,
      )

  today_of-figures :
      (h : Hydrator n) (row : Option StrategyState) (f : n.Amount × n.Amount × n.Amount)
      → figures n h row ≡ some f
      → today_of n h row ≡ some f.2
  unfolding figures
  today_of-figures h none f e = ground arith
  today_of-figures h (some row) f e = elim (Option-cases (n.of_text row.equity_quote)) [
    | inl p ↦ ground arith
    | inr (x, p) ↦ elim (Option-cases (n.of_text row.peak_equity_quote)) [
      | inl q ↦ ground arith
      | inr (y, q) ↦ elim (Option-cases (today_of n h (some row))) [
        | inl r ↦ ground arith
        | inr (z, r) ↦ ground arith
      ]
    ]
  ]

  -- The daily figure that the approval preflight and the breaker read, `DailyPnL`, is the one that
  -- the gate is given, of the same snapshot and marks.
  daily_pnl_agrees :
      (h : Hydrator n) (sid lifecycle symbol : String) (t : Tables) (state : RuntimeState n)
      → hydrate n h sid lifecycle symbol t ≡ some state
      → daily_pnl n h sid ≡ some state.daily_realized_pnl_quote
  unfolding hydrate daily_pnl
  daily_pnl_agrees h sid lifecycle symbol t state e = elim (Option-cases (h.snapshot sid)) [
    | inl p ↦ ground arith
    | inr (snap, p) ↦
        elim (Option-cases (fold_positions n h.marks snap.positions (0, n.zero_amount))) [
          | inl q ↦ ground arith
          | inr (folded, q) ↦ elim (Option-cases (figures n h snap.state)) [
            | inl r ↦ ground arith
            | inr (f, r) ↦ elim (Option-cases (h.rate_count sid)) [
              | inl s ↦ ground arith
              | inr (rate, s) ↦ ground (arith, today_of-figures h snap.state f r)
            ]
          ]
        ]
  ]
