-- ===== src/Store/Locks.antt =====
-- The lifecycle lock that the drive of a kill takes.
use alpha_mint_x.Base.{
  ◌≡◌, ◌≢◌, refl, sym, ap, String, Bool, true, false, none, some, List, [], ◌∷◌, ◌=ₛ◌, eq_iff,
  arith, ok, if◌then◌else◌,
}
use alpha_mint_x.Store.Types.{StrategyRow, Tables}
use alpha_mint_x.Store.Clears.{state_of, set_killed, insert_transition, append_kill_lifecycle_lock}
use text.Mathlib.Text.{starts_with}

state_of-set_killed :
    (k sid at : String) (rs : List StrategyRow)
    → state_of k (set_killed sid at rs)
      ≡ elim (state_of k rs) [ none ↦ none | some x ↦ if sid =ₛ k then some "killed" else some x ]
unfolding set_killed
state_of-set_killed k sid at [] = refl
state_of-set_killed k sid at (r ∷ rs) = ground (
  arith,
  eq_iff r.strategy_id k,
  eq_iff r.strategy_id sid,
  eq_iff sid k,
  state_of-set_killed k sid at rs,
)

not_live :
    (locked : Bool) (from : String)
    → locked ≡ starts_with from "live_"
    → starts_with (if locked then "killed" else from) "live_" ≡ false
not_live true from h = refl
not_live false from h = sym h

module _ (new_id : Tables → String) where
  lock_outcome :
      (sid id actor at : String) (locked : Bool) (from : String) (t u : Tables)
      → state_of sid t.strategies ≡ some from
      → append_kill_lifecycle_lock new_id sid id actor at t ≡ ok (locked, u)
      → (locked ≡ starts_with from "live_")
        × (u.strategies ≡ (if locked then set_killed sid at t.strategies else t.strategies))
  unfolding append_kill_lifecycle_lock insert_transition
  lock_outcome sid id actor at locked from t u s h = ground arith

  lock_idle :
      (sid id actor at from : String) (t : Tables)
      → state_of sid t.strategies ≡ some from
      → starts_with from "live_" ≡ false
      → append_kill_lifecycle_lock new_id sid id actor at t ≡ ok (false, t)
  unfolding append_kill_lifecycle_lock
  lock_idle sid id actor at from t s h = ground arith

  -- A lock that succeeds kills a strategy just if its state is live: from then on it is killed, any
  -- other state stays as it was, no other strategy changes, and to lock again does nothing.
  lock_kills_live :
      (sid id actor at : String) (locked : Bool) (from : String) (t u : Tables)
      → state_of sid t.strategies ≡ some from
      → append_kill_lifecycle_lock new_id sid id actor at t ≡ ok (locked, u)
      → (locked ≡ starts_with from "live_")
        × (state_of sid u.strategies ≡ some (if locked then "killed" else from))
        × ((k : String) → k ≢ sid → state_of k u.strategies ≡ state_of k t.strategies)
        × ((id2 actor2 later : String)
            → append_kill_lifecycle_lock new_id sid id2 actor2 later u ≡ ok (false, u))
  lock_kills_live sid id actor at locked from t u s h =
      let (l, r) = lock_outcome sid id actor at locked from t u s h in
      let k : (j : String)
          → state_of j u.strategies
            ≡ state_of j (if locked then set_killed sid at t.strategies else t.strategies) =
        λ j. ap (state_of j) r in
      let now : state_of sid u.strategies ≡ some (if locked then "killed" else from) =
        ground (arith, k sid, state_of-set_killed sid sid at t.strategies, eq_iff sid sid) in
      (
        l,
        now,
        λ j d. ground (arith, k j, state_of-set_killed j sid at t.strategies, eq_iff sid j),
        λ id2 actor2 later.
            lock_idle sid id2 actor2 later (if locked then "killed" else from) u now
              (not_live locked from l),
      )
