-- ===== src/Strategy/Runs.antt =====
-- Sequences of transition attempts on one instance, refused ones included, and what a kill and the
-- paper gate mean over such a sequence.
use alpha_mint_x.Base.{
  ◌≡◌, refl, Bool, true, false, not, Option, none, some, List, [], ◌∷◌, ◌⊎◌, inl, inr, arith, Any,
  ok,
}
use alpha_mint_x.Strategy.Lifecycle.{
  State, is_live, trader_plus, Context, Instance, new, new_at, is_system, cancel_entry_orders,
}
use alpha_mint_x.Strategy.Transition.{transition}
use alpha_mint_x.Strategy.Table.{Restarts}

abbrev pub Attempt : Type 0
Attempt = State × Context

unfoldable pub attempt : Instance → Attempt → Instance
attempt i (to, ctx) = (transition to ctx i).0

unfoldable pub run : Instance → List Attempt → Instance
run i [] = i
run i (a ∷ l) = run (attempt i a) l

abbrev remembers : Option State → Bool
remembers (some State.paper) = true
remembers (some State.live_l1) = true
remembers (some State.live_l2) = true
remembers (some State.live_l3) = true
remembers (some State.killed) = true
remembers _ = false

abbrev forgets : Option State → Bool
forgets none = true
forgets (some s) = false

-- Only a paused instance remembers a state, and it is one that a pause or an unlock leaves behind.
abbrev pub coherent : State → Option State → Bool
coherent State.paused m = remembers m
coherent (State.other s) m = false
coherent s m = forgets m

attempt-coherent :
    (to : State) (ctx : Context) (s : State) (m : Option State)
    → coherent s m ≡ true
    → let i = (transition to ctx (record { state = s; paused_from = m })).0 in
      coherent i.state i.paused_from ≡ true
unfolding transition
attempt-coherent State.draft ctx s m h = ground arith
attempt-coherent _ ctx s m h = ground arith

run-coherent :
    (i : Instance) (l : List Attempt)
    → coherent i.state i.paused_from ≡ true
    → coherent (run i l).state (run i l).paused_from ≡ true
unfolding run attempt
run-coherent i [] h = h
run-coherent i (a ∷ l) h =
    run-coherent (attempt i a) l (attempt-coherent a.0 a.1 i.state i.paused_from h)

-- Whatever transitions are attempted on a new instance, by whomever, it stays in one of the seven
-- states, and it remembers a state exactly while it is paused.
pub run-new-coherent :
    (l : List Attempt) → coherent (run new l).state (run new l).paused_from ≡ true
unfolding new
run-new-coherent l = run-coherent new l refl

-- Killed, or paused with a kill or nothing known behind it.
abbrev pub is_locked : State → Option State → Bool
is_locked State.killed m = true
is_locked State.paused none = true
is_locked State.paused (some State.killed) = true
is_locked s m = false

abbrev not_live : Option State → Bool
not_live (some s) = not (is_live s)
not_live none = true

-- Not live, and no resume would make it so.
abbrev pub is_unpromoted : State → Option State → Bool
is_unpromoted State.paused m = not_live m
is_unpromoted s m = not (is_live s)

-- The unlock to `paper`, with everything that the table asks for it.
abbrev pub Relaunches : Attempt → Type 0
Relaunches (to, ctx) = (to ≡ State.paper) × Restarts ctx

-- A promotion to a live state by a Trader or above, the paper gate passed.
abbrev pub Promotes : Attempt → Type 0
Promotes (to, ctx) =
    (is_live to ≡ true) × (trader_plus ctx.actor ≡ true) × (ctx.paper_gate_passed ≡ true)

-- `P` holds of some attempt, and `Q` of a later one.
abbrev pub Follows : (Attempt → Type 0) → (Attempt → Type 0) → List Attempt → Type 0
Follows P Q [] = ⊥
Follows P Q (a ∷ l) = (P a × Any Q l) ⊎ Follows P Q l

unpromoted_step :
    (to : State) (ctx : Context) (s : State) (m : Option State)
    → is_unpromoted s m ≡ true
    → let i = (transition to ctx (record { state = s; paused_from = m })).0 in
      Promotes (to, ctx) ⊎ (is_unpromoted i.state i.paused_from ≡ true)
unfolding transition
unpromoted_step State.draft ctx s m h = ground arith
unpromoted_step _ ctx s m h = ground arith

-- An instance that is not live becomes live only by an attempt that passes the paper gate.
live_needs_gate :
    (i : Instance) (l : List Attempt)
    → is_unpromoted i.state i.paused_from ≡ true
    → is_live (run i l).state ≡ true
    → Any Promotes l
unfolding run attempt
live_needs_gate i [] h live = ground arith
live_needs_gate i (a ∷ l) h live = elim (unpromoted_step a.0 a.1 i.state i.paused_from h) [
  | inl p ↦ inl p
  | inr q ↦ inr (live_needs_gate (attempt i a) l q live)
]

locked_step :
    (to : State) (ctx : Context) (s : State) (m : Option State)
    → is_locked s m ≡ true
    → let i = (transition to ctx (record { state = s; paused_from = m })).0 in
      (Relaunches (to, ctx) × (is_unpromoted i.state i.paused_from ≡ true))
      ⊎ (is_locked i.state i.paused_from ≡ true)
unfolding transition
locked_step State.draft ctx s m h = ground arith
locked_step _ ctx s m h = ground arith

-- After a kill an instance becomes live again only by an unlock to `paper` under the whole guard of
-- the table, followed later by a promotion that passes the paper gate.
pub killed_relaunch :
    (i : Instance) (l : List Attempt)
    → is_locked i.state i.paused_from ≡ true
    → is_live (run i l).state ≡ true
    → Follows Relaunches Promotes l
unfolding run attempt
killed_relaunch i [] h live = ground arith
killed_relaunch i (a ∷ l) h live = elim (locked_step a.0 a.1 i.state i.paused_from h) [
  | inl (p, q) ↦ inl (p, live_needs_gate (attempt i a) l q live)
  | inr q ↦ inr (killed_relaunch (attempt i a) l q live)
]

-- A kill by a Trader or above, or by the system, is never refused: it orders the entry orders
-- canceled, and leaves the instance killed with nothing remembered, whatever it was.
kill_locks :
    (ctx : Context) (i : Instance)
    → (trader_plus ctx.actor ≡ true) ⊎ (is_system ctx.actor ≡ true)
    → transition State.killed ctx i ≡ (new_at State.killed, ok (cancel_entry_orders ∷ []))
unfolding transition new_at
kill_locks ctx i h = ground arith
