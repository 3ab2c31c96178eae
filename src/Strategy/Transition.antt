-- ===== src/Strategy/Transition.antt =====
-- control-plane/internal/strategy/transition.go: the guards and `Instance.Transition`. A Go `error`
-- that may be nil is an `Option Illegal`. `transition` returns the instance as the method leaves it
-- behind the pointer, and the effects or the error.
use alpha_mint_x.Base.{
  Bool, true, false, ◌||◌, ◌&&◌, not, Option, none, some, List, [], ◌∷◌, ◌=ₛ◌, if◌then◌else◌,
  Result, ok, err,
}
use alpha_mint_x.Strategy.Lifecycle.{
  State, state_eq, is_live, trader_plus, admin_plus, is_system, Context, Effect,
  cancel_entry_orders, Instance, Why, Illegal, illegal,
}

-- The first test that fails gives the error; `requires` is one `if !ok { return … }`.
abbrev requires : Bool → Illegal → Option Illegal → Option Illegal
requires true e rest = rest
requires false e rest = some e

pub guard_draft : State → Context → Option Illegal
guard_draft to ctx = requires (state_eq to State.paper) (illegal State.draft to Why.not_in_table) (
    requires (trader_plus ctx.actor) (illegal State.draft to Why.requires_trader)
      (requires ctx.config_valid (illegal State.draft to Why.config_invalid) none))

-- The inner `switch to` of `guardPaper`.
abbrev guard_paper_level : State → Context → Option Illegal
guard_paper_level State.live_l1 ctx =
    requires ctx.exchange_keys_configured
      (illegal State.paper State.live_l1 Why.keys_not_configured) none
guard_paper_level State.live_l2 ctx =
    requires ctx.l2_envelope_configured
      (illegal State.paper State.live_l2 Why.envelope_not_configured) none
guard_paper_level State.live_l3 ctx =
    requires ctx.admin_approval (illegal State.paper State.live_l3 Why.approval_not_recorded) none
guard_paper_level _ ctx = none

pub guard_paper : State → Context → Option Illegal
guard_paper to ctx = requires (is_live to) (illegal State.paper to Why.not_in_table) (
    requires (trader_plus ctx.actor) (illegal State.paper to Why.requires_trader) (
      requires ctx.paper_gate_passed (illegal State.paper to Why.gate_not_passed)
        (guard_paper_level to ctx)))

-- The `switch` of `guardLive`, its cases in the order of the source.
abbrev guard_live_move : State → State → Context → Option Illegal
guard_live_move from State.paper ctx =
    requires ctx.positions_flat (illegal from State.paper Why.positions_not_flat) none
guard_live_move State.live_l1 State.live_l2 ctx =
    requires ctx.l2_envelope_configured
      (illegal State.live_l1 State.live_l2 Why.envelope_not_configured) none
guard_live_move State.live_l1 State.live_l3 ctx =
    requires ctx.admin_approval (illegal State.live_l1 State.live_l3 Why.approval_not_recorded) none
guard_live_move State.live_l2 State.live_l3 ctx =
    requires ctx.admin_approval (illegal State.live_l2 State.live_l3 Why.approval_not_recorded) none
guard_live_move State.live_l3 State.live_l2 ctx = none
guard_live_move State.live_l3 State.live_l1 ctx = none
guard_live_move State.live_l2 State.live_l1 ctx = none
guard_live_move from to ctx = some (illegal from to Why.not_in_table)

pub guard_live : State → State → Context → Option Illegal
guard_live from to ctx =
    requires (trader_plus ctx.actor) (illegal from to Why.requires_trader)
      (guard_live_move from to ctx)

pub guard_killed : State → Context → Option Illegal
guard_killed to ctx =
    requires (state_eq to State.paper || state_eq to State.paused)
      (illegal State.killed to Why.unlocks_only_to_paper_or_paused)
      (requires (admin_plus ctx.actor) (illegal State.killed to Why.unlock_requires_admin) (
        requires ctx.kill_cleared (illegal State.killed to Why.kill_still_active) (
          requires (not (ctx.reason =ₛ "")) (illegal State.killed to Why.reason_missing) (
            if state_eq to State.paper
            then requires ctx.positions_flat (illegal State.killed to Why.positions_not_flat) (
                requires ctx.config_valid (illegal State.killed to Why.config_invalid) (
                  requires ctx.counters_reset (illegal State.killed to Why.counters_not_reset)
                    none))
            else requires (not ctx.positions_flat)
                (illegal State.killed to Why.flat_unlocks_to_paper) none))))

-- The case `StatePaused` of the `switch`: by the remembered state. Nothing remembered, or a kill,
-- leaves the full `killed → paper` guard as the only way out.
abbrev guard_paused : Option State → State → Context → Option Illegal
guard_paused none to ctx =
    requires (state_eq to State.paper) (illegal State.paused to Why.resumes_only_to_paper)
      (guard_killed to ctx)
guard_paused (some State.killed) to ctx =
    requires (state_eq to State.paper) (illegal State.paused to Why.resumes_only_to_paper)
      (guard_killed to ctx)
guard_paused (some prev) to ctx =
    requires (state_eq to prev) (illegal State.paused to Why.resumes_only_to_previous)
      (requires (trader_plus ctx.actor) (illegal State.paused to Why.resume_requires_trader) none)

-- The `switch from` of `Transition`.
pub guard_from : State → Option State → State → Context → Option Illegal
unfolding guard_draft guard_paper guard_live guard_killed
guard_from State.draft prev to ctx = guard_draft to ctx
guard_from State.paper prev to ctx = guard_paper to ctx
guard_from State.live_l1 prev to ctx = guard_live State.live_l1 to ctx
guard_from State.live_l2 prev to ctx = guard_live State.live_l2 to ctx
guard_from State.live_l3 prev to ctx = guard_live State.live_l3 to ctx
guard_from State.paused prev to ctx = guard_paused prev to ctx
guard_from State.killed prev to ctx = guard_killed to ctx
guard_from (State.other s) prev to ctx = some (illegal (State.other s) to Why.unknown_state)

-- The assignments behind the guards: a resume forgets where it came from, an unlock to `paused`
-- remembers the kill.
abbrev moved : State → State → Instance → Instance
moved State.paused to i = record { state = to; paused_from = none }
moved State.killed State.paused i = record { state = State.paused; paused_from = some State.killed }
moved from to i = record i { state = to }

-- `Instance.Transition`.
unfoldable pub transition : State → Context → Instance → Instance × Result Illegal (List Effect)
unfolding guard_from
transition to ctx i =
    if state_eq to State.killed
    then (if trader_plus ctx.actor || is_system ctx.actor
        then (record { state = State.killed; paused_from = none }, ok (cancel_entry_orders ∷ []))
        else (i, err (illegal i.state to Why.kill_requires_trader)))
    else if state_eq to State.paused && (state_eq i.state State.paper || is_live i.state)
    then (if trader_plus ctx.actor
        then (
          record { state = State.paused; paused_from = some i.state },
          ok (cancel_entry_orders ∷ []),
        )
        else (i, err (illegal i.state to Why.pause_requires_trader)))
    else elim (guard_from i.state i.paused_from to ctx) [
      | none ↦ (moved i.state to i, ok [])
      | some e ↦ (i, err e)
    ]
