-- ===== src/Strategy/Table.antt =====
-- The transition table of docs/specs/strategy-lifecycle.md, written down row by row, and that
-- `Instance.Transition` accepts exactly its rows.
use alpha_mint_x.Base.{◌≡◌, ◌↔◌, true, false, Option, none, some, ◌⊎◌, ◌=ₛ◌, arith, is_ok}
use alpha_mint_x.Strategy.Lifecycle.{
  State, state_eq, trader_plus, admin_plus, is_system, Context, Instance,
}
use alpha_mint_x.Strategy.Transition.{transition}

-- What an unlock of a killed instance needs, whatever it goes to.
abbrev pub Unlocks : Context → Type 0
Unlocks ctx =
    (admin_plus ctx.actor ≡ true) × (ctx.kill_cleared ≡ true) × ((ctx.reason =ₛ "") ≡ false)

-- The guard of `killed → paper`.
abbrev pub Restarts : Context → Type 0
Restarts ctx =
    Unlocks ctx
    × (ctx.positions_flat ≡ true)
    × (ctx.config_valid ≡ true)
    × (ctx.counters_reset ≡ true)

abbrev pub ByTrader : Context → Type 0
ByTrader ctx = trader_plus ctx.actor ≡ true

-- Leaving a pause: to where it came from, or to `paper` under the unlock guard where a kill stands
-- behind it or nothing is known.
abbrev pub Resumes : Context → Option State → State → Type 0
Resumes ctx none State.paper = Restarts ctx
Resumes ctx (some State.killed) State.paper = Restarts ctx
Resumes ctx none to = ⊥
Resumes ctx (some State.killed) to = ⊥
Resumes ctx (some prev) to = (state_eq to prev ≡ true) × ByTrader ctx

-- The rows of the table: from, what a pause remembers, to.
abbrev pub Allowed : Context → State → Option State → State → Type 0
Allowed ctx from m State.killed = ByTrader ctx ⊎ (is_system ctx.actor ≡ true)
Allowed ctx State.draft m State.paper = ByTrader ctx × (ctx.config_valid ≡ true)
Allowed ctx State.paper m State.live_l1 =
    ByTrader ctx × (ctx.paper_gate_passed ≡ true) × (ctx.exchange_keys_configured ≡ true)
Allowed ctx State.paper m State.live_l2 =
    ByTrader ctx × (ctx.paper_gate_passed ≡ true) × (ctx.l2_envelope_configured ≡ true)
Allowed ctx State.paper m State.live_l3 =
    ByTrader ctx × (ctx.paper_gate_passed ≡ true) × (ctx.admin_approval ≡ true)
Allowed ctx State.live_l1 m State.live_l2 = ByTrader ctx × (ctx.l2_envelope_configured ≡ true)
Allowed ctx State.live_l1 m State.live_l3 = ByTrader ctx × (ctx.admin_approval ≡ true)
Allowed ctx State.live_l2 m State.live_l3 = ByTrader ctx × (ctx.admin_approval ≡ true)
Allowed ctx State.live_l3 m State.live_l2 = ByTrader ctx
Allowed ctx State.live_l3 m State.live_l1 = ByTrader ctx
Allowed ctx State.live_l2 m State.live_l1 = ByTrader ctx
Allowed ctx State.live_l1 m State.paper = ByTrader ctx × (ctx.positions_flat ≡ true)
Allowed ctx State.live_l2 m State.paper = ByTrader ctx × (ctx.positions_flat ≡ true)
Allowed ctx State.live_l3 m State.paper = ByTrader ctx × (ctx.positions_flat ≡ true)
Allowed ctx State.paper m State.paused = ByTrader ctx
Allowed ctx State.live_l1 m State.paused = ByTrader ctx
Allowed ctx State.live_l2 m State.paused = ByTrader ctx
Allowed ctx State.live_l3 m State.paused = ByTrader ctx
Allowed ctx State.paused m to = Resumes ctx m to
Allowed ctx State.killed m State.paper = Restarts ctx
Allowed ctx State.killed m State.paused = Unlocks ctx × (ctx.positions_flat ≡ false)
Allowed ctx from m to = ⊥

Allowed-of_ok :
    (to : State) (ctx : Context) (s : State) (m : Option State)
    → is_ok (transition to ctx (record { state = s; paused_from = m })).1 ≡ true
    → Allowed ctx s m to
unfolding transition
Allowed-of_ok State.draft ctx s m h = ground arith
Allowed-of_ok _ ctx s m h = ground arith

ok_of_Allowed :
    (to : State) (ctx : Context) (s : State) (m : Option State)
    → Allowed ctx s m to
    → is_ok (transition to ctx (record { state = s; paused_from = m })).1 ≡ true
unfolding transition
ok_of_Allowed State.draft ctx s m h = ground arith
ok_of_Allowed _ ctx s m h = ground arith

-- A transition is accepted exactly when the table has a row for it whose guard holds.
pub transition-iff-Allowed :
    (to : State) (ctx : Context) (i : Instance)
    → (is_ok (transition to ctx i).1 ≡ true) ↔ Allowed ctx i.state i.paused_from to
transition-iff-Allowed to ctx i =
    (Allowed-of_ok to ctx i.state i.paused_from, ok_of_Allowed to ctx i.state i.paused_from)

-- A refused transition leaves the instance as it was.
transition_refused_unchanged :
    (to : State) (ctx : Context) (i : Instance)
    → is_ok (transition to ctx i).1 ≡ false
    → (transition to ctx i).0 ≡ i
unfolding transition
transition_refused_unchanged to ctx i h = ground arith
