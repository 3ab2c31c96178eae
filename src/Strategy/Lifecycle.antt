-- ===== src/Strategy/Lifecycle.antt =====
-- control-plane/internal/strategy/lifecycle.go: the states, the roles, the guard inputs and one
-- instance. `State` is a string in Go: `other` stands for any value that is none of the seven. The
-- empty string, as the remembered state of an instance that has none, is `none`.
use alpha_mint_x.Base.{Bool, true, false, String, Option, none, ◌=ₛ◌}

pub data State : Type 0 where
  draft paper live_l1 live_l2 live_l3 paused killed : State
  other : String → State

-- Go's `==` on states.
abbrev pub state_eq : State → State → Bool
state_eq State.draft State.draft = true
state_eq State.paper State.paper = true
state_eq State.live_l1 State.live_l1 = true
state_eq State.live_l2 State.live_l2 = true
state_eq State.live_l3 State.live_l3 = true
state_eq State.paused State.paused = true
state_eq State.killed State.killed = true
state_eq (State.other s) (State.other t) = s =ₛ t
state_eq _ _ = false

-- `State.IsLive`.
abbrev pub is_live : State → Bool
is_live State.live_l1 = true
is_live State.live_l2 = true
is_live State.live_l3 = true
is_live _ = false

pub data Role : Type 0 where
  viewer trader admin owner system : Role

abbrev pub trader_plus : Role → Bool
trader_plus Role.trader = true
trader_plus Role.admin = true
trader_plus Role.owner = true
trader_plus _ = false

abbrev pub admin_plus : Role → Bool
admin_plus Role.admin = true
admin_plus Role.owner = true
admin_plus _ = false

abbrev pub is_system : Role → Bool
is_system Role.system = true
is_system _ = false

pub record Context : Type 0 where
  pub actor : Role
  pub config_valid : Bool
  pub exchange_keys_configured : Bool
  pub paper_gate_passed : Bool
  pub l2_envelope_configured : Bool
  pub admin_approval : Bool
  pub positions_flat : Bool
  pub kill_cleared : Bool
  pub counters_reset : Bool
  pub reason : String

pub data Effect : Type 0 where
  cancel_entry_orders : Effect

pub record Instance : Type 0 where
  pub state : State
  pub paused_from : Option State

-- `New`.
unfoldable pub new : Instance
new = record { state = State.draft; paused_from = none }

-- `NewAt`.
unfoldable pub new_at : State → Instance
new_at s = record { state = s; paused_from = none }

-- `NewPausedFrom`.
unfoldable pub new_paused_from : Option State → Instance
new_paused_from prev = record { state = State.paused; paused_from = prev }

-- The reasons that `illegal` is called with, one for each text.
pub data Why : Type 0 where
  kill_requires_trader pause_requires_trader resumes_only_to_paper : Why
  resumes_only_to_previous resume_requires_trader unknown_state : Why
  not_in_table requires_trader config_invalid gate_not_passed : Why
  keys_not_configured envelope_not_configured approval_not_recorded : Why
  positions_not_flat unlocks_only_to_paper_or_paused unlock_requires_admin : Why
  kill_still_active reason_missing counters_not_reset flat_unlocks_to_paper : Why

-- The error of `illegal(from, to, why)`.
pub record Illegal : Type 0 where
  pub from : State
  pub target : State
  pub why : Why

abbrev pub illegal : State → State → Why → Illegal
illegal f t w = record { from = f; target = t; why = w }
