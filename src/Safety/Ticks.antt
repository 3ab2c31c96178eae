-- ===== src/Safety/Ticks.antt =====
-- control-plane/internal/safety/tick.go: one tick of the monitor over its monitored set. Reading the
-- set by pages is left out: a tick gets the candidates, or `none` where reading them failed.
use alpha_mint_x.Base.{
  String, Bool, true, false, ◌||◌, not, Option, none, some, List, [], ◌∷◌, if◌then◌else◌, ◌>>=◌,
}
use alpha_mint_x.Base.Int.{ℤ}
use alpha_mint_x.Numbers.{Numbers, is_zero}
use alpha_mint_x.Contract.{codes}
use alpha_mint_x.Gate.{contains}
use alpha_mint_x.Safety.Types.{AlertKind, PositionRow, LiveOrder, Candidate, Ports, Monitor}
use alpha_mint_x.Safety.Breaker.{alert_daily, evaluate, stall_scan}
use alpha_mint_x.Safety.Watchdog.{has_prefix, watchdog_pass}

-- A row of `strategies`.
pub record StrategyRow : Type 0 where
  pub strategy_id : String
  pub lifecycle_state : String

abbrev pub is_nil {ℓ} : {A : Type ℓ} → List A → Bool
is_nil [] = true
is_nil (x ∷ xs) = false

pub strategy_ids : List Candidate → List String
strategy_ids [] = []
strategy_ids (c ∷ cs) = c.strategy_id ∷ strategy_ids cs

pub any_open : List Candidate → Bool
any_open [] = false
any_open (c ∷ cs) = not (is_nil c.open_positions) || any_open cs

pub any_live : List String → List LiveOrder → Bool
any_live ids [] = false
any_live ids (o ∷ os) = contains ids o.strategy_id || any_live ids os

module _ (n : Numbers) (p : Ports n) where
  open n use {of_text}
  open p use {Store, list_positions, list_live_orders, reconciled}

  -- The positions of a strategy that are not flat, `none` where a quantity cannot be read.
  pub nonzero_positions : List PositionRow → Option (List PositionRow)
  nonzero_positions [] = some []
  nonzero_positions (r ∷ rs) = do
    q ← of_text r.qty_base
    rest ← nonzero_positions rs
    some (if is_zero n q then rest else r ∷ rest)

  -- `monitored`, over the rows of its pages.
  unfoldable pub monitored : List StrategyRow → Store → Option (List Candidate)
  monitored [] s = some []
  monitored (r ∷ rows) s = do
    positions ← list_positions r.strategy_id s
    open_rows ← nonzero_positions positions
    rest ← monitored rows s
    some (
        if not (is_nil open_rows) || has_prefix (codes r.lifecycle_state) (codes "live_")
        then record {
          strategy_id = r.strategy_id;
          lifecycle_state = r.lifecycle_state;
          open_positions = open_rows;
        }
          ∷ rest
        else rest)

  -- `interval`.
  unfoldable pub interval : List Candidate → Monitor → Store → ℤ
  interval cs m s =
      if any_open cs then m.active else if is_nil cs then m.idle else elim (list_live_orders s) [
        | none ↦ m.active
        | some live ↦ if any_live (strategy_ids cs) live then m.active else m.idle
      ]

  unfoldable pub evaluate_each : List Candidate → ℤ → Store → Store
  evaluate_each [] now s = s
  evaluate_each (c ∷ cs) now s = evaluate_each cs now (evaluate n p c.strategy_id now s)

  unfoldable pub alert_unreconciled : List Candidate → ℤ → Store → Store
  alert_unreconciled [] now s = s
  alert_unreconciled (c ∷ cs) now s = alert_unreconciled cs now (
      alert_daily n p AlertKind.breaker_mark_stale c.strategy_id "not_reconciled" "not_reconciled"
        now s)

  -- The part of a tick that needs the candidates.
  abbrev pub tick_over : List Candidate → ℤ → Bool → Monitor × Store → (Monitor × Store) × ℤ
  tick_over cs now verified (m, s) =
      let s1 = if verified then evaluate_each cs now s else alert_unreconciled cs now s in
      let (m', s2) = watchdog_pass n p cs now verified (m, s1) in ((m', s2), interval cs m' s2)

  -- The deferred scan for stalled effects.
  abbrev pub then_scan : ℤ → (Monitor × Store) × ℤ → (Monitor × Store) × ℤ
  then_scan now ((m, s), next) = ((m, stall_scan n p m now s), next)

  -- `tick`: the state that it leaves, and the time to the next.
  unfoldable pub tick : Option (List Candidate) → ℤ → Monitor × Store → (Monitor × Store) × ℤ
  tick none now (m, s) = then_scan now ((m, s), m.active)
  tick (some cs) now (m, s) = then_scan now (tick_over cs now (reconciled s) (m, s))
