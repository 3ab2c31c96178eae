-- ===== src/Store/Windows.antt =====
-- control-plane/internal/store/lifecycle.go: where a pause came from, and the start of the paper
-- window. An instant is its text, ordered as Go and SQLite order texts, by their bytes.
use alpha_mint_x.Base.{
  String, Bool, true, false, not, ◌&&◌, ◌||◌, Option, none, some, List, [], ◌∷◌, ◌=ₛ◌,
  if◌then◌else◌,
}
use Prim.Native.String.{compare}
use alpha_mint_x.Numbers.{is_ge, is_gt}
use alpha_mint_x.Store.Types.{KillBreakerEvent, TransitionRow, Tables, is_kill, tenant_of}
use alpha_mint_x.Store.Kills.{binds}

-- `at >= k`.
abbrev pub is_since : String → String → Bool
is_since k at = is_ge (compare at k)

-- `ORDER BY recorded_at, rowid` of rows in the order of their rowids: a row goes before the first that
-- is not earlier.
unfoldable pub insert_by_time : TransitionRow → List TransitionRow → List TransitionRow
insert_by_time r [] = r ∷ []
insert_by_time r (s ∷ rows) =
    if is_gt (compare r.recorded_at s.recorded_at) then s ∷ insert_by_time r rows else r ∷ s ∷ rows

unfoldable pub by_time : (TransitionRow → Bool) → List TransitionRow → List TransitionRow
by_time test [] = []
by_time test (r ∷ rows) =
    let rest = by_time test rows in if test r then insert_by_time r rest else rest

-- The row that a descending order puts first.
unfoldable pub last_from : List TransitionRow → Option String
last_from [] = none
last_from (r ∷ []) = some r.from_state
last_from (r ∷ s ∷ rows) = last_from (s ∷ rows)

-- `PausedProvenance`.
unfoldable pub paused_provenance : String → Tables → Option String
paused_provenance sid t =
    last_from (by_time (λ r. r.strategy_id =ₛ sid && r.to_state =ₛ "paused") t.transitions)

-- The instant of the newest kill that binds the strategy, cleared or not.
abbrev newer : String → Option String → String
newer at none = at
newer at (some best) = if is_since best at then at else best

unfoldable pub newest_kill : String → Option String → List KillBreakerEvent → Option String
newest_kill sid tid [] = none
newest_kill sid tid (e ∷ es) =
    let rest = newest_kill sid tid es in
    if is_kill e.kind && binds sid tid e then some (newer e.recorded_at rest) else rest

-- What the loop of `PaperWindowStart` keeps: `start` with `haveStart`, `anyQualSinceK` and
-- `lastPausedFrom`.
pub record Walk : Type 0 where
  pub start : Option String
  pub since_kill : Bool
  pub last_paused_from : String

abbrev pub is_some_text : Option String → Bool
is_some_text none = false
is_some_text (some k) = true

abbrev since_opt : Option String → String → Bool
since_opt none at = false
since_opt (some k) at = is_since k at

abbrev pub qualifies : Option String → Walk → TransitionRow → Bool
qualifies kill w r =
    not (r.from_state =ₛ "paused")
    || (w.last_paused_from =ₛ "killed")
    || (is_some_text kill && not w.since_kill)

unfoldable pub walk_row : Option String → Walk → TransitionRow → Walk
walk_row kill w r =
    if r.to_state =ₛ "paused"
    then record w { last_paused_from = r.from_state }
    else if qualifies kill w r
    then record w {
      start = some r.recorded_at;
      since_kill = w.since_kill || since_opt kill r.recorded_at;
    }
    else w

unfoldable pub walk : Option String → List TransitionRow → Walk → Walk
walk kill [] w = w
walk kill (r ∷ rows) w = walk kill rows (walk_row kill w r)

abbrev pub window_of : Option String → Walk → Option String
window_of kill w = if is_some_text kill && not w.since_kill then none else w.start

abbrev pub is_window_row : String → TransitionRow → Bool
is_window_row sid r = r.strategy_id =ₛ sid && ((r.to_state =ₛ "paper") || (r.to_state =ₛ "paused"))

-- `PaperWindowStart`.
unfoldable pub paper_window_start : String → Tables → Option String
paper_window_start sid t =
    let kill = newest_kill sid (tenant_of sid t.strategies) t.events in
    window_of kill (
      walk kill (by_time (is_window_row sid) t.transitions)
        (record { start = none; since_kill = false; last_paused_from = "" }))
