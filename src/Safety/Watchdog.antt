-- ===== src/Safety/Watchdog.antt =====
-- control-plane/internal/safety/watchdog.go: the ladder of a silent strategy, from an alert and the
-- cancel of its entries to a kill.
use alpha_mint_x.Base.{
  ℕ, String, Bool, true, false, ◌&&◌, not, Option, none, some, List, [], ◌∷◌, ◌=ₛ◌, ◌==◌,
  if◌then◌else◌,
}
use alpha_mint_x.Base.Int.{ℤ, ltb_ℤ, leb_ℤ, ◌-ℤ◌}
use alpha_mint_x.Numbers.{Numbers, less_than}
use alpha_mint_x.Contract.{codes}
use alpha_mint_x.Gate.{contains}
use alpha_mint_x.Safety.Types.{
  AlertKind, PositionRow, LiveOrder, Candidate, Ports, Monitor, time_of, set_time, delete_time,
  watchdog_silence_threshold, watchdog_escalation_threshold,
}
use alpha_mint_x.Safety.Breaker.{or_same, alert_of}

-- strings.HasPrefix of a lifecycle state with "live_".
unfoldable pub has_prefix : List ℕ → List ℕ → Bool
has_prefix xs [] = true
has_prefix [] (y ∷ ys) = false
has_prefix (x ∷ xs) (y ∷ ys) = x == y && has_prefix xs ys

unfoldable pub is_watched : Candidate → Bool
is_watched c = has_prefix (codes c.lifecycle_state) (codes "live_")

unfoldable pub watch_set : List Candidate → List String
watch_set [] = []
watch_set (c ∷ cs) = if is_watched c then c.strategy_id ∷ watch_set cs else watch_set cs

-- `pruneWatchSet`: both entries of each strategy that was watched and is no longer.
unfoldable pub keep_watched : List String → List (String × ℤ) → List (String × ℤ)
keep_watched watched [] = []
keep_watched watched ((k, t) ∷ m) =
    if contains watched k then (k, t) ∷ keep_watched watched m else keep_watched watched m

unfoldable pub drop_left : List String → List (String × ℤ) → List (String × ℤ) → List (String × ℤ)
drop_left watched [] seen = seen
drop_left watched ((k, t) ∷ m) seen =
    drop_left watched m (if contains watched k then seen else delete_time k seen)

unfoldable pub prune_watch_set : List String → Monitor → Monitor
prune_watch_set watched m = record m {
  first_watched = keep_watched watched m.first_watched;
  last_seen = drop_left watched m.first_watched m.last_seen;
}

-- `observe`: the stamp on entry to the watch set, and the last beat.
abbrev pub enter_if_new : Option ℤ → String → ℤ → Monitor → Monitor × Option ℤ
enter_if_new none sid now m = (
  record m {
    first_watched = set_time sid now m.first_watched;
    last_seen = delete_time sid m.last_seen;
  },
  none,
)
enter_if_new (some first) sid now m = (m, time_of sid m.last_seen)

unfoldable pub observe : String → ℤ → Monitor → Monitor × Option ℤ
observe sid now m = enter_if_new (time_of sid m.first_watched) sid now m

-- `silenceAge`, from the baseline; the zero time of a missing entry is before the start.
abbrev pub baseline_of : Option ℤ → ℤ → ℤ
baseline_of none started = started
baseline_of (some first) started = if ltb_ℤ first started then started else first

abbrev pub age_since : Option ℤ → ℤ → ℤ → ℤ
age_since none baseline now = now -ℤ baseline
age_since (some seen) baseline now = if ltb_ℤ baseline seen then now -ℤ seen else now -ℤ baseline

unfoldable pub silence_age : String → Option ℤ → ℤ → Monitor → ℤ
silence_age sid seen now m =
    age_since seen (baseline_of (time_of sid m.first_watched) m.started_at) now

-- `hasProtective`.
unfoldable pub has_protective : List LiveOrder → String → String → Bool
has_protective [] sid symbol = false
has_protective (o ∷ os) sid symbol =
    if o.strategy_id =ₛ sid && o.symbol =ₛ symbol && o.class =ₛ "PROTECTIVE"
    then true
    else has_protective os sid symbol

module _ (n : Numbers) (p : Ports n) where
  open n use {Amount, mul, abs, of_text}
  open p use {
    Store, list_live_orders, append_alert, has_alert_today, has_alert, active_kill,
    append_strategy_kill, latest_kill, mark, min_filters, cancel_open_entries, start_drive,
    fresh_id, utc_date,
  }

  abbrev large_enough : Option (Amount × Amount) → Option Amount → Amount → Bool
  large_enough (some (min_qty, min_notional)) (some price) size =
      not (less_than n size min_qty) && not (less_than n (mul size price) min_notional)
  large_enough filters price size = false

  -- Whether a position is one that a protective order could cover: not dust, with known filters and
  -- a fresh mark.
  unfoldable pub is_protectable : PositionRow → ℤ → Store → Bool
  is_protectable r now s = elim (of_text r.qty_base) [
    | none ↦ false
    | some q ↦ large_enough (min_filters r.symbol s) (mark r.symbol now s) (abs q)
  ]

  unfoldable pub any_unprotected : List LiveOrder → String → List PositionRow → ℤ → Store → Bool
  any_unprotected live sid [] now s = false
  any_unprotected live sid (r ∷ rs) now s =
      if is_protectable r now s && not (has_protective live sid r.symbol)
      then true
      else any_unprotected live sid rs now s

  -- `unprotectedExposure`.
  unfoldable pub unprotected_exposure : Candidate → ℤ → Store → Bool
  unprotected_exposure c now s = elim (list_live_orders s) [
    | none ↦ false
    | some live ↦ any_unprotected live c.strategy_id c.open_positions now s
  ]

  abbrev sweep_if : Bool → String → Store → Store
  sweep_if true sid s = cancel_open_entries sid s
  sweep_if false sid s = s

  abbrev sweep_alerted : Option Store → String → Bool → Store → Store
  sweep_alerted none sid reconciled s = s
  sweep_alerted (some s') sid reconciled s = sweep_if reconciled sid s'

  abbrev rung_one_after : Option Bool → String → ℤ → Bool → Store → Store
  rung_one_after none sid now reconciled s = s
  rung_one_after (some true) sid now reconciled s = sweep_if reconciled sid s
  rung_one_after (some false) sid now reconciled s =
      sweep_alerted
        (append_alert (alert_of n p AlertKind.watchdog_silence sid "silence" "silence" now) s) sid
        reconciled s

  -- `rungOneSilence`: the alert of the day, then the cancel of the entries.
  unfoldable pub rung_one_silence : String → ℤ → Bool → Store → Store
  rung_one_silence sid now reconciled s =
      rung_one_after (has_alert_today AlertKind.watchdog_silence sid "silence" (utc_date now) s) sid
        now reconciled s

  -- `escalate`: the kill, its alert, the start of a drive of the effects.
  unfoldable pub escalate : String → String → ℤ → Store → Store
  escalate sid cause now s = elim (append_strategy_kill (fresh_id s) sid now s) [
    | none ↦ s
    | some s' ↦ start_drive (
        or_same n p
          (append_alert (alert_of n p AlertKind.watchdog_kill_escalation sid (fresh_id s) cause now)
            s')
          s')
  ]

  abbrev backfill_of : Option (Option (String × String)) → String → ℤ → Store → Store
  backfill_of (some (some (event, actor))) sid now s =
      if actor =ₛ "watchdog"
      then elim (has_alert AlertKind.watchdog_kill_escalation sid event s) [
        | some false ↦
            or_same n p
              (append_alert
                (alert_of n p AlertKind.watchdog_kill_escalation sid event "backfill" now) s)
              s
        | dup ↦ s
      ]
      else s
  backfill_of kill sid now s = s

  -- `backfillEscalationAlert`.
  unfoldable pub backfill_escalation_alert : String → ℤ → Store → Store
  backfill_escalation_alert sid now s = backfill_of (latest_kill sid s) sid now s

  -- The ladder, by the age of the silence.
  unfoldable pub ladder : Candidate → ℤ → ℤ → Bool → Store → Store
  ladder c age now reconciled s =
      if leb_ℤ age watchdog_silence_threshold
      then s
      else if ltb_ℤ watchdog_escalation_threshold age
      then escalate c.strategy_id "silence_10m" now s
      else if reconciled && unprotected_exposure c now s
      then escalate c.strategy_id "unprotected_exposure" now s
      else rung_one_silence c.strategy_id now reconciled s

  abbrev pub unless_killed : Option Bool → Candidate → ℤ → ℤ → Bool → Store → Store
  unless_killed (some false) c age now reconciled s = ladder c age now reconciled s
  unless_killed active c age now reconciled s = s

  -- `watchOne`.
  unfoldable pub watch_one : Candidate → ℤ → Bool → Monitor × Store → Monitor × Store
  watch_one c now reconciled (m, s) =
      let (m', seen) = observe c.strategy_id now m in
      let s' = backfill_escalation_alert c.strategy_id now s in
      (
        m',
        unless_killed (active_kill c.strategy_id s') c (silence_age c.strategy_id seen now m') now
            reconciled s',
      )

  -- `watchdogPass`.
  unfoldable pub watch_each :
      List String → List Candidate → ℤ → Bool → Monitor × Store → Monitor × Store
  watch_each watched [] now reconciled w = w
  watch_each watched (c ∷ cs) now reconciled w =
      watch_each watched cs now reconciled
        (if contains watched c.strategy_id then watch_one c now reconciled w else w)

  unfoldable pub watchdog_pass : List Candidate → ℤ → Bool → Monitor × Store → Monitor × Store
  watchdog_pass cs now reconciled (m, s) =
      if m.watchdog_off
      then (m, s)
      else watch_each (watch_set cs) cs now reconciled (prune_watch_set (watch_set cs) m, s)
