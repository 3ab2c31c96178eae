-- ===== src/Safety/Ladder.antt =====
-- What the watchdog does for a strategy, by how long it has been silent.
use alpha_mint_x.Base.{
  String, ◌≡◌, refl, Bool, true, false, inl, inr, Option, none, some, List, [], ◌∷◌, ◌=ₛ◌, ◌≢◌,
  eq_iff, if◌then◌else◌, arith, Option-cases, ◌*◌,
}
use alpha_mint_x.Base.Int.{ℤ, pos, ltb_ℤ, leb_ℤ, ◌≤ℤ◌, ◌-ℤ◌, -ℤ_parts}
use alpha_mint_x.Numbers.{Numbers}
use alpha_mint_x.Gate.{contains, second}
use alpha_mint_x.Safety.Types.{
  Alert, AlertKind, Candidate, Ports, Monitor, time_of, set_time, beat, later,
  watchdog_silence_threshold,
}
use alpha_mint_x.Safety.Breaker.{alert_of}
use alpha_mint_x.Safety.Watchdog.{
  observe, silence_age, keep_watched, prune_watch_set, backfill_escalation_alert, watch_one, ladder,
  escalate,
}

time_of-set_time :
    (k j : String) (t : ℤ) (m : List (String × ℤ))
    → time_of j (set_time k t m) ≡ (if k =ₛ j then some t else time_of j m)
unfolding time_of set_time
time_of-set_time k j t [] = refl
time_of-set_time k j t ((i, d) ∷ m) =
    ground (arith, eq_iff k j, eq_iff i k, eq_iff i j, time_of-set_time k j t m)

-- A receipt never moves the last beat back: afterwards it is the later of the two, and no other
-- strategy's beat has changed.
beat_latest :
    (k j : String) (at : ℤ) (m : Monitor)
    → time_of j (beat k at m).last_seen
      ≡ (if k =ₛ j then some (later (time_of k m.last_seen) at) else time_of j m.last_seen)
unfolding beat
beat_latest k j at m = time_of-set_time k j (later (time_of k m.last_seen) at) m.last_seen

time_of-keep_watched :
    (watched : List String) (k : String) (m : List (String × ℤ))
    → contains watched k ≡ false
    → time_of k (keep_watched watched m) ≡ none
unfolding time_of keep_watched
time_of-keep_watched watched k [] h = refl
time_of-keep_watched watched k ((i, d) ∷ m) h =
    ground (arith, eq_iff i k, time_of-keep_watched watched k m h)

-- The receipts of a span of time.
abbrev pub beats : List (String × ℤ) → Monitor → Monitor
beats [] m = m
beats ((k, at) ∷ bs) m = beats bs (beat k at m)

first_watched-beats :
    (bs : List (String × ℤ)) (m : Monitor) → (beats bs m).first_watched ≡ m.first_watched
unfolding beat
first_watched-beats [] m = refl
first_watched-beats ((k, at) ∷ bs) m = first_watched-beats bs (beat k at m)

started_at-beats : (bs : List (String × ℤ)) (m : Monitor) → (beats bs m).started_at ≡ m.started_at
unfolding beat
started_at-beats [] m = refl
started_at-beats ((k, at) ∷ bs) m = started_at-beats bs (beat k at m)

new_age :
    (sid : String) (now : ℤ) (m : Monitor)
    → time_of sid m.first_watched ≡ none
    → m.started_at ≤ℤ now
    → let (m', seen) = observe sid now m in
      leb_ℤ (silence_age sid seen now m') watchdog_silence_threshold ≡ true
unfolding observe silence_age
new_age sid now m h s =
    ground (arith, time_of-set_time sid sid now m.first_watched, eq_iff sid sid, -ℤ_parts now now)

-- No beat within the last ten minutes.
abbrev pub SilentFor : ℤ → Option ℤ → Type 0
SilentFor now none = Unit
SilentFor now (some seen) = ltb_ℤ (pos (600 * second)) (now -ℤ seen) ≡ true

module _ (n : Numbers) (p : Ports n) where
  open p use {
    Store, append_alert, has_alert_today, active_kill, append_strategy_kill, start_drive,
    cancel_open_entries, utc_date, fresh_id,
  }

  -- A standing kill, or one that cannot be read, stops the ladder: whatever the silence, the only
  -- effect is the repair of a lost alert.
  standing_kill_skips :
      (c : Candidate) (now : ℤ) (verified : Bool) (m : Monitor) (s : Store)
      → let s' = backfill_escalation_alert n p c.strategy_id now s in
        active_kill c.strategy_id s' ≢ some false → (watch_one n p c now verified (m, s)).1 ≡ s'
  unfolding watch_one
  standing_kill_skips c now verified m s h = ground arith

  -- A strategy that was not in the watch set of a pass starts with a fresh window when it is watched
  -- again, whatever was received before or in between: nothing is done about it but the repair of a
  -- lost alert.
  pub return_is_fresh :
      (c : Candidate) (now : ℤ) (verified : Bool) (watched : List String) (bs : List (String × ℤ))
      (m : Monitor) (s : Store)
      → contains watched c.strategy_id ≡ false
      → m.started_at ≤ℤ now
      → (watch_one n p c now verified (beats bs (prune_watch_set watched m), s)).1
        ≡ backfill_escalation_alert n p c.strategy_id now s
  unfolding watch_one prune_watch_set ladder
  return_is_fresh c now verified watched bs m s h st = ground (
    arith,
    new_age c.strategy_id now (beats bs (prune_watch_set watched m)),
    first_watched-beats bs (prune_watch_set watched m),
    started_at-beats bs (prune_watch_set watched m),
    time_of-keep_watched watched c.strategy_id m.first_watched h,
  )

  -- A watched strategy with a beat at most 90 seconds old is left alone, whatever its positions are.
  beat_quiets :
      (c : Candidate) (now first seen : ℤ) (verified : Bool) (m : Monitor) (s : Store)
      → time_of c.strategy_id m.first_watched ≡ some first
      → time_of c.strategy_id m.last_seen ≡ some seen
      → (now -ℤ seen) ≤ℤ pos (90 * second)
      → (watch_one n p c now verified (m, s)).1 ≡ backfill_escalation_alert n p c.strategy_id now s
  unfolding watch_one observe silence_age ladder
  beat_quiets c now first seen verified m s f l h =
      ground (arith, -ℤ_parts now seen, -ℤ_parts now first, -ℤ_parts now m.started_at)

  -- What the store is relied on for: after an append of a kill it reads a standing kill, which
  -- neither an alert nor the start of a drive clears.
  pub record KillLaws : Type 0 where
    pub kill_kept :
        (id sid : String) (now : ℤ) (s s' : Store)
        → append_strategy_kill id sid now s ≡ some s'
        → active_kill sid s' ≡ some true
    pub alert_keeps :
        (a : Alert) (sid : String) (s s' : Store)
        → append_alert a s ≡ some s'
        → active_kill sid s' ≡ active_kill sid s
    pub drive_keeps :
        (sid : String) (s : Store) → active_kill sid (start_drive s) ≡ active_kill sid s

  pub escalate_kills :
      (l : KillLaws) (sid cause : String) (now : ℤ) (s s' : Store)
      → append_strategy_kill (fresh_id s) sid now s ≡ some s'
      → active_kill sid (escalate n p sid cause now s) ≡ some true
  unfolding escalate
  escalate_kills l sid cause now s s' h =
      elim (Option-cases (
        append_alert (alert_of n p AlertKind.watchdog_kill_escalation sid (fresh_id s) cause now)
          s')) [
            | inl e ↦ ground (arith, l.kill_kept (fresh_id s) sid now s s' h, l.drive_keeps sid s')
            | inr (t, e) ↦ ground (
              arith,
              l.kill_kept (fresh_id s) sid now s s' h,
              l.drive_keeps sid t,
              l.alert_keeps
                  (alert_of n p AlertKind.watchdog_kill_escalation sid (fresh_id s) cause now) sid
                  s' t e,
            )
          ]

  -- A watched strategy without a kill from which nothing has been heard for more than ten minutes,
  -- since it was watched and since the monitor started, is killed in that pass, before the startup
  -- reconcile or after it, if the kill can be stored.
  pub silence_kills :
      (l : KillLaws) (c : Candidate) (now first : ℤ) (verified : Bool) (m : Monitor) (s t : Store)
      → let s' = backfill_escalation_alert n p c.strategy_id now s in
        time_of c.strategy_id m.first_watched ≡ some first
        → ltb_ℤ (pos (600 * second)) (now -ℤ first) ≡ true
        → ltb_ℤ (pos (600 * second)) (now -ℤ m.started_at) ≡ true
        → SilentFor now (time_of c.strategy_id m.last_seen)
        → active_kill c.strategy_id s' ≡ some false
        → append_strategy_kill (fresh_id s') c.strategy_id now s' ≡ some t
        → active_kill c.strategy_id (watch_one n p c now verified (m, s)).1 ≡ some true
  unfolding watch_one observe silence_age ladder
  silence_kills l c now first verified m s t f h1 h2 h3 k a =
      let s' = backfill_escalation_alert n p c.strategy_id now s in
      ground (arith, escalate_kills l c.strategy_id "silence_10m" now s' t a)
