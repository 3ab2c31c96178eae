-- ===== src/Safety/Rungs.antt =====
-- The two rungs below the ten minutes: the alert before the cancel of the entries, and the kill of
-- a silent strategy with an unprotected position.
use alpha_mint_x.Base.{
  String, ◌≡◌, Bool, true, false, ◌⊎◌, inl, inr, ◌↔◌, Option, none, some, List, [], ◌∷◌,
  if◌then◌else◌, arith, Any, Option-cases, ◌*◌,
}
use alpha_mint_x.Base.Int.{ℤ, pos, ltb_ℤ, ◌-ℤ◌}
use alpha_mint_x.Numbers.{Numbers}
use alpha_mint_x.Gate.{second}
use alpha_mint_x.Safety.Types.{
  Alert, AlertKind, PositionRow, LiveOrder, Candidate, Ports, Monitor, time_of,
}
use alpha_mint_x.Safety.Breaker.{alert_of}
use alpha_mint_x.Safety.Watchdog.{
  observe, silence_age, backfill_escalation_alert, watch_one, ladder, rung_one_silence,
  unprotected_exposure, any_unprotected, is_protectable, has_protective,
}
use alpha_mint_x.Safety.Ladder.{KillLaws, escalate_kills}

module _ (n : Numbers) (p : Ports n) where
  open p use {
    Store, list_live_orders, append_alert, has_alert_today, active_kill, append_strategy_kill,
    cancel_open_entries, utc_date, fresh_id,
  }

  -- What the store is relied on for: an appended alert is read on its UTC day.
  pub record AlertLaws : Type 0 where
    pub alert_kept :
        (a : Alert) (s s' : Store)
        → append_alert a s ≡ some s'
        → has_alert_today a.kind a.strategy_id a.ref_id (utc_date a.recorded_at) s' ≡ some true

  -- Where the alert of the day is stored, and the entries are canceled if that is allowed.
  abbrev pub Swept : String → ℤ → Bool → Store → Store → Type 0
  Swept sid now verified t s' =
      (has_alert_today AlertKind.watchdog_silence sid "silence" (utc_date now) t ≡ some true)
      × (s' ≡ (if verified then cancel_open_entries sid t else t))

  -- The first rung is alert before effect: either nothing at all is done, or the alert of the day is stored first, and then the entries are
  -- canceled, once the startup reconcile is complete.
  rung_one_alerts_first :
      (l : AlertLaws) (sid : String) (now : ℤ) (verified : Bool) (s : Store)
      → (rung_one_silence n p sid now verified s ≡ s)
        ⊎ ((t : Store) × Swept sid now verified t (rung_one_silence n p sid now verified s))
  unfolding rung_one_silence
  rung_one_alerts_first l sid now verified s =
      elim (Option-cases
        (has_alert_today AlertKind.watchdog_silence sid "silence" (utc_date now) s)) [
          | inl e ↦ inl (ground arith)
          | inr (true, e) ↦ inr (s, (e, ground arith))
          | inr (false, e) ↦
              elim (Option-cases (
                append_alert (alert_of n p AlertKind.watchdog_silence sid "silence" "silence" now)
                  s)) [
                    | inl a ↦ inl (ground arith)
                    | inr (t, a) ↦ inr (
                      t,
                      (
                        l.alert_kept
                            (alert_of n p AlertKind.watchdog_silence sid "silence" "silence" now) s
                            t a,
                        ground arith,
                      ),
                    )
                  ]
        ]

  -- A position that a protective order could cover, and that none does.
  abbrev pub IsExposed : List LiveOrder → String → ℤ → Store → PositionRow → Type 0
  IsExposed live sid now s r =
      (is_protectable n p r now s ≡ true) × (has_protective live sid r.symbol ≡ false)

  any_unprotected_iff :
      (live : List LiveOrder) (sid : String) (rs : List PositionRow) (now : ℤ) (s : Store)
      → (any_unprotected n p live sid rs now s ≡ true) ↔ Any (IsExposed live sid now s) rs
  unfolding any_unprotected
  any_unprotected_iff live sid [] now s = ground arith
  any_unprotected_iff live sid (r ∷ rs) now s =
      ground (arith, any_unprotected_iff live sid rs now s)

  -- No beat within the last 90 seconds, or none at all.
  abbrev pub QuietFor : ℤ → Option ℤ → Type 0
  QuietFor now none = Unit
  QuietFor now (some seen) = ltb_ℤ (pos (90 * second)) (now -ℤ seen) ≡ true

  -- A strategy that has been watched for more than 90 seconds by a monitor that started before that,
  -- that has no kill and from which no beat at all or none within the last 90 seconds has come, and of
  -- whose open positions one could be covered by a protective order and is by none, is killed in that
  -- pass, once the startup reconcile is complete, if the kill can be stored.
  pub exposure_kills :
      (l : KillLaws n p) (c : Candidate) (now first : ℤ) (live : List LiveOrder) (m : Monitor)
      (s t : Store)
      → let s' = backfill_escalation_alert n p c.strategy_id now s in
        time_of c.strategy_id m.first_watched ≡ some first
        → ltb_ℤ (pos (90 * second)) (now -ℤ first) ≡ true
        → ltb_ℤ (pos (90 * second)) (now -ℤ m.started_at) ≡ true
        → QuietFor now (time_of c.strategy_id m.last_seen)
        → active_kill c.strategy_id s' ≡ some false
        → list_live_orders s' ≡ some live
        → Any (IsExposed live c.strategy_id now s') c.open_positions
        → append_strategy_kill (fresh_id s') c.strategy_id now s' ≡ some t
        → active_kill c.strategy_id (watch_one n p c now true (m, s)).1 ≡ some true
  unfolding watch_one observe silence_age ladder unprotected_exposure
  exposure_kills l c now first live m s t f h1 h2 h3 k o e a =
      let s' = backfill_escalation_alert n p c.strategy_id now s in
      ground (
        arith,
        escalate_kills n p l c.strategy_id "silence_10m" now s' t a,
        escalate_kills n p l c.strategy_id "unprotected_exposure" now s' t a,
        (any_unprotected_iff live c.strategy_id c.open_positions now s').1 e,
      )
