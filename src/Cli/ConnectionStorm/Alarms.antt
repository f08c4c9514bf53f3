-- ===== src/Cli/ConnectionStorm/Alarms.antt =====
-- The alarms of the loop are the episodes of breaching polls.
use pgsleuth.Base.{
  ◌≤◌, String, ◌≡◌, inl, inr, Bool, true, List, [], ◌∷◌, if◌then◌else◌, count_if, u32_max, add_ok,
  Result-cases, ok-injective, ok,
}
use pgsleuth.Core.Window.Episodes.{is_long, answers_alarms}
use pgsleuth.Agent.{Fires, nil-Fires, fire-Fires, warn_error-Fires, append-Fires, Effect}
use pgsleuth.External.{External}
use pgsleuth.Core.Window.{
  ConsecutiveBreachCounter, BreachState, just_fired, observe, default_counter,
}
use pgsleuth.Core.Window.Runs.{answers, is_just_fired, episodes}
use pgsleuth.Postgres.Activity.{SessionSnapshot}
use pgsleuth.Postgres.Activity.Poll.{Client, poll}
use pgsleuth.Cli.ConnectionStorm.{Settings, is_breached, report, run_from, tick, run}

-- The snapshots of the polls that succeed, with their times.
abbrev pub snapshots : {T : Type 0} → Settings → List (T × Client) → List (T × SessionSnapshot)
snapshots cfg [] = []
snapshots cfg ((now, client) ∷ rounds) =
    add_ok now (poll client cfg.long_xact_threshold_seconds) (snapshots cfg rounds)

-- Which of them breach.
abbrev pub breach_sequence : {T : Type 0} → Settings → List (T × SessionSnapshot) → List Bool
breach_sequence cfg [] = []
breach_sequence cfg ((now, s) ∷ later) = is_breached cfg s ∷ breach_sequence cfg later

module _ (x : External) (emitter : Bool) (cfg : Settings) where
  open x use {DateTime}

  report-Fires :
      (now : DateTime) (s : SessionSnapshot) (state : BreachState)
      → Fires emitter (if is_just_fired state then 1 else 0) (report x emitter cfg now s state)
  unfolding report
  report-Fires now s (just_fired k) = fire-Fires emitter _
  report-Fires now s _ = nil-Fires emitter

  run_from-Fires :
      (counter : ConsecutiveBreachCounter) (rounds : List (DateTime × Client))
      → Fires emitter
          (count_if is_just_fired
            (answers counter cfg.fire_after (breach_sequence cfg (snapshots cfg rounds))))
          (run_from x emitter cfg counter rounds)
  unfolding run_from tick answers
  run_from-Fires counter [] = nil-Fires emitter
  run_from-Fires counter ((now, client) ∷ rounds) =
      elim (Result-cases (poll client cfg.long_xact_threshold_seconds)) [
        | inl (s, e) ↦
            let (counter', state) = observe counter (is_breached cfg s) cfg.fire_after in
            rw e (
              append-Fires emitter _ _ _ _ (report-Fires now s state)
                (run_from-Fires counter' rounds))
        | inr (msg, e) ↦ rw e (warn_error-Fires emitter _ _ (run_from-Fires counter rounds))
      ]

  -- Of a poller that connects, with `fire_after` a u32, the alarms are as many as the maximal runs of breaching polls that are not empty and reach `fire_after`: each is logged once, and sent once if there is an emitter. Polls that fail are left out, and neither end nor extend a run.
  pub run-Fires :
      (pg_conn : String) (rounds : List (DateTime × Client)) {es : List (Effect x)}
      → cfg.fire_after ≤ u32_max
      → run x emitter pg_conn cfg true rounds ≡ ok es
      → Fires emitter
          (count_if
            (is_long cfg.fire_after)
            (episodes 0 (breach_sequence cfg (snapshots cfg rounds))))
          es
  unfolding run
  run-Fires pg_conn rounds h e =
      rw (← ok-injective e, ← answers_alarms cfg.fire_after _ h)
        (run_from-Fires default_counter rounds)
