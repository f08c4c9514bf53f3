-- ===== src/Cli/CheckpointStorm/Alarms.antt =====
-- The alarms of the loop are the runs of one bucket.
use pgsleuth.Base.{
  ℕ, ◌≤◌, String, ◌≡◌, inl, inr, Bool, true, Option, none, some, List, [], ◌∷◌, if◌then◌else◌,
  le→ltb, count_if, present, u32_max, and_then, add_ok, Result-cases, ok-injective, ok,
}
use pgsleuth.External.{External}
use pgsleuth.Float.{Float}
use pgsleuth.Agent.{Fires, nil-Fires, fire-Fires, warn_error-Fires, append-Fires, Effect}
use pgsleuth.Core.Window.Episodes.{is_long}
use pgsleuth.Postgres.Checkpointer.{
  CheckpointerSnapshot, CheckpointBucket, Row, poll, classify, min_pg_version,
}
use pgsleuth.Cli.CheckpointStorm.{
  StreakState, just_fired, default_streak, observe, Settings, Loop, report, tick, run_from, start,
  run,
}
use pgsleuth.Cli.CheckpointStorm.Runs.{answers, episodes, is_just_fired}
use pgsleuth.Cli.CheckpointStorm.Episodes.{answers_storms}

-- The snapshots of the polls that succeed, with their times.
abbrev pub snapshots :
    {T : Type 0} {F : Type 0} → List (T × Option (Row F)) → List (T × CheckpointerSnapshot F)
snapshots [] = []
snapshots ((now, query) ∷ rounds) = add_ok now (poll query) (snapshots rounds)

-- The bucket of each snapshot against the one before it; the first has none.
abbrev pub buckets :
    {T : Type 0} {F : Type 0}
    → Float F
    → Option (CheckpointerSnapshot F)
    → List (T × CheckpointerSnapshot F)
    → List (Option CheckpointBucket)
buckets f prev [] = []
buckets f prev ((now, cur) ∷ later) =
    and_then prev (λ p. classify f p cur) ∷ buckets f (some cur) later

module _ (x : External) (f : Float x.F64) (emitter : Bool) (cfg : Settings) where
  open x use {DateTime, F64}

  report-Fires :
      (now : DateTime) (state : StreakState)
      → Fires emitter (if is_just_fired state then 1 else 0) (report x emitter cfg now state)
  unfolding report
  report-Fires now (just_fired b k) = fire-Fires emitter _
  report-Fires now _ = nil-Fires emitter

  run_from-Fires :
      (l : Loop x f) (rounds : List (DateTime × Option (Row F64)))
      → Fires emitter
          (count_if is_just_fired
            (answers l.streak cfg.fire_after (buckets f l.prev (snapshots rounds))))
          (run_from x f emitter cfg l rounds)
  unfolding run_from tick answers
  run_from-Fires l [] = nil-Fires emitter
  run_from-Fires l ((now, query) ∷ rounds) = elim (Result-cases (poll query)) [
    | inl (cur, e) ↦
        let (streak', state) =
          observe l.streak (and_then l.prev (λ p. classify f p cur)) cfg.fire_after in
        rw e (
          append-Fires emitter _ _ _ _ (report-Fires now state)
            (run_from-Fires (record { prev = some cur; streak = streak' }) rounds))
    | inr (msg, e) ↦ rw e (warn_error-Fires emitter _ _ (run_from-Fires l rounds))
  ]

  -- Of a poller that connects to a server at version 17 or above, with `fire_after` a u32, the alarms are as many as the maximal runs of one bucket among the classified intervals that are not empty and reach `fire_after`: each is logged once, and sent once if there is an emitter. An interval stands between two successful polls; failed polls and intervals with no bucket neither end nor extend a run.
  pub run_checkpoints-Fires :
      (pg_conn : String) (major : ℕ) (rounds : List (DateTime × Option (Row F64)))
      {es : List (Effect x)}
      → cfg.fire_after ≤ u32_max
      → min_pg_version ≤ major
      → run x f emitter pg_conn cfg true (ok major) rounds ≡ ok es
      → Fires emitter
          (count_if
            (is_long cfg.fire_after)
            (episodes none 0 (present (buckets f none (snapshots rounds)))))
          es
  unfolding run start
  run_checkpoints-Fires pg_conn major rounds h v e =
      let started = rw (le→ltb major min_pg_version v) at e in
      rw (← ok-injective started, ← answers_storms cfg.fire_after _ h)
        (run_from-Fires (record { prev = none; streak = default_streak }) rounds)
