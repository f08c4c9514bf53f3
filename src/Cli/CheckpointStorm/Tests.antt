-- ===== src/Cli/CheckpointStorm/Tests.antt =====
-- The repository's tests of the streak, a run of the poller, and the theorems at concrete inputs.
use pgsleuth.Base.{
  to_string, ℕ, ◌≡◌, refl, true, false, Option, none, some, List, [], ◌∷◌, map, arith, count_if,
  present, ℤ, pos, ok, err,
}
use pgsleuth.External.Example.{example}
use pgsleuth.Float.Example.{halves}
use pgsleuth.Agent.{Fires}
use pgsleuth.Core.Window.Episodes.{is_long}
use pgsleuth.Postgres.Checkpointer.{CheckpointBucket, sync_phase_dominant, forced, Row}
use pgsleuth.Cli.CheckpointStorm.{
  building, just_fired, still_firing, no_classification, default_streak, observe, Settings,
  run_from, run, start,
}
use pgsleuth.Cli.CheckpointStorm.Runs.{answers, episodes, classified}
use pgsleuth.Cli.CheckpointStorm.Streak.{FollowsRun, after, after-FollowsRun}
use pgsleuth.Cli.CheckpointStorm.Episodes.{answers-present}
use pgsleuth.Cli.CheckpointStorm.Alarms.{snapshots, buckets, run_checkpoints-Fires}

-- The same bucket twice, an unclassified interval, the bucket again, and another.
abbrev intervals : List (Option CheckpointBucket)
intervals = some forced ∷ some forced ∷ none ∷ some forced ∷ some sync_phase_dominant ∷ []

fires_after_two :
    answers default_streak 2 intervals
    ≡ building forced 1
      ∷ just_fired forced 2
      ∷ no_classification
      ∷ still_firing forced 3
      ∷ building sync_phase_dominant 1
      ∷ []
unfolding answers observe
fires_after_two = refl

-- The unclassified interval does not end the run: the two intervals around it fire.
fires_across :
    answers default_streak 2 (some forced ∷ none ∷ some forced ∷ [])
    ≡ building forced 1 ∷ no_classification ∷ just_fired forced 2 ∷ []
unfolding answers observe
fires_across = refl

after-FollowsRun_example :
    FollowsRun 2
      (some forced)
      2
      (after 2 (some forced ∷ none ∷ some forced ∷ some sync_phase_dominant ∷ []))
after-FollowsRun_example =
    after-FollowsRun 2 (some forced ∷ none ∷ some forced ∷ some sync_phase_dominant ∷ [])

answers-present_example :
    classified (answers default_streak 2 intervals)
    ≡ classified (answers default_streak 2 (map some (present intervals)))
answers-present_example = answers-present 2 default_streak intervals

abbrev cfg : Settings
cfg = record { interval_ms = 60000; fire_after = 2; pg_instance_id = "fixture-pg" }

abbrev row : ℕ → Option (Row ℕ)
row requested = some (record {
  num_timed = pos 3;
  num_requested = pos requested;
  write_time_ms = 0;
  sync_time_ms = 0;
  buffers_written = pos 0;
  wal_fpi = pos 0;
})

-- Three requested checkpoints in three intervals, and a failed poll between.
abbrev rounds : List (ℤ × Option (Row ℕ))
rounds = (pos 1, row 1) ∷ (pos 2, row 2) ∷ (pos 3, none) ∷ (pos 4, row 3) ∷ (pos 5, row 4) ∷ []

run_checkpoints-Fires_example :
    Fires false
      (count_if (is_long 2) (episodes none 0 (present (buckets halves none (snapshots rounds)))))
      (run_from example halves false cfg (record { prev = none; streak = default_streak }) rounds)
unfolding run start
run_checkpoints-Fires_example =
    run_checkpoints-Fires example halves false cfg "host=localhost" 17 rounds (omega arith)
      (omega arith) refl

old_server :
    run example halves true "host=localhost" cfg true (ok 16) rounds
    ≡ err "PG 16 below collector minimum 17"
unfolding run start to_string
old_server = refl
