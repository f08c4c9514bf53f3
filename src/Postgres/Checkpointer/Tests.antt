-- ===== src/Postgres/Checkpointer/Tests.antt =====
-- The repository's tests of the classifier, and the theorems at concrete inputs.
use pgsleuth.Base.{ℕ, ◌-◌, ◌<◌, ◌≡◌, refl, ◌↔◌, none, some, ℤ, pos, negsuc, ok, err}
use pgsleuth.Float.Example.{halves}
use pgsleuth.Postgres.Checkpointer.{
  CheckpointerSnapshot, write_phase_dominant, sync_phase_dominant, forced, fpw_flood, elapsed,
  classify, Row, poll,
}
use pgsleuth.Postgres.Activity.Poll.{clamp}
use pgsleuth.Postgres.Checkpointer.Classify.{classify-forced_iff}

-- The times are in halves of a millisecond.
abbrev snap : ℕ → ℕ → ℕ → ℕ → ℕ → CheckpointerSnapshot ℕ
snap timed req write sync fpi = record {
  num_timed = timed;
  num_requested = req;
  write_time_ms = write;
  sync_time_ms = sync;
  buffers_written = 0;
  wal_fpi = fpi;
}

no_checkpoints : classify halves (snap 10 0 200 100 1000) (snap 10 0 200 100 1000) ≡ none
unfolding classify
no_checkpoints = refl

forced_first : classify halves (snap 10 0 200 100 0) (snap 11 5 1000 100 0) ≡ some forced
unfolding classify
forced_first = refl

write_phase :
    classify halves (snap 10 0 200 100 0) (snap 11 0 400 100 0) ≡ some write_phase_dominant
unfolding classify elapsed
write_phase = refl

sync_phase : classify halves (snap 10 0 100 200 0) (snap 11 0 120 500 0) ≡ some sync_phase_dominant
unfolding classify elapsed
sync_phase = refl

flood : classify halves (snap 10 0 200 200 0) (snap 11 0 220 220 2000) ≡ some fpw_flood
unfolding classify elapsed
flood = refl

balanced : classify halves (snap 10 0 200 200 0) (snap 11 0 220 220 50) ≡ none
unfolding classify elapsed
balanced = refl

abbrev row : ℤ → Row ℕ
row timed = record {
  num_timed = timed;
  num_requested = pos 2;
  write_time_ms = 6;
  sync_time_ms = 4;
  buffers_written = pos 9;
  wal_fpi = pos 1;
}

negative_counter_clamped :
    poll (some (row (negsuc 4))) ≡ ok (record (snap 0 2 6 4 1) { buffers_written = 9 })
unfolding poll clamp
negative_counter_clamped = refl

query_failed : poll {F = ℕ} none ≡ err "pg_stat_checkpointer query failed"
unfolding poll
query_failed = refl

classify-forced_iff_example :
    (classify halves (snap 10 0 0 0 0) (snap 11 5 9 9 0) ≡ some forced) ↔ (11 - 10 < 5 - 0)
classify-forced_iff_example = classify-forced_iff halves (snap 10 0 0 0 0) (snap 11 5 9 9 0)
