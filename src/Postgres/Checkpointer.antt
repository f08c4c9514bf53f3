-- ===== src/Postgres/Checkpointer.antt =====
-- crates/pgsleuth-postgres/src/stat_checkpointer.rs: the snapshot of the checkpointer's counters, and
-- its classifier.
pub mod Classify
mod Tests
use pgsleuth.Base.{
  ℕ, ◌/◌, max, String, Option, none, some, List, [], ◌∷◌, ltb, leb, ◌==◌, if◌then◌else◌, u64_max,
  saturating_add, saturating_sub, ℤ, Result, ◌>>=◌, context, ok,
}
use pgsleuth.Float.{Float}
use pgsleuth.Postgres.Activity.Poll.{clamp}

abbrev pub min_pg_version : ℕ
min_pg_version = 17

pub record CheckpointerSnapshot (F : Type 0) : Type 0 where
  pub num_timed : ℕ
  pub num_requested : ℕ
  pub write_time_ms : F
  pub sync_time_ms : F
  pub buffers_written : ℕ
  pub wal_fpi : ℕ

pub data CheckpointBucket : Type 0 where
  write_phase_dominant sync_phase_dominant forced fpw_flood : CheckpointBucket

unfoldable pub recommendation_text : CheckpointBucket → String
recommendation_text write_phase_dominant =
    "Write phase dominates — too many dirty pages. Raise checkpoint_completion_target or lower max_wal_size."
recommendation_text sync_phase_dominant =
    "Sync phase dominates — storage is the bottleneck. Overlaps with the fsync-jitter alarm; investigate the WAL device."
recommendation_text forced = "WAL is filling faster than checkpoint_timeout — raise max_wal_size."
recommendation_text fpw_flood =
    "FPI traffic is high right after the checkpoint — checkpoints are too frequent. Extend checkpoint_timeout."

unfoldable pub knobs : CheckpointBucket → List String
knobs write_phase_dominant = "checkpoint_completion_target" ∷ "max_wal_size" ∷ []
knobs sync_phase_dominant = "wal_sync_method" ∷ "synchronous_commit" ∷ []
knobs forced = "max_wal_size" ∷ []
knobs fpw_flood = "checkpoint_timeout" ∷ "full_page_writes" ∷ []

unfoldable pub slug : CheckpointBucket → String
slug write_phase_dominant = "write_phase"
slug sync_phase_dominant = "sync_phase"
slug forced = "forced"
slug fpw_flood = "fpw_flood"

-- The row of the query, and `poll`.
pub record Row (F : Type 0) : Type 0 where
  pub num_timed : ℤ
  pub num_requested : ℤ
  pub write_time_ms : F
  pub sync_time_ms : F
  pub buffers_written : ℤ
  pub wal_fpi : ℤ

unfoldable pub poll : {F : Type 0} → Option (Row F) → Result (CheckpointerSnapshot F)
poll query = do
  row ← context query "pg_stat_checkpointer query failed"
  ok (record {
    num_timed = clamp row.num_timed;
    num_requested = clamp row.num_requested;
    write_time_ms = row.write_time_ms;
    sync_time_ms = row.sync_time_ms;
    buffers_written = clamp row.buffers_written;
    wal_fpi = clamp row.wal_fpi;
  })

module _ {F : Type 0} (f : Float F) where
  open f use {gt, mul, sub, one_and_half}

  -- `(cur - prev).max(0.0)`.
  unfoldable pub elapsed : F → F → F
  elapsed cur prev = f.max (sub cur prev) f.zero

  unfoldable pub classify :
      CheckpointerSnapshot F → CheckpointerSnapshot F → Option CheckpointBucket
  classify prev cur =
      let timed_d = saturating_sub cur.num_timed prev.num_timed in
      let req_d = saturating_sub cur.num_requested prev.num_requested in
      let checkpoints_in_interval = saturating_add u64_max timed_d req_d in
      let write_d = elapsed cur.write_time_ms prev.write_time_ms in
      let sync_d = elapsed cur.sync_time_ms prev.sync_time_ms in
      let fpi_d = saturating_sub cur.wal_fpi prev.wal_fpi in
      if checkpoints_in_interval == 0
      then none
      else if ltb timed_d req_d
      then some forced
      else if gt write_d (mul sync_d one_and_half)
      then some write_phase_dominant
      else if gt sync_d (mul write_d one_and_half)
      then some sync_phase_dominant
      else if leb 1000 (fpi_d / max checkpoints_in_interval 1)
      then some fpw_flood
      else none
