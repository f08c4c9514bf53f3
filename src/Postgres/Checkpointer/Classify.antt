-- ===== src/Postgres/Checkpointer/Classify.antt =====
-- What the classifier's verdict says of the interval.
use pgsleuth.Base.{
  ◌+◌, ◌-◌, ◌*◌, ◌≤◌, ◌<◌, min, max, ◌≡◌, ◌↔◌, inl, inr, true, false, Option, none, some, arith,
  Bool-cases, u64_max,
}
use native.Mathlib.Nat.{le-div_iff_mul-le}
use pgsleuth.Float.{Float}
use pgsleuth.Postgres.Checkpointer.{
  CheckpointerSnapshot, CheckpointBucket, write_phase_dominant, sync_phase_dominant, forced,
  fpw_flood, elapsed, classify,
}

-- The snapshot with its two phases exchanged.
abbrev pub mirror : {F : Type 0} → CheckpointerSnapshot F → CheckpointerSnapshot F
mirror s = record s { write_time_ms = s.sync_time_ms; sync_time_ms = s.write_time_ms }

abbrev pub mirror_bucket : Option CheckpointBucket → Option CheckpointBucket
mirror_bucket none = none
mirror_bucket (some write_phase_dominant) = some sync_phase_dominant
mirror_bucket (some sync_phase_dominant) = some write_phase_dominant
mirror_bucket (some b) = some b

module _ {F : Type 0} (f : Float F) where
  open f use {gt, mul, sub, one_and_half}

  -- At most one phase dominates.
  dominant_asymm :
      (a b c d : F)
      → gt (elapsed f a b) (mul (elapsed f c d) one_and_half) ≡ true
      → gt (elapsed f c d) (mul (elapsed f a b) one_and_half) ≡ false
  unfolding elapsed
  dominant_asymm a b c d h = elim (Bool-cases (gt v (mul u one_and_half))) [
    | inl k ↦
        cc (f.gt-scaled v u (f.max_zero _) k, f.gt_asymm u v (f.gt-scaled u v (f.max_zero _) h))
    | inr k ↦ k
  ]
    where
      u : F
      u = elapsed f a b

      v : F
      v = elapsed f c d

  -- Neither phase is preferred: exchanging write and sync times in both snapshots exchanges the two phase verdicts and changes no other.
  pub classify-mirror :
      (prev cur : CheckpointerSnapshot F)
      → classify f (mirror prev) (mirror cur) ≡ mirror_bucket (classify f prev cur)
  unfolding classify
  classify-mirror prev cur = ground (
    arith,
    dominant_asymm cur.write_time_ms prev.write_time_ms cur.sync_time_ms prev.sync_time_ms,
    dominant_asymm cur.sync_time_ms prev.sync_time_ms cur.write_time_ms prev.write_time_ms,
  )

  -- The verdict is `forced` exactly when more checkpoints were requested than timed since the last snapshot, whatever the phases and the full-page images.
  pub classify-forced_iff :
      (prev cur : CheckpointerSnapshot F)
      → (classify f prev cur ≡ some forced)
        ↔ (cur.num_timed - prev.num_timed < cur.num_requested - prev.num_requested)
  unfolding classify
  classify-forced_iff prev cur = ground arith

  -- After a reset, where neither checkpoint counter is above its last value, there is no verdict.
  pub classify_reset :
      (prev cur : CheckpointerSnapshot F)
      → cur.num_timed ≤ prev.num_timed
      → cur.num_requested ≤ prev.num_requested
      → classify f prev cur ≡ none
  unfolding classify
  classify_reset prev cur h k = ground arith

  -- A verdict of `fpw_flood` means at least 1000 full-page images for each checkpoint of the interval, of which there is one, and no more requested than timed ones. (Counters are u64s.)
  pub classify_flood :
      (prev cur : CheckpointerSnapshot F)
      → cur.wal_fpi ≤ u64_max
      → classify f prev cur ≡ some fpw_flood
      → let timed = cur.num_timed - prev.num_timed in
        let requested = cur.num_requested - prev.num_requested in
        (0 < timed)
        × (requested ≤ timed)
        × (1000 * (timed + requested) ≤ cur.wal_fpi - prev.wal_fpi)
  unfolding classify
  classify_flood prev cur h e =
      let timed = cur.num_timed - prev.num_timed in
      let requested = cur.num_requested - prev.num_requested in
      ground (
        arith,
        le-div_iff_mul-le {k = max (min (timed + requested) u64_max) 1} {x = 1000}
            {y = cur.wal_fpi - prev.wal_fpi} (omega arith),
      )
