-- ===== src/Cli/CheckpointStorm.antt =====
-- crates/pgsleuth-cli/src/checkpoint_storm.rs: the recurrence of one checkpoint bucket.
pub mod Streak
pub mod Runs
pub mod Episodes
pub mod Alarms
mod Tests
use pgsleuth.Base.{
  to_string, ℕ, String, ◌<>◌, Bool, true, false, Option, none, some, List, [], ◌∷◌, ◌++◌, ltb,
  if◌then◌else◌, u32_max, saturating_add, and_then, Result, ◌>>=◌, ok, err,
}
use pgsleuth.External.{External}
use pgsleuth.Float.{Float}
use pgsleuth.BTreeMap
use pgsleuth.BTreeMap.{text_key}
use pgsleuth.Core.Finding.{Finding, standard, high, unknown, string, finding_schema_version}
use pgsleuth.Agent.{Effect, warn_error, fire}
use pgsleuth.Postgres.Checkpointer.{
  CheckpointerSnapshot, CheckpointBucket, write_phase_dominant, sync_phase_dominant, forced,
  fpw_flood, min_pg_version, recommendation_text, knobs, slug, Row, poll, classify,
}

pub record DominantStreak : Type 0 where
  pub current : Option CheckpointBucket
  pub streak : ℕ  -- u32
  pub fired_for : Option CheckpointBucket

pub data StreakState : Type 0 where
  building : CheckpointBucket → ℕ → StreakState
  just_fired : CheckpointBucket → ℕ → StreakState
  still_firing : CheckpointBucket → ℕ → StreakState
  no_classification : StreakState

-- `DominantStreak::default()`.
abbrev pub default_streak : DominantStreak
default_streak = record { current = none; streak = 0; fired_for = none }

abbrev pub bucket_eq : CheckpointBucket → CheckpointBucket → Bool
bucket_eq write_phase_dominant write_phase_dominant = true
bucket_eq sync_phase_dominant sync_phase_dominant = true
bucket_eq forced forced = true
bucket_eq fpw_flood fpw_flood = true
bucket_eq _ _ = false

-- `o == Some(b)`.
abbrev pub is_some_of : Option CheckpointBucket → CheckpointBucket → Bool
is_some_of none b = false
is_some_of (some c) b = bucket_eq c b

-- The first test of `observe`: the streak goes on, or starts anew.
advance : DominantStreak → CheckpointBucket → DominantStreak
advance s b =
    if is_some_of s.current b
    then record s { streak = saturating_add u32_max s.streak 1 }
    else record { current = some b; streak = 1; fired_for = none }

-- What `observe` answers behind it.
settle : DominantStreak → CheckpointBucket → ℕ → DominantStreak × StreakState
settle s b fire_after =
    if ltb s.streak fire_after
    then (s, building b s.streak)
    else if is_some_of s.fired_for b
    then (s, still_firing b s.streak)
    else (record s { fired_for = some b }, just_fired b s.streak)

unfoldable pub observe : DominantStreak → Option CheckpointBucket → ℕ → DominantStreak × StreakState
unfolding advance settle
observe s none fire_after = (s, no_classification)
observe s (some b) fire_after = settle (advance s b) b fire_after

pub record Settings : Type 0 where
  pub interval_ms : ℕ
  pub fire_after : ℕ
  pub pg_instance_id : String

module _ (x : External) where
  open x use {DateTime, object, text, number}

  unfoldable pub build_finding : DateTime → String → CheckpointBucket → ℕ → ℕ → Finding x
  build_finding now pg_instance bucket streak interval_ms = record {
    schema_version = finding_schema_version;
    rule_id = "storage.checkpoint.storm";
    rule_version = 1;
    tier = standard;
    severity = high;
    fired_at = now;
    pg_instance = record { id = pg_instance; db_name = none; role = unknown };
    summary =
        "Checkpoint storm — `"
        <> slug bucket
        <> "` bucket dominant for "
        <> to_string streak
        <> " consecutive "
        <> to_string interval_ms
        <> "ms intervals";
    evidence = object (
        ("bucket", text (slug bucket))
        ∷ ("streak_intervals", number streak)
        ∷ ("interval_ms", number interval_ms)
        ∷ []);
    remediation = record { text = recommendation_text bucket; knobs = knobs bucket };
    otel_attributes = BTreeMap.insert "pgsleuth.checkpoint.bucket" (string (slug bucket)) [];
  }

  -- `if let StreakState::JustFired { bucket: b, streak: s } = state`.
  unfoldable pub report : Bool → Settings → DateTime → StreakState → List (Effect x)
  report emitter cfg now (just_fired b s) =
      fire emitter (build_finding now cfg.pg_instance_id b s cfg.interval_ms)
  report emitter cfg now _ = []

  module _ (f : Float x.F64) where
    -- The variables of the loop.
    pub record Loop : Type 0 where
      pub prev : Option (CheckpointerSnapshot x.F64)
      pub streak : DominantStreak

    -- One round of the loop, on what the poll returned.
    unfoldable pub tick :
        Bool
        → Settings
        → Loop
        → DateTime
        → Result (CheckpointerSnapshot x.F64)
        → Loop × List (Effect x)
    tick emitter cfg l now (err e) =
        (l, warn_error e "checkpointer poll failed; skipping tick" ∷ [])
    tick emitter cfg l now (ok cur) =
        let bucket = and_then l.prev (λ p. classify f p cur) in
        let (streak', state) = observe l.streak bucket cfg.fire_after in
        (record { prev = some cur; streak = streak' }, report emitter cfg now state)

    unfoldable pub run_from :
        Bool → Settings → Loop → List (DateTime × Option (Row x.F64)) → List (Effect x)
    run_from emitter cfg l [] = []
    run_from emitter cfg l ((now, query) ∷ rounds) =
        let (l', es) = tick emitter cfg l now (poll query) in es ++ run_from emitter cfg l' rounds

    -- `run` behind the connection: the server's version is tested, then the loop starts.
    unfoldable pub start :
        Bool → Settings → List (DateTime × Option (Row x.F64)) → ℕ → Result (List (Effect x))
    start emitter cfg rounds major =
        if ltb major min_pg_version
        then err
            ("PG " <> to_string major <> " below collector minimum " <> to_string min_pg_version)
        else ok (run_from emitter cfg (record { prev = none; streak = default_streak }) rounds)

    unfoldable pub run :
        Bool
        → String
        → Settings
        → Bool
        → Result ℕ
        → List (DateTime × Option (Row x.F64))
        → Result (List (Effect x))
    run emitter pg_conn cfg connects version rounds =
        if connects
        then version >>= start emitter cfg rounds
        else err ("Failed to connect to Postgres at " <> pg_conn)
