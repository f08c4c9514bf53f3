-- ===== src/Cli/Main.antt =====
-- crates/pgsleuth-cli/src/main.rs: the commands, each of which sets its emitter up and runs its
-- poller.
pub mod Degraded
mod Tests
use pgsleuth.Base.{
  ℕ, ◌*◌, String, ◌<>◌, false, not, Option, none, some, List, [], ◌∷◌, ◌++◌, if◌then◌else◌, u64_max,
  saturating_mul, is_empty, Result, ◌>>=◌, context, ok, err,
}
use mathlib.Core.Bool.{Bool}
use pgsleuth.External.{External}
use pgsleuth.Agent.{Effect, warn_error}
use pgsleuth.Postgres.Activity.Poll.{Client}
use pgsleuth.Cli.TempSpill.{TempSpillConfig, FileSystem}
use pgsleuth.Cli.TempSpill.Report
use pgsleuth.Cli.ConnectionStorm
use pgsleuth.Cli.CgroupThrottle
use pgsleuth.Cli.CheckpointStorm
use pgsleuth.Cli.CollectStatements
use pgsleuth.Otel.Metrics.{PgStmtDelta}
use pgsleuth.Float.{Float}
use pgsleuth.Postgres.Checkpointer
use pgsleuth.Postgres.Statements

pub record CgroupThrottleArgs : Type 0 where
  pub cpu_stat : String
  pub interval_ms : ℕ
  pub throttled_ms_per_sec_threshold : ℕ
  pub fire_after : ℕ
  pub otlp_endpoint : String
  pub pg_instance : String

pub record ConnectionStormArgs : Type 0 where
  pub pg_conn : String
  pub interval_ms : ℕ
  pub backend_threshold : ℕ
  pub long_xact_threshold_seconds : ℕ
  pub fire_after : ℕ
  pub otlp_endpoint : String
  pub pg_instance : String

pub record CheckpointStormArgs : Type 0 where
  pub pg_conn : String
  pub interval_ms : ℕ
  pub fire_after : ℕ
  pub otlp_endpoint : String
  pub pg_instance : String

pub record PgStatStatementsArgs : Type 0 where
  pub pg_conn : String
  pub interval_ms : ℕ
  pub otlp_endpoint : String

pub record TempSpillArgs : Type 0 where
  pub pgdata : Option String
  pub pg_conn : Option String
  pub footprint_threshold_mb : ℕ
  pub free_threshold_pct : ℕ
  pub interval_ms : ℕ
  pub otlp_endpoint : String
  pub pg_instance : String

-- The text of a row that a query returns behind a connection.
unfoldable pub data_directory : String → Bool → Option String → Result String
data_directory conn connects row =
    if connects
    then context row "SHOW data_directory failed"
    else err ("Failed to connect to Postgres at " <> conn)

unfoldable pub resolve_pgdata : TempSpillArgs → Bool → Option String → Result String
unfolding data_directory
resolve_pgdata args connects row = elim args.pgdata [
  | some p ↦ ok p
  | none ↦
      context args.pg_conn
        "either --pgdata or --pg-conn is required so the poller knows where to walk"
      >>= (λ conn. data_directory conn connects row)
]

unfoldable pub temp_spill_config : TempSpillArgs → String → TempSpillConfig
temp_spill_config args pgdata = record {
  pgdata = pgdata;
  footprint_threshold_bytes = saturating_mul u64_max args.footprint_threshold_mb (1024 * 1024);
  free_threshold_pct = args.free_threshold_pct;
  interval = args.interval_ms;
  pg_instance_id = args.pg_instance;
}

-- Whether there is an emitter: the endpoint is not empty, and the pipeline's set-up gave no error.
unfoldable pub has_emitter : String → Option String → Bool
has_emitter otlp_endpoint none = not (is_empty otlp_endpoint)
has_emitter otlp_endpoint (some e) = false

module _ (x : External) where
  open x use {DateTime}

  -- What the set-up logs at the level of a warning.
  unfoldable pub set_up : String → Option String → List (Effect x)
  set_up otlp_endpoint none = []
  set_up otlp_endpoint (some e) =
      if is_empty otlp_endpoint
      then []
      else warn_error e "OTel Emitter init failed; continuing without it" ∷ []

  -- A command that ends in an error of its poller has done its set-up all the same: the lines of the
  -- set-up, and the poller, in its loop or with its error.
  abbrev pub Started {ℓ} : Type ℓ → Type ℓ
  Started A = List (Effect x) × Result A

  -- Behind the resolution of its directory the command is in the loop of its poller, which has no error
  -- to return: `ok` has what it has done up to the last of the rounds.
  unfoldable pub run_temp_spill :
      TempSpillArgs
      → Bool
      → Option String
      → Option String
      → List (DateTime × FileSystem)
      → Result (List (Effect x))
  unfolding set_up has_emitter
  run_temp_spill args connects row init rounds = resolve_pgdata args connects row >>= (λ pgdata.
      ok (
        set_up args.otlp_endpoint init
        ++ Report.run x (has_emitter args.otlp_endpoint init) (temp_spill_config args pgdata)
            rounds))

  unfoldable pub run_connection_storm :
      ConnectionStormArgs
      → Option String
      → Bool
      → List (DateTime × Client)
      → Started (List (Effect x))
  unfolding set_up has_emitter
  run_connection_storm args init connects rounds = (
    set_up args.otlp_endpoint init,
    ConnectionStorm.run x (has_emitter args.otlp_endpoint init) args.pg_conn
        (record {
          interval_ms = args.interval_ms;
          backend_threshold = args.backend_threshold;
          long_xact_threshold_seconds = args.long_xact_threshold_seconds;
          fire_after = args.fire_after;
          pg_instance_id = args.pg_instance;
        })
        connects rounds,
  )

  unfoldable pub run_cgroup_throttle :
      CgroupThrottleArgs
      → Option String
      → List (DateTime × Option String)
      → Started (List (Effect x))
  unfolding set_up has_emitter
  run_cgroup_throttle args init rounds = (
    set_up args.otlp_endpoint init,
    ok (
        CgroupThrottle.run x (has_emitter args.otlp_endpoint init)
          (record {
            cpu_stat_path = args.cpu_stat;
            interval_ms = args.interval_ms;
            throttled_ms_per_sec_threshold = args.throttled_ms_per_sec_threshold;
            fire_after = args.fire_after;
            pg_instance_id = args.pg_instance;
          })
          rounds),
  )

  module _ (f : Float x.F64) where
    unfoldable pub run_checkpoint_storm :
        CheckpointStormArgs
        → Option String
        → Bool
        → Result ℕ
        → List (DateTime × Option (Checkpointer.Row x.F64))
        → Started (List (Effect x))
    unfolding set_up has_emitter
    run_checkpoint_storm args init connects version rounds = (
      set_up args.otlp_endpoint init,
      CheckpointStorm.run x f (has_emitter args.otlp_endpoint init) args.pg_conn
          (record {
            interval_ms = args.interval_ms;
            fire_after = args.fire_after;
            pg_instance_id = args.pg_instance;
          })
          connects version rounds,
    )

    -- What the set-up of the metrics pipeline logs at the level of a warning.
    unfoldable pub set_up_metrics : String → Option String → List (Effect x)
    set_up_metrics otlp_endpoint none = []
    set_up_metrics otlp_endpoint (some e) =
        if is_empty otlp_endpoint
        then []
        else warn_error e "MetricsEmitter init failed; continuing without it" ∷ []

    -- The deltas that reach the metrics pipeline.
    unfoldable pub run_pg_stat_statements :
        PgStatStatementsArgs
        → Option String
        → Bool
        → Result ℕ
        → Bool
        → List (Option (List (Statements.Row x.F64)))
        → Started (List PgStmtDelta)
    unfolding set_up_metrics has_emitter
    run_pg_stat_statements args init connects version has_row rounds = (
      set_up_metrics args.otlp_endpoint init,
      CollectStatements.run f (has_emitter args.otlp_endpoint init) args.pg_conn connects version
          has_row rounds,
    )
