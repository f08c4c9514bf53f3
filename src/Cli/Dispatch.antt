-- ===== src/Cli/Dispatch.antt =====
-- crates/pgsleuth-cli/src/main.rs: the command line's dispatch to its commands.
pub mod Alarms
pub mod Unreachable
mod Tests
use pgsleuth.Base.{
  ℕ, String, ◌<>◌, true, false, ◌&&◌, Option, none, some, List, [], lines, Result, ok, err,
}
use mathlib.Core.Bool.{Bool}
use pgsleuth.External.{External}
use pgsleuth.Float.{Float}
use pgsleuth.Agent.{Effect}
use pgsleuth.Otel.Mapping.{OpenTelemetry}
use pgsleuth.Otel.Emitter.{EmitterConfig}
use pgsleuth.Otel.Emitter as LogPipeline
use pgsleuth.Otel.Metrics as MetricsPipeline
use pgsleuth.Otel.Metrics.{PgStmtDelta}
use pgsleuth.Postgres.Activity.Poll.{Client}
use pgsleuth.Postgres.Checkpointer
use pgsleuth.Postgres.Statements
use pgsleuth.Cli.TempSpill.{FileSystem}
use pgsleuth.Cli.CollectActivity
use pgsleuth.Cli.Main.{
  Started, TempSpillArgs, PgStatStatementsArgs, CheckpointStormArgs, ConnectionStormArgs,
  CgroupThrottleArgs, has_emitter, run_temp_spill, run_connection_storm, run_cgroup_throttle,
  run_checkpoint_storm, run_pg_stat_statements,
}
use pgsleuth.Cli.CollectActivity.{LogLine}

pub record PgStatActivityArgs : Type 0 where
  pub pg_conn : String
  pub interval_ms : ℕ  -- u64
  pub long_xact_threshold_seconds : ℕ  -- u64

pub data Command : Type 0 where
  version : Command
  temp_spill : TempSpillArgs → Command
  pg_stat_statements : PgStatStatementsArgs → Command
  pg_stat_activity : PgStatActivityArgs → Command
  checkpoint_storm : CheckpointStormArgs → Command
  connection_storm : ConnectionStormArgs → Command
  cgroup_throttle : CgroupThrottleArgs → Command

pub record Cli : Type 0 where
  pub command : Option Command

module _ (x : External) where
  -- What a command leaves behind: a line on standard output, the effects of a rule, the deltas or the
  -- snapshots of a collector.
  pub data Output : Type 0 where
    printed : String → Output
    effects : List (Effect x) → Output
    deltas : List PgStmtDelta → Output
    snapshots : List LogLine → Output

  -- What the commands meet: Postgres, and the rounds of each poller.
  pub record World : Type 0 where
    pub package_version : String
    pub connects : Bool
    pub data_directory : Option String
    pub server_version : Result ℕ
    pub has_extension : Bool
    pub spill_rounds : List (x.DateTime × FileSystem)
    pub statement_rounds : List (Option (List (Statements.Row x.F64)))
    pub activity_rounds : List Client
    pub checkpoint_rounds : List (x.DateTime × Option (Checkpointer.Row x.F64))
    pub connection_rounds : List (x.DateTime × Client)
    pub throttle_rounds : List (x.DateTime × Option String)

  -- How a command stands behind its rounds: in the loop of its poller, which no `break` ends, with what
  -- it has left behind so far, or returned.
  pub data Exit : Type 0 where
    running : Output → Exit
    returned : Result Output → Exit

  -- A poller is in its loop, or an error of its set-up has ended it.
  abbrev entered {ℓ} : {A : Type ℓ} → (A → Output) → Result A → Exit
  entered g (ok a) = running (g a)
  entered g (err e) = returned (err e)

  abbrev is_err {ℓ} : {A : Type ℓ} → Result A → Bool
  is_err (ok a) = false
  is_err (err e) = true

  abbrev error_of {ℓ} : {A : Type ℓ} → Result A → Option String
  error_of (ok a) = none
  error_of (err e) = some e

  -- The lines of a command's set-up, how it stands, and whether it has shut a pipeline down.
  pub record Status : Type 0 where
    pub set_up : List (Effect x)
    pub exit : Exit
    pub shut_down : Bool

  -- A command whose set-up and poller are these, with a pipeline or without: the shutdown stands behind
  -- the poller, and is reached when that returns.
  abbrev status {ℓ} : {A : Type ℓ} → (A → Output) → Started x A → Bool → Status
  status g (lines, r) pipeline = record {
    set_up = lines;
    exit = entered g r;
    shut_down = is_err r && pipeline;
  }

  abbrev print_version : World → Status
  print_version w = record {
    set_up = [];
    exit = returned (ok (printed ("pgsleuth " <> w.package_version <> " (pre-alpha)")));
    shut_down = false;
  }

  module _ (o : OpenTelemetry x) (f : Float x.F64) where
    unfoldable pub emitter_config : String → EmitterConfig x
    emitter_config otlp_endpoint = record {
      otlp_endpoint = otlp_endpoint;
      service_name = "pgsleuth-agent";
      resource_attributes = [];
    }

    -- The errors of the pipelines' set-ups.
    unfoldable pub log_init : String → Option String
    unfolding emitter_config
    log_init otlp_endpoint = error_of (LogPipeline.try_new x o (emitter_config otlp_endpoint))

    unfoldable pub metrics_init : String → Option String
    unfolding emitter_config
    metrics_init otlp_endpoint =
        error_of (MetricsPipeline.try_new x o (emitter_config otlp_endpoint))

    -- The match of `main` on its command. The poller of temp spills has no error to return.
    unfoldable pub dispatch : World → Option Command → Status
    unfolding log_init metrics_init
    dispatch w none = print_version w
    dispatch w (some version) = print_version w
    dispatch w (some (temp_spill args)) = record {
      set_up = [];
      exit = entered effects (
          run_temp_spill x args w.connects w.data_directory (log_init args.otlp_endpoint)
            w.spill_rounds);
      shut_down = false;
    }
    dispatch w (some (pg_stat_statements args)) =
        let init = metrics_init args.otlp_endpoint in
        status deltas
          (run_pg_stat_statements x f args init w.connects w.server_version w.has_extension
            w.statement_rounds)
          (has_emitter args.otlp_endpoint init)
    dispatch w (some (pg_stat_activity args)) = record {
      set_up = [];
      exit = entered snapshots (
          CollectActivity.run args.pg_conn args.long_xact_threshold_seconds w.connects
            w.activity_rounds);
      shut_down = false;
    }
    dispatch w (some (checkpoint_storm args)) =
        let init = log_init args.otlp_endpoint in
        status effects
          (run_checkpoint_storm x f args init w.connects w.server_version w.checkpoint_rounds)
          (has_emitter args.otlp_endpoint init)
    dispatch w (some (connection_storm args)) =
        let init = log_init args.otlp_endpoint in
        status effects (run_connection_storm x args init w.connects w.connection_rounds)
          (has_emitter args.otlp_endpoint init)
    dispatch w (some (cgroup_throttle args)) =
        let init = log_init args.otlp_endpoint in
        status effects (run_cgroup_throttle x args init w.throttle_rounds)
          (has_emitter args.otlp_endpoint init)

    unfoldable pub main : World → Cli → Status
    unfolding dispatch
    main w cli = dispatch w cli.command
