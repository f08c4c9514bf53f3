-- ===== src/Cli/Dispatch/Alarms.antt =====
-- The alarms of the commands that run a rule, from the command line to the rounds of its loop.
use pgsleuth.Base.{
  ℕ, ◌≤◌, String, ◌≡◌, refl, true, false, none, some, List, ◌++◌, le→ltb, length, count_if, present,
  u32_max, ok,
}
use pgsleuth.Cli.Main.Degraded.{set_up-Fires, run-Fires}
use mathlib.Core.Bool.{Bool}
use pgsleuth.External.{External}
use pgsleuth.Float.{Float}
use pgsleuth.Agent.{Effect, Fires}
use pgsleuth.Core.Window.Episodes.{is_long}
use pgsleuth.Core.Window.{default_counter}
use pgsleuth.Core.Window.Runs.{episodes}
use pgsleuth.Otel.Mapping.{OpenTelemetry}
use pgsleuth.Postgres.Checkpointer.{min_pg_version}
use pgsleuth.Cli.TempSpill.Report
use pgsleuth.Cli.TempSpill.Latch.{samples, due}
use pgsleuth.Cli.CheckpointStorm
use pgsleuth.Cli.CheckpointStorm.Runs as Storms
use pgsleuth.Cli.CheckpointStorm.Alarms as Checkpoints
use pgsleuth.Cli.ConnectionStorm
use pgsleuth.Cli.ConnectionStorm.Alarms as Connections
use pgsleuth.Cli.CgroupThrottle
use pgsleuth.Cli.CgroupThrottle.Alarms as Throttles
use pgsleuth.Cli.Main.{
  TempSpillArgs, CheckpointStormArgs, ConnectionStormArgs, CgroupThrottleArgs, has_emitter,
  resolve_pgdata, temp_spill_config, run_temp_spill, run_checkpoint_storm, run_connection_storm,
  run_cgroup_throttle, set_up,
}
use pgsleuth.Cli.Dispatch.{
  Command, temp_spill, checkpoint_storm, connection_storm, cgroup_throttle, World, Status, running,
  effects, dispatch, main, log_init,
}

-- The commands that run a rule.
pub data Rule : Type 0 where
  on_temp_spill : TempSpillArgs → Rule
  on_checkpoint_storm : CheckpointStormArgs → Rule
  on_connection_storm : ConnectionStormArgs → Rule
  on_cgroup_throttle : CgroupThrottleArgs → Rule

abbrev pub command_of : Rule → Command
command_of (on_temp_spill args) = temp_spill args
command_of (on_checkpoint_storm args) = checkpoint_storm args
command_of (on_connection_storm args) = connection_storm args
command_of (on_cgroup_throttle args) = cgroup_throttle args

abbrev pub endpoint_of : Rule → String
endpoint_of (on_temp_spill args) = args.otlp_endpoint
endpoint_of (on_checkpoint_storm args) = args.otlp_endpoint
endpoint_of (on_connection_storm args) = args.otlp_endpoint
endpoint_of (on_cgroup_throttle args) = args.otlp_endpoint

abbrev checkpoint_settings : CheckpointStormArgs → CheckpointStorm.Settings
checkpoint_settings args = record {
  interval_ms = args.interval_ms;
  fire_after = args.fire_after;
  pg_instance_id = args.pg_instance;
}

abbrev connection_settings : ConnectionStormArgs → ConnectionStorm.Settings
connection_settings args = record {
  interval_ms = args.interval_ms;
  backend_threshold = args.backend_threshold;
  long_xact_threshold_seconds = args.long_xact_threshold_seconds;
  fire_after = args.fire_after;
  pg_instance_id = args.pg_instance;
}

abbrev throttle_settings : CgroupThrottleArgs → CgroupThrottle.Settings
throttle_settings args = record {
  cpu_stat_path = args.cpu_stat;
  interval_ms = args.interval_ms;
  throttled_ms_per_sec_threshold = args.throttled_ms_per_sec_threshold;
  fire_after = args.fire_after;
  pg_instance_id = args.pg_instance;
}

module _ {x : External} (w : World x) where
  -- What the command needs to reach its loop, and the range of `fire_after`.
  abbrev pub IsReady : Rule → Type 0
  IsReady (on_temp_spill args) =
      (pgdata : String) × (resolve_pgdata args w.connects w.data_directory ≡ ok pgdata)
  IsReady (on_checkpoint_storm args) =
      (major : ℕ) × (w.connects ≡ true)
      × (w.server_version ≡ ok major)
      × (min_pg_version ≤ major)
      × (args.fire_after ≤ u32_max)
  IsReady (on_connection_storm args) = (w.connects ≡ true) × (args.fire_after ≤ u32_max)
  IsReady (on_cgroup_throttle args) = args.fire_after ≤ u32_max

  -- How many alarms the rounds call for: the onsets of a breach, or the runs that are long enough.
  abbrev pub alarms : Float x.F64 → (r : Rule) → IsReady r → ℕ
  alarms f (on_temp_spill args) (pgdata, e) =
      let cfg = temp_spill_config args pgdata in
      length (due x cfg none (samples cfg w.spill_rounds))
  alarms f (on_checkpoint_storm args) ready = count_if (is_long args.fire_after) (
      Storms.episodes none 0
        (present (Checkpoints.buckets f none (Checkpoints.snapshots w.checkpoint_rounds))))
  alarms f (on_connection_storm args) ready =
      let cfg = connection_settings args in
      count_if (is_long args.fire_after) (
        episodes 0
          (Connections.breach_sequence cfg (Connections.snapshots cfg w.connection_rounds)))
  alarms f (on_cgroup_throttle args) ready =
      let cfg = throttle_settings args in
      count_if (is_long args.fire_after)
        (episodes 0 (Throttles.throttled cfg none (Throttles.stats cfg w.throttle_rounds)))

-- A command that is in its loop, has raised this many alarms, and has not shut its pipeline down.
abbrev pub IsRunning : {x : External} → Status x → Bool → ℕ → Type 0
IsRunning {x} s emitter n =
    (es : List (Effect x)) × (s.exit ≡ running (effects es))
    × Fires emitter n es
    × (s.shut_down ≡ false)

module _ (x : External) (o : OpenTelemetry x) (f : Float x.F64) where
  -- A rule's command whose requirements hold — a known data directory, a connection, a server at version 17 or above, each for the rule that asks for it, and `fire_after` a u32 — is in its loop behind any number of rounds, and has not shut its pipeline down. By then as many alarms are logged as these rounds call for; each is sent once if the endpoint is given and the log pipeline's set-up succeeds, and none is sent otherwise. The rounds call for one alarm at each onset of a spill, and for one for each maximal run of breaching rounds (of one bucket, for the checkpoints) that is not empty and reaches `fire_after`.
  pub main-IsRunning :
      (w : World x) (r : Rule) (ready : IsReady w r)
      → IsRunning
          (main x o f w (record { command = some (command_of r) }))
          (has_emitter (endpoint_of r) (log_init x o f (endpoint_of r)))
          (alarms w f r ready)
  unfolding main dispatch run_temp_spill run_checkpoint_storm run_connection_storm
      run_cgroup_throttle CheckpointStorm.run CheckpointStorm.start ConnectionStorm.run
  main-IsRunning w (on_temp_spill args) (pgdata, e) =
      let emitter = has_emitter args.otlp_endpoint (log_init x o f args.otlp_endpoint) in
      (
        set_up x args.otlp_endpoint (log_init x o f args.otlp_endpoint)
            ++ Report.run x emitter (temp_spill_config args pgdata) w.spill_rounds,
        rw e refl,
        set_up-Fires x emitter args.otlp_endpoint _ _ _
            (run-Fires x args pgdata emitter w.spill_rounds),
        refl,
      )
  main-IsRunning w (on_checkpoint_storm args) (major, c, v, h, fits) =
      let emitter = has_emitter args.otlp_endpoint (log_init x o f args.otlp_endpoint) in
      let cfg = checkpoint_settings args in
      (
        CheckpointStorm.run_from x f emitter cfg
            (record { prev = none; streak = CheckpointStorm.default_streak }) w.checkpoint_rounds,
        rw (c, v, le→ltb major min_pg_version h) refl,
        Checkpoints.run_checkpoints-Fires x f emitter cfg args.pg_conn major w.checkpoint_rounds
            fits h (rw (le→ltb major min_pg_version h) refl),
        rw (c, v, le→ltb major min_pg_version h) refl,
      )
  main-IsRunning w (on_connection_storm args) (c, fits) =
      let emitter = has_emitter args.otlp_endpoint (log_init x o f args.otlp_endpoint) in
      let cfg = connection_settings args in
      (
        ConnectionStorm.run_from x emitter cfg default_counter w.connection_rounds,
        rw c refl,
        Connections.run-Fires x emitter cfg args.pg_conn w.connection_rounds fits refl,
        rw c refl,
      )
  main-IsRunning w (on_cgroup_throttle args) fits = (
    CgroupThrottle.run x (has_emitter args.otlp_endpoint (log_init x o f args.otlp_endpoint))
        (throttle_settings args) w.throttle_rounds,
    refl,
    Throttles.run_throttle-Fires x _ (throttle_settings args) w.throttle_rounds fits,
    refl,
  )
