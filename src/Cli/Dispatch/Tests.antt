-- ===== src/Cli/Dispatch/Tests.antt =====
-- Commands at concrete arguments.
use pgsleuth.Base.{
  parse_u64, ◌≡◌, refl, true, false, none, some, [], ◌∷◌, arith, str_eq, pos, lines,
  split_whitespace, ok, err,
}
use pgsleuth.External.Example.{example}
use pgsleuth.Float.Example.{halves}
use pgsleuth.Otel.Mapping.Example.{sdk}
use pgsleuth.Otel.Emitter as LogPipeline
use pgsleuth.Cli.Dispatch.{returned, log_init, World, connection_storm, dispatch, main, printed}
use pgsleuth.Cli.Main.{ConnectionStormArgs, has_emitter, CgroupThrottleArgs}
use pgsleuth.Cli.CgroupThrottle.{
  read_cpu_stat, parse, parse_lines, parse_words, set_parsed, set_field, is_breached, breach_value,
}
use pgsleuth.Cli.Dispatch.Alarms.{on_cgroup_throttle, command_of, alarms, IsRunning, main-IsRunning}
use pgsleuth.Cli.Dispatch.Unreachable.{dispatch-unreachable}

-- A host without Postgres, where the collector answers.
abbrev world : World example
world = record {
  package_version = "0.0.1";
  connects = false;
  data_directory = none;
  server_version = err "";
  has_extension = false;
  spill_rounds = [];
  statement_rounds = [];
  activity_rounds = [];
  checkpoint_rounds = [];
  connection_rounds = [];
  throttle_rounds = [];
}

abbrev args : ConnectionStormArgs
args = record {
  pg_conn = "host=localhost";
  interval_ms = 1000;
  backend_threshold = 100;
  long_xact_threshold_seconds = 60;
  fire_after = 3;
  otlp_endpoint = "http://localhost:4317";
  pg_instance = "fixture-pg";
}

no_command :
    (main example sdk halves world (record { command = none })).exit
    ≡ returned (ok (printed "pgsleuth 0.0.1 (pre-alpha)"))
unfolding main dispatch
no_command = refl

dispatch-unreachable_example :
    ((dispatch example sdk halves world (some (connection_storm args))).exit
      ≡ returned (err "Failed to connect to Postgres at host=localhost"))
    × ((dispatch example sdk halves world (some (connection_storm args))).shut_down ≡ true)
unfolding has_emitter log_init LogPipeline.try_new
dispatch-unreachable_example =
    dispatch-unreachable example sdk halves world (connection_storm args) "host=localhost" refl refl

-- A host whose cgroup is throttled in two intervals.
abbrev throttled_world : World example
throttled_world = record world {
  throttle_rounds =
      (pos 1, some "throttled_usec 0")
      ∷ (pos 2, some "throttled_usec 200000")
      ∷ (pos 3, none)
      ∷ (pos 4, some "throttled_usec 400000")
      ∷ [];
}

abbrev throttle : CgroupThrottleArgs
throttle = record {
  cpu_stat = "/sys/fs/cgroup/cpu.stat";
  interval_ms = 1000;
  throttled_ms_per_sec_threshold = 100;
  fire_after = 2;
  otlp_endpoint = "http://localhost:4317";
  pg_instance = "fixture-pg";
}

main-IsRunning_example :
    IsRunning
      (main example sdk halves throttled_world
        (record { command = some (command_of (on_cgroup_throttle throttle)) }))
      (has_emitter throttle.otlp_endpoint (log_init example sdk halves throttle.otlp_endpoint))
      (alarms throttled_world halves (on_cgroup_throttle throttle) (omega arith))
main-IsRunning_example =
    main-IsRunning example sdk halves throttled_world (on_cgroup_throttle throttle) (omega arith)

-- That is one alarm.
one_alarm : alarms throttled_world halves (on_cgroup_throttle throttle) (omega arith) ≡ 1
unfolding read_cpu_stat parse parse_lines lines parse_words split_whitespace set_parsed set_field
    parse_u64 str_eq is_breached breach_value
one_alarm = refl
