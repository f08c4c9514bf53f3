-- ===== src/Loader/Main/Tests.antt =====
-- Runs of the loader at concrete inputs.
use pgsleuth.Base.{
  ℕ, ◌+◌, ◌/◌, ◌%◌, ◌≡◌, refl, true, false, Option, none, some, List, [], ◌∷◌, ◌++◌, arith,
  if◌then◌else◌, str_eq, length, count_if, pos,
}
use pgsleuth.External.Example.{example}
use pgsleuth.Core.Window.Runs.{episodes}
use pgsleuth.Core.Window.Episodes.{is_long}
use pgsleuth.Ebpf.Events.{FilterConfig, BlockIoLatencyEvent, RqKey}
use pgsleuth.Otel.Mapping.Example.{sdk}
use pgsleuth.Loader.Loop.{latency, tick}
use pgsleuth.Loader.Loop.Alarms.{emitted, slow_sequence, windows, new_keys, spill_keys}
use pgsleuth.Loader.Spill.{Utf8, contains}
use pgsleuth.Loader.SetUp.{Aya, set_up}
use pgsleuth.Loader.SetUp.Plan.{Follows, checks_of, plan_of, set_up-Follows}
use pgsleuth.Loader.Main.{
  Args, Wake, event, activity, ctrl_c, poll_error, main, settings, log_pipeline, metrics_pipeline,
  discover, best_effort,
}
use pgsleuth.Otel.Emitter as LogPipeline
use pgsleuth.PgExt.{Server, query_row, pgsleuth_wal_device, pgsleuth_postmaster_pid}
use pgsleuth.Ebpf.Kernel.{Context, Kernel}
use pgsleuth.Ebpf.Kernel.Example.{context, unbounded}
use pgsleuth.Ebpf.Block.{block_rq_issue, issue_at, block_rq_complete, complete_at}
use pgsleuth.Loader.Main.Outcome.{
  config_of, pipelines_of, effects_of, dev_t_of, main_ends, main-sent,
}
use pgsleuth.Loader.Filter.{filter_config, resolve_pid_filter}
use pgsleuth.Loader.Device.{discover_via_pg_ext}
use pgsleuth.Postgres.Activity.{starts_with}
use pgsleuth.Loader.Main.Spills.{
  FileCall, openat, unlinkat, after_calls, taken, call_keys, main-spills,
}
use pgsleuth.Loader.Main.WalDevice.{block_rq-wal_device}
use pgsleuth.Otel.Metrics as MetricsPipeline
use pgsleuth.Loader.Main.Ends.{heard, ending, visible, founds}
use pgsleuth.Loader.Main.Steps.{ended, count_found}

abbrev pub works : Aya
works = record {
  loads_file = λ path. true;
  has_map = λ name. true;
  is_array = λ name. true;
  sets = λ config. true;
  has_program = λ program. true;
  is_kprobe = λ program. true;
  is_tracepoint = λ program. true;
  loads = λ program. true;
  attaches_kprobe = λ program name. true;
  attaches = λ program category name. true;
  is_ring_buf = λ name. true;
  makes_async_fd = λ name. true;
}

-- A kernel without the programs' tracepoints.
abbrev no_tracepoints : Aya
no_tracepoints = record works { attaches = λ program category name. false }

abbrev pub utf8 : Utf8
utf8 = record { from_utf8_lossy = λ bytes. ""; from_utf8 = λ bytes. none; as_bytes = λ s. [] }

abbrev config : FilterConfig
config = record { pid = 7; cgroup_id = 0; name = []; dev_t = 8388624 }

abbrev pub args : Args
args = record {
  bpf_object = "/build/pgsleuth-ebpf";
  name = "";
  pid = none;
  cgroup_id = none;
  pg_conn = "postgres://postgres@localhost/postgres";
  dev_t = none;
  otlp_endpoint = "http://localhost:4317";
  pg_instance = "fixture-pg";
  fsync_threshold_ms = 10;
  fsync_fire_after = 1;
  interval_ms = 1000;
}

abbrev slow_write : BlockIoLatencyEvent
slow_write = record { dev = 8388624; op_class = 1; bytes = 8192; latency_ns = 20000000 }

-- A slow interval, and Ctrl+C; what is behind it is not handled.
abbrev wakes : List (Wake example)
wakes =
    event (latency slow_write)
    ∷ activity (record { pid = 7; port = 0; comm = [] })
    ∷ event (tick (pos 1))
    ∷ ctrl_c
    ∷ poll_error "EVENTS"
    ∷ []

set_up-Follows_example :
    Follows
      (checks_of no_tracepoints "/build/pgsleuth-ebpf" config)
      (plan_of "/build/pgsleuth-ebpf" config [])
      (set_up no_tracepoints "/build/pgsleuth-ebpf" config [])
set_up-Follows_example = set_up-Follows no_tracepoints "/build/pgsleuth-ebpf" config []

main_ends_example :
    ((main example sdk utf8 works args true (some ("8:16", pos 7)) wakes).0 ≡ ending wakes)
    × (visible example sdk (main example sdk utf8 works args true (some ("8:16", pos 7)) wakes).1
        ≡ founds
            (emitted (effects_of example sdk utf8 works args true (some ("8:16", pos 7)) wakes))
          ++ ended true true (ending wakes))
unfolding metrics_pipeline MetricsPipeline.try_new log_pipeline LogPipeline.try_new
main_ends_example = main_ends example sdk utf8 works args true (some ("8:16", pos 7)) wakes refl

main-sent_example :
    count_found
      (visible example sdk (main example sdk utf8 works args true (some ("8:16", pos 7)) wakes).1)
    ≡ (if (pipelines_of example sdk utf8 works args).log_emitter
        then count_if (is_long 1) (
            episodes 0 (
              slow_sequence
                (settings args (dev_t_of example sdk utf8 works args true (some ("8:16", pos 7))))
                (windows [] (heard wakes))))
          + length (new_keys [] (spill_keys utf8 (heard wakes)))
        else 0)
main-sent_example =
    main-sent example sdk utf8 works args true (some ("8:16", pos 7)) wakes refl (omega arith)

-- A server whose WAL is on the device 8:0, and a request there under the filter of that run.
abbrev server : Server
server = record {
  data_dir = "/pg";
  postmaster_pid = pos 7;
  metadata_dev = λ path. some 2048;
  major = λ dev. dev / 256;
  minor = λ dev. dev % 256;
}

abbrev filtered : Context
filtered = record (context 5 30) {
  filter_config = some (config_of example sdk utf8 works args true (query_row server));
}

abbrev idle : Kernel (RqKey → Option ℕ)
idle = record {
  inflight = λ k. none;
  events = [];
  block_events = [];
  latency_events = [];
  temp_file_events = [];
}

block_rq-wal_device_example :
    (block_rq_issue unbounded filtered idle
      ≡ issue_at unbounded filtered (some (record { dev = 8388608; sector = 5 })) idle)
    × (block_rq_complete unbounded filtered idle
        ≡ complete_at unbounded filtered (some (record { dev = 8388608; sector = 5 })) idle)
block_rq-wal_device_example =
    block_rq-wal_device example sdk utf8 works unbounded args server 2048 filtered idle 8388608 5
      refl refl refl (omega arith) (omega arith) (omega arith) refl refl refl

-- The postmaster opens a spill twice under the filter of the run; an unlink of another process is not
-- reported.
abbrev spilling : Utf8
spilling = record utf8 { from_utf8_lossy = λ bytes. "base/pgsql_tmp/1" }

abbrev under_filter : ℕ → Context
under_filter pid = record (context 5 30) {
  pid = pid;
  filter_config = some (config_of example sdk spilling works args true (query_row server));
}

abbrev calls : List FileCall
calls = openat (under_filter 7) ∷ unlinkat (under_filter 8) ∷ openat (under_filter 7) ∷ []

main-spills_example :
    count_found (
      visible example sdk
        (main example sdk spilling works args true
          (query_row server)
          (taken (pos 9) (after_calls calls idle).temp_file_events)).1)
    ≡ (if (pipelines_of example sdk spilling works args).log_emitter
        then length (
            new_keys [] (
              call_keys spilling
                (config_of example sdk spilling works args true (query_row server))
                calls))
        else 0)
main-spills_example =
    main-spills example sdk spilling works args true (query_row server) (pos 9) calls idle refl
      (omega arith) refl (refl, (refl, (refl, tt)))

-- That is one finding.
one_spill :
    length (
      new_keys [] (
        call_keys spilling
          (config_of example sdk spilling works args true (query_row server))
          calls))
    ≡ 1
unfolding filter_config resolve_pid_filter discover best_effort discover_via_pg_ext query_row
    pgsleuth_wal_device pgsleuth_postmaster_pid contains starts_with str_eq
one_spill = refl
