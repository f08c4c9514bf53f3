-- ===== src/Loader/Main.antt =====
-- crates/pgsleuth-ebpf-loader/src/main.rs: `main`, from the discovery to the end of the loop.
pub mod Ends
pub mod Jitter
pub mod Outcome
pub mod Spills
pub mod Steps
pub mod WalDevice
mod Tests
use pgsleuth.Base.{
  to_string, ℕ, zero, suc, String, ◌<>◌, Option, none, some, List, [], ◌∷◌, ◌++◌, if◌then◌else◌,
  unwrap_or, and_then, ℤ, is_empty, lines, Result, ok, err,
}
use mathlib.Core.Bool.{Bool}
use pgsleuth.External.{External}
use pgsleuth.Ebpf.Events.{TraceEvent, BlockEvent}
use pgsleuth.Otel.Mapping.{OpenTelemetry}
use pgsleuth.Otel.Emitter.{EmitterConfig, Emitter}
use pgsleuth.Otel.Emitter as LogPipeline
use pgsleuth.Otel.Metrics.{MetricsEmitter}
use pgsleuth.Otel.Metrics as MetricsPipeline
use pgsleuth.Loader.Device.{PgDiscovery, discover_via_pg_ext}
use pgsleuth.Loader.Filter.{is_some, resolve_pid_filter, effective_dev_t, filter_config}
use pgsleuth.Loader.Filter as Filter
use pgsleuth.Loader.Rule.{Settings, Effect, info}
use pgsleuth.Loader.Spill.{Utf8, trim_nul}
use pgsleuth.Loader.Loop.{Event, Loop, initial_loop, Pipelines, on_event}
use pgsleuth.Loader.SetUp.{Aya, Action, set_up}

pub record Args : Type 0 where
  pub bpf_object : String
  pub name : String
  pub pid : Option ℕ  -- u32
  pub cgroup_id : Option ℕ  -- u64
  pub pg_conn : String
  pub dev_t : Option ℕ  -- u32
  pub otlp_endpoint : String
  pub pg_instance : String
  pub fsync_threshold_ms : ℕ  -- u64
  pub fsync_fire_after : ℕ  -- u32
  pub interval_ms : ℕ  -- u64

-- The lines of `log_filter_state` on the process.
unfoldable pub pid_lines : Option ℕ → Option ℕ → Option PgDiscovery → List String
pid_lines none explicit discovery = []
pid_lines (some pid) (some _) discovery =
    ("Filtering for PID: " <> to_string pid <> " (explicit --pid)") ∷ []
pid_lines (some pid) none (some _) =
    ("Filtering for PID: " <> to_string pid <> " (default — postmaster from pg-ext)") ∷ []
pid_lines (some pid) none none = ("Filtering for PID: " <> to_string pid) ∷ []

-- Those on the device: the filter, the argument, and what was discovered.
unfoldable pub dev_t_line : ℕ → Option ℕ → Option ℕ → String
dev_t_line zero explicit discovered = "dev_t filter off; block tracepoint will report ALL block I/O"
dev_t_line (suc d) (some _) discovered =
    "Filtering block-layer events for dev_t=" <> to_string (suc d) <> " (explicit --dev-t)"
dev_t_line (suc d) none (some _) =
    "Filtering block-layer events for dev_t="
    <> to_string (suc d)
    <> " (kernel-encoded; from pg-ext)"
dev_t_line (suc d) none none = "Filtering block-layer events for dev_t=" <> to_string (suc d)

abbrev text_lines : String → Option ℕ → List String
text_lines text none = []
text_lines text (some n) = (text <> to_string n) ∷ []

unfoldable pub log_filter_state : Option ℕ → Args → Option PgDiscovery → ℕ → List String
unfolding pid_lines dev_t_line
log_filter_state effective_pid args discovery dev_t =
    pid_lines effective_pid args.pid discovery
    ++ (text_lines "Filtering for Cgroup ID: " args.cgroup_id
        ++ ((if is_empty args.name
              then []
              else ("Filtering for process name: '" <> args.name <> "'") ∷ [])
            ++ (dev_t_line dev_t args.dev_t (and_then discovery (λ d. d.wal_dev_t)) ∷ [])))

-- The bytes of the name, and the other arguments of the filter.
abbrev pub filter_args : Utf8 → Args → Filter.Args
filter_args u args = record {
  name = if is_empty args.name then [] else u.as_bytes args.name;
  pid = args.pid;
  cgroup_id = args.cgroup_id;
  dev_t = args.dev_t;
}

-- The text of a command.
unfoldable pub comm_text : Utf8 → List ℕ → String
comm_text u comm = trim_nul (unwrap_or (u.from_utf8 comm) "unknown")

unfoldable pub activity_line : Utf8 → TraceEvent → String
unfolding comm_text
activity_line u event =
    "Activity Detected! PID=" <> to_string event.pid <> ", Comm='" <> comm_text u event.comm <> "'"

unfoldable pub block_line : Utf8 → BlockEvent → String
unfolding comm_text
block_line u event =
    "Block I/O on WAL dev! dev="
    <> to_string event.dev
    <> " pid="
    <> to_string event.pid
    <> " bytes="
    <> to_string event.bytes
    <> " comm='"
    <> comm_text u event.comm
    <> "'"

-- How `main` stands: in its loop, or returned.
pub data Exit : Type 0 where
  running : Exit
  returned : Result (Unit {0}) → Exit

-- What wakes the loop: what the rules read, what is only logged, Ctrl+C, or a ring buffer, by its
-- name, that cannot be polled.
pub data Wake (x : External) : Type 0 where
  event : Event x → Wake x
  activity : TraceEvent → Wake x
  block : BlockEvent → Wake x
  ctrl_c : Wake x
  poll_error : String → Wake x

module _ (x : External) (o : OpenTelemetry x) where
  -- What `main` does: its set-up, its loop, a warning with its error, or a pipeline's shutdown.
  pub data Output : Type 0 where
    act : Action → Output
    effect : Effect x → Output
    log : String → Output
    warn : String → Output
    warn_error : String → String → Output
    shut_down_metrics : MetricsEmitter x o → Output
    shut_down_logs : Emitter x o → Output

  abbrev pub acts : List Action → List Output
  acts [] = []
  acts (a ∷ done) = act a ∷ acts done

  abbrev pub effects : List (Effect x) → List Output
  effects [] = []
  effects (e ∷ es) = effect e ∷ effects es

  abbrev pub warns : List String → List Output
  warns [] = []
  warns (line ∷ lines) = warn line ∷ warns lines

  -- A best-effort step: its error is a warning.
  unfoldable pub best_effort {ℓ} : {A : Type ℓ} → String → Result A → Option A × List Output
  best_effort text (ok a) = (some a, [])
  best_effort text (err e) = (none, warn_error e text ∷ [])

  unfoldable pub discover : String → Bool → Option (String × ℤ) → Option PgDiscovery × List Output
  unfolding best_effort
  discover pg_conn connects row =
      if is_empty pg_conn
      then (none, log "--pg-conn is empty; skipping pg-ext discovery" ∷ [])
      else best_effort "pg-ext discovery failed; continuing without it"
          (discover_via_pg_ext pg_conn connects row)

  unfoldable pub emitter_config : String → EmitterConfig x
  emitter_config otlp_endpoint = record {
    otlp_endpoint = otlp_endpoint;
    service_name = "pgsleuth-agent";
    resource_attributes = [];
  }

  unfoldable pub log_pipeline : String → Option (Emitter x o) × List Output
  unfolding best_effort emitter_config
  log_pipeline otlp_endpoint =
      if is_empty otlp_endpoint
      then (
        none,
        log "--otlp-endpoint empty; OTel emission disabled (rule findings still logged)" ∷ [],
      )
      else best_effort "OTel log Emitter init failed; continuing without it"
          (LogPipeline.try_new x o (emitter_config otlp_endpoint))

  unfoldable pub metrics_pipeline : String → Option (MetricsEmitter x o) × List Output
  unfolding best_effort emitter_config
  metrics_pipeline otlp_endpoint =
      if is_empty otlp_endpoint
      then (none, [])
      else best_effort "OTel MetricsEmitter init failed; continuing without it"
          (MetricsPipeline.try_new x o (emitter_config otlp_endpoint))

  -- The end of `main`.
  unfoldable pub shutdown_metrics : Option (MetricsEmitter x o) → List Output
  shutdown_metrics none = []
  shutdown_metrics (some m) = shut_down_metrics m ∷ warns (MetricsPipeline.shutdown x o m)

  unfoldable pub shutdown_logs : Option (Emitter x o) → List Output
  shutdown_logs none = []
  shutdown_logs (some l) = shut_down_logs l ∷ warns (LogPipeline.shutdown x o l)

module _ (x : External) (u : Utf8) (ps : Pipelines) (cfg : Settings) where
  -- The loop, as far as the wakes go.
  unfoldable pub listen : Loop → List (Wake x) → Exit × List (Effect x)
  unfolding activity_line block_line
  listen l [] = (running, [])
  listen l (ctrl_c ∷ wakes) = (returned (ok tt), info "Exiting..." ∷ [])
  listen l (poll_error buffer ∷ wakes) =
      (returned (err ("Failed to poll " <> buffer <> " ring buffer")), [])
  listen l (activity e ∷ wakes) =
      let (exit, es) = listen l wakes in (exit, info (activity_line u e) ∷ es)
  listen l (block e ∷ wakes) = let (exit, es) = listen l wakes in (exit, info (block_line u e) ∷ es)
  listen l (event e ∷ wakes) =
      let (l', es) = on_event x u ps cfg l e in
      let (exit, es') = listen l' wakes in (exit, es ++ es')

abbrev pub dev_label : ℕ → String
dev_label dev_t = "dev_t=" <> to_string dev_t

abbrev pub settings : Args → ℕ → Settings
settings args dev_t = record {
  pg_instance = args.pg_instance;
  fsync_threshold_ms = args.fsync_threshold_ms;
  fsync_fire_after = args.fsync_fire_after;
  interval_ms = args.interval_ms;
  dev_label = dev_label dev_t;
}

unfoldable pub rule_line : Args → String
rule_line args =
    "Rule: storage.wal.fsync.jitter — P50 > "
    <> to_string args.fsync_threshold_ms
    <> " ms for "
    <> to_string args.fsync_fire_after
    <> " consecutive "
    <> to_string args.interval_ms
    <> " ms intervals"

module _ (x : External) (o : OpenTelemetry x) (u : Utf8) (a : Aya) where
  -- Behind the loop: only a loop that is broken off shuts the pipelines down.
  unfoldable pub finish :
      Option (MetricsEmitter x o) → Option (Emitter x o) → Exit → List (Output x o)
  unfolding shutdown_metrics shutdown_logs
  finish metrics logs (returned (ok _)) = shutdown_metrics x o metrics ++ shutdown_logs x o logs
  finish metrics logs (returned (err e)) = []
  finish metrics logs running = []

  -- The loop behind a set-up that succeeds.
  unfoldable pub run :
      Args
      → ℕ
      → Option (Emitter x o)
      → Option (MetricsEmitter x o)
      → List (Wake x)
      → Result (Unit {0})
      → Exit × List (Output x o)
  unfolding finish rule_line
  run args dev_t logs metrics wakes (err e) = (returned (err e), [])
  run args dev_t logs metrics wakes (ok _) =
      let (exit, es) =
        listen x u (record { log_emitter = is_some logs; metrics_emitter = is_some metrics })
          (settings args dev_t) initial_loop wakes in
      (
        exit,
        log (rule_line args)
            ∷ log "Listening for events; Ctrl+C to stop."
            ∷ (effects x o es ++ finish metrics logs exit),
      )

  -- `main`, on the answers of Postgres and on what wakes its loop.
  unfoldable pub main : Args → Bool → Option (String × ℤ) → List (Wake x) → Exit × List (Output x o)
  unfolding discover log_pipeline metrics_pipeline run
  main args connects row wakes =
      let (discovery, discovered) = discover x o args.pg_conn connects row in
      let pid = resolve_pid_filter args.pid args.cgroup_id discovery in
      let dev_t = effective_dev_t (filter_args u args) discovery in
      let (logs, logs_made) = log_pipeline x o args.otlp_endpoint in
      let (metrics, metrics_made) = metrics_pipeline x o args.otlp_endpoint in
      let (made, done) =
        set_up a args.bpf_object (filter_config (filter_args u args) discovery)
          (log_filter_state pid args discovery dev_t) in
      let (exit, out) = run args dev_t logs metrics wakes made in
      (exit, discovered ++ (logs_made ++ (metrics_made ++ (acts x o done ++ out))))
