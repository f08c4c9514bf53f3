-- ===== src/Loader/Rule.antt =====
-- The fsync-jitter rule of the loader: the samples of an interval, and the tick that judges them.
pub mod Writes
use pgsleuth.Base.{
  to_string, ℕ, ◌/◌, String, ◌<>◌, true, false, ◌||◌, Option, none, List, [], ◌∷◌, ◌++◌, ◌==◌,
  if◌then◌else◌, length, u64_max, saturating_mul, unwrap_or,
}
use mathlib.Core.Bool.{Bool}
use pgsleuth.External.{External}
use pgsleuth.BTreeMap
use pgsleuth.BTreeMap.{text_key}
use pgsleuth.Core.Finding.{Finding, deep, high, unknown, string, finding_schema_version}
use pgsleuth.Core.Window.{
  ConsecutiveBreachCounter, BreachState, building, still_firing, reset, just_fired, default_counter,
  observe,
}
use pgsleuth.Ebpf.Events.{BlockIoLatencyEvent, read, write, write_flush, to_u8}
use pgsleuth.Loader.Median.{p50_ns, is_above}

-- The arguments that the rules read; `dev_label` is made of the device's filter.
pub record Settings : Type 0 where
  pub pg_instance : String
  pub fsync_threshold_ms : ℕ
  pub fsync_fire_after : ℕ
  pub interval_ms : ℕ
  pub dev_label : String

pub record RuleState : Type 0 where
  pub write_flush_samples_ns : List ℕ
  pub counter : ConsecutiveBreachCounter

-- `RuleState::new`.
abbrev pub new_state : RuleState
new_state = record { write_flush_samples_ns = []; counter = default_counter }

unfoldable pub op_class_str : ℕ → String
unfolding to_u8
op_class_str op_class =
    if op_class == to_u8 read
    then "read"
    else if op_class == to_u8 write
    then "write"
    else if op_class == to_u8 write_flush
    then "write_flush"
    else "other"

-- What the loop does to the world: a point of the histogram, a finding handed to the emitter, a line
-- of the log.
pub data Effect (x : External) : Type 0 where
  record_wal_io_latency : ℕ → String → String → Effect x
  emit : Finding x → Effect x
  info : String → Effect x

-- Whether the rule keeps a sample of this operation.
unfoldable pub is_write : ℕ → Bool
unfolding to_u8
is_write op_class = op_class == to_u8 write || op_class == to_u8 write_flush

-- The threshold in nanoseconds.
abbrev pub threshold_ns : Settings → ℕ
threshold_ns cfg = saturating_mul u64_max cfg.fsync_threshold_ms 1000000

-- `{breached}` and `{state:?}`, by the derived Debug of BreachState.
abbrev show_bool : Bool → String
show_bool true = "true"
show_bool false = "false"

unfoldable pub debug_state : BreachState → String
debug_state (building streak) = "Building { streak: " <> to_string streak <> " }"
debug_state (just_fired streak) = "JustFired { streak: " <> to_string streak <> " }"
debug_state (still_firing streak) = "StillFiring { streak: " <> to_string streak <> " }"
debug_state reset = "Reset"

-- The statistics of a tick in the log.
unfoldable pub tick_line : List ℕ → Option ℕ → Bool → BreachState → String
unfolding debug_state
tick_line samples p50_ns_opt breached state =
    "[rule.tick] samples="
    <> to_string (length samples)
    <> " p50_us="
    <> to_string (unwrap_or p50_ns_opt 0 / 1000)
    <> " p50_ms="
    <> to_string (unwrap_or p50_ns_opt 0 / 1000000)
    <> " breached="
    <> show_bool breached
    <> " state="
    <> debug_state state

module _ (x : External) where
  open x use {DateTime, object, number, text}

  unfoldable pub build_finding : DateTime → String → String → ℕ → ℕ → ℕ → ℕ → Finding x
  build_finding now pg_instance dev_label p50_ms threshold_ms streak interval_ms = record {
    schema_version = finding_schema_version;
    rule_id = "storage.wal.fsync.jitter";
    rule_version = 1;
    tier = deep;
    severity = high;
    fired_at = now;
    pg_instance = record { id = pg_instance; db_name = none; role = unknown };
    summary =
        "WAL device commit P50 latency "
        <> to_string p50_ms
        <> "ms > "
        <> to_string threshold_ms
        <> "ms for "
        <> to_string streak
        <> " consecutive "
        <> to_string interval_ms
        <> "ms intervals (device="
        <> dev_label
        <> ")";
    evidence = object (
        ("p50_ms", number p50_ms)
        ∷ ("threshold_ms", number threshold_ms)
        ∷ ("streak_intervals", number streak)
        ∷ ("interval_ms", number interval_ms)
        ∷ ("device", text dev_label)
        ∷ []);
    remediation = record {
      text =
          "Investigate WAL device contention; check device IO queue depth and storage tail latency.";
      knobs = "wal_sync_method" ∷ "synchronous_commit" ∷ [];
    };
    otel_attributes = BTreeMap.insert "pgsleuth.wal.device" (string dev_label) [];
  }

  -- One latency event of the ring buffer, with or without a metrics pipeline.
  unfoldable pub on_latency :
      Bool → Settings → RuleState → BlockIoLatencyEvent → RuleState × List (Effect x)
  unfolding op_class_str is_write
  on_latency metrics cfg s event = (
    if is_write event.op_class
        then record s { write_flush_samples_ns = s.write_flush_samples_ns ++ event.latency_ns ∷ [] }
        else s,
    if metrics
        then record_wal_io_latency event.latency_ns cfg.dev_label (op_class_str event.op_class) ∷ []
        else [],
  )

  -- `if let BreachState::JustFired { streak } = state`, with or without a log emitter.
  unfoldable pub report : Bool → Settings → DateTime → ℕ → BreachState → List (Effect x)
  report emitter cfg now p50_ms (just_fired streak) =
      let finding =
        build_finding now cfg.pg_instance cfg.dev_label p50_ms cfg.fsync_threshold_ms streak
          cfg.interval_ms in
      if emitter
      then emit finding ∷ info ("FINDING fired: " <> finding.summary) ∷ []
      else info ("FINDING fired: " <> finding.summary) ∷ []
  report emitter cfg now p50_ms _ = []

  -- One tick.
  unfoldable pub on_tick : Bool → Settings → RuleState → DateTime → RuleState × List (Effect x)
  unfolding tick_line
  on_tick emitter cfg s now =
      let p50_ns_opt = p50_ns s.write_flush_samples_ns in
      let p50_ms = unwrap_or p50_ns_opt 0 / 1000000 in
      let (counter', state) =
        observe s.counter (is_above (threshold_ns cfg) p50_ns_opt) cfg.fsync_fire_after in
      (
        record { write_flush_samples_ns = []; counter = counter' },
        info (
              tick_line s.write_flush_samples_ns p50_ns_opt (is_above (threshold_ns cfg) p50_ns_opt)
                state)
            ∷ report emitter cfg now p50_ms state,
      )
