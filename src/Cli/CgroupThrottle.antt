-- ===== src/Cli/CgroupThrottle.antt =====
-- crates/pgsleuth-cli/src/cgroup_throttle.rs: the poller of a cgroup's `cpu.stat`.
pub mod RoundTrip
pub mod Alarms
mod Tests
use pgsleuth.Base.{
  to_string, parse_u64, ℕ, String, ◌<>◌, false, Option, none, some, List, [], ◌∷◌, ◌++◌, ltb,
  if◌then◌else◌, str_eq, saturating_sub, checked_div, unwrap_or, lines, split_whitespace, Result,
  ◌>>=◌, context, ok, err,
}
use mathlib.Core.Bool.{Bool}
use pgsleuth.External.{External}
use pgsleuth.BTreeMap
use pgsleuth.BTreeMap.{text_key}
use pgsleuth.Core.Window.{
  ConsecutiveBreachCounter, BreachState, just_fired, default_counter, observe,
}
use pgsleuth.Core.Finding.{Finding, standard, high, unknown, bool, finding_schema_version}
use pgsleuth.Agent.{Effect, warn_error, fire}

pub record CpuStat : Type 0 where
  pub nr_periods : ℕ  -- u64
  pub nr_throttled : ℕ  -- u64
  pub throttled_usec : ℕ  -- u64

-- `CpuStat::default()`.
abbrev pub default_stat : CpuStat
default_stat = record { nr_periods = 0; nr_throttled = 0; throttled_usec = 0 }

-- `match key`.
unfoldable pub set_field : String → ℕ → CpuStat → CpuStat
set_field key n out =
    if str_eq key "nr_periods"
    then record out { nr_periods = n }
    else if str_eq key "nr_throttled"
    then record out { nr_throttled = n }
    else if str_eq key "throttled_usec"
    then record out { throttled_usec = n }
    else out

-- The field that a value sets, if it is a number.
unfoldable pub set_parsed : String → Option ℕ → CpuStat → CpuStat
unfolding set_field
set_parsed key none out = out
set_parsed key (some n) out = set_field key n out

-- One line, split into words.
unfoldable pub parse_words : List String → CpuStat → CpuStat
unfolding set_parsed
parse_words [] out = out
parse_words (key ∷ []) out = out
parse_words (key ∷ val ∷ others) out = set_parsed key (parse_u64 val) out

unfoldable pub parse_lines : List String → CpuStat → CpuStat
unfolding parse_words
parse_lines [] out = out
parse_lines (line ∷ later) out = parse_lines later (parse_words (split_whitespace line) out)

unfoldable pub parse : String → CpuStat
unfolding parse_lines
parse s = parse_lines (lines s) default_stat

-- `read_cpu_stat`, on what reading the file returns.
unfoldable pub read_cpu_stat : String → Option String → Result CpuStat
unfolding parse
read_cpu_stat path file = context file ("failed to read " <> path) >>= (λ s. ok (parse s))

pub record BreachValue : Type 0 where
  pub throttled_usec_delta : ℕ
  pub throttled_ms_per_sec : ℕ
  pub periods_delta : ℕ
  pub throttled_periods_delta : ℕ

unfoldable pub breach_value : Option CpuStat → CpuStat → ℕ → Option BreachValue
breach_value none cur interval_ms = none
breach_value (some p) cur interval_ms =
    let throttled_usec_delta = saturating_sub cur.throttled_usec p.throttled_usec in
    some (record {
      throttled_usec_delta = throttled_usec_delta;
      throttled_ms_per_sec = unwrap_or (checked_div throttled_usec_delta interval_ms) 0;
      periods_delta = saturating_sub cur.nr_periods p.nr_periods;
      throttled_periods_delta = saturating_sub cur.nr_throttled p.nr_throttled;
    })

-- The arguments of `run` that its loop reads.
pub record Settings : Type 0 where
  pub cpu_stat_path : String
  pub interval_ms : ℕ
  pub throttled_ms_per_sec_threshold : ℕ
  pub fire_after : ℕ
  pub pg_instance_id : String

-- `breach.is_some_and(|b| b.throttled_ms_per_sec > threshold)`.
unfoldable pub is_breached : Settings → Option BreachValue → Bool
is_breached cfg none = false
is_breached cfg (some b) = ltb cfg.throttled_ms_per_sec_threshold b.throttled_ms_per_sec

abbrev remediation_text : String
remediation_text =
    "Raise the cgroup's CFS CPU quota or migrate to a node with more CPU headroom. Latency spikes correlated with throttle windows are root-cause; inside-PG metrics will look healthy."

module _ (x : External) where
  open x use {DateTime, object, number, boolean}

  unfoldable pub build_finding : DateTime → String → BreachValue → ℕ → ℕ → ℕ → Finding x
  build_finding now pg_instance b threshold streak interval_ms = record {
    schema_version = finding_schema_version;
    rule_id = "cpu.cgroup.throttle";
    rule_version = 1;
    tier = standard;
    severity = high;
    fired_at = now;
    pg_instance = record { id = pg_instance; db_name = none; role = unknown };
    summary =
        "Cgroup throttled "
        <> to_string b.throttled_ms_per_sec
        <> "ms/sec > "
        <> to_string threshold
        <> "ms/sec threshold for "
        <> to_string streak
        <> " consecutive "
        <> to_string interval_ms
        <> "ms intervals";
    evidence = object (
        ("throttled_ms_per_sec", number b.throttled_ms_per_sec)
        ∷ ("throttled_usec_delta", number b.throttled_usec_delta)
        ∷ ("periods_delta", number b.periods_delta)
        ∷ ("throttled_periods_delta", number b.throttled_periods_delta)
        ∷ ("threshold_ms_per_sec", number threshold)
        ∷ ("streak_intervals", number streak)
        ∷ ("interval_ms", number interval_ms)
        ∷ ("eBPF_correlation", boolean false)
        ∷ []);
    remediation = record { text = remediation_text; knobs = "cpu.max" ∷ "limits.cpu (K8s)" ∷ [] };
    otel_attributes = BTreeMap.insert "pgsleuth.cgroup.throttle.eBPF_correlation" (bool false) [];
  }

  -- `if let BreachState::JustFired { streak } = state`; with no value to report, the tick ends.
  unfoldable pub report :
      Bool → Settings → DateTime → Option BreachValue → BreachState → List (Effect x)
  report emitter cfg now none (just_fired streak) = []
  report emitter cfg now (some b) (just_fired streak) = fire emitter (
      build_finding now cfg.pg_instance_id b cfg.throttled_ms_per_sec_threshold streak
        cfg.interval_ms)
  report emitter cfg now breach _ = []

  -- The variables of the loop.
  pub record Loop : Type 0 where
    pub counter : ConsecutiveBreachCounter
    pub prev : Option CpuStat

  -- One round of the loop, on what reading the file gave.
  unfoldable pub tick : Bool → Settings → Loop → DateTime → Result CpuStat → Loop × List (Effect x)
  tick emitter cfg l now (err e) = (l, warn_error e "cpu.stat read failed; skipping tick" ∷ [])
  tick emitter cfg l now (ok cur) =
      let breach = breach_value l.prev cur cfg.interval_ms in
      let (counter', state) = observe l.counter (is_breached cfg breach) cfg.fire_after in
      (record { counter = counter'; prev = some cur }, report emitter cfg now breach state)

  unfoldable pub run_from :
      Bool → Settings → Loop → List (DateTime × Option String) → List (Effect x)
  run_from emitter cfg l [] = []
  run_from emitter cfg l ((now, file) ∷ rounds) =
      let (l', es) = tick emitter cfg l now (read_cpu_stat cfg.cpu_stat_path file) in
      es ++ run_from emitter cfg l' rounds

  -- `run`, over the rounds that the poller lives.
  unfoldable pub run : Bool → Settings → List (DateTime × Option String) → List (Effect x)
  run emitter cfg rounds =
      run_from emitter cfg (record { counter = default_counter; prev = none }) rounds
