-- ===== src/Cli/ConnectionStorm.antt =====
-- crates/pgsleuth-cli/src/connection_storm.rs: the polling half of the connection-storm alarm.
pub mod Alarms
mod Tests
use pgsleuth.Base.{
  to_string, ℕ, String, ◌<>◌, Bool, false, none, List, [], ◌∷◌, ◌++◌, ltb, if◌then◌else◌, Result,
  ok, err,
}
use pgsleuth.External.{External}
use pgsleuth.BTreeMap
use pgsleuth.BTreeMap.{text_key}
use pgsleuth.Core.Window.{
  ConsecutiveBreachCounter, BreachState, just_fired, default_counter, observe,
}
use pgsleuth.Core.Finding.{Finding, standard, high, unknown, bool, finding_schema_version}
use pgsleuth.Agent.{Effect, warn_error, fire}
use pgsleuth.Postgres.Activity.{SessionSnapshot}
use pgsleuth.Postgres.Activity.Poll.{Client, poll}

-- The arguments of `run` that its loop reads.
pub record Settings : Type 0 where
  pub interval_ms : ℕ
  pub backend_threshold : ℕ
  pub long_xact_threshold_seconds : ℕ
  pub fire_after : ℕ
  pub pg_instance_id : String

abbrev remediation_text : String
remediation_text =
    "Investigate connection pool sizing and any client retry storms. PG's process-per-connection model makes high concurrent counts expensive even when idle."

-- `snap.client_backends > backend_threshold`.
unfoldable pub is_breached : Settings → SessionSnapshot → Bool
is_breached cfg snap = ltb cfg.backend_threshold snap.client_backends

module _ (x : External) where
  open x use {DateTime, object, number, boolean}

  unfoldable pub build_finding : DateTime → String → ℕ → ℕ → ℕ → ℕ → Finding x
  build_finding now pg_instance backends threshold streak interval_ms = record {
    schema_version = finding_schema_version;
    rule_id = "storage.conn.storm";
    rule_version = 1;
    tier = standard;
    severity = high;
    fired_at = now;
    pg_instance = record { id = pg_instance; db_name = none; role = unknown };
    summary =
        "Client backend count "
        <> to_string backends
        <> " > "
        <> to_string threshold
        <> " for "
        <> to_string streak
        <> " consecutive "
        <> to_string interval_ms
        <> "ms intervals (eBPF churn signal pending)";
    evidence = object (
        ("client_backends", number backends)
        ∷ ("backend_threshold", number threshold)
        ∷ ("streak_intervals", number streak)
        ∷ ("interval_ms", number interval_ms)
        ∷ ("churn_observed", boolean false)
        ∷ []);
    remediation = record {
      text = remediation_text;
      knobs = "max_connections" ∷ "tcp_keepalives_idle" ∷ "tcp_keepalives_interval" ∷ [];
    };
    otel_attributes = BTreeMap.insert "pgsleuth.conn.churn_observed" (bool false) [];
  }

  -- `if let BreachState::JustFired { streak } = state`.
  unfoldable pub report :
      Bool → Settings → DateTime → SessionSnapshot → BreachState → List (Effect x)
  report emitter cfg now snap (just_fired streak) = fire emitter (
      build_finding now cfg.pg_instance_id snap.client_backends cfg.backend_threshold streak
        cfg.interval_ms)
  report emitter cfg now snap _ = []

  -- One round of the loop, on what the poll returned.
  unfoldable pub tick :
      Bool
      → Settings
      → ConsecutiveBreachCounter
      → DateTime
      → Result SessionSnapshot
      → ConsecutiveBreachCounter × List (Effect x)
  tick emitter cfg counter now (err e) =
      (counter, warn_error e "pg_stat_activity poll failed; skipping tick" ∷ [])
  tick emitter cfg counter now (ok snap) =
      let (counter', state) = observe counter (is_breached cfg snap) cfg.fire_after in
      (counter', report emitter cfg now snap state)

  -- The loop, over the rounds that the poller lives.
  unfoldable pub run_from :
      Bool → Settings → ConsecutiveBreachCounter → List (DateTime × Client) → List (Effect x)
  run_from emitter cfg counter [] = []
  run_from emitter cfg counter ((now, client) ∷ rounds) =
      let (counter', es) =
        tick emitter cfg counter now (poll client cfg.long_xact_threshold_seconds) in
      es ++ run_from emitter cfg counter' rounds

  -- `run`: the connection comes first, and an error there ends it.
  unfoldable pub run :
      Bool → String → Settings → Bool → List (DateTime × Client) → Result (List (Effect x))
  run emitter pg_conn cfg connects rounds =
      if connects
      then ok (run_from emitter cfg default_counter rounds)
      else err ("Failed to connect to Postgres at " <> pg_conn)
