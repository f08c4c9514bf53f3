-- ===== src/Otel/Metrics.antt =====
-- crates/pgsleuth-otel/src/metrics.rs: the metrics pipeline and its instruments.
pub mod Series
use pgsleuth.Base.{
  ℕ, String, Option, none, some, List, [], ◌∷◌, if◌then◌else◌, ℤ, Result, ◌>>=◌, context, ok,
}
use pgsleuth.Base.Decimal.Signed.{int_to_string}
use pgsleuth.External.{External}
use pgsleuth.Otel.Mapping.{OpenTelemetry}
use pgsleuth.Otel.Emitter.{EmitterConfig}

abbrev pub metrics_scope : String
metrics_scope = "pgsleuth"

-- What is handed to the metrics pipeline for a statement.
pub record PgStmtDelta : Type 0 where
  pub queryid : ℤ
  pub database : String
  pub username : String
  pub calls : ℕ
  pub exec_time_ms : ℕ
  pub rows : ℕ
  pub blks_hit : ℕ
  pub blks_read : ℕ

-- An instrument, as it is asked of the meter.
pub record Instrument : Type 0 where
  pub scope : String
  pub name : String
  pub description : String
  pub unit : Option String

abbrev pub instrument : String → String → Option String → Instrument
instrument name description unit = record {
  scope = metrics_scope;
  name = name;
  description = description;
  unit = unit;
}

module _ (x : External) (o : OpenTelemetry x) where
  open o use {Value, value_string}

  pub record MetricsEmitter : Type 0 where
    pub provider : o.SdkMeterProvider
    pub wal_io_latency : Instrument
    pub pg_stmt_calls : Instrument
    pub pg_stmt_exec_time_ms : Instrument
    pub pg_stmt_rows : Instrument
    pub pg_stmt_blks_hit : Instrument
    pub pg_stmt_blks_read : Instrument

  -- The instruments of `try_new`.
  unfoldable pub with_provider : o.SdkMeterProvider → MetricsEmitter
  with_provider provider = record {
    provider = provider;
    wal_io_latency =
        instrument "pgsleuth.wal.io.latency"
          "Per-IO latency on the WAL device, in nanoseconds. Attributes: device (kernel dev_t), op (read|write|write_flush|other)."
          (some "ns");
    pg_stmt_calls =
        instrument "pgsleuth.pg.stmt.calls" "pg_stat_statements.calls (delta since previous poll)."
          none;
    pg_stmt_exec_time_ms =
        instrument "pgsleuth.pg.stmt.total_exec_time_ms"
          "pg_stat_statements.total_exec_time delta since previous poll." (some "ms");
    pg_stmt_rows =
        instrument "pgsleuth.pg.stmt.rows" "pg_stat_statements.rows (delta since previous poll)."
          none;
    pg_stmt_blks_hit =
        instrument "pgsleuth.pg.stmt.shared_blks_hit"
          "pg_stat_statements.shared_blks_hit (delta since previous poll)." none;
    pg_stmt_blks_read =
        instrument "pgsleuth.pg.stmt.shared_blks_read"
          "pg_stat_statements.shared_blks_read (delta since previous poll)." none;
  }

  -- The export period and the timeout are in seconds.
  unfoldable pub try_new : EmitterConfig x → Result MetricsEmitter
  unfolding with_provider
  try_new config =
      context (o.build_metrics config.otlp_endpoint 1 3) "failed to install `OTLP` metrics pipeline"
      >>= (λ provider. ok (with_provider provider))

  -- A call of an instrument, with its attributes.
  pub data Call : Type 0 where
    add : Instrument → ℕ → List (String × Value) → Call
    record_value : Instrument → ℕ → List (String × Value) → Call

  -- The attributes of a statement's series.
  unfoldable pub statement_attrs : PgStmtDelta → List (String × Value)
  statement_attrs delta =
      ("pgsleuth.pg.queryid", value_string (int_to_string delta.queryid))
      ∷ ("db.name", value_string delta.database)
      ∷ ("pgsleuth.pg.user", value_string delta.username)
      ∷ []

  unfoldable pub record_pg_stmt_delta : MetricsEmitter → PgStmtDelta → List Call
  record_pg_stmt_delta m delta =
      let attrs = statement_attrs delta in
      add m.pg_stmt_calls delta.calls attrs
      ∷ add m.pg_stmt_exec_time_ms delta.exec_time_ms attrs
      ∷ add m.pg_stmt_rows delta.rows attrs
      ∷ add m.pg_stmt_blks_hit delta.blks_hit attrs
      ∷ add m.pg_stmt_blks_read delta.blks_read attrs
      ∷ []

  unfoldable pub record_wal_io_latency : MetricsEmitter → ℕ → String → String → Call
  record_wal_io_latency m latency_ns device op =
      record_value m.wal_io_latency latency_ns
        (("device", value_string device) ∷ ("op", value_string op) ∷ [])

  -- The line that the log gets of a provider that does not shut down.
  unfoldable pub shutdown : MetricsEmitter → List String
  shutdown m =
      if o.meter_shutdown m.provider
      then []
      else "OTel meter provider shutdown reported an error" ∷ []
