-- ===== src/Cli/CollectStatements.antt =====
-- crates/pgsleuth-cli/src/collect_pg_stmt.rs: the deltas of `pg_stat_statements`.
pub mod Deltas
pub mod Exported
mod Tests
use pgsleuth.Base.{
  to_string, ℕ, String, ◌<>◌, not, Option, List, [], ◌∷◌, ◌++◌, if◌then◌else◌, u64_max,
  saturating_sub, unwrap_or, ℤ, Result, ◌>>=◌, ok, err,
}
use mathlib.Core.Bool.{Bool}
use pgsleuth.Float.{Float}
use pgsleuth.Otel.Metrics.{PgStmtDelta}
use pgsleuth.BTreeMap
use pgsleuth.BTreeMap.{BTreeMap, int_key}
use pgsleuth.Postgres.Statements.{
  StatementSample, ProbeOutcome, ready, extension_missing, pg_version_too_old, min_pg_version, Row,
  poll, probe,
}

pub record PrevCumulative : Type 0 where
  pub calls : ℕ
  pub total_exec_time_ms : ℕ
  pub rows : ℕ
  pub shared_blks_hit : ℕ
  pub shared_blks_read : ℕ

-- `PrevCumulative::default()`.
abbrev pub default_cumulative : PrevCumulative
default_cumulative = record {
  calls = 0;
  total_exec_time_ms = 0;
  rows = 0;
  shared_blks_hit = 0;
  shared_blks_read = 0;
}

unfoldable pub delta : ℕ → ℕ → ℕ
delta cur prev = saturating_sub cur prev

module _ {F : Type 0} (f : Float F) where
  unfoldable pub f64_clamp_to_u64 : F → ℕ
  f64_clamp_to_u64 v =
      if not (f.is_finite v) then u64_max else if f.le v f.zero then 0 else f.floor_u64 v

  unfoldable pub cumulative_of : StatementSample F → PrevCumulative
  unfolding f64_clamp_to_u64
  cumulative_of s = record {
    calls = s.calls;
    total_exec_time_ms = f64_clamp_to_u64 s.total_exec_time_ms;
    rows = s.rows;
    shared_blks_hit = s.shared_blks_hit;
    shared_blks_read = s.shared_blks_read;
  }

  -- What a sample reports against the values before it.
  unfoldable pub delta_of : StatementSample F → PrevCumulative → PgStmtDelta
  unfolding delta cumulative_of
  delta_of s previous =
      let cur = cumulative_of s in
      record {
        queryid = s.queryid;
        database = s.database;
        username = s.username;
        calls = delta cur.calls previous.calls;
        exec_time_ms = delta cur.total_exec_time_ms previous.total_exec_time_ms;
        rows = delta cur.rows previous.rows;
        blks_hit = delta cur.shared_blks_hit previous.shared_blks_hit;
        blks_read = delta cur.shared_blks_read previous.shared_blks_read;
      }

  -- The loop of `emit_deltas`, with what it hands to `record_pg_stmt_delta`; the hash map of the values before is the map of BTreeMap, whose order
  -- is not read here, and the line in the log is left out.
  unfoldable pub emit_deltas :
      Bool
      → List (StatementSample F)
      → BTreeMap ℤ PrevCumulative
      → BTreeMap ℤ PrevCumulative × List PgStmtDelta
  unfolding delta_of cumulative_of
  emit_deltas emitter [] prev = (prev, [])
  emit_deltas emitter (s ∷ samples) prev =
      let previous = unwrap_or (BTreeMap.get s.queryid prev) default_cumulative in
      let (prev', ds) =
        emit_deltas emitter samples (BTreeMap.insert s.queryid (cumulative_of s) prev) in
      (prev', if emitter then delta_of s previous ∷ ds else ds)

  -- One round of the loop; a poll that fails is skipped.
  unfoldable pub tick :
      Bool
      → Result (List (StatementSample F))
      → BTreeMap ℤ PrevCumulative
      → BTreeMap ℤ PrevCumulative × List PgStmtDelta
  unfolding emit_deltas
  tick emitter (err e) prev = (prev, [])
  tick emitter (ok samples) prev = emit_deltas emitter samples prev

  unfoldable pub run_from :
      Bool → BTreeMap ℤ PrevCumulative → List (Option (List (Row F))) → List PgStmtDelta
  unfolding tick
  run_from emitter prev [] = []
  run_from emitter prev (query ∷ rounds) =
      let (prev', ds) = tick emitter (poll query) prev in ds ++ run_from emitter prev' rounds

  -- What the probe decides.
  unfoldable pub start :
      Bool → List (Option (List (Row F))) → ProbeOutcome → Result (List PgStmtDelta)
  unfolding run_from
  start emitter rounds ready = ok (run_from emitter [] rounds)
  start emitter rounds extension_missing = err "pg_stat_statements not installed"
  start emitter rounds (pg_version_too_old actual) =
      err ("PG " <> to_string actual <> " below collector minimum " <> to_string min_pg_version)

  unfoldable pub run :
      Bool
      → String
      → Bool
      → Result ℕ
      → Bool
      → List (Option (List (Row F)))
      → Result (List PgStmtDelta)
  unfolding start
  run emitter pg_conn connects version has_row rounds =
      if connects
      then probe version has_row >>= start emitter rounds
      else err ("Failed to connect to Postgres at " <> pg_conn)
