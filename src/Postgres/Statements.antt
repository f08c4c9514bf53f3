-- ===== src/Postgres/Statements.antt =====
-- crates/pgsleuth-postgres/src/stat_statements.rs: the samples of `pg_stat_statements`, and
-- `pg_version::major` of crates/pgsleuth-postgres/src/lib.rs.
mod Tests
use pgsleuth.Base.{
  parse_u32, ℕ, ◌/◌, String, ◌<>◌, Option, List, map, ltb, if◌then◌else◌, ℤ, Result, ◌>>=◌, context,
  ok,
}
use mathlib.Core.Bool.{Bool}
use pgsleuth.Postgres.Activity.Poll.{clamp}

abbrev pub min_pg_version : ℕ
min_pg_version = 13

pub record StatementSample (F : Type 0) : Type 0 where
  pub queryid : ℤ
  pub database : String
  pub username : String
  pub calls : ℕ
  pub total_exec_time_ms : F
  pub rows : ℕ
  pub shared_blks_hit : ℕ
  pub shared_blks_read : ℕ

pub data ProbeOutcome : Type 0 where
  ready : ProbeOutcome
  extension_missing : ProbeOutcome
  pg_version_too_old : ℕ → ProbeOutcome

-- `pg_version::major`, on what `SHOW server_version_num` returns; the parse's context is a format of
-- the text that did not parse.
unfoldable pub major : Option String → Result ℕ
major query = context query "SHOW server_version_num failed" >>= (λ s.
    context (parse_u32 s) ("server_version_num=\"" <> s <> "\" did not parse")
    >>= (λ n. ok (n / 10000)))

-- `probe`, on the server's version and on whether the query for the extension returns its row.
unfoldable pub probe : Result ℕ → Bool → Result ProbeOutcome
probe version has_row = version >>= (λ major.
    if ltb major min_pg_version
    then ok (pg_version_too_old major)
    else if has_row
    then ok ready
    else ok extension_missing)

-- A row of the view.
pub record Row (F : Type 0) : Type 0 where
  pub queryid : ℤ
  pub database : String
  pub username : String
  pub calls : ℤ
  pub total_exec_time_ms : F
  pub rows : ℤ
  pub shared_blks_hit : ℤ
  pub shared_blks_read : ℤ

unfoldable pub to_sample : {F : Type 0} → Row F → StatementSample F
to_sample row = record {
  queryid = row.queryid;
  database = row.database;
  username = row.username;
  calls = clamp row.calls;
  total_exec_time_ms = row.total_exec_time_ms;
  rows = clamp row.rows;
  shared_blks_hit = clamp row.shared_blks_hit;
  shared_blks_read = clamp row.shared_blks_read;
}

unfoldable pub poll : {F : Type 0} → Option (List (Row F)) → Result (List (StatementSample F))
poll query = context query "pg_stat_statements query failed" >>= (λ rows. ok (map to_sample rows))
