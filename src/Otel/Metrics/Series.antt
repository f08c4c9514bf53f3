-- ===== src/Otel/Metrics/Series.antt =====
-- The series that the counters of the statements make.
use pgsleuth.Base.{
  ℕ, ◌+◌, String, ◌≡◌, false, ◌&&◌, ◌||◌, List, [], ◌∷◌, ◌++◌, arith, if◌then◌else◌, str_eq, ℤ,
}
use mathlib.Core.Bool.{Bool}
use pgsleuth.External.{External}
use pgsleuth.Base.Decimal.Signed.{int_to_string, str_eq-int_to_string}
use pgsleuth.BTreeMap.{key_eq, int_key, int_cmp_eq_iff}
use pgsleuth.Otel.Mapping.{OpenTelemetry}
use pgsleuth.Otel.Metrics.{
  Call, add, record_value, statement_attrs, record_pg_stmt_delta, PgStmtDelta, with_provider,
}

-- The counters of a statement.
pub data Counter : Type 0 where
  calls exec_time_ms rows blks_hit blks_read : Counter

-- The part of a delta that a counter adds.
abbrev pub reported : Counter → PgStmtDelta → ℕ
reported calls d = d.calls
reported exec_time_ms d = d.exec_time_ms
reported rows d = d.rows
reported blks_hit d = d.blks_hit
reported blks_read d = d.blks_read

abbrev pub metric_name : Counter → String
metric_name calls = "pgsleuth.pg.stmt.calls"
metric_name exec_time_ms = "pgsleuth.pg.stmt.total_exec_time_ms"
metric_name rows = "pgsleuth.pg.stmt.rows"
metric_name blks_hit = "pgsleuth.pg.stmt.shared_blks_hit"
metric_name blks_read = "pgsleuth.pg.stmt.shared_blks_read"

module _ (x : External) (o : OpenTelemetry x) where
  -- Whether an attribute with this key shows this text.
  abbrev pub has_attribute : String → String → List (String × o.Value) → Bool
  has_attribute k t [] = false
  has_attribute k t ((j, v) ∷ attrs) =
      (str_eq j k && str_eq (o.as_str v) t) || has_attribute k t attrs

  -- What the calls add to the counter of this name in the series of a query.
  abbrev pub counter_total : String → ℤ → List (Call x o) → ℕ
  counter_total name q [] = 0
  counter_total name q (record_value i n attrs ∷ cs) = counter_total name q cs
  counter_total name q (add i n attrs ∷ cs) =
      let rest = counter_total name q cs in
      if str_eq i.name name && has_attribute "pgsleuth.pg.queryid" (int_to_string q) attrs
      then n + rest
      else rest

  pub counter_total-append :
      (name : String) (q : ℤ) (xs ys : List (Call x o))
      → counter_total name q (xs ++ ys) ≡ counter_total name q xs + counter_total name q ys
  counter_total-append name q [] ys = omega arith
  counter_total-append name q (record_value i n attrs ∷ xs) ys = counter_total-append name q xs ys
  counter_total-append name q (add i n attrs ∷ xs) ys =
      ground (arith, counter_total-append name q xs ys)

  -- The series of a delta is that of its query.
  has_attribute-statement_attrs :
      (q : ℤ) (d : PgStmtDelta)
      → has_attribute "pgsleuth.pg.queryid" (int_to_string q) (statement_attrs x o d)
        ≡ key_eq d.queryid q
  unfolding statement_attrs str_eq
  has_attribute-statement_attrs q d =
      rw (o.as_str-string (int_to_string d.queryid))
        (ground (arith, str_eq-int_to_string d.queryid q, int_cmp_eq_iff d.queryid q))

  pub counter_total-record :
      (p : o.SdkMeterProvider) (c : Counter) (q : ℤ) (d : PgStmtDelta)
      → counter_total (metric_name c) q (record_pg_stmt_delta x o (with_provider x o p) d)
        ≡ (if key_eq d.queryid q then reported c d else 0)
  unfolding record_pg_stmt_delta with_provider str_eq
  counter_total-record p calls q d = ground (arith, has_attribute-statement_attrs q d)
  counter_total-record p exec_time_ms q d = ground (arith, has_attribute-statement_attrs q d)
  counter_total-record p rows q d = ground (arith, has_attribute-statement_attrs q d)
  counter_total-record p blks_hit q d = ground (arith, has_attribute-statement_attrs q d)
  counter_total-record p blks_read q d = ground (arith, has_attribute-statement_attrs q d)
