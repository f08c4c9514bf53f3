-- ===== src/Cli/CollectStatements/Exported.antt =====
-- What the metrics pipeline gets of a query's deltas.
use pgsleuth.Base.{
  ◌≡◌, refl, inl, inr, true, Option, List, [], ◌∷◌, ◌++◌, arith, Option-cases, ℤ, ok,
}
use pgsleuth.External.{External}
use pgsleuth.Float.{Float}
use pgsleuth.BTreeMap.{int_key}
use pgsleuth.Postgres.Statements.{Row}
use pgsleuth.Otel.Mapping.{OpenTelemetry}
use pgsleuth.Otel.Emitter.{EmitterConfig}
use pgsleuth.Otel.Metrics.{
  PgStmtDelta, MetricsEmitter, Call, with_provider, record_pg_stmt_delta, try_new,
}
use pgsleuth.Otel.Metrics.Series.{
  Counter, metric_name, counter_total, counter_total-append, counter_total-record,
}
use pgsleuth.Cli.CollectStatements.{run_from}
use pgsleuth.Cli.CollectStatements.Deltas.{
  reported_of, sum, last, values_of, samples_of, IsAscending, run_from-telescopes,
}

module _ (x : External) (o : OpenTelemetry x) where
  -- The calls of `record_pg_stmt_delta` that `emit_deltas` makes.
  unfoldable pub record_all : MetricsEmitter x o → List PgStmtDelta → List (Call x o)
  record_all m [] = []
  record_all m (d ∷ ds) = record_pg_stmt_delta x o m d ++ record_all m ds

  counter_total-record_all :
      (p : o.SdkMeterProvider) (c : Counter) (q : ℤ) (ds : List PgStmtDelta)
      → counter_total x o (metric_name c) q (record_all (with_provider x o p) ds)
        ≡ sum (reported_of c q ds)
  unfolding record_all
  counter_total-record_all p c q [] = refl
  counter_total-record_all p c q (d ∷ ds) = ground (
    arith,
    counter_total-append x o (metric_name c) q (record_pg_stmt_delta x o (with_provider x o p) d)
        (record_all (with_provider x o p) ds),
    counter_total-record x o p c q d,
    counter_total-record_all p c q ds,
  )

  -- The emitter that a set-up gives has the instruments of a provider.
  try_new-with_provider :
      (config : EmitterConfig x) (m : MetricsEmitter x o)
      → try_new x o config ≡ ok m
      → (p : o.SdkMeterProvider) × (m ≡ with_provider x o p)
  unfolding try_new
  try_new-with_provider config m h =
      elim (Option-cases (o.build_metrics config.otlp_endpoint 1 3)) [
        | inl e ↦ absurd (ground (arith, e))
        | inr (p, e) ↦ (p, ground (arith, e, h))
      ]

module _ (x : External) (o : OpenTelemetry x) (f : Float x.F64) where
  -- With the emitter of a set-up that succeeds: if a counter of a query never falls from one of its samples to the next, the calls that the loop makes of the instruments add its latest value, in sum, to the counter of its name in the series of that query.
  pub run_from-exported :
      (config : EmitterConfig x) (m : MetricsEmitter x o) (c : Counter) (q : ℤ)
      (rounds : List (Option (List (Row x.F64))))
      → try_new x o config ≡ ok m
      → IsAscending 0 (values_of f c q (samples_of f rounds))
      → counter_total x o (metric_name c) q (record_all x o m (run_from f true [] rounds))
        ≡ last 0 (values_of f c q (samples_of f rounds))
  run_from-exported config m c q rounds made h =
      let (p, e) = try_new-with_provider x o config m made in
      rw (e, counter_total-record_all x o p c q (run_from f true [] rounds))
        (run_from-telescopes f c q rounds h)
