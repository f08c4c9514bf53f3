-- ===== src/Cli/CollectStatements/Tests.antt =====
-- Rounds of concrete rows, and the theorems at concrete inputs.
use pgsleuth.Base.{ℕ, String, ◌≡◌, refl, true, Option, none, some, List, [], ◌∷◌, arith, pos}
use pgsleuth.Float.Example.{halves}
use pgsleuth.Otel.Metrics.Series.{calls, counter_total}
use pgsleuth.BTreeMap
use pgsleuth.External.Example.{example}
use pgsleuth.Otel.Mapping.Example.{sdk}
use pgsleuth.Otel.Emitter.{EmitterConfig}
use pgsleuth.Otel.Metrics.{with_provider, try_new}
use pgsleuth.Cli.CollectStatements.Exported.{record_all, run_from-exported}
use pgsleuth.Postgres.Activity.Poll.{clamp}
use pgsleuth.Postgres.Statements.{Row, poll, to_sample}
use pgsleuth.Cli.CollectStatements.{
  run_from, tick, emit_deltas, delta_of, delta, cumulative_of, f64_clamp_to_u64,
}
use pgsleuth.Cli.CollectStatements.Deltas.{
  reported_of, differences, values_of, samples_of, last, run_from-differences,
}

abbrev row : String → ℕ → Row ℕ
row username n = record {
  queryid = pos 7;
  database = "app";
  username = username;
  calls = pos n;
  total_exec_time_ms = n;
  rows = pos 0;
  shared_blks_hit = pos 0;
  shared_blks_read = pos 0;
}

-- A poll that fails between two that succeed.
abbrev rounds : List (Option (List (Row ℕ)))
rounds = some (row "app" 3 ∷ []) ∷ none ∷ some (row "app" 10 ∷ []) ∷ []

-- The values of the rounds' query, by its rows.
call_values : values_of halves calls (pos 7) (samples_of halves rounds) ≡ 3 ∷ 10 ∷ []
unfolding poll to_sample clamp cumulative_of
call_values = refl

run_from-differences_example :
    reported_of calls (pos 7) (run_from halves true [] rounds)
    ≡ differences 0 (values_of halves calls (pos 7) (samples_of halves rounds))
run_from-differences_example = run_from-differences halves calls (pos 7) rounds

-- Two users run one query: the rows share a queryid, and a round in which nothing ran reports calls.
abbrev two_users : List (Row ℕ)
two_users = row "app" 100 ∷ row "batch" 10 ∷ []

overcount :
    reported_of calls (pos 7) (run_from halves true [] (some two_users ∷ some two_users ∷ []))
    ≡ 100 ∷ 0 ∷ 90 ∷ 0 ∷ []
unfolding run_from tick emit_deltas delta_of delta cumulative_of f64_clamp_to_u64 poll to_sample
    clamp BTreeMap.get BTreeMap.insert
overcount = refl

abbrev pipeline : EmitterConfig example
pipeline = record {
  otlp_endpoint = "http://localhost:4317";
  service_name = "pgsleuth-agent";
  resource_attributes = [];
}

-- The calls of the two samples add up to the later one.
run_from-exported_example :
    counter_total example sdk "pgsleuth.pg.stmt.calls" (pos 7) (
      record_all example sdk
        (with_provider example sdk "http://localhost:4317")
        (run_from halves true [] rounds))
    ≡ last 0 (values_of halves calls (pos 7) (samples_of halves rounds))
unfolding poll to_sample clamp cumulative_of try_new
run_from-exported_example =
    run_from-exported example sdk halves pipeline
      (with_provider example sdk "http://localhost:4317") calls (pos 7) rounds refl
      (omega arith, (omega arith, tt))
