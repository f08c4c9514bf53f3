-- ===== src/Cli/CollectStatements/Deltas.antt =====
-- What the reported deltas of a query add up to.
use pgsleuth.Base.{
  ℕ, ◌+◌, ◌-◌, ◌≤◌, ◌≡◌, refl, ap, true, Option, List, [], ◌∷◌, ◌++◌, arith, if◌then◌else◌,
  unwrap_or, ℤ, Result, from_ok, ok, err,
}
use pgsleuth.Float.{Float}
use pgsleuth.Otel.Metrics.{PgStmtDelta}
use pgsleuth.BTreeMap
use pgsleuth.BTreeMap.{BTreeMap, int_key, key_eq, int_cmp_eq_iff}
use pgsleuth.Postgres.Statements.{StatementSample, Row, poll}
use pgsleuth.Cli.CollectStatements.{
  PrevCumulative, default_cumulative, cumulative_of, delta_of, emit_deltas, delta, tick, run_from,
}
use pgsleuth.Otel.Metrics.Series.{Counter, calls, exec_time_ms, rows, blks_hit, blks_read, reported}

abbrev pub cumulative : Counter → PrevCumulative → ℕ
cumulative calls p = p.calls
cumulative exec_time_ms p = p.total_exec_time_ms
cumulative rows p = p.rows
cumulative blks_hit p = p.shared_blks_hit
cumulative blks_read p = p.shared_blks_read

-- The deltas reported of a query.
abbrev pub reported_of : Counter → ℤ → List PgStmtDelta → List ℕ
reported_of c q [] = []
reported_of c q (d ∷ ds) =
    let rest = reported_of c q ds in if key_eq d.queryid q then reported c d ∷ rest else rest

-- How far a counter rises from one value to the next.
abbrev pub differences : ℕ → List ℕ → List ℕ
differences p [] = []
differences p (v ∷ vs) = (v - p) ∷ differences v vs

abbrev pub sum : List ℕ → ℕ
sum [] = 0
sum (v ∷ vs) = v + sum vs

abbrev pub last : ℕ → List ℕ → ℕ
last p [] = p
last p (v ∷ vs) = last v vs

-- A counter that does not fall.
abbrev pub IsAscending : ℕ → List ℕ → Type 0
IsAscending p [] = Unit
IsAscending p (v ∷ vs) = (p ≤ v) × IsAscending v vs

sum-ascending : (p : ℕ) (vs : List ℕ) → IsAscending p vs → p + sum (differences p vs) ≡ last p vs
sum-ascending p [] h = omega arith
sum-ascending p (v ∷ vs) (le, h) = omega (arith, sum-ascending v vs h)

reported_of-append :
    (c : Counter) (q : ℤ) (xs ys : List PgStmtDelta)
    → reported_of c q (xs ++ ys) ≡ reported_of c q xs ++ reported_of c q ys
reported_of-append c q [] ys = refl
reported_of-append c q (x ∷ xs) ys = ground (arith, reported_of-append c q xs ys)

module _ {F : Type 0} (f : Float F) where
  -- The values of a query's counter, in the order of the samples.
  abbrev pub values_of : Counter → ℤ → List (StatementSample F) → List ℕ
  values_of c q [] = []
  values_of c q (s ∷ samples) =
      let rest = values_of c q samples in
      if key_eq s.queryid q then cumulative c (cumulative_of f s) ∷ rest else rest

  -- The samples of the polls that succeed.
  abbrev pub samples_of : List (Option (List (Row F))) → List (StatementSample F)
  samples_of [] = []
  samples_of (query ∷ rounds) = from_ok [] (poll query) ++ samples_of rounds

  reported-delta_of :
      (c : Counter) (s : StatementSample F) (previous : PrevCumulative)
      → reported c (delta_of f s previous)
        ≡ cumulative c (cumulative_of f s) - cumulative c previous
  unfolding delta_of delta
  reported-delta_of calls s previous = refl
  reported-delta_of exec_time_ms s previous = refl
  reported-delta_of rows s previous = refl
  reported-delta_of blks_hit s previous = refl
  reported-delta_of blks_read s previous = refl

  delta_of-queryid :
      (s : StatementSample F) (previous : PrevCumulative)
      → (delta_of f s previous).queryid ≡ s.queryid
  unfolding delta_of
  delta_of-queryid s previous = refl

  -- The value of a counter before a sample.
  abbrev before : Counter → ℤ → BTreeMap ℤ PrevCumulative → ℕ
  before c q prev = cumulative c (unwrap_or (BTreeMap.get q prev) default_cumulative)

  emit_deltas-differences :
      (c : Counter) (q : ℤ) (samples : List (StatementSample F)) (prev : BTreeMap ℤ PrevCumulative)
      → reported_of c q (emit_deltas f true samples prev).1
        ≡ differences (before c q prev) (values_of c q samples)
  unfolding emit_deltas
  emit_deltas-differences c q [] prev = refl
  emit_deltas-differences c q (s ∷ samples) prev = ground (
    arith,
    int_cmp_eq_iff s.queryid q,
    delta_of-queryid s (unwrap_or (BTreeMap.get s.queryid prev) default_cumulative),
    reported-delta_of c s (unwrap_or (BTreeMap.get s.queryid prev) default_cumulative),
    BTreeMap.get-insert s.queryid q (cumulative_of f s) prev,
    emit_deltas-differences c q samples (BTreeMap.insert s.queryid (cumulative_of f s) prev),
  )

  emit_deltas-append :
      (xs ys : List (StatementSample F)) (prev : BTreeMap ℤ PrevCumulative)
      → (emit_deltas f true (xs ++ ys) prev).1
        ≡ (emit_deltas f true xs prev).1 ++ (emit_deltas f true ys (emit_deltas f true xs prev).0).1
  unfolding emit_deltas
  emit_deltas-append [] ys prev = refl
  emit_deltas-append (s ∷ xs) ys prev =
      ap (◌∷◌ (delta_of f s (unwrap_or (BTreeMap.get s.queryid prev) default_cumulative)))
        (emit_deltas-append xs ys (BTreeMap.insert s.queryid (cumulative_of f s) prev))

  tick-from_ok :
      (r : Result (List (StatementSample F))) (prev : BTreeMap ℤ PrevCumulative)
      → tick f true r prev ≡ emit_deltas f true (from_ok [] r) prev
  unfolding tick emit_deltas
  tick-from_ok (ok samples) prev = refl
  tick-from_ok (err e) prev = refl

  run_from-samples :
      (prev : BTreeMap ℤ PrevCumulative) (rounds : List (Option (List (Row F))))
      → run_from f true prev rounds ≡ (emit_deltas f true (samples_of rounds) prev).1
  unfolding run_from emit_deltas
  run_from-samples prev [] = refl
  run_from-samples prev (query ∷ rounds) =
      rw
        (
          tick-from_ok (poll query) prev,
          run_from-samples (emit_deltas f true (from_ok [] (poll query)) prev).0 rounds,
          emit_deltas-append (from_ok [] (poll query)) (samples_of rounds) prev,
        )
        refl

  before-nil : (c : Counter) (q : ℤ) → before c q [] ≡ 0
  unfolding BTreeMap.get
  before-nil calls q = refl
  before-nil exec_time_ms q = refl
  before-nil rows q = refl
  before-nil blks_hit q = refl
  before-nil blks_read q = refl

  -- With a metrics emitter, the deltas reported of a query are the rises of its counter from one sample of that query to the next, from 0 at the first; polls that fail change nothing.
  pub run_from-differences :
      (c : Counter) (q : ℤ) (rounds : List (Option (List (Row F))))
      → reported_of c q (run_from f true [] rounds)
        ≡ differences 0 (values_of c q (samples_of rounds))
  run_from-differences c q rounds =
      rw (run_from-samples [] rounds, emit_deltas-differences c q (samples_of rounds) [])
        (ap (λ p. differences p (values_of c q (samples_of rounds))) (before-nil c q))

  -- If the counter of a query never falls from one of its samples to the next, the deltas reported of it add up to its latest value.
  pub run_from-telescopes :
      (c : Counter) (q : ℤ) (rounds : List (Option (List (Row F))))
      → IsAscending 0 (values_of c q (samples_of rounds))
      → sum (reported_of c q (run_from f true [] rounds))
        ≡ last 0 (values_of c q (samples_of rounds))
  run_from-telescopes c q rounds h =
      rw (run_from-differences c q rounds)
        (omega (arith, sum-ascending 0 (values_of c q (samples_of rounds)) h))
