-- ===== src/Loader/Main/Steps.antt =====
-- What leaves the loader from its loop on.
use pgsleuth.Base.{
  ℕ, suc, ◌+◌, ◌≡◌, refl, ap, true, false, Option, none, some, List, [], ◌∷◌, ◌++◌, arith,
  if◌then◌else◌, length, ok, err,
}
use mathlib.Core.Bool.{Bool}
use pgsleuth.External.{External}
use pgsleuth.Core.Finding.{Finding}
use pgsleuth.Otel.Mapping.{OpenTelemetry}
use pgsleuth.Otel.Emitter.{Emitter}
use pgsleuth.Otel.Emitter as LogPipeline
use pgsleuth.Otel.Metrics.{MetricsEmitter}
use pgsleuth.Otel.Metrics as MetricsPipeline
use pgsleuth.Loader.Filter.{is_some}
use pgsleuth.Loader.Spill.{Utf8}
use pgsleuth.Loader.Loop.{initial_loop, Pipelines, run_loop}
use pgsleuth.Loader.Loop.Alarms.{emitted}
use pgsleuth.Loader.SetUp.{Aya}
use pgsleuth.Loader.Main.{
  Args, Exit, running, returned, Wake, effects, shutdown_metrics, shutdown_logs, listen, settings,
  finish, run,
}
use pgsleuth.Loader.Main.Ends.{
  heard, ending, listen-ending, listen-emitted, Visible, found, metrics_ended, logs_ended, founds,
  visible, visible-append, visible-warns, visible-effects,
}

-- The ends of the pipelines that there are, where the loop was broken off.
abbrev pub ended : {x : External} → Bool → Bool → Exit → List (Visible x)
ended metrics logs (returned (ok _)) =
    (if metrics then metrics_ended ∷ [] else []) ++ (if logs then logs_ended ∷ [] else [])
ended metrics logs (returned (err e)) = []
ended metrics logs running = []

abbrev pub count_found : {x : External} → List (Visible x) → ℕ
count_found [] = 0
count_found (found f ∷ vs) = suc (count_found vs)
count_found (metrics_ended ∷ vs) = count_found vs
count_found (logs_ended ∷ vs) = count_found vs

pub count_found-ended :
    (x : External) (metrics logs : Bool) (exit : Exit)
    → count_found (ended {x = x} metrics logs exit) ≡ 0
count_found-ended x true true (returned (ok _)) = refl
count_found-ended x true false (returned (ok _)) = refl
count_found-ended x false true (returned (ok _)) = refl
count_found-ended x false false (returned (ok _)) = refl
count_found-ended x metrics logs (returned (err e)) = refl
count_found-ended x metrics logs running = refl

pub count_found-founds :
    {x : External} (fs : List (Finding x)) (vs : List (Visible x))
    → count_found (founds fs ++ vs) ≡ length fs + count_found vs
count_found-founds [] vs = omega arith
count_found-founds (f ∷ fs) vs = omega (arith, count_found-founds fs vs)

module _ (x : External) (o : OpenTelemetry x) (u : Utf8) (a : Aya) where
  visible-shutdown_metrics :
      (m : Option (MetricsEmitter x o))
      → visible x o (shutdown_metrics x o m) ≡ (if is_some m then metrics_ended ∷ [] else [])
  unfolding shutdown_metrics
  visible-shutdown_metrics none = refl
  visible-shutdown_metrics (some m) =
      ap (◌∷◌ metrics_ended) (visible-warns x o (MetricsPipeline.shutdown x o m))

  visible-shutdown_logs :
      (l : Option (Emitter x o))
      → visible x o (shutdown_logs x o l) ≡ (if is_some l then logs_ended ∷ [] else [])
  unfolding shutdown_logs
  visible-shutdown_logs none = refl
  visible-shutdown_logs (some l) =
      ap (◌∷◌ logs_ended) (visible-warns x o (LogPipeline.shutdown x o l))

  visible-finish :
      (metrics : Option (MetricsEmitter x o)) (logs : Option (Emitter x o)) (exit : Exit)
      → visible x o (finish x o u a metrics logs exit) ≡ ended (is_some metrics) (is_some logs) exit
  unfolding finish
  visible-finish metrics logs (returned (ok _)) =
      rw
        (
          visible-append x o (shutdown_metrics x o metrics) (shutdown_logs x o logs),
          visible-shutdown_metrics metrics,
          visible-shutdown_logs logs,
        )
        refl
  visible-finish metrics logs (returned (err e)) = refl
  visible-finish metrics logs running = refl

  pub run-exit :
      (args : Args) (dev_t : ℕ) (logs : Option (Emitter x o))
      (metrics : Option (MetricsEmitter x o)) (wakes : List (Wake x))
      → (run x o u a args dev_t logs metrics wakes (ok tt)).0 ≡ ending wakes
  unfolding run
  run-exit args dev_t logs metrics wakes =
      listen-ending x u _ (settings args dev_t) initial_loop wakes

  pub run-visible :
      (args : Args) (dev_t : ℕ) (logs : Option (Emitter x o))
      (metrics : Option (MetricsEmitter x o)) (wakes : List (Wake x))
      → visible x o (run x o u a args dev_t logs metrics wakes (ok tt)).1
        ≡ founds (
            emitted (
              run_loop x u
                (record { log_emitter = is_some logs; metrics_emitter = is_some metrics })
                (settings args dev_t)
                initial_loop
                (heard wakes)))
          ++ ended (is_some metrics) (is_some logs) (ending wakes)
  unfolding run
  run-visible args dev_t logs metrics wakes =
      let ps : Pipelines = record {
        log_emitter = is_some logs;
        metrics_emitter = is_some metrics;
      } in
      let (exit, es) = listen x u ps (settings args dev_t) initial_loop wakes in
      rw
        (
          visible-append x o (effects x o es) (finish x o u a metrics logs exit),
          visible-effects x o es,
          visible-finish metrics logs exit,
          listen-emitted x u ps (settings args dev_t) initial_loop wakes,
          listen-ending x u ps (settings args dev_t) initial_loop wakes,
        )
        refl
