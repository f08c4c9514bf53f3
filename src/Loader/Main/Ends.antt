-- ===== src/Loader/Main/Ends.antt =====
-- How `main` ends, and what leaves it on the way.
use pgsleuth.Base.{
  String, ◌<>◌, ◌≡◌, refl, sym, ap, ◌∙◌, inl, inr, Option, List, [], ◌∷◌, ◌++◌, Bool-cases, ℤ,
  is_empty, lines, Result, ok, err,
}
use mathlib.Core.Bool.{Bool}
use pgsleuth.External.{External}
use pgsleuth.Core.Finding.{Finding}
use pgsleuth.Otel.Mapping.{OpenTelemetry}
use pgsleuth.Otel.Emitter as LogPipeline
use pgsleuth.Otel.Metrics as MetricsPipeline
use pgsleuth.Loader.Device.{discover_via_pg_ext}
use pgsleuth.Loader.Rule.{Settings, Effect, info, emit, record_wal_io_latency}
use pgsleuth.Loader.Spill.{Utf8}
use pgsleuth.Loader.Loop.{Event, Loop, Pipelines, on_event, run_loop}
use pgsleuth.Loader.Loop.Alarms.{emitted}
use pgsleuth.Loader.SetUp.{Action}
use pgsleuth.Loader.Main.{
  Exit, running, returned, Wake, event, activity, block, ctrl_c, poll_error, Output, act, effect,
  log, warn, warn_error, shut_down_metrics, shut_down_logs, acts, effects, warns, best_effort,
  discover, log_pipeline, metrics_pipeline, listen,
}

module _ {x : External} where
  -- The events that the loop handles: those before it is broken off, or fails to poll.
  abbrev pub heard : List (Wake x) → List (Event x)
  heard [] = []
  heard (ctrl_c ∷ wakes) = []
  heard (poll_error buffer ∷ wakes) = []
  heard (activity e ∷ wakes) = heard wakes
  heard (block e ∷ wakes) = heard wakes
  heard (event e ∷ wakes) = e ∷ heard wakes

  -- How a loop that is woken so ends.
  abbrev pub ending : List (Wake x) → Exit
  ending [] = running
  ending (ctrl_c ∷ wakes) = returned (ok tt)
  ending (poll_error buffer ∷ wakes) =
      returned (err ("Failed to poll " <> buffer <> " ring buffer"))
  ending (activity e ∷ wakes) = ending wakes
  ending (block e ∷ wakes) = ending wakes
  ending (event e ∷ wakes) = ending wakes

  emitted-append : (es es' : List (Effect x)) → emitted (es ++ es') ≡ emitted es ++ emitted es'
  emitted-append [] es' = refl
  emitted-append (record_wal_io_latency ns device op ∷ es) es' = emitted-append es es'
  emitted-append (emit f ∷ es) es' = ap (◌∷◌ f) (emitted-append es es')
  emitted-append (info s ∷ es) es' = emitted-append es es'

module _ (x : External) (u : Utf8) (ps : Pipelines) (cfg : Settings) where
  pub listen-ending :
      (l : Loop) (wakes : List (Wake x)) → (listen x u ps cfg l wakes).0 ≡ ending wakes
  unfolding listen
  listen-ending l [] = refl
  listen-ending l (ctrl_c ∷ wakes) = refl
  listen-ending l (poll_error buffer ∷ wakes) = refl
  listen-ending l (activity e ∷ wakes) = listen-ending l wakes
  listen-ending l (block e ∷ wakes) = listen-ending l wakes
  listen-ending l (event e ∷ wakes) = listen-ending (on_event x u ps cfg l e).0 wakes

  pub listen-emitted :
      (l : Loop) (wakes : List (Wake x))
      → emitted (listen x u ps cfg l wakes).1 ≡ emitted (run_loop x u ps cfg l (heard wakes))
  unfolding listen run_loop
  listen-emitted l [] = refl
  listen-emitted l (ctrl_c ∷ wakes) = refl
  listen-emitted l (poll_error buffer ∷ wakes) = refl
  listen-emitted l (activity e ∷ wakes) = listen-emitted l wakes
  listen-emitted l (block e ∷ wakes) = listen-emitted l wakes
  listen-emitted l (event e ∷ wakes) =
      let (l', es) = on_event x u ps cfg l e in
      emitted-append es (listen x u ps cfg l' wakes).1
      ∙ (ap (λ fs. emitted es ++ fs) (listen-emitted l' wakes)
          ∙ sym (emitted-append es (run_loop x u ps cfg l' (heard wakes))))

-- What leaves the loader: a finding handed to the emitter, or the end of a pipeline.
pub data Visible (x : External) : Type 0 where
  found : Finding x → Visible x
  metrics_ended : Visible x
  logs_ended : Visible x

abbrev pub founds : {x : External} → List (Finding x) → List (Visible x)
founds [] = []
founds (f ∷ fs) = found f ∷ founds fs

module _ (x : External) (o : OpenTelemetry x) where
  abbrev pub visible : List (Output x o) → List (Visible x)
  visible [] = []
  visible (effect (emit f) ∷ out) = found f ∷ visible out
  visible (effect (record_wal_io_latency ns device op) ∷ out) = visible out
  visible (effect (info s) ∷ out) = visible out
  visible (shut_down_metrics m ∷ out) = metrics_ended ∷ visible out
  visible (shut_down_logs l ∷ out) = logs_ended ∷ visible out
  visible (act a ∷ out) = visible out
  visible (log s ∷ out) = visible out
  visible (warn s ∷ out) = visible out
  visible (warn_error e s ∷ out) = visible out

  pub visible-append :
      (out out' : List (Output x o)) → visible (out ++ out') ≡ visible out ++ visible out'
  visible-append [] out' = refl
  visible-append (effect (emit f) ∷ out) out' = ap (◌∷◌ (found f)) (visible-append out out')
  visible-append (effect (record_wal_io_latency ns device op) ∷ out) out' = visible-append out out'
  visible-append (effect (info s) ∷ out) out' = visible-append out out'
  visible-append (shut_down_metrics m ∷ out) out' = ap (◌∷◌ metrics_ended) (visible-append out out')
  visible-append (shut_down_logs l ∷ out) out' = ap (◌∷◌ logs_ended) (visible-append out out')
  visible-append (act a ∷ out) out' = visible-append out out'
  visible-append (log s ∷ out) out' = visible-append out out'
  visible-append (warn s ∷ out) out' = visible-append out out'
  visible-append (warn_error e s ∷ out) out' = visible-append out out'

  -- Output that nobody outside sees.
  pub visible-hidden :
      (out out' : List (Output x o)) → visible out ≡ [] → visible (out ++ out') ≡ visible out'
  visible-hidden out out' h = rw (visible-append out out', h) refl

  pub visible-acts : (done : List Action) → visible (acts x o done) ≡ []
  visible-acts [] = refl
  visible-acts (a ∷ done) = visible-acts done

  pub visible-warns : (lines : List String) → visible (warns x o lines) ≡ []
  visible-warns [] = refl
  visible-warns (line ∷ lines) = visible-warns lines

  pub visible-effects : (es : List (Effect x)) → visible (effects x o es) ≡ founds (emitted es)
  visible-effects [] = refl
  visible-effects (emit f ∷ es) = ap (◌∷◌ (found f)) (visible-effects es)
  visible-effects (record_wal_io_latency ns device op ∷ es) = visible-effects es
  visible-effects (info s ∷ es) = visible-effects es

  visible-best_effort {ℓ} :
      {A : Type ℓ} (text : String) (r : Result A) → visible (best_effort x o text r).1 ≡ []
  unfolding best_effort
  visible-best_effort text (ok a) = refl
  visible-best_effort text (err e) = refl

  pub visible-discover :
      (pg_conn : String) (connects : Bool) (row : Option (String × ℤ))
      → visible (discover x o pg_conn connects row).1 ≡ []
  unfolding discover
  visible-discover pg_conn connects row = elim (Bool-cases (is_empty pg_conn)) [
    | inl e ↦ rw e refl
    | inr e ↦ rw e (visible-best_effort _ (discover_via_pg_ext pg_conn connects row))
  ]

  pub visible-log_pipeline :
      (otlp_endpoint : String) → visible (log_pipeline x o otlp_endpoint).1 ≡ []
  unfolding log_pipeline
  visible-log_pipeline otlp_endpoint = elim (Bool-cases (is_empty otlp_endpoint)) [
    | inl e ↦ rw e refl
    | inr e ↦ rw e (visible-best_effort _ (LogPipeline.try_new x o _))
  ]

  pub visible-metrics_pipeline :
      (otlp_endpoint : String) → visible (metrics_pipeline x o otlp_endpoint).1 ≡ []
  unfolding metrics_pipeline
  visible-metrics_pipeline otlp_endpoint = elim (Bool-cases (is_empty otlp_endpoint)) [
    | inl e ↦ rw e refl
    | inr e ↦ rw e (visible-best_effort _ (MetricsPipeline.try_new x o _))
  ]
