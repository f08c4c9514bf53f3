-- ===== src/Loader/Loop/Recorded.antt =====
-- The histogram of the latencies, as the loop fills it.
use pgsleuth.Base.{
  ℕ, String, ◌≡◌, refl, ap, ◌∙◌, Option, none, some, List, [], ◌∷◌, ◌++◌, arith, if◌then◌else◌,
}
use pgsleuth.External.{External}
use pgsleuth.Otel.Mapping.{OpenTelemetry}
use pgsleuth.Otel.Metrics.{MetricsEmitter, Call, record_value}
use pgsleuth.Otel.Metrics as Metrics
use pgsleuth.Core.Window.{BreachState, just_fired}
use pgsleuth.Loader.Rule.{
  Settings, Effect, record_wal_io_latency, emit, info, op_class_str, on_latency, report, on_tick,
}
use pgsleuth.Loader.Spill.{Utf8, Key, spill_key, on_key, on_temp_file, report_spill}
use pgsleuth.Ebpf.Events.{TempFileEvent}
use pgsleuth.Loader.Loop.{Event, latency, temp_file, tick, Loop, Pipelines, on_event, run_loop}

module _ (x : External) (o : OpenTelemetry x) (m : MetricsEmitter x o) where
  -- The calls of the histogram that the effects make.
  unfoldable pub recorded : List (Effect x) → List (Call x o)
  recorded [] = []
  recorded (record_wal_io_latency ns device op ∷ es) =
      Metrics.record_wal_io_latency x o m ns device op ∷ recorded es
  recorded (emit f ∷ es) = recorded es
  recorded (info s ∷ es) = recorded es

  recorded-append : (es es' : List (Effect x)) → recorded (es ++ es') ≡ recorded es ++ recorded es'
  unfolding recorded
  recorded-append [] es' = refl
  recorded-append (record_wal_io_latency ns device op ∷ es) es' =
      ap (◌∷◌ (Metrics.record_wal_io_latency x o m ns device op)) (recorded-append es es')
  recorded-append (emit f ∷ es) es' = recorded-append es es'
  recorded-append (info s ∷ es) es' = recorded-append es es'

  -- A point for each request that the kernel reports: its latency, with the device and the operation.
  abbrev pub points : String → List (Event x) → List (Call x o)
  points device [] = []
  points device (latency e ∷ events) =
      record_value m.wal_io_latency e.latency_ns
        (("device", o.value_string device) ∷ ("op", o.value_string (op_class_str e.op_class)) ∷ [])
      ∷ points device events
  points device (temp_file now e ∷ events) = points device events
  points device (tick now ∷ events) = points device events

  module _ (u : Utf8) (ps : Pipelines) (cfg : Settings) where
    recorded-report :
        (now : x.DateTime) (p50_ms : ℕ) (state : BreachState)
        → recorded (report x ps.log_emitter cfg now p50_ms state) ≡ []
    unfolding recorded report
    recorded-report now p50_ms (just_fired k) = ground arith
    recorded-report now p50_ms _ = refl

    recorded-on_key :
        (now : x.DateTime) (e : TempFileEvent) (k : Option Key) (seen : List Key)
        → recorded (on_key x ps.log_emitter u cfg.pg_instance now e k seen).1 ≡ []
    unfolding recorded on_key report_spill
    recorded-on_key now e none seen = refl
    recorded-on_key now e (some k) seen = ground arith

    -- Whatever fires: with a metrics pipeline the loop records one point of the histogram for each request that the kernel reports, in their order, with its latency, the device's label and the operation's name, and without one none.
    pub run_loop-recorded :
        (l : Loop) (events : List (Event x))
        → recorded (run_loop x u ps cfg l events)
          ≡ (if ps.metrics_emitter then points cfg.dev_label events else [])
    unfolding run_loop on_event on_latency on_tick on_temp_file recorded
        Metrics.record_wal_io_latency
    run_loop-recorded l [] = ground arith
    run_loop-recorded l (latency e ∷ events) =
        ground (arith, run_loop-recorded (on_event x u ps cfg l (latency e)).0 events)
    run_loop-recorded l (temp_file now e ∷ events) =
        let (seen, es) =
          on_key x ps.log_emitter u cfg.pg_instance now e (spill_key u e) l.seen_spills in
        recorded-append es (run_loop x u ps cfg (record l { seen_spills = seen }) events)
        ∙ rw (recorded-on_key now e (spill_key u e) l.seen_spills)
            (run_loop-recorded (record l { seen_spills = seen }) events)
    run_loop-recorded l (tick now ∷ events) =
        let (s, es) = on_tick x ps.log_emitter cfg l.rule_state now in
        recorded-append es (run_loop x u ps cfg (record l { rule_state = s }) events)
        ∙ rw (recorded-report now _ _) (run_loop-recorded (record l { rule_state = s }) events)
