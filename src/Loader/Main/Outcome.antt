-- ===== src/Loader/Main/Outcome.antt =====
-- What `main` returns and sends, from its arguments to the end of its loop.
use pgsleuth.Base.{
  ℕ, ◌+◌, ◌≤◌, String, ◌≡◌, refl, ◌∙◌, Option, List, [], ◌++◌, arith, if◌then◌else◌, length,
  count_if, u32_max, ℤ, Result, ok, err,
}
use pgsleuth.Core.Window.Runs.{episodes}
use pgsleuth.Core.Window.Episodes.{is_long}
use pgsleuth.Loader.SetUp.Plan.{verdict, checks_of, set_up-Follows}
use mathlib.Core.Bool.{Bool}
use pgsleuth.External.{External}
use pgsleuth.Ebpf.Events.{FilterConfig}
use pgsleuth.Otel.Mapping.{OpenTelemetry}
use pgsleuth.Loader.Filter.{is_some, effective_dev_t, filter_config, resolve_pid_filter}
use pgsleuth.Loader.Spill.{Utf8}
use pgsleuth.Loader.Rule.{Effect}
use pgsleuth.Loader.Loop.{initial_loop, Pipelines, run_loop}
use pgsleuth.Loader.Loop.Alarms.{
  emitted, slow_sequence, windows, new_keys, spill_keys, run_loop-sent,
}
use pgsleuth.Loader.SetUp.{Aya, set_up}
use pgsleuth.Loader.Main.{
  Args, filter_args, returned, Wake, discover, log_pipeline, metrics_pipeline, settings, run, main,
  acts, log_filter_state,
}
use pgsleuth.Loader.Main.Ends.{
  heard, ending, founds, visible, visible-hidden, visible-acts, visible-discover,
  visible-log_pipeline, visible-metrics_pipeline,
}
use pgsleuth.Loader.Main.Steps.{
  ended, count_found, count_found-ended, count_found-founds, run-exit, run-visible,
}

module _ (x : External) (o : OpenTelemetry x) (u : Utf8) (a : Aya) where
  -- Which pipelines a run has, and the device that it filters for.
  abbrev pub pipelines_of : Args → Pipelines
  pipelines_of args = record {
    log_emitter = is_some (log_pipeline x o args.otlp_endpoint).0;
    metrics_emitter = is_some (metrics_pipeline x o args.otlp_endpoint).0;
  }

  abbrev pub config_of : Args → Bool → Option (String × ℤ) → FilterConfig
  config_of args connects row =
      filter_config (filter_args u args) (discover x o args.pg_conn connects row).0

  abbrev pub dev_t_of : Args → Bool → Option (String × ℤ) → ℕ
  dev_t_of args connects row =
      effective_dev_t (filter_args u args) (discover x o args.pg_conn connects row).0

  -- The effects of the rules over the events that the loop handles.
  abbrev pub effects_of : Args → Bool → Option (String × ℤ) → List (Wake x) → List (Effect x)
  effects_of args connects row wakes =
      run_loop x u (pipelines_of args) (settings args (dev_t_of args connects row)) initial_loop
        (heard wakes)

  abbrev pub lines_of : Args → Bool → Option (String × ℤ) → List String
  lines_of args connects row =
      let discovery = (discover x o args.pg_conn connects row).0 in
      log_filter_state (resolve_pid_filter args.pid args.cgroup_id discovery) args discovery
        (dev_t_of args connects row)

  -- The lines and actions before the loop are not seen.
  main-hidden :
      (args : Args) (connects : Bool) (row : Option (String × ℤ)) (wakes : List (Wake x))
      (made : Result (Unit {0}))
      → (set_up a args.bpf_object (config_of args connects row) (lines_of args connects row)).0
        ≡ made
      → visible x o (main x o u a args connects row wakes).1
        ≡ visible x o
            (run x o u a args
              (dev_t_of args connects row)
              (log_pipeline x o args.otlp_endpoint).0
              (metrics_pipeline x o args.otlp_endpoint).0
              wakes
              made).1
  unfolding main
  main-hidden args connects row wakes made h =
      let (discovery, discovered) = discover x o args.pg_conn connects row in
      let (logs, logs_made) = log_pipeline x o args.otlp_endpoint in
      let (metrics, metrics_made) = metrics_pipeline x o args.otlp_endpoint in
      let done =
        (set_up a args.bpf_object (config_of args connects row) (lines_of args connects row)).1 in
      rw h (
        visible-hidden x o discovered _ (visible-discover x o args.pg_conn connects row)
        ∙ visible-hidden x o logs_made _ (visible-log_pipeline x o args.otlp_endpoint)
        ∙ visible-hidden x o metrics_made _ (visible-metrics_pipeline x o args.otlp_endpoint)
        ∙ visible-hidden x o (acts x o done) _ (visible-acts x o done))

  -- The conditions of this run's set-up.
  abbrev pub verdict_of : Args → Bool → Option (String × ℤ) → Result (Unit {0})
  verdict_of args connects row = verdict (checks_of a args.bpf_object (config_of args connects row))

  set_up-verdict_of :
      (args : Args) (connects : Bool) (row : Option (String × ℤ))
      → (set_up a args.bpf_object (config_of args connects row) (lines_of args connects row)).0
        ≡ verdict_of args connects row
  set_up-verdict_of args connects row =
      let f =
        set_up-Follows a args.bpf_object (config_of args connects row)
          (lines_of args connects row) in
      f.ends

  -- Where every condition of the set-up holds: the loader is in its loop until Ctrl+C or a ring buffer that cannot be polled, and returns success or the error of that buffer; up to there the emitter gets the findings of the rules over the events before, and behind them, on Ctrl+C only, the metrics and the log pipeline are shut down, each if there is one.
  pub main_ends :
      (args : Args) (connects : Bool) (row : Option (String × ℤ)) (wakes : List (Wake x))
      → verdict_of args connects row ≡ ok tt
      → ((main x o u a args connects row wakes).0 ≡ ending wakes)
        × (visible x o (main x o u a args connects row wakes).1
            ≡ founds (emitted (effects_of args connects row wakes))
              ++ ended
                  (pipelines_of args).metrics_emitter
                  (pipelines_of args).log_emitter
                  (ending wakes))
  unfolding main
  main_ends args connects row wakes h =
      let made = set_up-verdict_of args connects row ∙ h in
      (
        rw made (
            run-exit x o u a args (dev_t_of args connects row)
              (log_pipeline x o args.otlp_endpoint).0 (metrics_pipeline x o args.otlp_endpoint).0
              wakes),
        main-hidden args connects row wakes (ok tt) made
            ∙ run-visible x o u a args (dev_t_of args connects row)
                (log_pipeline x o args.otlp_endpoint).0 (metrics_pipeline x o args.otlp_endpoint).0
                wakes,
      )

  -- Where a condition of the set-up fails, the loader returns the error of the first that does, and no finding leaves it.
  pub main_fails :
      (args : Args) (connects : Bool) (row : Option (String × ℤ)) (wakes : List (Wake x))
      (e : String)
      → verdict_of args connects row ≡ err e
      → ((main x o u a args connects row wakes).0 ≡ returned (err e))
        × (visible x o (main x o u a args connects row wakes).1 ≡ [])
  unfolding main run
  main_fails args connects row wakes e h =
      let made = set_up-verdict_of args connects row ∙ h in
      (rw made refl, main-hidden args connects row wakes (err e) made)

  -- With `fsync_fire_after` a u32 and a set-up that succeeds: a run with a log pipeline sends one finding for each maximal run of slow intervals that is not empty and reaches `fsync_fire_after`, and one for each process and path that spills, among the events before the loop ends; a run without one sends none.
  pub main-sent :
      (args : Args) (connects : Bool) (row : Option (String × ℤ)) (wakes : List (Wake x))
      → verdict_of args connects row ≡ ok tt
      → args.fsync_fire_after ≤ u32_max
      → count_found (visible x o (main x o u a args connects row wakes).1) ≡ (
          if (pipelines_of args).log_emitter
          then count_if (is_long args.fsync_fire_after) (
              episodes 0 (
                slow_sequence
                  (settings args (dev_t_of args connects row))
                  (windows [] (heard wakes))))
            + length (new_keys [] (spill_keys u (heard wakes)))
          else 0)
  main-sent args connects row wakes h fits =
      rw
        (
          (main_ends args connects row wakes h).1,
          count_found-founds (emitted (effects_of args connects row wakes)) (
              ended (pipelines_of args).metrics_emitter (pipelines_of args).log_emitter
                (ending wakes)),
          count_found-ended x (pipelines_of args).metrics_emitter (pipelines_of args).log_emitter
              (ending wakes),
          run_loop-sent x u (pipelines_of args) (settings args (dev_t_of args connects row))
              (heard wakes) fits,
        )
        (omega arith)
