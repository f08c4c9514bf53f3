-- ===== src/Loader/Main/Jitter/Tests.antt =====
-- A run of the loader over requests that overlap the ticks.
use pgsleuth.Base.{◌≡◌, refl, true, some, List, [], ◌∷◌, arith, if◌then◌else◌, count_if, pos}
use pgsleuth.External.Example.{example}
use pgsleuth.Core.Window.Runs.{episodes}
use pgsleuth.Core.Window.Episodes.{is_long}
use pgsleuth.Otel.Mapping.Example.{sdk}
use pgsleuth.Ebpf.Block.{key_of, latency_event, classify_rwbs}
use pgsleuth.Ebpf.Block.InFlight.{issue, complete, initial}
use pgsleuth.Ebpf.Events.{to_u8}
use pgsleuth.Ebpf.Kernel.Example.{context, unbounded, put_same}
use pgsleuth.Loader.Rule.{is_write}
use pgsleuth.Loader.Loop.Alarms.{slow_sequence}
use pgsleuth.Loader.Loop.Pipeline.{Moment, step, drain, ticked, intervals, feed}
use pgsleuth.Loader.Main.{main, settings}
use pgsleuth.Loader.Main.Ends.{visible}
use pgsleuth.Loader.Main.Steps.{count_found}
use pgsleuth.Loader.Main.Outcome.{pipelines_of, dev_t_of}
use pgsleuth.Loader.Main.Jitter.{interrupted, main-jitter}
use pgsleuth.Loader.Main.Tests.{works, utf8, args}

-- The request at sector 5 is issued before the first tick and completes behind it; the one at sector 6
-- is issued again while it is open.
abbrev moments : List (Moment example)
moments =
    step (issue (context 5 30))
    ∷ step (issue (context 6 40))
    ∷ ticked (pos 1)
    ∷ step (complete (context 5 20000030))
    ∷ step (issue (context 6 70))
    ∷ drain
    ∷ ticked (pos 2)
    ∷ step (complete (context 6 90))
    ∷ step (complete (context 6 100))
    ∷ drain
    ∷ ticked (pos 3)
    ∷ []

main-jitter_example :
    count_found (
      visible example sdk
        (main example sdk utf8 works args true
          (some ("8:16", pos 7))
          (interrupted (feed example unbounded (initial unbounded) moments))).1)
    ≡ (if (pipelines_of example sdk utf8 works args).log_emitter
        then count_if (is_long 1) (
            episodes 0 (
              slow_sequence
                (settings args (dev_t_of example sdk utf8 works args true (some ("8:16", pos 7))))
                (intervals [] [] [] moments)))
        else 0)
main-jitter_example =
    main-jitter example sdk utf8 works unbounded args true (some ("8:16", pos 7)) moments refl
      (omega arith) (λ k v m. put_same k (some v) m) (refl, (refl, (refl, tt)))

-- One sample in the second interval and one in the third.
interval_samples : intervals [] [] [] moments ≡ [] ∷ (20000000 ∷ []) ∷ (20 ∷ []) ∷ []
unfolding key_of latency_event classify_rwbs to_u8 is_write
interval_samples = refl
