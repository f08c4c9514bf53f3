-- ===== src/Loader/Main/Jitter.antt =====
-- From the requests of the block layer to the findings of the loader.
mod Tests
use pgsleuth.Base.{
  ℕ, ◌+◌, ◌≤◌, String, ◌≡◌, refl, ap, Option, some, List, [], ◌∷◌, arith, if◌then◌else◌, count_if,
  u32_max, ℤ, ok,
}
use mathlib.Core.Bool.{Bool}
use pgsleuth.External.{External}
use pgsleuth.Core.Window.Runs.{episodes}
use pgsleuth.Core.Window.Episodes.{is_long}
use pgsleuth.Otel.Mapping.{OpenTelemetry}
use pgsleuth.Ebpf.Events.{RqKey}
use pgsleuth.Ebpf.Kernel.{BpfHashMap}
use pgsleuth.Ebpf.Block.InFlight.{initial}
use pgsleuth.Loader.Spill.{Utf8}
use pgsleuth.Loader.SetUp.{Aya}
use pgsleuth.Loader.Loop.{Event}
use pgsleuth.Loader.Loop.Alarms.{slow_sequence}
use pgsleuth.Loader.Loop.Pipeline.{
  Moment, AlwaysRoom, intervals, feed, windows-feed, spill_keys-feed,
}
use pgsleuth.Loader.Main.{Args, Wake, event, ctrl_c, main, settings}
use pgsleuth.Loader.Main.Ends.{heard, visible}
use pgsleuth.Loader.Main.Steps.{count_found}
use pgsleuth.Loader.Main.Outcome.{pipelines_of, dev_t_of, verdict_of, main-sent}

module _ {x : External} where
  -- The wakes of a loop that takes these events, and then Ctrl+C.
  abbrev pub interrupted : List (Event x) → List (Wake x)
  interrupted [] = ctrl_c ∷ []
  interrupted (e ∷ es) = event e ∷ interrupted es

  heard-interrupted : (es : List (Event x)) → heard (interrupted es) ≡ es
  heard-interrupted [] = refl
  heard-interrupted (e ∷ es) = ap (◌∷◌ e) (heard-interrupted es)

if-add-zero : (b : Bool) (n : ℕ) → (if b then n + 0 else 0) ≡ (if b then n else 0)
if-add-zero b n = ground arith

module _ (x : External) (o : OpenTelemetry x) (u : Utf8) (a : Aya) (m : BpfHashMap) where
  -- Let the set-up succeed, `fsync_fire_after` be a u32, the map of open requests drop nothing, and the ring buffer have room at each completion. However the tracepoints of the block layer, the drains of the latencies and the ticks are interleaved up to Ctrl+C: a run with a log pipeline sends one finding for each maximal run of slow intervals that is not empty and reaches `fsync_fire_after`, where the samples of an interval are the times from the last open issue of a request to its completion, of the requests whose flags start with W or F and whose latency is drained in it; a run without one sends none.
  pub main-jitter :
      (args : Args) (connects : Bool) (row : Option (String × ℤ)) (ms : List (Moment x))
      → verdict_of x o u a args connects row ≡ ok tt
      → args.fsync_fire_after ≤ u32_max
      → ((k : RqKey) (v : ℕ) (s : m.Map) → m.get k (m.insert k v s) ≡ some v)
      → AlwaysRoom ms
      → count_found
          (visible x o (main x o u a args connects row (interrupted (feed x m (initial m) ms))).1)
        ≡ (if (pipelines_of x o u a args).log_emitter
            then count_if (is_long args.fsync_fire_after) (
                episodes 0 (
                  slow_sequence
                    (settings args (dev_t_of x o u a args connects row))
                    (intervals [] [] [] ms)))
            else 0)
  main-jitter args connects row ms h fits always room =
      let es = feed x m (initial m) ms in
      rw
        (
          main-sent x o u a args connects row (interrupted es) h fits,
          heard-interrupted es,
          windows-feed x m always [] (initial m) [] ms (λ k. m.get-empty k) room,
          spill_keys-feed x m u (initial m) ms,
        )
        (if-add-zero (pipelines_of x o u a args).log_emitter _)
