-- ===== src/Loader/Loop/Alarms.antt =====
-- The findings of the loop: the runs of slow intervals, and the spills that are new.
use pgsleuth.Base.{
  ℕ, ◌+◌, ◌≤◌, ◌≡◌, refl, Option, none, some, List, [], ◌∷◌, ◌++◌, arith, if◌then◌else◌, length,
  count_if, u32_max,
}
use pgsleuth.Core.Window.Episodes.{is_long, answers_alarms}
use mathlib.Core.Bool.{Bool}
use pgsleuth.External.{External}
use pgsleuth.Core.Finding.{Finding}
use pgsleuth.Core.Window.{ConsecutiveBreachCounter, BreachState, just_fired}
use pgsleuth.Core.Window.Runs.{answers, is_just_fired, episodes}
use pgsleuth.Ebpf.Events.{BlockIoLatencyEvent, TempFileEvent}
use pgsleuth.Loader.Median.{is_slow, p50_ns-is_slow}
use pgsleuth.Loader.Rule.{
  Settings, RuleState, Effect, record_wal_io_latency, emit, info, is_write, on_latency, report,
  threshold_ns, on_tick,
}
use pgsleuth.Loader.Spill.{Utf8, Key, has, spill_key, on_key, report_spill, on_temp_file}
use pgsleuth.Loader.Loop.{
  Event, latency, temp_file, tick, Loop, Pipelines, on_event, run_loop, initial_loop,
}

-- The samples that one more event leaves.
abbrev pub sampled : List ℕ → BlockIoLatencyEvent → List ℕ
sampled samples event =
    if is_write event.op_class then samples ++ event.latency_ns ∷ [] else samples

-- The keys that are new, each once.
abbrev pub new_keys : List Key → List Key → List Key
new_keys seen [] = []
new_keys seen (k ∷ ks) =
    let later = new_keys (k ∷ seen) ks in
    let others = new_keys seen ks in if has k seen then others else k ∷ later

abbrev pub cons_some : Option Key → List Key → List Key
cons_some none ks = ks
cons_some (some k) ks = k ∷ ks

module _ {x : External} where
  abbrev pub emitted : List (Effect x) → List (Finding x)
  emitted [] = []
  emitted (record_wal_io_latency ns device op ∷ es) = emitted es
  emitted (emit f ∷ es) = f ∷ emitted es
  emitted (info s ∷ es) = emitted es

  -- How many findings reach the emitter.
  abbrev pub sent : List (Effect x) → ℕ
  sent es = length (emitted es)

  pub sent-append : (es es' : List (Effect x)) → sent (es ++ es') ≡ sent es + sent es'
  sent-append [] es' = omega arith
  sent-append (record_wal_io_latency ns device op ∷ es) es' = sent-append es es'
  sent-append (emit f ∷ es) es' = omega (arith, sent-append es es')
  sent-append (info s ∷ es) es' = sent-append es es'

  -- The samples of each interval that a tick ends, behind those that are there.
  abbrev pub windows : List ℕ → List (Event x) → List (List ℕ)
  windows samples [] = []
  windows samples (latency event ∷ events) = windows (sampled samples event) events
  windows samples (temp_file now event ∷ events) = windows samples events
  windows samples (tick now ∷ events) = samples ∷ windows [] events

  -- The spills, by process and path.
  abbrev pub spill_keys : Utf8 → List (Event x) → List Key
  spill_keys u [] = []
  spill_keys u (latency event ∷ events) = spill_keys u events
  spill_keys u (temp_file now event ∷ events) = cons_some (spill_key u event) (spill_keys u events)
  spill_keys u (tick now ∷ events) = spill_keys u events

-- Which intervals are slow.
abbrev pub slow_sequence : Settings → List (List ℕ) → List Bool
slow_sequence cfg [] = []
slow_sequence cfg (w ∷ ws) = is_slow (threshold_ns cfg) w ∷ slow_sequence cfg ws

-- The findings that are due from a state of the loop on.
abbrev due : Bool → ℕ → ConsecutiveBreachCounter → List Bool → List Key → ℕ
due emitter fire_after counter slow keys =
    if emitter then count_if is_just_fired (answers counter fire_after slow) + length keys else 0

module _ (x : External) (u : Utf8) (ps : Pipelines) (cfg : Settings) where
  open x use {DateTime}

  on_latency-state :
      (metrics : Bool) (s : RuleState) (event : BlockIoLatencyEvent)
      → (on_latency x metrics cfg s event).0 ≡ record {
        write_flush_samples_ns = sampled s.write_flush_samples_ns event;
        counter = s.counter;
      }
  unfolding on_latency
  on_latency-state metrics s event = ground arith

  on_latency-sent :
      (metrics : Bool) (s : RuleState) (event : BlockIoLatencyEvent)
      → sent (on_latency x metrics cfg s event).1 ≡ 0
  unfolding on_latency
  on_latency-sent metrics s event = ground arith

  report-sent :
      (now : DateTime) (p50_ms : ℕ) (state : BreachState)
      → sent (report x ps.log_emitter cfg now p50_ms state)
        ≡ (if ps.log_emitter then (if is_just_fired state then 1 else 0) else 0)
  unfolding report
  report-sent now p50_ms (just_fired k) = ground arith
  report-sent now p50_ms _ = ground arith

  report_spill-sent :
      (now : DateTime) (event : TempFileEvent) (k : Key)
      → sent (report_spill x ps.log_emitter u cfg.pg_instance now event k)
        ≡ (if ps.log_emitter then 1 else 0)
  unfolding report_spill
  report_spill-sent now event k = ground arith

  -- A spill adds its finding, if it is new.
  on_key-due :
      (now : DateTime) (event : TempFileEvent) (o : Option Key) (seen ks : List Key)
      (counter : ConsecutiveBreachCounter) (slow : List Bool)
      → sent (on_key x ps.log_emitter u cfg.pg_instance now event o seen).1
          + due ps.log_emitter cfg.fsync_fire_after counter slow
              (new_keys (on_key x ps.log_emitter u cfg.pg_instance now event o seen).0 ks)
        ≡ due ps.log_emitter cfg.fsync_fire_after counter slow (new_keys seen (cons_some o ks))
  unfolding on_key
  on_key-due now event none seen ks counter slow = ground arith
  on_key-due now event (some k) seen ks counter slow = ground (arith, report_spill-sent now event k)

  run_loop-due :
      (l : Loop) (events : List (Event x))
      → sent (run_loop x u ps cfg l events)
        ≡ due ps.log_emitter cfg.fsync_fire_after l.rule_state.counter
            (slow_sequence cfg (windows l.rule_state.write_flush_samples_ns events))
            (new_keys l.seen_spills (spill_keys u events))
  unfolding run_loop on_event answers on_temp_file on_tick
  run_loop-due l [] = ground arith
  run_loop-due l (latency event ∷ events) =
      let (s, es) = on_latency x ps.metrics_emitter cfg l.rule_state event in
      rw
        (
          sent-append es (run_loop x u ps cfg (record l { rule_state = s }) events),
          on_latency-sent ps.metrics_emitter l.rule_state event,
          run_loop-due (record l { rule_state = s }) events,
          on_latency-state ps.metrics_emitter l.rule_state event,
        )
        (omega arith)
  run_loop-due l (temp_file now event ∷ events) =
      let (seen, es) =
        on_key x ps.log_emitter u cfg.pg_instance now event (spill_key u event) l.seen_spills in
      rw
        (
          sent-append es (run_loop x u ps cfg (record l { seen_spills = seen }) events),
          run_loop-due (record l { seen_spills = seen }) events,
        )
        (on_key-due now event (spill_key u event) l.seen_spills (spill_keys u events) _ _)
  run_loop-due l (tick now ∷ events) =
      let (s, es) = on_tick x ps.log_emitter cfg l.rule_state now in
      rw
        (
          sent-append es (run_loop x u ps cfg (record l { rule_state = s }) events),
          run_loop-due (record l { rule_state = s }) events,
          report-sent now _ _,
          p50_ns-is_slow (threshold_ns cfg) l.rule_state.write_flush_samples_ns,
        )
        (ground arith)

  -- With a log emitter and a u32 `fsync_fire_after`, the loop sends one finding for each maximal run of slow intervals that is not empty and reaches `fsync_fire_after`, and one for each process and path of a temp-file spill; without one it sends none. An interval is slow when it has write or flush samples and no more than half of them, rounded down, keep to the threshold.
  pub run_loop-sent :
      (events : List (Event x))
      → cfg.fsync_fire_after ≤ u32_max
      → sent (run_loop x u ps cfg initial_loop events) ≡ (
          if ps.log_emitter
          then count_if
              (is_long cfg.fsync_fire_after)
              (episodes 0 (slow_sequence cfg (windows [] events)))
            + length (new_keys [] (spill_keys u events))
          else 0)
  run_loop-sent events h =
      rw (run_loop-due initial_loop events, answers_alarms cfg.fsync_fire_after _ h) refl
