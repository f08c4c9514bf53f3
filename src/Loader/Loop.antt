-- ===== src/Loader/Loop.antt =====
-- The loader's `select!` loop over the events that arrive.
pub mod Alarms
pub mod Order
pub mod Pipeline
pub mod Recorded
use pgsleuth.Base.{List, [], ◌∷◌, ◌++◌}
use mathlib.Core.Bool.{Bool}
use pgsleuth.External.{External}
use pgsleuth.Ebpf.Events.{BlockIoLatencyEvent, TempFileEvent}
use pgsleuth.Loader.Rule.{Settings, RuleState, new_state, Effect, on_latency, on_tick}
use pgsleuth.Loader.Spill.{Utf8, Key, on_temp_file}

-- What wakes the loop: an item of a ring buffer, or the ticker. The events that it only logs are left
-- out.
pub data Event (x : External) : Type 0 where
  latency : BlockIoLatencyEvent → Event x
  temp_file : x.DateTime → TempFileEvent → Event x
  tick : x.DateTime → Event x

-- The variables of the loop.
pub record Loop : Type 0 where
  pub rule_state : RuleState
  pub seen_spills : List Key

abbrev pub initial_loop : Loop
initial_loop = record { rule_state = new_state; seen_spills = [] }

-- Which pipelines there are.
pub record Pipelines : Type 0 where
  pub log_emitter : Bool
  pub metrics_emitter : Bool

module _ (x : External) (u : Utf8) (ps : Pipelines) (cfg : Settings) where
  unfoldable pub on_event : Loop → Event x → Loop × List (Effect x)
  on_event l (latency event) =
      let (s, es) = on_latency x ps.metrics_emitter cfg l.rule_state event in
      (record l { rule_state = s }, es)
  on_event l (temp_file now event) =
      let (seen, es) = on_temp_file x ps.log_emitter u cfg.pg_instance now event l.seen_spills in
      (record l { seen_spills = seen }, es)
  on_event l (tick now) =
      let (s, es) = on_tick x ps.log_emitter cfg l.rule_state now in
      (record l { rule_state = s }, es)

  unfoldable pub run_loop : Loop → List (Event x) → List (Effect x)
  run_loop l [] = []
  run_loop l (e ∷ events) = let (l', es) = on_event l e in es ++ run_loop l' events
