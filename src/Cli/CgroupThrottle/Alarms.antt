-- ===== src/Cli/CgroupThrottle/Alarms.antt =====
-- The alarms of the loop are the episodes of throttled intervals.
use pgsleuth.Base.{
  ℕ, ◌≤◌, String, ◌≡◌, refl, inl, inr, false, Option, none, some, List, [], ◌∷◌, if◌then◌else◌,
  count_if, u32_max, add_ok, Result-cases,
}
use mathlib.Core.Bool.{Bool}
use pgsleuth.External.{External}
use pgsleuth.Agent.{Fires, nil-Fires, fire-Fires, warn_error-Fires, append-Fires}
use pgsleuth.Core.Window.{
  ConsecutiveBreachCounter, BreachState, just_fired, observe, default_counter,
}
use pgsleuth.Core.Window.Runs.{answers, is_just_fired, episodes}
use pgsleuth.Core.Window.Episodes.{is_long, answers_alarms}
use pgsleuth.Cli.CgroupThrottle.{
  CpuStat, BreachValue, breach_value, Settings, is_breached, report, Loop, tick, read_cpu_stat,
  run_from, run,
}

-- The files that were read, parsed.
abbrev pub stats : {T : Type 0} → Settings → List (T × Option String) → List (T × CpuStat)
stats cfg [] = []
stats cfg ((now, file) ∷ rounds) =
    add_ok now (read_cpu_stat cfg.cpu_stat_path file) (stats cfg rounds)

-- Which intervals, between one reading and the next, were throttled for more milliseconds per second
-- than the threshold.
abbrev pub throttled : {T : Type 0} → Settings → Option CpuStat → List (T × CpuStat) → List Bool
throttled cfg prev [] = []
throttled cfg prev ((now, cur) ∷ later) =
    is_breached cfg (breach_value prev cur cfg.interval_ms) ∷ throttled cfg (some cur) later

-- A quiet interval never fires.
observe-quiet :
    (c : ConsecutiveBreachCounter) (fire_after : ℕ)
    → is_just_fired (observe c false fire_after).1 ≡ false
unfolding observe
observe-quiet c fire_after = refl

module _ (x : External) (emitter : Bool) (cfg : Settings) where
  open x use {DateTime}

  report-some-Fires :
      (now : DateTime) (b : BreachValue) (state : BreachState)
      → Fires emitter
          (if is_just_fired state then 1 else 0)
          (report x emitter cfg now (some b) state)
  unfolding report
  report-some-Fires now b (just_fired k) = fire-Fires emitter _
  report-some-Fires now b _ = nil-Fires emitter

  report-none-Fires :
      (now : DateTime) (state : BreachState) → Fires emitter 0 (report x emitter cfg now none state)
  unfolding report
  report-none-Fires now (just_fired k) = nil-Fires emitter
  report-none-Fires now _ = nil-Fires emitter

  report-Fires :
      (now : DateTime) (breach : Option BreachValue) (c : ConsecutiveBreachCounter)
      → Fires emitter
          (if is_just_fired (observe c (is_breached cfg breach) cfg.fire_after).1 then 1 else 0)
          (report x emitter cfg now breach (observe c (is_breached cfg breach) cfg.fire_after).1)
  unfolding is_breached
  report-Fires now none c = rw (observe-quiet c cfg.fire_after) (report-none-Fires now _)
  report-Fires now (some b) c = report-some-Fires now b _

  run_from-Fires :
      (l : Loop x) (rounds : List (DateTime × Option String))
      → Fires emitter
          (count_if is_just_fired
            (answers l.counter cfg.fire_after (throttled cfg l.prev (stats cfg rounds))))
          (run_from x emitter cfg l rounds)
  unfolding run_from tick answers
  run_from-Fires l [] = nil-Fires emitter
  run_from-Fires l ((now, file) ∷ rounds) =
      elim (Result-cases (read_cpu_stat cfg.cpu_stat_path file)) [
        | inl (cur, e) ↦
            let breach = breach_value l.prev cur cfg.interval_ms in
            let (counter', state) = observe l.counter (is_breached cfg breach) cfg.fire_after in
            rw e (
              append-Fires emitter _ _ _ _ (report-Fires now breach l.counter)
                (run_from-Fires (record { counter = counter'; prev = some cur }) rounds))
        | inr (msg, e) ↦ rw e (warn_error-Fires emitter _ _ (run_from-Fires l rounds))
      ]

  -- With `fire_after` a u32, the alarms are as many as the maximal runs of throttled intervals that are not empty and reach `fire_after`: each is logged once, and sent once if there is an emitter. An interval stands between two readings that succeed, and the first reading counts as a quiet one.
  pub run_throttle-Fires :
      (rounds : List (DateTime × Option String))
      → cfg.fire_after ≤ u32_max
      → Fires emitter
          (count_if (is_long cfg.fire_after) (episodes 0 (throttled cfg none (stats cfg rounds))))
          (run x emitter cfg rounds)
  unfolding run
  run_throttle-Fires rounds h =
      rw (← answers_alarms cfg.fire_after _ h)
        (run_from-Fires (record { counter = default_counter; prev = none }) rounds)
