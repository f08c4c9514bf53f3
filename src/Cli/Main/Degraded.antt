-- ===== src/Cli/Main/Degraded.antt =====
-- The temp-spill command with and without its OpenTelemetry pipeline.
use pgsleuth.Base.{
  ℕ, String, ◌≡◌, refl, ap, true, false, Option, none, some, List, [], ◌++◌, arith, if◌then◌else◌,
  length, length-append,
}
use mathlib.Core.Bool.{Bool}
use pgsleuth.External.{External}
use pgsleuth.Agent.{Fires, Effect, emitted, fired, emitted-append, fired-append}
use pgsleuth.Cli.TempSpill.{FileSystem}
use pgsleuth.Cli.TempSpill.Latch.{samples, due, run-due, run-silent, run-fired}
use pgsleuth.Cli.Main.{TempSpillArgs, temp_spill_config, set_up}
use pgsleuth.Cli.TempSpill.Report

set_up-fired :
    (x : External) (otlp_endpoint : String) (init : Option String)
    → fired (set_up x otlp_endpoint init) ≡ 0
unfolding set_up
set_up-fired x otlp_endpoint none = refl
set_up-fired x otlp_endpoint (some e) = ground arith

set_up-emitted :
    (x : External) (otlp_endpoint : String) (init : Option String)
    → emitted (set_up x otlp_endpoint init) ≡ []
unfolding set_up
set_up-emitted x otlp_endpoint none = refl
set_up-emitted x otlp_endpoint (some e) = ground arith

emitted-either :
    (x : External) (args : TempSpillArgs) (pgdata : String) (emitter : Bool)
    (rounds : List (x.DateTime × FileSystem))
    → emitted (Report.run x emitter (temp_spill_config args pgdata) rounds) ≡ (
        if emitter
        then due x
            (temp_spill_config args pgdata)
            none
            (samples (temp_spill_config args pgdata) rounds)
        else [])
emitted-either x args pgdata true rounds = run-due x (temp_spill_config args pgdata) rounds
emitted-either x args pgdata false rounds = run-silent x (temp_spill_config args pgdata) rounds

-- The lines of the set-up fire nothing.
pub set_up-Fires :
    (x : External) (emitter : Bool) (otlp_endpoint : String) (init : Option String) (n : ℕ)
    (es : List (Effect x))
    → Fires emitter n es
    → Fires emitter n (set_up x otlp_endpoint init ++ es)
set_up-Fires x emitter otlp_endpoint init n es h = ground (
  arith,
  fired-append (set_up x otlp_endpoint init) es,
  ap length (emitted-append (set_up x otlp_endpoint init) es),
  length-append (emitted (set_up x otlp_endpoint init)) (emitted es),
  set_up-fired x otlp_endpoint init,
  ap length (set_up-emitted x otlp_endpoint init),
)

pub run-Fires :
    (x : External) (args : TempSpillArgs) (pgdata : String) (emitter : Bool)
    (rounds : List (x.DateTime × FileSystem))
    → Fires emitter
        (length (
          due x
            (temp_spill_config args pgdata)
            none
            (samples (temp_spill_config args pgdata) rounds)))
        (Report.run x emitter (temp_spill_config args pgdata) rounds)
run-Fires x args pgdata emitter rounds = record {
  logged = run-fired x (temp_spill_config args pgdata) emitter rounds;
  sent = rw (emitted-either x args pgdata emitter rounds) (ground arith);
}
