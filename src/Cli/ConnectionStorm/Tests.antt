-- ===== src/Cli/ConnectionStorm/Tests.antt =====
-- A run of the poller, and the theorem at concrete inputs.
use pgsleuth.Base.{ℕ, ◌≡◌, refl, true, false, List, [], ◌∷◌, arith, count_if, ℤ, pos, ok, err}
use pgsleuth.Core.Window.{default_counter}
use pgsleuth.External.Example.{example}
use pgsleuth.Agent.{Fires}
use pgsleuth.Core.Window.Runs.{episodes}
use pgsleuth.Core.Window.Episodes.{is_long}
use pgsleuth.Postgres.Activity.Poll.{Client}
use pgsleuth.Cli.ConnectionStorm.{Settings, run, run_from}
use pgsleuth.Cli.ConnectionStorm.Alarms.{snapshots, breach_sequence, run-Fires}

abbrev cfg : Settings
cfg = record {
  interval_ms = 10000;
  backend_threshold = 100;
  long_xact_threshold_seconds = 60;
  fire_after = 2;
  pg_instance_id = "fixture-pg";
}

abbrev backends : ℕ → Client
backends n = record {
  backend_count = ok (pos n);
  state_rows = ok [];
  wait_rows = ok [];
  long_xact_count = λ threshold. ok (pos 0);
}

abbrev down : Client
down = record (backends 0) { backend_count = err "closed" }

-- A breach, a failed poll, a breach: the alarm; then a recovery and a breach.
abbrev rounds : List (ℤ × Client)
rounds =
    (pos 1, backends 101)
    ∷ (pos 2, down)
    ∷ (pos 3, backends 250)
    ∷ (pos 4, backends 100)
    ∷ (pos 5, backends 101)
    ∷ []

run-Fires_example :
    Fires true
      (count_if (is_long 2) (episodes 0 (breach_sequence cfg (snapshots cfg rounds))))
      (run_from example true cfg default_counter rounds)
unfolding run
run-Fires_example = run-Fires example true cfg "host=localhost" rounds (omega arith) refl

no_connection :
    run example true "host=nowhere" cfg false rounds
    ≡ err "Failed to connect to Postgres at host=nowhere"
unfolding run
no_connection = refl
