-- ===== src/Cli/Main/Tests.antt =====
-- The temp-spill command at concrete arguments, and its theorem there.
use pgsleuth.Base.{◌≡◌, refl, true, false, none, some, List, [], ◌∷◌, ℤ, pos, ok, err}
use pgsleuth.Cli.TempSpill.{FileSystem}
use pgsleuth.Cli.TempSpill.Report
use pgsleuth.Cli.Main.{TempSpillArgs, resolve_pgdata, data_directory}

abbrev args : TempSpillArgs
args = record {
  pgdata = none;
  pg_conn = some "host=localhost";
  footprint_threshold_mb = 1;
  free_threshold_pct = 10;
  interval_ms = 1000;
  otlp_endpoint = "";
  pg_instance = "fixture-pg";
}

discovered : resolve_pgdata args true (some "/pg") ≡ ok "/pg"
unfolding resolve_pgdata data_directory
discovered = refl

no_place :
    resolve_pgdata (record args { pg_conn = none }) true none
    ≡ err "either --pgdata or --pg-conn is required so the poller knows where to walk"
unfolding resolve_pgdata
no_place = refl

-- A mount with a twentieth of its blocks free.
abbrev nearly_full : FileSystem
nearly_full = record {
  exists = λ path. false;
  walk = λ path. [];
  statvfs = λ path. some (record { fragment_size = 4096; blocks = 100; blocks_available = 5 });
}

abbrev rounds : List (ℤ × FileSystem)
rounds = (pos 1, nearly_full) ∷ (pos 2, nearly_full) ∷ []
