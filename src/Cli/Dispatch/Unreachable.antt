-- ===== src/Cli/Dispatch/Unreachable.antt =====
-- The commands where Postgres cannot be reached.
use pgsleuth.Base.{
  String, ◌<>◌, ◌≡◌, refl, ap, inl, inr, false, Option, none, some, arith, Option-cases, err,
}
use mathlib.Core.Bool.{Bool}
use pgsleuth.External.{External}
use pgsleuth.Float.{Float}
use pgsleuth.Otel.Mapping.{OpenTelemetry}
use pgsleuth.Cli.Dispatch.{
  returned, log_init, metrics_init, Command, version, temp_spill, pg_stat_statements,
  pg_stat_activity, checkpoint_storm, connection_storm, cgroup_throttle, World, dispatch,
}
use pgsleuth.Cli.CollectActivity
use pgsleuth.Cli.CollectStatements
use pgsleuth.Cli.CheckpointStorm
use pgsleuth.Cli.ConnectionStorm
use pgsleuth.Cli.Main.{
  has_emitter, resolve_pgdata, data_directory, run_temp_spill, run_connection_storm,
  run_checkpoint_storm, run_pg_stat_statements, TempSpillArgs,
}

abbrev unwrap_to {ℓ} : {A : Type ℓ} → A → Option A → A
unwrap_to d none = d
unwrap_to d (some a) = a

abbrev unless_given : Option String → Option String → Option String
unless_given none conn = conn
unless_given (some path) conn = none

-- The connection string that a command needs.
abbrev pub connection_of : Command → Option String
connection_of version = none
connection_of (temp_spill args) = unless_given args.pgdata args.pg_conn
connection_of (pg_stat_statements args) = some args.pg_conn
connection_of (pg_stat_activity args) = some args.pg_conn
connection_of (checkpoint_storm args) = some args.pg_conn
connection_of (connection_storm args) = some args.pg_conn
connection_of (cgroup_throttle args) = none

resolve_pgdata-unreachable :
    (args : TempSpillArgs) (row : Option String) (conn : String)
    → unless_given args.pgdata args.pg_conn ≡ some conn
    → resolve_pgdata args false row ≡ err ("Failed to connect to Postgres at " <> conn)
unfolding resolve_pgdata data_directory
resolve_pgdata-unreachable args row conn h = elim (Option-cases args.pgdata) [
  | inl e ↦ ground (arith, e, h)
  | inr (path, e) ↦ absurd (ground (arith, e, h))
]

some-injective {ℓ} : {A : Type ℓ} {a b : A} → some a ≡ some b → a ≡ b
some-injective {a} h = ap (unwrap_to a) h

module _ (x : External) (o : OpenTelemetry x) (f : Float x.F64) where
  -- Whether a command has made a pipeline when it connects; the temp-spill command looks for its
  -- directory first.
  abbrev pub has_pipeline : Command → Bool
  has_pipeline version = false
  has_pipeline (temp_spill args) = false
  has_pipeline (pg_stat_statements args) =
      has_emitter args.otlp_endpoint (metrics_init x o f args.otlp_endpoint)
  has_pipeline (pg_stat_activity args) = false
  has_pipeline (checkpoint_storm args) =
      has_emitter args.otlp_endpoint (log_init x o f args.otlp_endpoint)
  has_pipeline (connection_storm args) =
      has_emitter args.otlp_endpoint (log_init x o f args.otlp_endpoint)
  has_pipeline (cgroup_throttle args) = false

  -- Where Postgres does not answer, each command that needs it returns the error that names its connection string, and has shut its pipeline down if it had made one: the temp-spill command, which looks for its directory first, has made none.
  pub dispatch-unreachable :
      (w : World x) (c : Command) (conn : String)
      → connection_of c ≡ some conn
      → w.connects ≡ false
      → ((dispatch x o f w (some c)).exit
          ≡ returned (err ("Failed to connect to Postgres at " <> conn)))
        × ((dispatch x o f w (some c)).shut_down ≡ has_pipeline c)
  unfolding dispatch run_temp_spill run_pg_stat_statements run_checkpoint_storm run_connection_storm
      CollectActivity.run CollectStatements.run CheckpointStorm.run ConnectionStorm.run
  dispatch-unreachable w version conn h down = absurd (cc)
  dispatch-unreachable w (temp_spill args) conn h down =
      rw (down, resolve_pgdata-unreachable args w.data_directory conn h) (refl, refl)
  dispatch-unreachable w (pg_stat_statements args) conn h down =
      rw (← some-injective h, down) (refl, refl)
  dispatch-unreachable w (pg_stat_activity args) conn h down =
      rw (← some-injective h, down) (refl, refl)
  dispatch-unreachable w (checkpoint_storm args) conn h down =
      rw (← some-injective h, down) (refl, refl)
  dispatch-unreachable w (connection_storm args) conn h down =
      rw (← some-injective h, down) (refl, refl)
  dispatch-unreachable w (cgroup_throttle args) conn h down = absurd (cc)
