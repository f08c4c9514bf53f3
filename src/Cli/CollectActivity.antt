-- ===== src/Cli/CollectActivity.antt =====
-- crates/pgsleuth-cli/src/collect_pg_activity.rs: the collector that logs snapshots.
use pgsleuth.Base.{ℕ, String, ◌<>◌, List, [], ◌∷◌, if◌then◌else◌, Result, ok, err}
use mathlib.Core.Bool.{Bool}
use pgsleuth.BTreeMap.{BTreeMap}
use pgsleuth.Postgres.Activity.{SessionSnapshot, idle_in_xact, active_waiting_on_lock}
use pgsleuth.Postgres.Activity.Poll.{Client, poll}

-- A line of the log: a snapshot's fields, or a poll that failed.
pub data LogLine : Type 0 where
  tick_line : ℕ → ℕ → ℕ → ℕ → BTreeMap String ℕ → LogLine
  poll_failed : String → LogLine

unfoldable pub log_snapshot : SessionSnapshot → LogLine
unfolding idle_in_xact active_waiting_on_lock
log_snapshot snap =
    tick_line snap.client_backends (idle_in_xact snap) (active_waiting_on_lock snap)
      snap.long_running_xacts snap.by_state

-- One round of the loop, on what the poll returned.
unfoldable pub tick : Result SessionSnapshot → LogLine
unfolding log_snapshot
tick (ok snap) = log_snapshot snap
tick (err e) = poll_failed e

unfoldable pub run_from : ℕ → List Client → List LogLine
unfolding tick
run_from long_xact_threshold_seconds [] = []
run_from long_xact_threshold_seconds (client ∷ rounds) =
    tick (poll client long_xact_threshold_seconds) ∷ run_from long_xact_threshold_seconds rounds

unfoldable pub run : String → ℕ → Bool → List Client → Result (List LogLine)
unfolding run_from
run pg_conn long_xact_threshold_seconds connects rounds =
    if connects
    then ok (run_from long_xact_threshold_seconds rounds)
    else err ("Failed to connect to Postgres at " <> pg_conn)
