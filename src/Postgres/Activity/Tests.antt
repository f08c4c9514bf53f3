-- ===== src/Postgres/Activity/Tests.antt =====
-- Snapshots of concrete rows.
use pgsleuth.Base.{ℕ, String, ◌≡◌, refl, List, [], ◌∷◌, str_eq, ℤ, pos, negsuc, Result, ok, err}
use pgsleuth.Postgres.Activity.{SessionSnapshot, idle_in_xact, active_waiting_on_lock}
use pgsleuth.Postgres.Activity.Poll.{Client, poll, clamp, insert_states, insert_waits}
use pgsleuth.BTreeMap
use pgsleuth.Postgres.Activity.Counts.{Counts, poll-Counts}

abbrev states : List (String × ℤ)
states =
    ("active", pos 4)
    ∷ ("idle in transaction", pos 2)
    ∷ ("idle in transaction (aborted)", pos 1)
    ∷ []

abbrev waits : List (String × String × ℤ)
waits = ("Lock", "relation", pos 3) ∷ ("LWLock", "WALWrite", pos 5) ∷ ("Lock", "tuple", pos 1) ∷ []

abbrev client : Client
client = record {
  backend_count = ok (pos 7);
  state_rows = ok states;
  wait_rows = ok waits;
  long_xact_count = λ threshold. ok (negsuc threshold);
}

poll-Counts_example : (s : SessionSnapshot) × (poll client 60 ≡ ok s) × Counts states waits s
poll-Counts_example =
    poll-Counts client 60 (pos 7) (negsuc 60) states waits refl refl refl refl refl refl

-- What the snapshot's counts are.
abbrev counts : Result SessionSnapshot → List ℕ
counts (ok s) =
    s.client_backends ∷ idle_in_xact s ∷ active_waiting_on_lock s ∷ s.long_running_xacts ∷ []
counts (err e) = []

counts_test : counts (poll client 60) ≡ 7 ∷ 3 ∷ 4 ∷ 0 ∷ []
unfolding poll idle_in_xact active_waiting_on_lock clamp insert_states insert_waits BTreeMap.insert
    str_eq
counts_test = refl

-- The first query that fails names the error.
wait_error_test :
    poll (record client { wait_rows = err "closed" }) 60
    ≡ err "pg_stat_activity wait_event grouping failed"
unfolding poll
wait_error_test = refl
