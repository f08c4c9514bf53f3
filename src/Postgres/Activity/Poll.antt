-- ===== src/Postgres/Activity/Poll.antt =====
-- stat_activity.rs: `poll`, over what the four queries return.
use pgsleuth.Base.{
  ℕ, String, List, [], ◌∷◌, u64_max, i64_max, unwrap_or, try_from, ℤ, unsigned_try_from, Result,
  ◌>>=◌, ok, err,
}
use pgsleuth.BTreeMap
use pgsleuth.BTreeMap.{BTreeMap, text_key, text_pair_key}
use pgsleuth.Postgres.Activity.{SessionSnapshot}

-- The rows of the four queries, as a client's connection returns them; an error is its text.
pub record Client : Type 0 where
  pub backend_count : Result ℤ
  pub state_rows : Result (List (String × ℤ))
  pub wait_rows : Result (List (String × String × ℤ))
  pub long_xact_count : ℕ → Result ℤ

-- `u64::try_from(n).unwrap_or(0)` of an `int8` column.
unfoldable pub clamp : ℤ → ℕ
clamp n = unwrap_or (unsigned_try_from u64_max n) 0

-- `.with_context(text)`: the text covers the error.
abbrev covered {ℓ} : {A : Type ℓ} → Result A → String → Result A
covered (ok a) e = ok a
covered (err _) e = err e

unfoldable pub insert_states : BTreeMap String ℕ → List (String × ℤ) → BTreeMap String ℕ
insert_states m [] = m
insert_states m ((state, n) ∷ rows) = insert_states (BTreeMap.insert state (clamp n) m) rows

unfoldable pub insert_waits :
    BTreeMap (String × String) ℕ → List (String × String × ℤ) → BTreeMap (String × String) ℕ
insert_waits m [] = m
insert_waits m ((we_type, we_name, n) ∷ rows) =
    insert_waits (BTreeMap.insert (we_type, we_name) (clamp n) m) rows

unfoldable pub poll : Client → ℕ → Result SessionSnapshot
poll client long_xact_threshold_seconds = do
  total ← covered client.backend_count "pg_stat_activity backend count query failed"
  state_rows ← covered client.state_rows "pg_stat_activity state grouping failed"
  wait_rows ← covered client.wait_rows "pg_stat_activity wait_event grouping failed"
  let threshold_i64 = unwrap_or (try_from i64_max long_xact_threshold_seconds) i64_max
  long_running_xacts ←
      covered (client.long_xact_count threshold_i64)
        "pg_stat_activity long_running_xacts query failed"
  ok (record {
    client_backends = clamp total;
    by_state = insert_states [] state_rows;
    by_wait = insert_waits [] wait_rows;
    long_running_xacts = clamp long_running_xacts;
  })
