-- ===== src/Postgres/Activity.antt =====
-- crates/pgsleuth-postgres/src/stat_activity.rs: the snapshot of `pg_stat_activity`.
pub mod Counts
pub mod Poll
mod Tests
use pgsleuth.Base.{
  ℕ, ◌+◌, ◌%◌, ◌^◌, code, String, Bool, true, false, ◌&&◌, [], ◌∷◌, ◌==◌, if◌then◌else◌, str_eq,
  u64_max, saturating_add,
}
use pgsleuth.BTreeMap
use pgsleuth.BTreeMap.{BTreeMap, text_key, text_pair_key}

pub record SessionSnapshot : Type 0 where
  pub client_backends : ℕ
  pub by_state : BTreeMap String ℕ
  pub by_wait : BTreeMap (String × String) ℕ
  pub long_running_xacts : ℕ

-- `str::starts_with`.
unfoldable pub starts_with : String → String → Bool
starts_with s String.[] = true
starts_with String.[] (String.◌∷◌ d t) = false
starts_with (String.◌∷◌ c s) (String.◌∷◌ d t) = code c == code d && starts_with s t

-- The loop of `idle_in_xact`.
unfoldable pub add_idle : ℕ → BTreeMap String ℕ → ℕ
unfolding starts_with
add_idle total [] = total
add_idle total ((state, count) ∷ m) =
    add_idle
      (if starts_with state "idle in transaction"
        then saturating_add u64_max total count
        else total)
      m

unfoldable pub idle_in_xact : SessionSnapshot → ℕ
unfolding add_idle
idle_in_xact s = add_idle 0 s.by_state

-- The sum of `active_waiting_on_lock`; its `+` panics on overflow in a debug build and wraps in a
-- release build, and this is the sum before that.
unfoldable pub sum_lock : BTreeMap (String × String) ℕ → ℕ
sum_lock [] = 0
sum_lock (((cat, event), c) ∷ m) = (if str_eq cat "Lock" then c else 0) + sum_lock m

-- In a release build.
unfoldable pub active_waiting_on_lock : SessionSnapshot → ℕ
unfolding sum_lock
active_waiting_on_lock s = sum_lock s.by_wait % 2 ^ 64
