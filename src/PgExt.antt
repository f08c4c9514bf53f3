-- ===== src/PgExt.antt =====
-- crates/pgsleuth-pg-ext/src/lib.rs: the functions of the Postgres extension.
use pgsleuth.Base.{ℕ, String, ◌<>◌, Option, none, some, ℤ, Result, ◌>>=◌, context, ok, err}
use pgsleuth.Loader.Device.{wal_device}

-- What the functions read of the server and the system: `DataDir` as text, `PostmasterPid`, the device
-- that `stat` finds a path on, and the numbers that `libc` takes out of it.
pub record Server : Type 0 where
  pub data_dir : String
  pub postmaster_pid : ℤ  -- i32
  pub metadata_dev : String → Option ℕ
  pub major : ℕ → ℕ
  pub minor : ℕ → ℕ

abbrev pub wal_path : Server → String
wal_path s = s.data_dir <> "/pg_wal"

-- A panic ends the query with an error; the system's own words in it are left out.
unfoldable pub pgsleuth_wal_device : Server → Result String
pgsleuth_wal_device s =
    context (s.metadata_dev (wal_path s)) ("stat(" <> wal_path s <> ") failed")
    >>= (λ dev. ok (wal_device (s.major dev) (s.minor dev)))

unfoldable pub pgsleuth_postmaster_pid : Server → ℤ
pgsleuth_postmaster_pid s = s.postmaster_pid

-- The row of `SELECT pgsleuth_wal_device()::text, pgsleuth_postmaster_pid()`, if there is one.
abbrev row_of : Result String → ℤ → Option (String × ℤ)
row_of (ok device) pid = some (device, pid)
row_of (err e) pid = none

unfoldable pub query_row : Server → Option (String × ℤ)
unfolding pgsleuth_wal_device pgsleuth_postmaster_pid
query_row s = row_of (pgsleuth_wal_device s) (pgsleuth_postmaster_pid s)
