-- ===== src/Loader/Device.antt =====
-- The WAL device: the text that crates/pgsleuth-pg-ext/src/lib.rs prints, the loader's parse of it,
-- and what the loader discovers.
pub mod RoundTrip
use pgsleuth.Base.{
  to_string, ℕ, ◌*◌, ◌^◌, bit_or, String, ◌<>◌, Bool, ◌||◌, Option, none, some, leb, if◌then◌else◌,
  and_then, ℤ, trim, split_once, Result, ◌>>=◌, context, ok, err,
}
use pgsleuth.Base.Decimal.{parse_u32}

-- The last line of `pgsleuth_wal_device`, on the numbers that `libc::major` and `libc::minor` return.
unfoldable pub wal_device : ℕ → ℕ → String
wal_device major minor = to_string major <> (":" <> to_string minor)

-- The numbers behind the parse.
unfoldable pub kernel_dev_t : ℕ → ℕ → Option ℕ
kernel_dev_t major minor =
    if leb (2 ^ 12) major || leb (2 ^ 20) minor then none else some (bit_or (major * 2 ^ 20) minor)

-- The two texts around the colon.
unfoldable pub parse_parts : String × String → Option ℕ
unfolding kernel_dev_t
parse_parts (major_s, minor_s) =
    and_then (parse_u32 (trim major_s))
      (λ major. and_then (parse_u32 (trim minor_s)) (λ minor. kernel_dev_t major minor))

unfoldable pub parse_kernel_dev_t : String → Option ℕ
unfolding parse_parts
parse_kernel_dev_t s = and_then (split_once b':' s) (λ parts. parse_parts parts)

pub record PgDiscovery : Type 0 where
  pub postmaster_pid : ℤ  -- i32
  pub wal_dev_t : Option ℕ

-- `discover_via_pg_ext`: whether the connection succeeds, and the row of the query.
unfoldable pub discover_via_pg_ext : String → Bool → Option (String × ℤ) → Result PgDiscovery
unfolding parse_kernel_dev_t
discover_via_pg_ext pg_conn connects row =
    if connects
    then context row "pgsleuth_wal_device() / pgsleuth_postmaster_pid() query failed"
      >>= (λ (wal_device, postmaster_pid).
          ok
            (record { postmaster_pid = postmaster_pid; wal_dev_t = parse_kernel_dev_t wal_device }))
    else err ("Failed to connect to Postgres at " <> pg_conn)
