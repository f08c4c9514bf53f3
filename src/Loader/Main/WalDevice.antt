-- ===== src/Loader/Main/WalDevice.antt =====
-- From the device that the extension finds to the requests that the kernel's programs handle.
use pgsleuth.Base.{
  ℕ, ◌+◌, ◌*◌, ◌^◌, ◌<◌, String, ◌≡◌, refl, true, false, none, some, arith, ◌==◌, if◌then◌else◌,
  lt→ltb, is_empty, ok,
}
use pgsleuth.External.{External}
use pgsleuth.Otel.Mapping.{OpenTelemetry}
use pgsleuth.PgExt.{Server, wal_path, pgsleuth_wal_device, pgsleuth_postmaster_pid, query_row}
use pgsleuth.Ebpf.Kernel.{Context, Kernel, BpfHashMap}
use pgsleuth.Ebpf.Block.{
  block_rq_off_dev, block_rq_off_sector, key_of, issue_at, block_rq_issue, complete_at,
  block_rq_complete,
}
use pgsleuth.Loader.Device.{discover_via_pg_ext}
use pgsleuth.Loader.Device.RoundTrip.{parse_kernel_dev_t-wal_device}
use pgsleuth.Loader.Filter.{effective_dev_t, filter_config}
use pgsleuth.Loader.Spill.{Utf8}
use pgsleuth.Loader.SetUp.{Aya}
use pgsleuth.Loader.Main.{Args, discover, best_effort}
use pgsleuth.Loader.Main.Outcome.{config_of}

-- The kernel's own number of a device.
abbrev pub kernel_dev : Server → ℕ → ℕ
kernel_dev s dev = s.major dev * 2 ^ 20 + s.minor dev

discover_via_pg_ext-query_row :
    (pg_conn : String) (s : Server) (dev : ℕ)
    → s.metadata_dev (wal_path s) ≡ some dev
    → s.major dev < 2 ^ 12
    → s.minor dev < 2 ^ 20
    → discover_via_pg_ext pg_conn true (query_row s)
      ≡ ok (record { postmaster_pid = s.postmaster_pid; wal_dev_t = some (kernel_dev s dev) })
unfolding discover_via_pg_ext query_row pgsleuth_wal_device pgsleuth_postmaster_pid
discover_via_pg_ext-query_row pg_conn s dev e h k =
    rw
      (
        e,
        parse_kernel_dev_t-wal_device (s.major dev) (s.minor dev) (omega arith) (omega arith),
        lt→ltb (s.major dev) (2 ^ 12) h,
        lt→ltb (s.minor dev) (2 ^ 20) k,
      )
      refl

module _ (x : External) (o : OpenTelemetry x) (u : Utf8) (a : Aya) where
  config_of-dev_t :
      (args : Args) (s : Server) (dev : ℕ)
      → is_empty args.pg_conn ≡ false
      → args.dev_t ≡ none
      → s.metadata_dev (wal_path s) ≡ some dev
      → s.major dev < 2 ^ 12
      → s.minor dev < 2 ^ 20
      → (config_of x o u a args true (query_row s)).dev_t ≡ kernel_dev s dev
  unfolding discover best_effort filter_config effective_dev_t
  config_of-dev_t args s dev asked free found h k =
      rw (asked, free, discover_via_pg_ext-query_row args.pg_conn s dev found h k) refl

  -- Let the loader be started with a connection to Postgres and without a device of its own, and the extension find the WAL on a device whose numbers are in the kernel's ranges and not both 0. Under the filter that the loader sets, the block programs handle a request whose device and sector they can read exactly if it is on that device, by the kernel's number of it: for any other they change nothing.
  pub block_rq-wal_device :
      (h : BpfHashMap) (args : Args) (s : Server) (dev : ℕ) (ctx : Context) (k : Kernel h.Map)
      (d sector : ℕ)
      → is_empty args.pg_conn ≡ false
      → args.dev_t ≡ none
      → s.metadata_dev (wal_path s) ≡ some dev
      → s.major dev < 2 ^ 12
      → s.minor dev < 2 ^ 20
      → 0 < kernel_dev s dev
      → ctx.filter_config ≡ some (config_of x o u a args true (query_row s))
      → ctx.read_at_u32 block_rq_off_dev ≡ some d
      → ctx.read_at_u64 block_rq_off_sector ≡ some sector
      → (block_rq_issue h ctx k ≡ (
          if d == kernel_dev s dev
          then issue_at h ctx (some (record { dev = d; sector = sector })) k
          else k))
        × (block_rq_complete h ctx k ≡ (
            if d == kernel_dev s dev
            then complete_at h ctx (some (record { dev = d; sector = sector })) k
            else k))
  unfolding block_rq_issue block_rq_complete key_of issue_at complete_at
  block_rq-wal_device h args s dev ctx k d sector asked free found major minor some_dev set at_dev
        at_sector =
      let e = config_of-dev_t args s dev asked free found major minor in
      rw (set, at_dev, at_sector) (ground (arith, e), ground (arith, e))
