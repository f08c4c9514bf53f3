-- ===== src/Loader/Filter/Process.antt =====
-- What the default filter lets the file tracepoints report.
use pgsleuth.Base.{ℕ, ◌≤◌, ◌<◌, ◌≡◌, ◌≢◌, none, some, arith, u32_max, pos}
use pgsleuth.Ebpf.Kernel.{Context, Kernel}
use pgsleuth.Ebpf.File.{filename_of, capture_file_syscall}
use pgsleuth.Loader.Device.{PgDiscovery}
use pgsleuth.Loader.Filter.{Args, resolve_pid_filter, filter_config}

-- Under the filter that the loader makes of its default arguments and of a discovery whose postmaster has a positive process id, a file event is reported only where the postmaster itself makes the call: on any other process the programs change nothing.
pub capture_file_syscall-default :
    {M : Type 0} (args : Args) (d : PgDiscovery) (postmaster : ℕ) (ctx : Context) (kind offset : ℕ)
    (k : Kernel M)
    → args.pid ≡ none
    → args.cgroup_id ≡ none
    → d.postmaster_pid ≡ pos postmaster
    → 0 < postmaster
    → postmaster ≤ u32_max
    → ctx.filter_config ≡ some (filter_config args (some d))
    → ctx.pid ≢ postmaster
    → capture_file_syscall ctx kind offset k ≡ k
unfolding capture_file_syscall filename_of filter_config resolve_pid_filter
capture_file_syscall-default args d postmaster ctx kind offset k ep ec ed h fits ef ne =
    rw (ef, ep, ec, ed) (ground arith)
