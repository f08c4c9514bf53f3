-- ===== src/Ebpf/File.antt =====
-- pgsleuth-ebpf/src/main.rs: the tracepoints of `openat` and `unlinkat`.
use pgsleuth.Base.{ℕ, not, ◌&&◌, Option, none, some, ◌==◌, if◌then◌else◌, and_then}
use pgsleuth.Ebpf.Events.{file_event_path_len, TempFileEvent}
use pgsleuth.Ebpf.Kernel.{Context, Kernel, comm_of, submit}

abbrev pub openat_off_filename : ℕ
openat_off_filename = 24

abbrev pub unlinkat_off_filename : ℕ
unlinkat_off_filename = 24

-- The user pointer that the program reads behind its filter on the process; a null pointer ends it.
unfoldable pub filename_of : Context → ℕ → Option ℕ
filename_of ctx off_filename = and_then ctx.filter_config (λ config.
    if not (config.pid == 0) && not (ctx.pid == config.pid)
    then none
    else and_then (ctx.read_at_u64 off_filename)
        (λ filename_ptr. if filename_ptr == 0 then none else some filename_ptr))

unfoldable pub capture_file_syscall : {M : Type 0} → Context → ℕ → ℕ → Kernel M → Kernel M
capture_file_syscall ctx syscall_kind off_filename k = elim (filename_of ctx off_filename) [
  | none ↦ k
  | some filename_ptr ↦
      let event : TempFileEvent = record {
        pid = ctx.pid;
        syscall = syscall_kind;
        bytes = 0;
        query_hash = 0;
        comm = comm_of ctx;
        path = ctx.read_user_str filename_ptr file_event_path_len;
      } in
      record k { temp_file_events = submit ctx event k.temp_file_events }
]

unfoldable pub sys_enter_openat : {M : Type 0} → Context → Kernel M → Kernel M
unfolding capture_file_syscall
sys_enter_openat ctx = capture_file_syscall ctx 0 openat_off_filename

unfoldable pub sys_enter_unlinkat : {M : Type 0} → Context → Kernel M → Kernel M
unfolding capture_file_syscall
sys_enter_unlinkat ctx = capture_file_syscall ctx 1 unlinkat_off_filename
