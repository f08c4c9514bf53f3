-- ===== src/Loader/SetUp.antt =====
-- The set-up of the kernel programs: the object that is loaded, its filter, the programs that are
-- attached, and the ring buffers.
pub mod Plan
use pgsleuth.Base.{String, ◌<>◌, true, false, List, [], ◌∷◌, ◌++◌, lines, Result, ok, err}
use mathlib.Core.Bool.{Bool}
use pgsleuth.Ebpf.Events.{FilterConfig}

-- The crate `aya`: whether each of its calls succeeds.
pub record Aya : Type 0 where
  pub loads_file : String → Bool
  pub has_map : String → Bool
  pub is_array : String → Bool
  pub sets : FilterConfig → Bool
  pub has_program : String → Bool
  pub is_kprobe : String → Bool
  pub is_tracepoint : String → Bool
  pub loads : String → Bool
  pub attaches_kprobe : String → String → Bool
  pub attaches : String → String → String → Bool
  pub is_ring_buf : String → Bool
  pub makes_async_fd : String → Bool

-- What the set-up has done: to the kernel, and in the log.
pub data Action : Type 0 where
  load_file : String → Action
  set_filter : FilterConfig → Action
  load : String → Action
  attach_fn : String → String → Action
  attach_point : String → String → String → Action
  async_fd : String → Action
  info : String → Action

-- A fallible call, with what was done before it returned.
abbrev pub SetUp : Type 0
SetUp = Result (Unit {0}) × List Action

infixl 5 ◌>>◌
abbrev pub ◌>>◌ : SetUp → SetUp → SetUp
(ok _, done) >> (r, more) = (r, done ++ more)
(err e, done) >> m = (err e, done)

-- `.context(text)?` on a call that changes nothing.
abbrev pub require : Bool → String → SetUp
require true text = (ok tt, [])
require false text = (err text, [])

-- `.context(text)?` on a call that acts if it succeeds.
abbrev pub perform : Bool → Action → String → SetUp
perform true action text = (ok tt, action ∷ [])
perform false action text = (err text, [])

abbrev pub log : String → SetUp
log line = (ok tt, info line ∷ [])

abbrev pub infos : List String → List Action
infos [] = []
infos (line ∷ lines) = info line ∷ infos lines

abbrev pub log_all : List String → SetUp
log_all lines = (ok tt, infos lines)

module _ (a : Aya) where
  unfoldable pub attach_kprobe : SetUp
  attach_kprobe =
      require (a.has_program "pgsleuth_ebpf") "Failed to get pgsleuth_ebpf program"
      >> (require (a.is_kprobe "pgsleuth_ebpf") "Failed to coerce program to KProbe"
          >> (perform (a.loads "pgsleuth_ebpf") (load "pgsleuth_ebpf") "Failed to load kprobe"
              >> (perform (a.attaches_kprobe "pgsleuth_ebpf" "vfs_open")
                    (attach_fn "pgsleuth_ebpf" "vfs_open") "Failed to attach kprobe to vfs_open"
                  >> log "Successfully attached kprobe to vfs_open")))

  unfoldable pub attach_block_issue : SetUp
  attach_block_issue =
      require (a.has_program "pgsleuth_block_rq_issue")
        "Failed to get pgsleuth_block_rq_issue program"
      >> (require (a.is_tracepoint "pgsleuth_block_rq_issue")
            "Failed to coerce program to TracePoint"
          >> (perform (a.loads "pgsleuth_block_rq_issue") (load "pgsleuth_block_rq_issue")
                "Failed to load block_rq_issue tracepoint program"
              >> (perform (a.attaches "pgsleuth_block_rq_issue" "block" "block_rq_issue")
                    (attach_point "pgsleuth_block_rq_issue" "block" "block_rq_issue")
                    "Failed to attach tracepoint block:block_rq_issue"
                  >> log "Successfully attached tracepoint block:block_rq_issue")))

  unfoldable pub attach_block_complete : SetUp
  attach_block_complete =
      require (a.has_program "pgsleuth_block_rq_complete")
        "Failed to get pgsleuth_block_rq_complete program"
      >> (require (a.is_tracepoint "pgsleuth_block_rq_complete")
            "Failed to coerce program to TracePoint"
          >> (perform (a.loads "pgsleuth_block_rq_complete") (load "pgsleuth_block_rq_complete")
                "Failed to load block_rq_complete tracepoint program"
              >> (perform (a.attaches "pgsleuth_block_rq_complete" "block" "block_rq_complete")
                    (attach_point "pgsleuth_block_rq_complete" "block" "block_rq_complete")
                    "Failed to attach tracepoint block:block_rq_complete"
                  >> log "Successfully attached tracepoint block:block_rq_complete")))

  unfoldable pub attach_syscall_tracepoint : String → String → String → SetUp
  attach_syscall_tracepoint program category name =
      require (a.has_program program) ("Failed to get " <> program <> " program")
      >> (require (a.is_tracepoint program) ("Failed to coerce " <> program <> " to TracePoint")
          >> (perform (a.loads program) (load program) ("Failed to load " <> program)
              >> (perform (a.attaches program category name) (attach_point program category name)
                    ("Failed to attach " <> category <> ":" <> name)
                  >> log ("Successfully attached tracepoint " <> category <> ":" <> name))))

  -- From the object file to the filter in its map.
  unfoldable pub load_filter : String → FilterConfig → SetUp
  load_filter bpf_object config =
      log ("Loading BPF object from: " <> bpf_object)
      >> (perform (a.loads_file bpf_object) (load_file bpf_object) "Failed to load BPF object"
          >> (require (a.has_map "FILTER_CONFIG") "Failed to get FILTER_CONFIG map"
              >> (require (a.is_array "FILTER_CONFIG") "Failed to convert map to Array"
                  >> perform (a.sets config) (set_filter config)
                      "Failed to set filter config in map")))

  unfoldable pub attach_programs : SetUp
  unfolding attach_kprobe attach_block_issue attach_block_complete attach_syscall_tracepoint
  attach_programs =
      attach_kprobe
      >> (attach_block_issue
          >> (attach_block_complete
              >> (attach_syscall_tracepoint "pgsleuth_sys_enter_openat" "syscalls"
                    "sys_enter_openat"
                  >> attach_syscall_tracepoint "pgsleuth_sys_enter_unlinkat" "syscalls"
                      "sys_enter_unlinkat")))

  -- `RingBuf::try_from(bpf.take_map(name)…)`.
  unfoldable pub take_ring_buf : String → SetUp
  take_ring_buf name =
      require (a.has_map name) ("Failed to get " <> name <> " map")
      >> require (a.is_ring_buf name) ("Failed to convert " <> name <> " map to RingBuf")

  unfoldable pub new_async_fd : String → SetUp
  new_async_fd name =
      perform (a.makes_async_fd name) (async_fd name) ("Failed to create AsyncFd for " <> name)

  unfoldable pub open_buffers : SetUp
  unfolding take_ring_buf new_async_fd
  open_buffers =
      take_ring_buf "EVENTS"
      >> (take_ring_buf "BLOCK_EVENTS"
          >> (take_ring_buf "LATENCY_EVENTS"
              >> (take_ring_buf "TEMP_FILE_EVENTS"
                  >> (new_async_fd "EVENTS"
                      >> (new_async_fd "BLOCK_EVENTS"
                          >> (new_async_fd "LATENCY_EVENTS" >> new_async_fd "TEMP_FILE_EVENTS"))))))

  -- The set-up of `main`, with the lines of `log_filter_state`.
  unfoldable pub set_up : String → FilterConfig → List String → SetUp
  unfolding load_filter attach_programs open_buffers
  set_up bpf_object config filter_state =
      load_filter bpf_object config >> (log_all filter_state >> (attach_programs >> open_buffers))
