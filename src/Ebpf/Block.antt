-- ===== src/Ebpf/Block.antt =====
-- pgsleuth-ebpf/src/main.rs: the tracepoints of the block layer.
pub mod Latency
pub mod InFlight
use pgsleuth.Base.{
  ℕ, ◌&&◌, ◌||◌, Option, none, some, List, [], ◌∷◌, ◌==◌, if◌then◌else◌, replicate, any, u32_max,
  saturating_mul, saturating_sub, unwrap_or, and_then,
}
use pgsleuth.Ebpf.Events.{
  read, write, write_flush, other, to_u8, RqKey, BlockIoLatencyEvent, BlockEvent,
}
use pgsleuth.Ebpf.Kernel.{Context, BpfHashMap, Kernel, comm_of, submit}

abbrev pub block_rq_off_dev : ℕ
block_rq_off_dev = 8

abbrev pub block_rq_off_sector : ℕ
block_rq_off_sector = 16

abbrev pub block_rq_issue_off_bytes : ℕ
block_rq_issue_off_bytes = 28

abbrev pub block_rq_off_rwbs : ℕ
block_rq_off_rwbs = 32

abbrev pub block_rq_complete_off_nr_sector : ℕ
block_rq_complete_off_nr_sector = 24

abbrev pub sector_size_bytes : ℕ
sector_size_bytes = 512

-- `rwbs[0]`; the array has 8 bytes.
abbrev pub first_byte : List ℕ → ℕ
first_byte [] = 0
first_byte (c ∷ cs) = c

unfoldable pub classify_rwbs : List ℕ → ℕ
unfolding to_u8
classify_rwbs rwbs =
    let first = first_byte rwbs in
    let is_write = first == b'W' || first == b'F' in
    let is_flush_or_fua = any (λ c. c == b'F' || c == b'A') rwbs in
    if first == b'R'
    then to_u8 read
    else if is_write && is_flush_or_fua
    then to_u8 write_flush
    else if is_write
    then to_u8 write
    else to_u8 other

-- The key that both tracepoints read of their context, behind the filter on the device; without it
-- they return.
unfoldable pub key_of : Context → Option RqKey
key_of ctx = and_then ctx.filter_config (λ config.
    and_then (ctx.read_at_u32 block_rq_off_dev) (λ dev.
      if config.dev_t == 0 || dev == config.dev_t
      then and_then (ctx.read_at_u64 block_rq_off_sector)
          (λ sector. some (record { dev = dev; sector = sector }))
      else none))

-- The event of a completion, from the time of its issue.
unfoldable pub latency_event : Context → RqKey → ℕ → BlockIoLatencyEvent
latency_event ctx key issue_ts =
    let nr_sector = unwrap_or (ctx.read_at_u32 block_rq_complete_off_nr_sector) 0 in
    let rwbs = unwrap_or (ctx.read_at_bytes block_rq_off_rwbs) (replicate 8 0) in
    record {
      dev = key.dev;
      op_class = classify_rwbs rwbs;
      bytes = saturating_mul u32_max nr_sector sector_size_bytes;
      latency_ns = saturating_sub ctx.ktime_get_ns issue_ts;
    }

module _ (h : BpfHashMap) where
  -- The program behind the reading of the key: the insertion is best-effort.
  unfoldable pub issue_at : Context → Option RqKey → Kernel h.Map → Kernel h.Map
  issue_at ctx none k = k
  issue_at ctx (some key) k =
      let event : BlockEvent = record {
        dev = key.dev;
        pid = ctx.pid;
        bytes = unwrap_or (ctx.read_at_u32 block_rq_issue_off_bytes) 0;
        comm = comm_of ctx;
      } in
      record k {
        inflight = h.insert key ctx.ktime_get_ns k.inflight;
        block_events = submit ctx event k.block_events;
      }

  -- `pgsleuth_block_rq_issue`, which returns 0 on every path.
  unfoldable pub block_rq_issue : Context → Kernel h.Map → Kernel h.Map
  unfolding issue_at
  block_rq_issue ctx k = issue_at ctx (key_of ctx) k

  -- The program behind the look-up of the key.
  unfoldable pub finish : Context → RqKey → Option ℕ → Kernel h.Map → Kernel h.Map
  finish ctx key none k = k
  finish ctx key (some issue_ts) k = record k {
    inflight = h.remove key k.inflight;
    latency_events = submit ctx (latency_event ctx key issue_ts) k.latency_events;
  }

  unfoldable pub complete_at : Context → Option RqKey → Kernel h.Map → Kernel h.Map
  unfolding finish
  complete_at ctx none k = k
  complete_at ctx (some key) k = finish ctx key (h.get key k.inflight) k

  -- `pgsleuth_block_rq_complete`, which returns 0 on every path.
  unfoldable pub block_rq_complete : Context → Kernel h.Map → Kernel h.Map
  unfolding complete_at
  block_rq_complete ctx k = complete_at ctx (key_of ctx) k
