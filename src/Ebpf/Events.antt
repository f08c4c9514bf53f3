-- ===== src/Ebpf/Events.antt =====
-- crates/pgsleuth-ebpf-common/src/lib.rs: the data that crosses from the kernel to the loader. A byte
-- array is the list of its bytes.
use pgsleuth.Base.{ℕ, ◌&&◌, List, ◌==◌}
use mathlib.Core.Bool.{Bool}

abbrev pub comm_len : ℕ
comm_len = 16

abbrev pub file_event_path_len : ℕ
file_event_path_len = 128

pub record TraceEvent : Type 0 where
  pub pid : ℕ  -- u32
  pub port : ℕ  -- u32
  pub comm : List ℕ  -- [u8; 16]

pub record FilterConfig : Type 0 where
  pub pid : ℕ  -- u32
  pub cgroup_id : ℕ  -- u64
  pub name : List ℕ  -- [u8; 16]
  pub dev_t : ℕ  -- u32

pub record BlockEvent : Type 0 where
  pub dev : ℕ  -- u32
  pub pid : ℕ  -- u32
  pub bytes : ℕ  -- u32
  pub comm : List ℕ  -- [u8; 16]

pub data OpClass : Type 0 where
  read write write_flush other : OpClass

-- `class as u8`.
unfoldable pub to_u8 : OpClass → ℕ
to_u8 read = 0
to_u8 write = 1
to_u8 write_flush = 2
to_u8 other = 3

-- The padding of a struct is left out: it is 0 in each.
pub record RqKey : Type 0 where
  pub dev : ℕ  -- u32
  pub sector : ℕ  -- u64

-- `==` on keys.
abbrev pub rq_key_eq : RqKey → RqKey → Bool
rq_key_eq a b = (a.dev == b.dev) && (a.sector == b.sector)

pub record BlockIoLatencyEvent : Type 0 where
  pub dev : ℕ  -- u32
  pub op_class : ℕ  -- u8
  pub bytes : ℕ  -- u32
  pub latency_ns : ℕ  -- u64

pub record TempFileEvent : Type 0 where
  pub pid : ℕ  -- u32
  pub syscall : ℕ  -- u8
  pub bytes : ℕ  -- u64
  pub query_hash : ℕ  -- u64
  pub comm : List ℕ  -- [u8; 16]
  pub path : List ℕ  -- [u8; 128]
