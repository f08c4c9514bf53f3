-- ===== src/Ebpf/Kernel.antt =====
-- What the programs of crates/pgsleuth-ebpf/src/main.rs call of the kernel and of aya: what a context
-- returns, the hash map of requests in flight, and the ring buffers.
pub mod Example
use pgsleuth.Base.{
  ℕ, ◌≡◌, ◌≢◌, ◌⊎◌, Option, none, some, List, [], ◌∷◌, ◌++◌, if◌then◌else◌, replicate, unwrap_or,
}
use mathlib.Core.Bool.{Bool}
use pgsleuth.Ebpf.Events.{
  TraceEvent, FilterConfig, BlockEvent, RqKey, BlockIoLatencyEvent, TempFileEvent,
}

-- What the helpers return while a program runs on one event.
pub record Context : Type 0 where
  pub filter_config : Option FilterConfig  -- FILTER_CONFIG.get(0)
  pub pid : ℕ
  pub current_cgroup_id : ℕ
  pub current_comm : Option (List ℕ)
  pub ktime_get_ns : ℕ
  pub read_at_u32 : ℕ → Option ℕ
  pub read_at_u64 : ℕ → Option ℕ
  pub read_at_bytes : ℕ → Option (List ℕ)
  -- what `bpf_probe_read_user_str_bytes` leaves in a zeroed buffer of this length
  pub read_user_str : ℕ → ℕ → List ℕ
  -- whether the program's ring buffer has room for its event
  pub can_reserve : Bool

-- A BPF hash map: to insert replaces the value of a key that is there, and a full map drops a new
-- key.
pub record BpfHashMap : Type 1 where
  pub Map : Type 0
  pub empty : Map
  pub get : RqKey → Map → Option ℕ
  pub insert : RqKey → ℕ → Map → Map
  pub remove : RqKey → Map → Map
  pub get-empty : (k : RqKey) → get k empty ≡ none
  pub get-insert :
      (k : RqKey) (v : ℕ) (m : Map)
      → (get k (insert k v m) ≡ some v) ⊎ (get k (insert k v m) ≡ none)
  pub get-insert_other : (k j : RqKey) (v : ℕ) (m : Map) → j ≢ k → get j (insert k v m) ≡ get j m
  pub get-remove : (k : RqKey) (m : Map) → get k (remove k m) ≡ none
  pub get-remove_other : (k j : RqKey) (m : Map) → j ≢ k → get j (remove k m) ≡ get j m

-- The maps of the programs: the requests in flight, and what the ring buffers were given.
pub record Kernel (M : Type 0) : Type 0 where
  pub inflight : M
  pub events : List TraceEvent
  pub block_events : List BlockEvent
  pub latency_events : List BlockIoLatencyEvent
  pub temp_file_events : List TempFileEvent

-- `match bpf_get_current_comm() { Ok(c) => c, _ => [0; 16] }`.
abbrev pub comm_of : Context → List ℕ
comm_of ctx = unwrap_or ctx.current_comm (replicate 16 0)

-- `if let Some(entry) = BUFFER.reserve(0) { entry.write(event); entry.submit(0) }`.
abbrev pub submit {ℓ} : {E : Type ℓ} → Context → E → List E → List E
submit ctx event buffer = if ctx.can_reserve then buffer ++ event ∷ [] else buffer
