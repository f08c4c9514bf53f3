-- ===== src/Ebpf/Kernel/Example.antt =====
-- Concrete contexts, a history of block requests, and a map that is never full, for tests and for the
-- theorems at concrete inputs.
use pgsleuth.Base.{
  ℕ, ◌≡◌, refl, ◌≢◌, inl, true, Option, none, some, List, [], ◌∷◌, arith, ◌==◌, if◌then◌else◌,
  replicate,
}
use pgsleuth.Ebpf.Events.{FilterConfig, RqKey, rq_key_eq}
use pgsleuth.Ebpf.Kernel.{Context, BpfHashMap}
use pgsleuth.Ebpf.Block.InFlight.{Step, issue, complete, rq_key_eq_iff}

-- A map that is never full.
abbrev pub put : RqKey → Option ℕ → (RqKey → Option ℕ) → RqKey → Option ℕ
put k o m j = if rq_key_eq k j then o else m j

pub put_same : (k : RqKey) (o : Option ℕ) (m : RqKey → Option ℕ) → put k o m k ≡ o
put_same k o m = ground (arith, rq_key_eq_iff k k)

pub put_other : (k j : RqKey) (o : Option ℕ) (m : RqKey → Option ℕ) → j ≢ k → put k o m j ≡ m j
put_other k j o m h = ground (arith, rq_key_eq_iff k j)

abbrev pub unbounded : BpfHashMap
unbounded = record {
  Map = RqKey → Option ℕ;
  empty = λ k. none;
  get = λ k m. m k;
  insert = λ k v m. put k (some v) m;
  remove = λ k m. put k none m;
  get-empty = λ k. refl;
  get-insert = λ k v m. inl (put_same k (some v) m);
  get-insert_other = λ k j v m h. put_other k j (some v) m h;
  get-remove = λ k m. put_same k none m;
  get-remove_other = λ k j m h. put_other k j none m h;
}

abbrev pub config : FilterConfig
config = record { pid = 42; cgroup_id = 0; name = b'p' ∷ b'o' ∷ replicate 14 0; dev_t = 8388608 }

-- "postgres".
abbrev pub postgres : List ℕ
postgres = b'p' ∷ b'o' ∷ b's' ∷ b't' ∷ b'g' ∷ b'r' ∷ b'e' ∷ b's' ∷ replicate 8 0

abbrev pub fsync_flags : List ℕ
fsync_flags = b'W' ∷ b'F' ∷ b'S' ∷ replicate 5 0

-- A request of eight sectors, at this sector and time.
abbrev pub context : ℕ → ℕ → Context
context sector now = record {
  filter_config = some config;
  pid = 7;
  current_cgroup_id = 0;
  current_comm = some postgres;
  ktime_get_ns = now;
  read_at_u32 = λ offset. if offset == 8 then some 8388608 else some 8;
  read_at_u64 = λ offset. some sector;
  read_at_bytes = λ offset. some fsync_flags;
  read_user_str = λ pointer size. replicate size 0;
  can_reserve = true;
}

-- The latest step is the first: the request at sector 5 is issued again before it completes.
abbrev pub history : List Step
history =
    complete (context 5 100)
    ∷ complete (context 5 90)
    ∷ issue (context 5 70)
    ∷ issue (context 6 40)
    ∷ issue (context 5 30)
    ∷ []
