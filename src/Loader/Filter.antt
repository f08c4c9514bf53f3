-- ===== src/Loader/Filter.antt =====
-- Which processes and devices the loader asks the kernel for.
pub mod Name
pub mod Process
use pgsleuth.Base.{
  ℕ, zero, suc, min, true, false, Option, none, some, List, [], ◌∷◌, if◌then◌else◌, length,
  replicate, u32_max, unwrap_or, and_then, unsigned_try_from,
}
use mathlib.Core.Bool.{Bool}
use pgsleuth.Ebpf.Events.{FilterConfig}
use pgsleuth.Loader.Device.{PgDiscovery}

-- The arguments that the filter is made of; the name is its bytes.
pub record Args : Type 0 where
  pub name : List ℕ
  pub pid : Option ℕ  -- u32
  pub cgroup_id : Option ℕ  -- u64
  pub dev_t : Option ℕ  -- u32

abbrev pub is_some {ℓ} : {A : Type ℓ} → Option A → Bool
is_some none = false
is_some (some a) = true

-- `a.or_else(|| b)`.
abbrev or_else {ℓ} : {A : Type ℓ} → Option A → Option A → Option A
or_else none o = o
or_else (some a) o = some a

unfoldable pub resolve_pid_filter : Option ℕ → Option ℕ → Option PgDiscovery → Option ℕ
resolve_pid_filter (some pid) explicit_cgroup_id discovery = some pid
resolve_pid_filter none explicit_cgroup_id discovery =
    if is_some explicit_cgroup_id
    then none
    else and_then discovery (λ d. unsigned_try_from u32_max d.postmaster_pid)

unfoldable pub effective_dev_t : Args → Option PgDiscovery → ℕ
effective_dev_t args discovery =
    unwrap_or (or_else args.dev_t (and_then discovery (λ d. d.wal_dev_t))) 0

-- `buffer[..len].copy_from_slice(&src[..len])`, with `len` at most the length of both.
unfoldable pub copy_from_slice : ℕ → List ℕ → List ℕ → List ℕ
copy_from_slice zero src buffer = buffer
copy_from_slice (suc len) [] buffer = buffer
copy_from_slice (suc len) (b ∷ src) [] = []
copy_from_slice (suc len) (b ∷ src) (_ ∷ buffer) = b ∷ copy_from_slice len src buffer

unfoldable pub name_bytes : List ℕ → List ℕ
unfolding copy_from_slice
name_bytes name = copy_from_slice (min (length name) 15) name (replicate 16 0)

-- The configuration that `main` writes to the map.
unfoldable pub filter_config : Args → Option PgDiscovery → FilterConfig
filter_config args discovery = record {
  pid = unwrap_or (resolve_pid_filter args.pid args.cgroup_id discovery) 0;
  cgroup_id = unwrap_or args.cgroup_id 0;
  name = name_bytes args.name;
  dev_t = effective_dev_t args discovery;
}
