-- ===== src/Ebpf/Trace/Selection.antt =====
-- Which opens the kprobe reports.
use pgsleuth.Base.{
  ℕ, ◌≡◌, refl, ◌≢◌, ◌↔◌, ◌⊎◌, true, false, some, List, [], ◌∷◌, arith, ◌==◌, if◌then◌else◌,
}
use pgsleuth.Ebpf.Kernel.{Context, Kernel, comm_of, submit}
use pgsleuth.Ebpf.Events.{FilterConfig}
use pgsleuth.Ebpf.Trace.{name_matches, is_named, selects, vfs_open}

-- The bytes of an array in front of its first 0.
abbrev pub c_str : List ℕ → List ℕ
c_str [] = []
c_str (c ∷ cs) = if c == 0 then [] else c ∷ c_str cs

abbrev pub IsPrefix : List ℕ → List ℕ → Type 0
IsPrefix [] ys = Unit
IsPrefix (x ∷ xs) [] = ⊥
IsPrefix (x ∷ xs) (y ∷ ys) = (x ≡ y) × IsPrefix xs ys

-- What a configuration asks for: nothing, or one of the filters that are set.
abbrev pub Selected : FilterConfig → ℕ → ℕ → List ℕ → Type 0
Selected config pid cgid comm =
    ((config.cgroup_id ≡ 0) × (config.pid ≡ 0) × (is_named config.name ≡ false))
    ⊎ ((config.cgroup_id ≢ 0) × (cgid ≡ config.cgroup_id))
    ⊎ ((config.pid ≢ 0) × (pid ≡ config.pid))
    ⊎ ((is_named config.name ≡ true) × IsPrefix (c_str config.name) comm)

pub name_matches-IsPrefix :
    (name comm : List ℕ) → name_matches name comm ≡ true → IsPrefix (c_str name) comm
unfolding name_matches
name_matches-IsPrefix [] comm h = ground arith
name_matches-IsPrefix (n ∷ name) [] h = ground arith
name_matches-IsPrefix (n ∷ name) (c ∷ comm) h = ground (arith, name_matches-IsPrefix name comm)

pub IsPrefix-name_matches :
    (name comm : List ℕ) → IsPrefix (c_str name) comm → name_matches name comm ≡ true
unfolding name_matches
IsPrefix-name_matches [] comm h = refl
IsPrefix-name_matches (n ∷ name) [] h = ground arith
IsPrefix-name_matches (n ∷ name) (c ∷ comm) h = ground (arith, IsPrefix-name_matches name comm)

selects-Selected :
    (config : FilterConfig) (pid cgid : ℕ) (comm : List ℕ)
    → selects config pid cgid comm ≡ true
    → Selected config pid cgid comm
unfolding selects
selects-Selected config pid cgid comm h = ground (arith, name_matches-IsPrefix config.name comm)

Selected-selects :
    (config : FilterConfig) (pid cgid : ℕ) (comm : List ℕ)
    → Selected config pid cgid comm
    → selects config pid cgid comm ≡ true
unfolding selects
Selected-selects config pid cgid comm h = ground (arith, IsPrefix-name_matches config.name comm)

-- With a configuration in place, the program returns 0 exactly for the opens that are selected: those by the cgroup, the process or the command that the filters name, a name being a prefix of the command, and all opens if no filter is set. It submits one event for each of these that the ring buffer has room for, and none else.
pub vfs_open-Selected :
    {M : Type 0} (ctx : Context) (k : Kernel M) (config : FilterConfig)
    → ctx.filter_config ≡ some config
    → (((vfs_open ctx k).1 ≡ 0) ↔ Selected config ctx.pid ctx.current_cgroup_id (comm_of ctx))
      × ((vfs_open ctx k).0.events ≡ (
          if (vfs_open ctx k).1 == 0
          then submit ctx (record { pid = ctx.pid; port = 0; comm = comm_of ctx }) k.events
          else k.events))
unfolding vfs_open
vfs_open-Selected ctx k config e = rw e (
    ground (
      arith,
      selects-Selected config ctx.pid ctx.current_cgroup_id (comm_of ctx),
      Selected-selects config ctx.pid ctx.current_cgroup_id (comm_of ctx),
    ))
