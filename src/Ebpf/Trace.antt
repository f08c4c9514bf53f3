-- ===== src/Ebpf/Trace.antt =====
-- pgsleuth-ebpf/src/main.rs: the kprobe on `vfs_open`, and its filter.
pub mod Selection
use pgsleuth.Base.{
  ℕ, ◌+◌, true, false, not, ◌&&◌, none, some, List, [], ◌∷◌, ltb, ◌==◌, if◌then◌else◌,
}
use mathlib.Core.Bool.{Bool}
use pgsleuth.Ebpf.Events.{FilterConfig, TraceEvent}
use pgsleuth.Ebpf.Kernel.{Context, Kernel, comm_of, submit}

-- The loop over the bytes of the name; both arrays have 16.
unfoldable pub name_matches : List ℕ → List ℕ → Bool
name_matches [] comm = true
name_matches (n ∷ name) [] = n == 0
name_matches (n ∷ name) (c ∷ comm) =
    let rest = name_matches name comm in if n == 0 then true else if c == n then rest else false

-- `config.name[0] != 0`.
abbrev pub is_named : List ℕ → Bool
is_named [] = false
is_named (n ∷ name) = not (n == 0)

-- The state of the three filters: whether one matches, and how many were tried.
abbrev Filters : Type 0
Filters = Bool × ℕ

-- One filter: it is tried when nothing matched before and it is set.
try_filter : Bool → Bool → Filters → Filters
try_filter is_set is_match (matches, criteria_met) =
    if not matches && is_set then (is_match, criteria_met + 1) else (matches, criteria_met)

-- Whether the program goes on behind its filters.
unfoldable pub selects : FilterConfig → ℕ → ℕ → List ℕ → Bool
unfolding try_filter
selects config current_pid current_cgid comm =
    let by_cgroup =
      try_filter (not (config.cgroup_id == 0)) (current_cgid == config.cgroup_id) (false, 0) in
    let by_pid = try_filter (not (config.pid == 0)) (current_pid == config.pid) by_cgroup in
    let (matches, criteria_met) =
      try_filter (is_named config.name) (name_matches config.name comm) by_pid in
    not (ltb 0 criteria_met && not matches)

-- The program, with the code that it returns.
unfoldable pub vfs_open : {M : Type 0} → Context → Kernel M → Kernel M × ℕ
vfs_open ctx k = elim ctx.filter_config [
  | none ↦ (k, 1)
  | some config ↦
      let event : TraceEvent = record { pid = ctx.pid; port = 0; comm = comm_of ctx } in
      if selects config ctx.pid ctx.current_cgroup_id (comm_of ctx)
      then (record k { events = submit ctx event k.events }, 0)
      else (k, 1)
]
