-- ===== src/Ebpf/Block/InFlight.antt =====
-- The requests in flight, against the history of the tracepoints.
use pgsleuth.Base.{
  ℕ, ◌≡◌, refl, ◌↔◌, ◌⊎◌, inl, true, false, Option, none, some, List, [], ◌∷◌, arith, if◌then◌else◌,
}
use pgsleuth.Ebpf.Events.{RqKey, rq_key_eq}
use mathlib.Core.Bool.{Bool}
use pgsleuth.Ebpf.Kernel.{Context, BpfHashMap, Kernel}
use pgsleuth.Ebpf.Block.{key_of, issue_at, finish, complete_at, block_rq_issue, block_rq_complete}

pub data Step : Type 0 where
  issue : Context → Step
  complete : Context → Step

-- `o == Some(k)`.
abbrev pub is_key : Option RqKey → RqKey → Bool
is_key none k = false
is_key (some j) k = rq_key_eq j k

-- Whether the tracepoint reads this key, behind its filter.
abbrev pub reads : Context → RqKey → Bool
reads ctx k = is_key (key_of ctx) k

-- The time of the last issue of a key that no completion of it follows, in a history whose latest
-- step is the first.
abbrev pub last_issue : RqKey → List Step → Option ℕ
last_issue k [] = none
last_issue k (issue ctx ∷ h) = if reads ctx k then some ctx.ktime_get_ns else last_issue k h
last_issue k (complete ctx ∷ h) = if reads ctx k then none else last_issue k h

pub rq_key_eq_iff : (a b : RqKey) → (rq_key_eq a b ≡ true) ↔ (a ≡ b)
rq_key_eq_iff a b = ground arith

module _ (m : BpfHashMap) where
  abbrev pub initial : Kernel m.Map
  initial = record {
    inflight = m.empty;
    events = [];
    block_events = [];
    latency_events = [];
    temp_file_events = [];
  }

  unfoldable pub after : List Step → Kernel m.Map
  after [] = initial
  after (issue ctx ∷ h) = block_rq_issue m ctx (after h)
  after (complete ctx ∷ h) = block_rq_complete m ctx (after h)

  abbrev pub Agrees : Option ℕ → Option ℕ → Type 0
  Agrees held open_since = (held ≡ none) ⊎ (held ≡ open_since)

  issue-Agrees :
      (k : RqKey) (ctx : Context) (read : Option RqKey) (s : Kernel m.Map) (o : Option ℕ)
      → Agrees (m.get k s.inflight) o
      → Agrees
          (m.get k (issue_at m ctx read s).inflight)
          (if is_key read k then some ctx.ktime_get_ns else o)
  unfolding issue_at
  issue-Agrees k ctx none s o h = h
  issue-Agrees k ctx (some j) s o h = ground (
    arith,
    rq_key_eq_iff j k,
    m.get-insert j ctx.ktime_get_ns s.inflight,
    m.get-insert_other j k ctx.ktime_get_ns s.inflight,
  )

  finish-Agrees :
      (k : RqKey) (ctx : Context) (j : RqKey) (held : Option ℕ) (s : Kernel m.Map) (o : Option ℕ)
      → held ≡ m.get j s.inflight
      → Agrees (m.get k s.inflight) o
      → Agrees (m.get k (finish m ctx j held s).inflight) (if rq_key_eq j k then none else o)
  unfolding finish
  finish-Agrees k ctx j none s o e h = ground (arith, rq_key_eq_iff j k)
  finish-Agrees k ctx j (some t) s o e h =
      ground
        (arith, rq_key_eq_iff j k, m.get-remove j s.inflight, m.get-remove_other j k s.inflight)

  complete-Agrees :
      (k : RqKey) (ctx : Context) (read : Option RqKey) (s : Kernel m.Map) (o : Option ℕ)
      → Agrees (m.get k s.inflight) o
      → Agrees (m.get k (complete_at m ctx read s).inflight) (if is_key read k then none else o)
  unfolding complete_at
  complete-Agrees k ctx none s o h = h
  complete-Agrees k ctx (some j) s o h = finish-Agrees k ctx j _ s o refl h

  pub after-last_issue :
      (k : RqKey) (h : List Step)
      → (m.get k (after h).inflight ≡ none) ⊎ (m.get k (after h).inflight ≡ last_issue k h)
  unfolding after block_rq_issue block_rq_complete
  after-last_issue k [] = inl (m.get-empty k)
  after-last_issue k (issue ctx ∷ h) =
      issue-Agrees k ctx (key_of ctx) (after h) _ (after-last_issue k h)
  after-last_issue k (complete ctx ∷ h) =
      complete-Agrees k ctx (key_of ctx) (after h) _ (after-last_issue k h)
