-- ===== src/Ebpf/Block/Latency.antt =====
-- The latencies that the completions report, against the history of the tracepoints.
use pgsleuth.Base.{
  ℕ, ◌≡◌, refl, sym, ap, ◌∙◌, inl, inr, true, Option, none, some, List, [], ◌∷◌, ◌++◌, append-nil,
  arith, if◌then◌else◌, Bool-cases,
}
use pgsleuth.Ebpf.Events.{RqKey, BlockIoLatencyEvent, rq_key_eq}
use pgsleuth.Ebpf.Kernel.{Context, BpfHashMap, Kernel, submit}
use pgsleuth.Ebpf.Block.{
  key_of, latency_event, block_rq_issue, block_rq_complete, issue_at, finish, complete_at,
}
use pgsleuth.Ebpf.Block.InFlight.{
  Step, issue, complete, is_key, last_issue, after, after-last_issue, Agrees, rq_key_eq_iff,
}

abbrev pub event_of : Context → RqKey → Option ℕ → List BlockIoLatencyEvent
event_of ctx k none = []
event_of ctx k (some t) = latency_event ctx k t ∷ []

abbrev pub latency_of : Context → Option RqKey → List Step → List BlockIoLatencyEvent
latency_of ctx none h = []
latency_of ctx (some k) h = event_of ctx k (last_issue k h)

-- What a history calls for: each completion of a request whose issue is still open has a latency
-- from that issue.
abbrev pub latencies : List Step → List BlockIoLatencyEvent
latencies [] = []
latencies (issue ctx ∷ h) = latencies h
latencies (complete ctx ∷ h) = latencies h ++ latency_of ctx (key_of ctx) h

-- The elements of the first list stand in the second, in this order.
pub data IsSublist {ℓ} {A : Type ℓ} : List A → List A → Type ℓ where
  empty : IsSublist [] []
  keep : {xs ys : List A} (a : A) → IsSublist xs ys → IsSublist (xs ++ a ∷ []) (ys ++ a ∷ [])
  skip : {xs ys : List A} (a : A) → IsSublist xs ys → IsSublist xs (ys ++ a ∷ [])

-- Every ring buffer has room at every step.
abbrev pub HasRoom : List Step → Type 0
HasRoom [] = Unit
HasRoom (issue ctx ∷ h) = (ctx.can_reserve ≡ true) × HasRoom h
HasRoom (complete ctx ∷ h) = (ctx.can_reserve ≡ true) × HasRoom h

submit-IsSublist {ℓ} :
    {A : Type ℓ} (ctx : Context) (a : A) {xs ys : List A}
    → IsSublist xs ys
    → IsSublist (submit ctx a xs) (ys ++ a ∷ [])
submit-IsSublist ctx a s = elim (Bool-cases ctx.can_reserve) [
  | inl e ↦ rw e (keep a s)
  | inr e ↦ rw e (skip a s)
]

event_of-skip :
    (ctx : Context) (k : RqKey) (o : Option ℕ) {xs ys : List BlockIoLatencyEvent}
    → IsSublist xs ys
    → IsSublist xs (ys ++ event_of ctx k o)
event_of-skip ctx k none s = rw append-nil s
event_of-skip ctx k (some t) s = skip (latency_event ctx k t) s

module _ (m : BpfHashMap) where
  pub issue_at-latency :
      (ctx : Context) (read : Option RqKey) (s : Kernel m.Map)
      → (issue_at m ctx read s).latency_events ≡ s.latency_events
  unfolding issue_at
  issue_at-latency ctx none s = refl
  issue_at-latency ctx (some k) s = refl

  finish-IsSublist :
      (ctx : Context) (k : RqKey) (held open_since : Option ℕ) (s : Kernel m.Map)
      {ys : List BlockIoLatencyEvent}
      → Agrees m held open_since
      → IsSublist s.latency_events ys
      → IsSublist (finish m ctx k held s).latency_events (ys ++ event_of ctx k open_since)
  unfolding finish
  finish-IsSublist ctx k none o s a l = event_of-skip ctx k o l
  finish-IsSublist ctx k (some t) o s (inl e) l = ground arith
  finish-IsSublist ctx k (some t) o s (inr e) l = rw (← e) (submit-IsSublist ctx _ l)

  complete_at-IsSublist :
      (ctx : Context) (read : Option RqKey) (h : List Step)
      → IsSublist (after m h).latency_events (latencies h)
      → IsSublist
          (complete_at m ctx read (after m h)).latency_events
          (latencies h ++ latency_of ctx read h)
  unfolding complete_at
  complete_at-IsSublist ctx none h l = rw append-nil l
  complete_at-IsSublist ctx (some k) h l =
      finish-IsSublist ctx k _ (last_issue k h) (after m h) (after-last_issue m k h) l

  -- Whatever a full map or a full ring buffer drops, the latencies reported are among those that the history calls for, in their order: none is reported of a request that is not open, or against another issue.
  pub after-IsSublist : (h : List Step) → IsSublist (after m h).latency_events (latencies h)
  unfolding after block_rq_issue block_rq_complete
  after-IsSublist [] = empty
  after-IsSublist (issue ctx ∷ h) =
      rw (issue_at-latency ctx (key_of ctx) (after m h)) (after-IsSublist h)
  after-IsSublist (complete ctx ∷ h) = complete_at-IsSublist ctx (key_of ctx) h (after-IsSublist h)

  -- With a map that drops nothing, what is held for a key is its open issue.
  module _ (always : (k : RqKey) (v : ℕ) (s : m.Map) → m.get k (m.insert k v s) ≡ some v) where
    pub issue-open :
        (k : RqKey) (ctx : Context) (read : Option RqKey) (s : Kernel m.Map) (o : Option ℕ)
        → m.get k s.inflight ≡ o
        → m.get k (issue_at m ctx read s).inflight
          ≡ (if is_key read k then some ctx.ktime_get_ns else o)
    unfolding issue_at
    issue-open k ctx none s o h = h
    issue-open k ctx (some j) s o h = ground (
      arith,
      rq_key_eq_iff j k,
      always j ctx.ktime_get_ns s.inflight,
      m.get-insert_other j k ctx.ktime_get_ns s.inflight,
    )

    finish-open :
        (k : RqKey) (ctx : Context) (j : RqKey) (held : Option ℕ) (s : Kernel m.Map) (o : Option ℕ)
        → held ≡ m.get j s.inflight
        → m.get k s.inflight ≡ o
        → m.get k (finish m ctx j held s).inflight ≡ (if rq_key_eq j k then none else o)
    unfolding finish
    finish-open k ctx j none s o e h = ground (arith, rq_key_eq_iff j k)
    finish-open k ctx j (some t) s o e h =
        ground
          (arith, rq_key_eq_iff j k, m.get-remove j s.inflight, m.get-remove_other j k s.inflight)

    pub complete-open :
        (k : RqKey) (ctx : Context) (read : Option RqKey) (s : Kernel m.Map) (o : Option ℕ)
        → m.get k s.inflight ≡ o
        → m.get k (complete_at m ctx read s).inflight ≡ (if is_key read k then none else o)
    unfolding complete_at
    complete-open k ctx none s o h = h
    complete-open k ctx (some j) s o h = finish-open k ctx j _ s o refl h

    after-open : (k : RqKey) (h : List Step) → m.get k (after m h).inflight ≡ last_issue k h
    unfolding after block_rq_issue block_rq_complete
    after-open k [] = m.get-empty k
    after-open k (issue ctx ∷ h) = issue-open k ctx (key_of ctx) (after m h) _ (after-open k h)
    after-open k (complete ctx ∷ h) =
        complete-open k ctx (key_of ctx) (after m h) _ (after-open k h)

    pub finish-latency :
        (ctx : Context) (k : RqKey) (held : Option ℕ) (s : Kernel m.Map)
        → ctx.can_reserve ≡ true
        → (finish m ctx k held s).latency_events ≡ s.latency_events ++ event_of ctx k held
    unfolding finish
    finish-latency ctx k none s r = sym (append-nil _)
    finish-latency ctx k (some t) s r = ground arith

    pub complete_at-latency :
        (ctx : Context) (read : Option RqKey) (s : Kernel m.Map) (h : List Step)
        → ((k : RqKey) → m.get k s.inflight ≡ last_issue k h)
        → ctx.can_reserve ≡ true
        → (complete_at m ctx read s).latency_events ≡ s.latency_events ++ latency_of ctx read h
    unfolding complete_at
    complete_at-latency ctx none s h held r = sym (append-nil _)
    complete_at-latency ctx (some k) s h held r = rw (← held k) (finish-latency ctx k _ s r)

    -- If neither the map nor a ring buffer drops anything, the latencies reported are exactly those that the history calls for.
    pub after-latencies : (h : List Step) → HasRoom h → (after m h).latency_events ≡ latencies h
    unfolding after block_rq_issue block_rq_complete
    after-latencies [] r = refl
    after-latencies (issue ctx ∷ h) (r, rs) =
        issue_at-latency ctx (key_of ctx) (after m h) ∙ after-latencies h rs
    after-latencies (complete ctx ∷ h) (r, rs) =
        complete_at-latency ctx (key_of ctx) (after m h) h (λ k. after-open k h) r
        ∙ ap (λ es. es ++ latency_of ctx (key_of ctx) h) (after-latencies h rs)
