-- ===== src/Loader/Loop/Pipeline.antt =====
-- From the kernel's history to the samples of the loader's intervals.
use pgsleuth.Base.{
  ℕ, ◌-◌, ◌≡◌, refl, sym, ap, ◌∙◌, true, Option, none, some, List, [], ◌∷◌, ◌++◌, append_assoc,
  append-nil, arith, if◌then◌else◌, replicate, unwrap_or,
}
use pgsleuth.External.{External}
use pgsleuth.Ebpf.Events.{RqKey, BlockIoLatencyEvent}
use pgsleuth.Ebpf.Kernel.{Kernel, BpfHashMap, Context}
use pgsleuth.Loader.Rule.Writes.{starts_write, is_write-classify_rwbs}
use pgsleuth.Ebpf.Block.{latency_event, key_of, block_rq_issue, block_rq_complete}
use pgsleuth.Ebpf.Block.InFlight.{Step, issue, complete, last_issue}
use pgsleuth.Ebpf.Block.Latency.{
  event_of, latency_of, issue_at-latency, issue-open, complete-open, complete_at-latency,
}
use pgsleuth.Loader.Rule.{is_write}
use pgsleuth.Loader.Spill.{Utf8}
use pgsleuth.Loader.Loop.{Event, latency, tick}
use pgsleuth.Loader.Loop.Alarms.{windows, spill_keys}

-- What happens, in the order of time: a tracepoint, the loader's emptying of the ring buffer of
-- latencies, or its tick.
pub data Moment (x : External) : Type 0 where
  step : Step → Moment x
  drain : Moment x
  ticked : x.DateTime → Moment x

-- The latencies of the writes.
abbrev pub write_samples : List BlockIoLatencyEvent → List ℕ
write_samples [] = []
write_samples (e ∷ es) =
    let rest = write_samples es in if is_write e.op_class then e.latency_ns ∷ rest else rest

-- The sample of a completion, from the time of its request's issue: only a write has one, a request
-- whose flags start with W or F.
abbrev sample_of : Context → Option ℕ → List ℕ
sample_of ctx none = []
sample_of ctx (some t) =
    if starts_write (unwrap_or (ctx.read_at_bytes 32) (replicate 8 0))
    then (ctx.ktime_get_ns - t) ∷ []
    else []

abbrev completion_sample : Context → Option RqKey → List Step → List ℕ
completion_sample ctx none h = []
completion_sample ctx (some k) h = sample_of ctx (last_issue k h)

write_samples-append :
    (es es' : List BlockIoLatencyEvent)
    → write_samples (es ++ es') ≡ write_samples es ++ write_samples es'
write_samples-append [] es' = refl
write_samples-append (e ∷ es) es' = ground (arith, write_samples-append es es')

write_samples-event_of :
    (ctx : Context) (k : RqKey) (o : Option ℕ) → write_samples (event_of ctx k o) ≡ sample_of ctx o
unfolding latency_event
write_samples-event_of ctx k none = refl
write_samples-event_of ctx k (some t) =
    rw ((is_write-classify_rwbs (unwrap_or (ctx.read_at_bytes 32) (replicate 8 0))).0) refl

write_samples-latency_of :
    (ctx : Context) (read : Option RqKey) (h : List Step)
    → write_samples (latency_of ctx read h) ≡ completion_sample ctx read h
write_samples-latency_of ctx none h = refl
write_samples-latency_of ctx (some k) h = write_samples-event_of ctx k (last_issue k h)

module _ {x : External} where
  -- The events of a drained buffer, in front of others.
  abbrev drained : List BlockIoLatencyEvent → List (Event x) → List (Event x)
  drained [] events = events
  drained (e ∷ es) events = latency e ∷ drained es events

  -- Every ring buffer has room at every step.
  abbrev pub AlwaysRoom : List (Moment x) → Type 0
  AlwaysRoom [] = Unit
  AlwaysRoom (step (issue ctx) ∷ ms) = AlwaysRoom ms
  AlwaysRoom (step (complete ctx) ∷ ms) = (ctx.can_reserve ≡ true) × AlwaysRoom ms
  AlwaysRoom (drain ∷ ms) = AlwaysRoom ms
  AlwaysRoom (ticked now ∷ ms) = AlwaysRoom ms

  -- The samples of each interval by the history itself, whose latest step is the first: the times of
  -- the writes, each from the last open issue to its completion, that are drained before the tick.
  abbrev pub intervals : List Step → List ℕ → List ℕ → List (Moment x) → List (List ℕ)
  intervals h pending samples [] = []
  intervals h pending samples (step (issue ctx) ∷ ms) = intervals (issue ctx ∷ h) pending samples ms
  intervals h pending samples (step (complete ctx) ∷ ms) =
      intervals (complete ctx ∷ h) (pending ++ completion_sample ctx (key_of ctx) h) samples ms
  intervals h pending samples (drain ∷ ms) = intervals h [] (samples ++ pending) ms
  intervals h pending samples (ticked now ∷ ms) = samples ∷ intervals h pending [] ms

  windows-drained :
      (samples : List ℕ) (es : List BlockIoLatencyEvent) (events : List (Event x))
      → windows samples (drained es events) ≡ windows (samples ++ write_samples es) events
  windows-drained samples [] events = ap (λ s. windows s events) (sym (append-nil samples))
  windows-drained samples (e ∷ es) events = ground (
    arith,
    windows-drained (samples ++ e.latency_ns ∷ []) es events,
    windows-drained samples es events,
    append_assoc samples (e.latency_ns ∷ []) (write_samples es),
  )

  spill_keys-drained :
      (u : Utf8) (es : List BlockIoLatencyEvent) (events : List (Event x))
      → spill_keys u (drained es events) ≡ spill_keys u events
  spill_keys-drained u [] events = refl
  spill_keys-drained u (e ∷ es) events = spill_keys-drained u es events

module _ (x : External) (m : BpfHashMap) where
  -- The events that the loop gets: the kernel runs its programs, and the loop takes what is in the
  -- buffer where it drains it.
  abbrev pub feed : Kernel m.Map → List (Moment x) → List (Event x)
  feed k [] = []
  feed k (step (issue ctx) ∷ ms) = feed (block_rq_issue m ctx k) ms
  feed k (step (complete ctx) ∷ ms) = feed (block_rq_complete m ctx k) ms
  feed k (drain ∷ ms) = drained k.latency_events (feed (record k { latency_events = [] }) ms)
  feed k (ticked now ∷ ms) = tick now ∷ feed k ms

  pub spill_keys-feed :
      (u : Utf8) (k : Kernel m.Map) (ms : List (Moment x)) → spill_keys u (feed k ms) ≡ []
  spill_keys-feed u k [] = refl
  spill_keys-feed u k (step (issue ctx) ∷ ms) = spill_keys-feed u (block_rq_issue m ctx k) ms
  spill_keys-feed u k (step (complete ctx) ∷ ms) = spill_keys-feed u (block_rq_complete m ctx k) ms
  spill_keys-feed u k (drain ∷ ms) =
      spill_keys-drained u k.latency_events (feed (record k { latency_events = [] }) ms)
      ∙ spill_keys-feed u (record k { latency_events = [] }) ms
  spill_keys-feed u k (ticked now ∷ ms) = spill_keys-feed u k ms

  module _ (always : (k : RqKey) (v : ℕ) (s : m.Map) → m.get k (m.insert k v s) ≡ some v) where
    -- What a completion adds to the samples in the buffer.
    complete-write_samples :
        (h : List Step) (k : Kernel m.Map) (ctx : Context)
        → ((key : RqKey) → m.get key k.inflight ≡ last_issue key h)
        → ctx.can_reserve ≡ true
        → write_samples (block_rq_complete m ctx k).latency_events
          ≡ write_samples k.latency_events ++ completion_sample ctx (key_of ctx) h
    unfolding block_rq_complete
    complete-write_samples h k ctx held room =
        ap write_samples (complete_at-latency m always ctx (key_of ctx) k h held room)
        ∙ (write_samples-append k.latency_events (latency_of ctx (key_of ctx) h)
            ∙ ap (λ s. write_samples k.latency_events ++ s)
                (write_samples-latency_of ctx (key_of ctx) h))

    pub windows-feed :
        (h : List Step) (k : Kernel m.Map) (samples : List ℕ) (ms : List (Moment x))
        → ((key : RqKey) → m.get key k.inflight ≡ last_issue key h)
        → AlwaysRoom ms
        → windows samples (feed k ms) ≡ intervals h (write_samples k.latency_events) samples ms
    unfolding block_rq_issue block_rq_complete
    windows-feed h k samples [] held room = refl
    windows-feed h k samples (step (issue ctx) ∷ ms) held room =
        windows-feed (issue ctx ∷ h) (block_rq_issue m ctx k) samples ms
          (λ key. issue-open m always key ctx (key_of ctx) k _ (held key)) room
        ∙ ap (λ es. intervals (issue ctx ∷ h) (write_samples es) samples ms)
            (issue_at-latency m ctx (key_of ctx) k)
    windows-feed h k samples (step (complete ctx) ∷ ms) held (r, room) =
        windows-feed (complete ctx ∷ h) (block_rq_complete m ctx k) samples ms
          (λ key. complete-open m always key ctx (key_of ctx) k _ (held key)) room
        ∙ ap (λ pending. intervals (complete ctx ∷ h) pending samples ms)
            (complete-write_samples h k ctx held r)
    windows-feed h k samples (drain ∷ ms) held room =
        windows-drained samples k.latency_events (feed (record k { latency_events = [] }) ms)
        ∙ windows-feed h (record k { latency_events = [] })
            (samples ++ write_samples k.latency_events) ms held room
    windows-feed h k samples (ticked now ∷ ms) held room =
        ap (◌∷◌ samples) (windows-feed h k [] ms held room)
