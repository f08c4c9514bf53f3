-- ===== src/Loader/Main/Spills.antt =====
-- From the file calls of the system to the findings of the loader.
use pgsleuth.Base.{
  ℕ, ◌+◌, ◌≤◌, String, ◌≡◌, refl, sym, ap, ◌∙◌, ◌&&◌, ◌||◌, Option, none, some, List, [], ◌∷◌, ◌++◌,
  append_assoc, append-nil, arith, ◌==◌, if◌then◌else◌, length, u32_max, and_then, ℤ, ok,
}
use mathlib.Core.Bool.{Bool}
use pgsleuth.External.{External}
use pgsleuth.Otel.Mapping.{OpenTelemetry}
use pgsleuth.Loader.SetUp.{Aya}
use pgsleuth.Loader.Loop.{temp_file}
use pgsleuth.Loader.Main.{Args, Wake, event, ctrl_c, main}
use pgsleuth.Loader.Main.Ends.{heard, visible}
use pgsleuth.Loader.Main.Steps.{count_found}
use pgsleuth.Loader.Main.Outcome.{pipelines_of, config_of, verdict_of, main-sent}
use pgsleuth.Ebpf.Events.{FilterConfig, TempFileEvent, file_event_path_len}
use pgsleuth.Ebpf.Kernel.{Context, Kernel, submit, comm_of}
use pgsleuth.Ebpf.Trace.Selection.{c_str}
use pgsleuth.Ebpf.File.{filename_of, capture_file_syscall, sys_enter_openat, sys_enter_unlinkat}
use pgsleuth.Loader.Spill.{Utf8, Key, contains, spill_key, path_from_event}
use pgsleuth.Loader.Loop.Alarms.{cons_some, new_keys, spill_keys, windows}

-- A call that the two tracepoints see.
pub data FileCall : Type 0 where
  openat : Context → FileCall
  unlinkat : Context → FileCall

abbrev pub context_of : FileCall → Context
context_of (openat ctx) = ctx
context_of (unlinkat ctx) = ctx

abbrev step : {M : Type 0} → FileCall → Kernel M → Kernel M
step (openat ctx) k = sys_enter_openat ctx k
step (unlinkat ctx) k = sys_enter_unlinkat ctx k

-- The kernel behind calls, the first of which is the first.
abbrev pub after_calls : {M : Type 0} → List FileCall → Kernel M → Kernel M
after_calls [] k = k
after_calls (c ∷ cs) k = after_calls cs (step c k)

-- Every call runs under this filter.
abbrev pub AllUnder : FilterConfig → List FileCall → Type 0
AllUnder config [] = Unit
AllUnder config (c ∷ cs) = ((context_of c).filter_config ≡ some config) × AllUnder config cs

-- The path that a call names, if its process passes the filter and its event finds room.
abbrev pub path_of : FilterConfig → Context → Option (List ℕ)
path_of config ctx =
    if (config.pid == 0 || ctx.pid == config.pid) && ctx.can_reserve
    then and_then (ctx.read_at_u64 24)
        (λ pointer. if pointer == 0 then none else some (ctx.read_user_str pointer 128))
    else none

-- The process and the path of a call under the directory of spills.
abbrev pub call_key : Utf8 → FilterConfig → Context → Option Key
call_key u config ctx = and_then (path_of config ctx) (λ path.
    if contains (u.from_utf8_lossy (c_str path)) "pgsql_tmp"
    then some (ctx.pid, u.from_utf8_lossy (c_str path))
    else none)

abbrev pub call_keys : Utf8 → FilterConfig → List FileCall → List Key
call_keys u config [] = []
call_keys u config (c ∷ cs) = cons_some (call_key u config (context_of c)) (call_keys u config cs)

-- The keys of the events in a buffer.
abbrev event_keys : Utf8 → List TempFileEvent → List Key
event_keys u [] = []
event_keys u (e ∷ es) = cons_some (spill_key u e) (event_keys u es)

cons_some-append :
    (o : Option Key) (ks ks' : List Key) → cons_some o (ks ++ ks') ≡ cons_some o ks ++ ks'
cons_some-append none ks ks' = refl
cons_some-append (some k) ks ks' = refl

event_keys-append :
    (u : Utf8) (es es' : List TempFileEvent)
    → event_keys u (es ++ es') ≡ event_keys u es ++ event_keys u es'
event_keys-append u [] es' = refl
event_keys-append u (e ∷ es) es' =
    ap (cons_some (spill_key u e)) (event_keys-append u es es')
    ∙ cons_some-append (spill_key u e) (event_keys u es) (event_keys u es')

module _ (u : Utf8) (config : FilterConfig) where
  submit-keys :
      (ctx : Context) (e : TempFileEvent) (buffer : List TempFileEvent)
      → event_keys u (submit ctx e buffer)
        ≡ event_keys u buffer ++ (if ctx.can_reserve then cons_some (spill_key u e) [] else [])
  submit-keys ctx e buffer =
      ground (arith, event_keys-append u buffer (e ∷ []), append-nil (event_keys u buffer))

  spill_key_lem :
      (e : TempFileEvent)
      → spill_key u e ≡ (
          if contains (u.from_utf8_lossy (c_str e.path)) "pgsql_tmp"
          then some (e.pid, u.from_utf8_lossy (c_str e.path))
          else none)
  unfolding spill_key path_from_event
  spill_key_lem e = refl

  -- What the program does behind the reading of the path's pointer.
  capture-keys :
      {M : Type 0} (ctx : Context) (kind : ℕ) (k : Kernel M) (o : Option ℕ)
      → ctx.filter_config ≡ some config
      → ctx.read_at_u64 24 ≡ o
      → event_keys u (capture_file_syscall ctx kind 24 k).temp_file_events
        ≡ event_keys u k.temp_file_events ++ cons_some (call_key u config ctx) []
  unfolding capture_file_syscall filename_of
  capture-keys ctx kind k none e r =
      rw (e, r) (ground (arith, append-nil (event_keys u k.temp_file_events)))
  capture-keys ctx kind k (some pointer) e r =
      let ev : TempFileEvent = record {
        pid = ctx.pid;
        syscall = kind;
        bytes = 0;
        query_hash = 0;
        comm = comm_of ctx;
        path = ctx.read_user_str pointer file_event_path_len;
      } in
      rw (e, r)
        (ground (
          arith,
          submit-keys ctx ev k.temp_file_events,
          append-nil (event_keys u k.temp_file_events),
          spill_key_lem ev,
        ))

  step-keys :
      {M : Type 0} (c : FileCall) (k : Kernel M)
      → (context_of c).filter_config ≡ some config
      → event_keys u (step c k).temp_file_events
        ≡ event_keys u k.temp_file_events ++ cons_some (call_key u config (context_of c)) []
  unfolding sys_enter_openat sys_enter_unlinkat
  step-keys (openat ctx) k e = capture-keys ctx 0 k (ctx.read_at_u64 24) e refl
  step-keys (unlinkat ctx) k e = capture-keys ctx 1 k (ctx.read_at_u64 24) e refl

  after_calls-keys :
      {M : Type 0} (cs : List FileCall) (k : Kernel M)
      → AllUnder config cs
      → event_keys u (after_calls cs k).temp_file_events
        ≡ event_keys u k.temp_file_events ++ call_keys u config cs
  after_calls-keys [] k h = sym (append-nil (event_keys u k.temp_file_events))
  after_calls-keys (c ∷ cs) k (under, h) =
      after_calls-keys cs (step c k) h
      ∙ (ap (λ ks. ks ++ call_keys u config cs) (step-keys c k under)
          ∙ (append_assoc (event_keys u k.temp_file_events)
                (cons_some (call_key u config (context_of c)) []) (call_keys u config cs)
              ∙ ap (λ ks. event_keys u k.temp_file_events ++ ks)
                  (sym (
                    cons_some-append (call_key u config (context_of c)) []
                      (call_keys u config cs)))))

module _ {x : External} where
  -- The wakes of a loop that takes these events, all at one time, and then Ctrl+C.
  abbrev pub taken : x.DateTime → List TempFileEvent → List (Wake x)
  taken now [] = ctrl_c ∷ []
  taken now (e ∷ es) = event (temp_file now e) ∷ taken now es

module _ (x : External) (u : Utf8) where
  taken-spill_keys :
      (now : x.DateTime) (es : List TempFileEvent)
      → spill_keys u (heard (taken {x = x} now es)) ≡ event_keys u es
  taken-spill_keys now [] = refl
  taken-spill_keys now (e ∷ es) = ap (cons_some (spill_key u e)) (taken-spill_keys now es)

  taken-windows :
      (now : x.DateTime) (es : List TempFileEvent) → windows [] (heard (taken {x = x} now es)) ≡ []
  taken-windows now [] = refl
  taken-windows now (e ∷ es) = taken-windows now es

if-zero-add : (b : Bool) (n : ℕ) → (if b then 0 + n else 0) ≡ (if b then n else 0)
if-zero-add b n = ground arith

module _ (x : External) (o : OpenTelemetry x) (u : Utf8) (a : Aya) where
  -- Where the set-up succeeds, with `fsync_fire_after` a u32: if the file calls of the system run under the filter that the loader sets, and the loop takes their events from a ring buffer that was empty, a run with a log pipeline sends one finding for each process and path under `pgsql_tmp` that a call names, the calls of processes that pass the filter and whose events find room; a run without one sends none.
  pub main-spills :
      {M : Type 0} (args : Args) (connects : Bool) (row : Option (String × ℤ)) (now : x.DateTime)
      (calls : List FileCall) (k : Kernel M)
      → verdict_of x o u a args connects row ≡ ok tt
      → args.fsync_fire_after ≤ u32_max
      → k.temp_file_events ≡ []
      → AllUnder (config_of x o u a args connects row) calls
      → count_found (
          visible x o
            (main x o u a args connects row (taken now (after_calls calls k).temp_file_events)).1)
        ≡ (if (pipelines_of x o u a args).log_emitter
            then length (new_keys [] (call_keys u (config_of x o u a args connects row) calls))
            else 0)
  main-spills args connects row now calls k h fits empty under =
      let es = (after_calls calls k).temp_file_events in
      rw
        (
          main-sent x o u a args connects row (taken now es) h fits,
          taken-windows x u now es,
          taken-spill_keys x u now es,
          after_calls-keys u (config_of x o u a args connects row) calls k under,
          empty,
        )
        (if-zero-add (pipelines_of x o u a args).log_emitter _)
