-- ===== src/Loader/SetUp/Plan.antt =====
-- The set-up follows its plan as far as the first call that fails.
use pgsleuth.Base.{
  String, ◌<>◌, ◌≡◌, refl, sym, ap, ◌∙◌, true, false, ◌&&◌, List, [], ◌∷◌, ◌++◌, append_assoc,
  append-nil, arith, lines, Result, ok, err,
}
use pgsleuth.Ebpf.Events.{FilterConfig}
use mathlib.Core.Bool.{Bool}
use pgsleuth.Loader.SetUp.{
  Action, SetUp, ◌>>◌, require, perform, log_all, infos, Aya, load_file, set_filter, load,
  attach_fn, attach_point, async_fd, info, log, attach_kprobe, attach_block_issue,
  attach_block_complete, attach_syscall_tracepoint, load_filter, attach_programs, take_ring_buf,
  new_async_fd, open_buffers, set_up,
}

-- A condition of the set-up, and the error that its failure makes.
abbrev pub Check : Type 0
Check = Bool × String

-- The first condition that fails decides.
abbrev pub verdict : List Check → Result (Unit {0})
verdict [] = ok tt
verdict ((true, text) ∷ checks) = verdict checks
verdict ((false, text) ∷ checks) = err text

-- The set-up ends by its first condition that fails; what it has done is the beginning of its plan, and the whole plan if none fails.
pub record Follows (checks : List Check) (plan : List Action) (m : SetUp) : Type 0 where
  pub ends : m.0 ≡ verdict checks
  pub rest : List Action
  pub begins : m.1 ++ rest ≡ plan
  pub done : m.0 ≡ ok tt → rest ≡ []

require-Follows : (b : Bool) (text : String) → Follows ((b, text) ∷ []) [] (require b text)
require-Follows true text = record { ends = refl; rest = []; begins = refl; done = λ _. refl }
require-Follows false text = record { ends = refl; rest = []; begins = refl; done = λ _. refl }

perform-Follows :
    (b : Bool) (action : Action) (text : String)
    → Follows ((b, text) ∷ []) (action ∷ []) (perform b action text)
perform-Follows true action text = record {
  ends = refl;
  rest = [];
  begins = refl;
  done = λ _. refl;
}
perform-Follows false action text = record {
  ends = refl;
  rest = action ∷ [];
  begins = refl;
  done = λ h. cc;
}

log_all-Follows : (lines : List String) → Follows [] (infos lines) (log_all lines)
log_all-Follows lines = record {
  ends = refl;
  rest = [];
  begins = append-nil (infos lines);
  done = λ _. refl;
}

verdict-append_ok :
    (checks more : List Check) → verdict checks ≡ ok tt → verdict (checks ++ more) ≡ verdict more
verdict-append_ok [] more h = refl
verdict-append_ok ((true, text) ∷ checks) more h = verdict-append_ok checks more h
verdict-append_ok ((false, text) ∷ checks) more h = absurd (cc)

verdict-append_err :
    (checks more : List Check) (e : String)
    → verdict checks ≡ err e
    → verdict (checks ++ more) ≡ err e
verdict-append_err [] more e h = absurd (cc)
verdict-append_err ((true, text) ∷ checks) more e h = verdict-append_err checks more e h
verdict-append_err ((false, text) ∷ checks) more e h = h

>>-Follows :
    {checks more : List Check} {plan next : List Action} (m k : SetUp)
    → Follows checks plan m
    → Follows more next k
    → Follows (checks ++ more) (plan ++ next) (m >> k)
>>-Follows {checks} {more} {plan} {next} (ok tt, done) (r, acts) f g = record {
  ends = g.ends ∙ sym (verdict-append_ok checks more (sym f.ends));
  rest = g.rest;
  begins =
      append_assoc done acts g.rest
      ∙ (ap (λ l. done ++ l) g.begins
          ∙ ap (λ l. l ++ next)
              (sym (append-nil done) ∙ (ap (λ l. done ++ l) (sym (f.done refl)) ∙ f.begins)));
  done = g.done;
}
>>-Follows {checks} {more} {plan} {next} (err e, done) k f g = record {
  ends = sym (verdict-append_err checks more e (sym f.ends));
  rest = f.rest ++ next;
  begins = sym (append_assoc done f.rest next) ∙ ap (λ l. l ++ next) f.begins;
  done = λ h. absurd (cc);
}

-- One program: what is asked of it, and what is done to it.
abbrev tracepoint_checks : Aya → String → String → String → List Check
tracepoint_checks a program category name =
    (a.has_program program, "Failed to get " <> program <> " program")
    ∷ (a.is_tracepoint program, "Failed to coerce " <> program <> " to TracePoint")
    ∷ (a.loads program, "Failed to load " <> program)
    ∷ (a.attaches program category name, "Failed to attach " <> category <> ":" <> name)
    ∷ []

abbrev tracepoint_plan : String → String → String → List Action
tracepoint_plan program category name =
    load program
    ∷ attach_point program category name
    ∷ info ("Successfully attached tracepoint " <> category <> ":" <> name)
    ∷ []

abbrev block_checks : Aya → String → String → List Check
block_checks a program name =
    (a.has_program program, "Failed to get " <> program <> " program")
    ∷ (a.is_tracepoint program, "Failed to coerce program to TracePoint")
    ∷ (a.loads program, "Failed to load " <> name <> " tracepoint program")
    ∷ (a.attaches program "block" name, "Failed to attach tracepoint block:" <> name)
    ∷ []

abbrev buffer_checks : Aya → String → List Check
buffer_checks a name =
    (a.has_map name, "Failed to get " <> name <> " map")
    ∷ (a.is_ring_buf name, "Failed to convert " <> name <> " map to RingBuf")
    ∷ []

abbrev fd_checks : Aya → String → List Check
fd_checks a name = (a.makes_async_fd name, "Failed to create AsyncFd for " <> name) ∷ []

abbrev load_checks : Aya → String → FilterConfig → List Check
load_checks a bpf_object config =
    (a.loads_file bpf_object, "Failed to load BPF object")
    ∷ (a.has_map "FILTER_CONFIG", "Failed to get FILTER_CONFIG map")
    ∷ (a.is_array "FILTER_CONFIG", "Failed to convert map to Array")
    ∷ (a.sets config, "Failed to set filter config in map")
    ∷ []

abbrev kprobe_checks : Aya → List Check
kprobe_checks a =
    (a.has_program "pgsleuth_ebpf", "Failed to get pgsleuth_ebpf program")
    ∷ (a.is_kprobe "pgsleuth_ebpf", "Failed to coerce program to KProbe")
    ∷ (a.loads "pgsleuth_ebpf", "Failed to load kprobe")
    ∷ (a.attaches_kprobe "pgsleuth_ebpf" "vfs_open", "Failed to attach kprobe to vfs_open")
    ∷ []

abbrev programs_checks : Aya → List Check
programs_checks a =
    kprobe_checks a
    ++ (block_checks a "pgsleuth_block_rq_issue" "block_rq_issue"
        ++ (block_checks a "pgsleuth_block_rq_complete" "block_rq_complete"
            ++ (tracepoint_checks a "pgsleuth_sys_enter_openat" "syscalls" "sys_enter_openat"
                ++ tracepoint_checks a "pgsleuth_sys_enter_unlinkat" "syscalls"
                    "sys_enter_unlinkat")))

abbrev buffers_checks : Aya → List Check
buffers_checks a =
    buffer_checks a "EVENTS"
    ++ (buffer_checks a "BLOCK_EVENTS"
        ++ (buffer_checks a "LATENCY_EVENTS"
            ++ (buffer_checks a "TEMP_FILE_EVENTS"
                ++ (fd_checks a "EVENTS"
                    ++ (fd_checks a "BLOCK_EVENTS"
                        ++ (fd_checks a "LATENCY_EVENTS" ++ fd_checks a "TEMP_FILE_EVENTS"))))))

-- Every condition of the set-up, in order, each with the error of its failure.
abbrev pub checks_of : Aya → String → FilterConfig → List Check
checks_of a bpf_object config =
    load_checks a bpf_object config ++ (programs_checks a ++ buffers_checks a)

abbrev load_plan : String → FilterConfig → List Action
load_plan bpf_object config =
    info ("Loading BPF object from: " <> bpf_object) ∷ load_file bpf_object ∷ set_filter config ∷ []

abbrev programs_plan : List Action
programs_plan =
    (load "pgsleuth_ebpf"
      ∷ attach_fn "pgsleuth_ebpf" "vfs_open"
      ∷ info "Successfully attached kprobe to vfs_open"
      ∷ [])
    ++ (tracepoint_plan "pgsleuth_block_rq_issue" "block" "block_rq_issue"
        ++ (tracepoint_plan "pgsleuth_block_rq_complete" "block" "block_rq_complete"
            ++ (tracepoint_plan "pgsleuth_sys_enter_openat" "syscalls" "sys_enter_openat"
                ++ tracepoint_plan "pgsleuth_sys_enter_unlinkat" "syscalls" "sys_enter_unlinkat")))

abbrev buffers_plan : List Action
buffers_plan =
    async_fd "EVENTS"
    ∷ async_fd "BLOCK_EVENTS"
    ∷ async_fd "LATENCY_EVENTS"
    ∷ async_fd "TEMP_FILE_EVENTS"
    ∷ []

-- The whole set-up: the filter is in its map before a program is attached.
abbrev pub plan_of : String → FilterConfig → List String → List Action
plan_of bpf_object config filter_state =
    load_plan bpf_object config ++ (infos filter_state ++ (programs_plan ++ buffers_plan))

module _ (a : Aya) where
  -- The steps of a program that is looked up, coerced, loaded and attached.
  program-Follows :
      (has coerces loads attaches : Bool) (get coerce fails attach line : String) (l at : Action)
      → Follows
          ((has, get) ∷ (coerces, coerce) ∷ (loads, fails) ∷ (attaches, attach) ∷ [])
          (l ∷ at ∷ info line ∷ [])
          (require has get
            >> (require coerces coerce
                >> (perform loads l fails >> (perform attaches at attach >> log line))))
  program-Follows has coerces loads attaches get coerce fails attach line l at =
      >>-Follows (require has get) _ (require-Follows has get) (
        >>-Follows (require coerces coerce) _ (require-Follows coerces coerce) (
          >>-Follows (perform loads l fails) _ (perform-Follows loads l fails) (
            >>-Follows (perform attaches at attach) _ (perform-Follows attaches at attach)
              (log_all-Follows (line ∷ [])))))

  load_filter-Follows :
      (bpf_object : String) (config : FilterConfig)
      → Follows
          (load_checks a bpf_object config)
          (load_plan bpf_object config)
          (load_filter a bpf_object config)
  unfolding load_filter
  load_filter-Follows bpf_object config = >>-Follows (log _) _ (log_all-Follows (_ ∷ [])) (
      >>-Follows (perform _ _ _) _ (perform-Follows _ _ _) (
        >>-Follows (require _ _) _ (require-Follows _ _)
          (>>-Follows (require _ _) _ (require-Follows _ _) (perform-Follows _ _ _))))

  take_ring_buf-Follows : (name : String) → Follows (buffer_checks a name) [] (take_ring_buf a name)
  unfolding take_ring_buf
  take_ring_buf-Follows name =
      >>-Follows (require _ _) _ (require-Follows _ _) (require-Follows _ _)

  new_async_fd-Follows :
      (name : String) → Follows (fd_checks a name) (async_fd name ∷ []) (new_async_fd a name)
  unfolding new_async_fd
  new_async_fd-Follows name = perform-Follows _ _ _

  attach_syscall-Follows :
      (program category name : String)
      → Follows
          (tracepoint_checks a program category name)
          (tracepoint_plan program category name)
          (attach_syscall_tracepoint a program category name)
  unfolding attach_syscall_tracepoint
  attach_syscall-Follows program category name = program-Follows _ _ _ _ _ _ _ _ _ _ _

  attach_programs-Follows : Follows (programs_checks a) programs_plan (attach_programs a)
  unfolding attach_programs attach_kprobe attach_block_issue attach_block_complete
  attach_programs-Follows = >>-Follows (attach_kprobe a) _ (program-Follows _ _ _ _ _ _ _ _ _ _ _) (
      >>-Follows (attach_block_issue a) _ (program-Follows _ _ _ _ _ _ _ _ _ _ _) (
        >>-Follows (attach_block_complete a) _ (program-Follows _ _ _ _ _ _ _ _ _ _ _) (
          >>-Follows (attach_syscall_tracepoint a _ _ _) _ (attach_syscall-Follows _ _ _)
            (attach_syscall-Follows _ _ _))))

  open_buffers-Follows : Follows (buffers_checks a) buffers_plan (open_buffers a)
  unfolding open_buffers
  open_buffers-Follows = >>-Follows (take_ring_buf a "EVENTS") _ (take_ring_buf-Follows _) (
      >>-Follows (take_ring_buf a "BLOCK_EVENTS") _ (take_ring_buf-Follows _) (
        >>-Follows (take_ring_buf a "LATENCY_EVENTS") _ (take_ring_buf-Follows _) (
          >>-Follows (take_ring_buf a "TEMP_FILE_EVENTS") _ (take_ring_buf-Follows _) (
            >>-Follows (new_async_fd a "EVENTS") _ (new_async_fd-Follows _) (
              >>-Follows (new_async_fd a "BLOCK_EVENTS") _ (new_async_fd-Follows _) (
                >>-Follows (new_async_fd a "LATENCY_EVENTS") _ (new_async_fd-Follows _)
                  (new_async_fd-Follows "TEMP_FILE_EVENTS")))))))

  -- Whatever fails: the set-up ends with the error of the first condition that does not hold, having done the beginning of the plan, in which the filter is set before any program is attached; where every condition holds it has done the whole plan.
  pub set_up-Follows :
      (bpf_object : String) (config : FilterConfig) (filter_state : List String)
      → Follows
          (checks_of a bpf_object config)
          (plan_of bpf_object config filter_state)
          (set_up a bpf_object config filter_state)
  unfolding set_up
  set_up-Follows bpf_object config filter_state =
      >>-Follows (load_filter a bpf_object config) _ (load_filter-Follows bpf_object config) (
        >>-Follows (log_all filter_state) _ (log_all-Follows filter_state) (
          >>-Follows (attach_programs a) (open_buffers a) attach_programs-Follows
            open_buffers-Follows))

-- Whether each program is attached behind a filter that is set, `set` if one was before.
abbrev pub guarded : Bool → List Action → Bool
guarded set [] = true
guarded set (set_filter config ∷ acts) = guarded true acts
guarded set (attach_fn program name ∷ acts) = set && guarded set acts
guarded set (attach_point program category name ∷ acts) = set && guarded set acts
guarded set (load_file path ∷ acts) = guarded set acts
guarded set (load program ∷ acts) = guarded set acts
guarded set (async_fd name ∷ acts) = guarded set acts
guarded set (info line ∷ acts) = guarded set acts

guarded-begins :
    (set : Bool) (acts rest : List Action)
    → guarded set (acts ++ rest) ≡ true
    → guarded set acts ≡ true
guarded-begins set [] rest h = refl
guarded-begins set (set_filter config ∷ acts) rest h = guarded-begins true acts rest h
guarded-begins set (attach_fn program name ∷ acts) rest h =
    ground (arith, guarded-begins set acts rest)
guarded-begins set (attach_point program category name ∷ acts) rest h =
    ground (arith, guarded-begins set acts rest)
guarded-begins set (load_file path ∷ acts) rest h = guarded-begins set acts rest h
guarded-begins set (load program ∷ acts) rest h = guarded-begins set acts rest h
guarded-begins set (async_fd name ∷ acts) rest h = guarded-begins set acts rest h
guarded-begins set (info line ∷ acts) rest h = guarded-begins set acts rest h

guarded-infos :
    (set : Bool) (lines : List String) (acts : List Action)
    → guarded set (infos lines ++ acts) ≡ guarded set acts
guarded-infos set [] acts = refl
guarded-infos set (line ∷ lines) acts = guarded-infos set lines acts

-- Whatever fails: no program is attached before the filter is set in its map.
pub set_up-guarded :
    (a : Aya) (bpf_object : String) (config : FilterConfig) (filter_state : List String)
    → guarded false (set_up a bpf_object config filter_state).1 ≡ true
set_up-guarded a bpf_object config filter_state =
    let f = set_up-Follows a bpf_object config filter_state in
    guarded-begins false (set_up a bpf_object config filter_state).1 f.rest
      (rw f.begins (guarded-infos true filter_state (programs_plan ++ buffers_plan)))
