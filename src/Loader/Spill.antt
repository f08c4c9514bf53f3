-- ===== src/Loader/Spill.antt =====
-- The temp-file events of the loader: each process and path is reported once.
pub mod Once
use pgsleuth.Base.{
  to_string, ℕ, Char, code, String, ◌<>◌, ◌&&◌, ◌||◌, Option, none, some, List, [], ◌∷◌, ◌==◌,
  if◌then◌else◌, str_eq, any, unwrap_or,
}
use mathlib.Core.Bool.{Bool}
use pgsleuth.External.{External}
use pgsleuth.BTreeMap
use pgsleuth.BTreeMap.{text_key}
use pgsleuth.Core.Finding.{Finding, deep, medium, unknown, string, finding_schema_version}
use pgsleuth.Ebpf.Events.{TempFileEvent}
use pgsleuth.Ebpf.Trace.Selection.{c_str}
use pgsleuth.Postgres.Activity.{starts_with}
use pgsleuth.Loader.Rule.{Effect, emit, info}

-- `String::from_utf8_lossy` of the bytes of a path, `str::from_utf8` of those of a command, and
-- `as_bytes` of a name.
pub record Utf8 : Type 0 where
  pub from_utf8_lossy : List ℕ → String
  pub from_utf8 : List ℕ → Option String
  pub as_bytes : String → List ℕ

-- `s.contains(t)`.
unfoldable pub contains : String → String → Bool
unfolding starts_with
contains String.[] t = starts_with "" t
contains (String.◌∷◌ c s) t = starts_with (String.◌∷◌ c s) t || contains s t

-- `s.trim_matches(char::from(0))`, whose two ends are these.
trim_nul_start : String → String
trim_nul_start String.[] = ""
trim_nul_start (String.◌∷◌ c s) =
    let rest = trim_nul_start s in if code c == 0 then rest else String.◌∷◌ c s

push_unless_nul : Char → String → String
push_unless_nul c String.[] = if code c == 0 then "" else String.◌∷◌ c ""
push_unless_nul c (String.◌∷◌ d t) = String.◌∷◌ c (String.◌∷◌ d t)

trim_nul_end : String → String
unfolding push_unless_nul
trim_nul_end String.[] = ""
trim_nul_end (String.◌∷◌ c s) = push_unless_nul c (trim_nul_end s)

unfoldable pub trim_nul : String → String
unfolding trim_nul_start trim_nul_end
trim_nul s = trim_nul_end (trim_nul_start s)

unfoldable pub syscall_str : ℕ → String
syscall_str syscall =
    if syscall == 0 then "openat" else if syscall == 1 then "unlinkat" else "other"

-- The bytes in front of the first 0, as text.
unfoldable pub path_from_event : Utf8 → List ℕ → String
path_from_event u buf = u.from_utf8_lossy (c_str buf)

abbrev pub Key : Type 0
Key = ℕ × String

abbrev pub key_eq : Key → Key → Bool
key_eq (pid, path) (pid', path') = pid == pid' && str_eq path path'

-- `seen.contains(&key)`, of a hash set as the list of its elements.
abbrev pub has : Key → List Key → Bool
has k seen = any (λ j. key_eq k j) seen

-- The key of an event that is a spill.
unfoldable pub spill_key : Utf8 → TempFileEvent → Option Key
spill_key u event =
    let path = path_from_event u event.path in
    if contains path "pgsql_tmp" then some (event.pid, path) else none

module _ (x : External) where
  open x use {DateTime, object, number, text, null}

  unfoldable pub build_temp_file_finding :
      DateTime → String → ℕ → String → String → String → Finding x
  build_temp_file_finding now pg_instance pid comm path syscall = record {
    schema_version = finding_schema_version;
    rule_id = "storage.temp_spill.attribution";
    rule_version = 1;
    tier = deep;
    severity = medium;
    fired_at = now;
    pg_instance = record { id = pg_instance; db_name = none; role = unknown };
    summary =
        "Temp-file spill detected on PID "
        <> to_string pid
        <> " ("
        <> comm
        <> ") via "
        <> syscall
        <> ": "
        <> path;
    evidence = object (
        ("pid", number pid)
        ∷ ("comm", text comm)
        ∷ ("path", text path)
        ∷ ("syscall", text syscall)
        ∷ ("bytes_spilled", null)
        ∷ ("query_hash", null)
        ∷ ("attribution_layer", text "syscall_only")
        ∷ []);
    remediation = record {
      text =
          "Identify the backend's running query (pg_stat_activity.pid) and raise work_mem for that session, or rewrite the query to avoid the spill. When the BufFileCreateTemp uprobe layer ships, the Finding will carry the offending query_hash directly.";
      knobs = "work_mem" ∷ "temp_file_limit" ∷ [];
    };
    otel_attributes = BTreeMap.insert "pgsleuth.spill.attribution_layer" (string "syscall_only") [];
  }

  -- What the loop does for a spill that is new.
  unfoldable pub report_spill :
      Bool → Utf8 → String → DateTime → TempFileEvent → Key → List (Effect x)
  report_spill emitter u pg_instance now event (pid, path) =
      let comm = trim_nul (unwrap_or (u.from_utf8 event.comm) "unknown") in
      let syscall = syscall_str event.syscall in
      let line = info (
        "Temp-file spill detected via "
        <> syscall
        <> " pid="
        <> to_string pid
        <> " comm='"
        <> comm
        <> "' path='"
        <> path
        <> "'") in
      if emitter
      then line ∷ emit (build_temp_file_finding now pg_instance pid comm path syscall) ∷ []
      else line ∷ []

  -- The loop on one key, or on none.
  unfoldable pub on_key :
      Bool
      → Utf8
      → String
      → DateTime
      → TempFileEvent
      → Option Key
      → List Key
      → List Key × List (Effect x)
  on_key emitter u pg_instance now event none seen = (seen, [])
  on_key emitter u pg_instance now event (some k) seen =
      if has k seen then (seen, []) else (k ∷ seen, report_spill emitter u pg_instance now event k)

  unfoldable pub on_temp_file :
      Bool → Utf8 → String → DateTime → TempFileEvent → List Key → List Key × List (Effect x)
  unfolding on_key
  on_temp_file emitter u pg_instance now event seen =
      on_key emitter u pg_instance now event (spill_key u event) seen
