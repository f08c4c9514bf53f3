-- ===== src/Loader/Tests.antt =====
-- The repository's tests of the loader's helpers, and the theorems at concrete inputs.
use pgsleuth.Base.{
  to_string, parse_u32, ℕ, min, ◌≡◌, refl, ◌↔◌, true, none, some, List, [], ◌∷◌, arith,
  if◌then◌else◌, length, replicate, count_if, ℤ, pos, trim, push_before, split_once,
}
use pgsleuth.External.Example.{example}
use pgsleuth.Otel.Mapping.Example.{sdk}
use pgsleuth.Otel.Metrics.{MetricsEmitter, with_provider}
use pgsleuth.Loader.Loop.Order.{delay_latency, run_loop-Reordered}
use pgsleuth.Loader.Loop.Recorded.{recorded, points, run_loop-recorded}
use pgsleuth.Ebpf.Events.{TempFileEvent}
use pgsleuth.Ebpf.Kernel.{Context, Kernel}
use pgsleuth.Ebpf.Trace.{name_matches}
use pgsleuth.Ebpf.Trace.Selection.{IsPrefix}
use pgsleuth.Loader.Device.{wal_device, parse_kernel_dev_t, parse_parts, kernel_dev_t, PgDiscovery}
use pgsleuth.Loader.Device.RoundTrip.{parse_kernel_dev_t-wal_device}
use pgsleuth.Loader.Filter.{Args, name_bytes, filter_config}
use pgsleuth.Loader.Filter.Name.{take, name_matches-name_bytes}
use pgsleuth.Loader.Filter.Process.{capture_file_syscall-default}
use pgsleuth.Ebpf.File.{capture_file_syscall}
use pgsleuth.Loader.Median.{p50_ns, is_above, is_slow, p50_ns-is_slow, sort_unstable, insert_sorted}
use pgsleuth.Loader.Rule.{Settings, tick_line, debug_state}
use pgsleuth.Core.Window.{just_fired}
use pgsleuth.Loader.Spill.{Utf8, key_eq, has}
use pgsleuth.Loader.Loop.{Event, latency, temp_file, tick, initial_loop, Pipelines, run_loop}
use pgsleuth.Loader.Spill.Once.{drain, keys, drain-keys}
use pgsleuth.Loader.Loop.Alarms.{sent}

parse_kernel_dev_t-wal_device_example : parse_kernel_dev_t (wal_device 8 16) ≡ some 8388624
parse_kernel_dev_t-wal_device_example =
    parse_kernel_dev_t-wal_device 8 16 (omega arith) (omega arith)

spaced : parse_kernel_dev_t "259: 3" ≡ some 271581187
unfolding parse_kernel_dev_t parse_parts kernel_dev_t split_once push_before trim parse_u32
spaced = refl

-- "pos", and "postgres" as the kernel pads it.
abbrev prefix : List ℕ
prefix = b'p' ∷ b'o' ∷ b's' ∷ []

abbrev comm : List ℕ
comm = b'p' ∷ b'o' ∷ b's' ∷ b't' ∷ b'g' ∷ b'r' ∷ b'e' ∷ b's' ∷ replicate 8 0

name_matches-name_bytes_example :
    (name_matches (name_bytes prefix) comm ≡ true)
    ↔ IsPrefix (take (min (length prefix) 15) prefix) comm
name_matches-name_bytes_example = name_matches-name_bytes prefix comm refl

abbrev args : Args
args = record { name = []; pid = none; cgroup_id = none; dev_t = none }

abbrev discovery : PgDiscovery
discovery = record { postmaster_pid = pos 42; wal_dev_t = some 8388624 }

-- A backend of the postmaster opens a file.
abbrev backend : Context
backend = record {
  filter_config = some (filter_config args (some discovery));
  pid = 1234;
  current_cgroup_id = 0;
  current_comm = some comm;
  ktime_get_ns = 0;
  read_at_u32 = λ offset. none;
  read_at_u64 = λ offset. some 4096;
  read_at_bytes = λ offset. none;
  read_user_str = λ pointer size. replicate size 0;
  can_reserve = true;
}

abbrev no_events : Kernel ℕ
no_events = record {
  inflight = 0;
  events = [];
  block_events = [];
  latency_events = [];
  temp_file_events = [];
}

capture_file_syscall-default_example : capture_file_syscall backend 0 24 no_events ≡ no_events
capture_file_syscall-default_example =
    capture_file_syscall-default args discovery 42 backend 0 24 no_events refl refl refl
      (omega arith) (omega arith) refl (λ e. absurd (omega arith))

p50_odd : p50_ns (30 ∷ 10 ∷ 20 ∷ []) ≡ some 20
unfolding p50_ns sort_unstable insert_sorted
p50_odd = refl

p50_even : p50_ns (40 ∷ 10 ∷ 30 ∷ 20 ∷ []) ≡ some 30
unfolding p50_ns sort_unstable insert_sorted
p50_even = refl

p50_ns-is_slow_example : is_above 15 (p50_ns (30 ∷ 10 ∷ 20 ∷ [])) ≡ is_slow 15 (30 ∷ 10 ∷ 20 ∷ [])
p50_ns-is_slow_example = p50_ns-is_slow 15 (30 ∷ 10 ∷ 20 ∷ [])

one_tick_line :
    tick_line (15000000 ∷ 999999 ∷ []) (some 15000000) true (just_fired 3)
    ≡ "[rule.tick] samples=2 p50_us=15000 p50_ms=15 breached=true state=JustFired { streak: 3 }"
unfolding tick_line debug_state to_string
one_tick_line = refl

abbrev cfg : Settings
cfg = record {
  pg_instance = "fixture-pg";
  fsync_threshold_ms = 10;
  fsync_fire_after = 2;
  interval_ms = 1000;
  dev_label = "dev_t=8388624";
}

abbrev write_latency : ℕ → Event example
write_latency ns = latency (record { dev = 8388624; op_class = 2; bytes = 4096; latency_ns = ns })

abbrev utf8 : Utf8
utf8 = record {
  from_utf8_lossy = λ bytes. "base/pgsql_tmp/1";
  from_utf8 = λ bytes. none;
  as_bytes = λ s. [];
}

abbrev file_call : ℕ → TempFileEvent
file_call pid = record {
  pid = pid;
  syscall = 0;
  bytes = 0;
  query_hash = 0;
  comm = comm;
  path = replicate 128 0;
}

abbrev spill : ℕ → Event example
spill pid = temp_file (pos 9) (file_call pid)

-- Two slow intervals in a row, and a spill that is seen twice.
abbrev events : List (Event example)
events =
    write_latency 20000000
    ∷ spill 7
    ∷ tick (pos 1)
    ∷ write_latency 15000000
    ∷ spill 7
    ∷ tick (pos 2)
    ∷ tick (pos 3)
    ∷ []

abbrev instruments : MetricsEmitter example sdk
instruments = with_provider example sdk "http://localhost:4317"

abbrev both : Pipelines
both = record { log_emitter = true; metrics_emitter = true }

-- The first spill is taken before the first latency.
abbrev events_reordered : List (Event example)
events_reordered =
    spill 7
    ∷ write_latency 20000000
    ∷ tick (pos 1)
    ∷ write_latency 15000000
    ∷ spill 7
    ∷ tick (pos 2)
    ∷ tick (pos 3)
    ∷ []

run_loop-Reordered_example :
    sent (run_loop example utf8 both cfg initial_loop events)
    ≡ sent (run_loop example utf8 both cfg initial_loop events_reordered)
run_loop-Reordered_example =
    run_loop-Reordered example utf8 both cfg (omega arith) (delay_latency _ _ _ _)

run_loop-recorded_example :
    recorded example sdk instruments (run_loop example utf8 both cfg initial_loop events)
    ≡ points example sdk instruments "dev_t=8388624" events
run_loop-recorded_example =
    run_loop-recorded example sdk instruments utf8 both cfg initial_loop events

-- One backend opens a temporary file twice, and another once.
abbrev calls : List (ℤ × TempFileEvent)
calls = (pos 1, file_call 7) ∷ (pos 2, file_call 7) ∷ (pos 3, file_call 8) ∷ []

drain-keys_example :
    (count_if (key_eq (7, "base/pgsql_tmp/1")) (drain example utf8 "fixture-pg" calls []).0
      ≡ (if has (7, "base/pgsql_tmp/1") (keys utf8 calls) then 1 else 0))
    × (sent (drain example utf8 "fixture-pg" calls []).1
        ≡ length (drain example utf8 "fixture-pg" calls []).0)
drain-keys_example = drain-keys example utf8 "fixture-pg" calls (7, "base/pgsql_tmp/1")
