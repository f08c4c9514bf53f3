-- ===== src/Lib.antt =====
-- pgsleuth: a model of the agent that watches a Postgres server and reports findings, and of the
-- kernel programs and the loader beside it, with the theorems on its rules.
--
-- The program. The agent (crates/pgsleuth-cli) runs one poller for each rule. A poller takes a sample
-- on every tick, from the file system, from a cgroup file or from Postgres (crates/pgsleuth-postgres),
-- decides whether the interval breaches, and keeps a window, a streak or a latch that tells when an
-- episode is worth an alarm: then it builds a finding (crates/pgsleuth-core), logs it and hands it to
-- the emitter (crates/pgsleuth-otel). Two collectors only log or report counters. Beside it, eBPF programs (crates/pgsleuth-ebpf, its data in
-- crates/pgsleuth-ebpf-common) report opens, block I/O and its latencies, and file calls, to a loader
-- (crates/pgsleuth-ebpf-loader) that configures their filter from its arguments and from what a
-- Postgres extension (crates/pgsleuth-pg-ext) tells it, and has two rules of its own.
--
-- The files.
--   Base          what is used of Rust's language and standard library: tests, lists, words with
--                 their bounds, integers, texts, decimal numbers, results.
--   BTreeMap      ordered maps as association lists; also the hash map of the statement loop, whose
--                 order is never read.
--   External      chrono, serde_json and f64, as a record of parameters with laws; Float has the
--                 operations of f64 with the facts of IEEE 754 that the theorems use. Each has a
--                 concrete instance in its child Example.
--   Agent         what a poller does to the world, as a list of effects.
--   Core          Window is crates/pgsleuth-core/src/window.rs, Finding is finding.rs there, and
--                 Finding/Json the JSON that its serde attributes ask for.
--   Postgres      Activity, Checkpointer and Statements are stat_activity.rs, stat_checkpointer.rs and
--                 stat_statements.rs of crates/pgsleuth-postgres/src; a query is what it returns.
--   Cli           TempSpill, ConnectionStorm, CheckpointStorm, CgroupThrottle and CollectStatements are
--                 temp_spill.rs, connection_storm.rs, checkpoint_storm.rs, cgroup_throttle.rs and
--                 collect_pg_stmt.rs of crates/pgsleuth-cli/src; CollectActivity is
--                 collect_pg_activity.rs, Main the commands of main.rs there and
--                 Dispatch its main.
--   Ebpf          Events is crates/pgsleuth-ebpf-common/src/lib.rs, and Wire the bytes of its key;
--                 Kernel has what the programs call of the kernel; Trace, Block and File are the
--                 programs of crates/pgsleuth-ebpf/src/main.rs.
--   PgExt         crates/pgsleuth-pg-ext/src/lib.rs, over what the server and the system tell it.
--   Loader        Device, Filter, Median, Rule, Spill and Loop are parts of
--                 crates/pgsleuth-ebpf-loader/src/main.rs, and SetUp and Main its set-up and its main;
--                 Device also has the text that the extension prints.
--   Xtask         crates/xtask/src/main.rs, the build of the kernel programs.
--   Otel          Mapping, Emitter and Metrics are mapping.rs, lib.rs and metrics.rs of
--                 crates/pgsleuth-otel/src; the SDK is a parameter, and what is handed to it is a list
--                 of calls.
-- A function keeps its name in the source; `run` is the whole poller, `run_from` its loop from a state
-- on, `tick` one round, and `report` what a round does on the answer `JustFired`. A field or a
-- constructor keeps its name in snake case. Tests and concrete inputs stand in the modules Tests.
--
-- State and time. A loop that runs until it is cancelled is a recursion over the rounds that it lives:
-- each round brings the time and what sampling returns, errors included. What it gives is what has
-- happened up to then; `ok` of a poller, and a command that is running, say that it is in its loop. Mutable state is passed on.
-- A history is a list of steps whose latest is the first. A u32 or u64 is a number, with its range as
-- a hypothesis where it matters, and saturating operations with their bounds; nothing runs on fuel but
-- the printing of decimals, where the digits of n take at most n rounds.
--
-- Parameters. What a third party returns is an argument: the answers of queries, the file system with
-- its walk and statvfs, the contexts of the kernel and its hash map, the calls of aya, the values
-- and pipelines of OpenTelemetry. The
-- laws assumed of them are the fields of External, Float, BpfHashMap, OpenTelemetry and SerdeJson, each
-- with an instance in an Example or in the tests.
--
-- Not modelled: how arguments are declared and parsed, what the OpenTelemetry SDK and aya do behind
-- their calls, lines of the log that report the discovery, SQL texts, and the text
-- of JSON behind its values. Which branch of a `select!` is taken is an argument, a list of what wakes the
-- loop. The sort of the median is modelled by
-- its result.
pub mod Base
pub mod BTreeMap
pub mod External
pub mod Core
pub mod Agent
pub mod Float
pub mod Postgres
pub mod Ebpf
pub mod PgExt
pub mod Loader
pub mod Otel
pub mod Cli
pub mod Xtask
