-- ===== src/Cli/TempSpill/Tests.antt =====
-- The repository's tests on samples, a run of the poller, and the theorems at concrete inputs.
use pgsleuth.Base.{
  ℕ, ◌+◌, ◌*◌, ◌≤◌, ◌<◌, min, ◌≡◌, refl, true, false, Option, none, some, List, [], ◌∷◌, arith,
  if◌then◌else◌, str_eq, length, u64_max, ℤ, pos, err,
}
use mathlib.Core.List.{Permᴰ}
use pgsleuth.External.Example.{example}
use pgsleuth.Agent.{emitted, fire}
use pgsleuth.BTreeMap
use pgsleuth.BTreeMap.{text_key}
use pgsleuth.Cli.TempSpill.{
  add_entries, TempSpillConfig, TempSpillSample, footprint_over, free_space, free_pct, breaches,
  FileSystem, DirEntry, join, add_entry, footprint, sample, mount_capacity,
}
use pgsleuth.Core.Finding.{string}
use pgsleuth.Cli.TempSpill.Report.{build_finding, tick, latch, run}
use pgsleuth.Cli.TempSpill.Threshold.{verdict, free_pct_floor, breaches-verdict}
use pgsleuth.Cli.TempSpill.Footprint.{total_size, footprint_total, footprint_order}
use pgsleuth.Cli.TempSpill.Latch.{samples, due, run-due}
use pgsleuth.Cli.TempSpill.Evidence.{Describes, build_finding-Describes}

abbrev cfg : ℕ → ℕ → TempSpillConfig
cfg threshold pct = record {
  pgdata = "/pg";
  footprint_threshold_bytes = threshold;
  free_threshold_pct = pct;
  interval = 100;
  pg_instance_id = "fixture-pg";
}

abbrev snap : ℕ → ℕ → ℕ → TempSpillSample
snap footprint_bytes total available = record {
  footprint_bytes = footprint_bytes;
  mount_total_bytes = total;
  mount_available_bytes = available;
}

footprint_first : breaches (snap 2000 100000 10000) (cfg 1000 50) ≡ some (footprint_over 2000 1000)
unfolding breaches
footprint_first = refl

free_space_fires : breaches (snap 0 100000 10000) (cfg u64_max 50) ≡ some (free_space 10 50)
unfolding breaches free_pct
free_space_fires = refl

zero_disables : breaches (snap 0 100000 0) (cfg u64_max 0) ≡ none
unfolding breaches free_pct
zero_disables = refl

no_mount : free_pct (snap 0 0 0) ≡ 100
unfolding free_pct
no_mount = refl

abbrev file : ℕ → Option DirEntry
file len = some (record { is_file = true; metadata_len = some len })

abbrev directory : Option DirEntry
directory = some (record { is_file = false; metadata_len = some 4096 })

abbrev disk : List (Option DirEntry) → FileSystem
disk entries = record {
  exists = λ path. str_eq path "/pg/base/pgsql_tmp";
  walk = λ path. entries;
  statvfs = λ path. some (record { fragment_size = 4096; blocks = 100; blocks_available = 50 });
}

abbrev quiet : FileSystem
quiet = disk (directory ∷ file 10 ∷ none ∷ [])

abbrev busy : FileSystem
busy = disk (directory ∷ file 900 ∷ file 200 ∷ [])

abbrev busy_reordered : FileSystem
busy_reordered = disk (directory ∷ file 200 ∷ file 900 ∷ [])

abbrev gone : FileSystem
gone = record quiet { statvfs = λ path. none }

footprint-busy : footprint busy "/pg" ≡ 1100
unfolding footprint add_entry add_entries join str_eq
footprint-busy = refl

sample-gone : sample gone "/pg" ≡ err "statvfs(/pg/base/pgsql_tmp) failed"
unfolding sample mount_capacity join str_eq
sample-gone = refl

abbrev rounds : List (ℤ × FileSystem)
rounds = (pos 1, busy) ∷ (pos 2, gone) ∷ (pos 3, busy) ∷ (pos 4, quiet) ∷ (pos 5, busy) ∷ []

two_episodes : length (emitted (run example true (cfg 1000 10) rounds)) ≡ 2
unfolding run tick latch sample mount_capacity footprint add_entry add_entries breaches free_pct
    join str_eq fire
two_episodes = refl

trigger_attribute :
    BTreeMap.get "pgsleuth.temp_spill.trigger"
      (build_finding example (pos 0) (cfg 1 1) (snap 2 1 1) (free_space 1 2)).otel_attributes
    ≡ some (string "free_space")
unfolding build_finding BTreeMap.get BTreeMap.insert
trigger_attribute = refl

free_pct_floor_example :
    (free_pct (snap 0 300 100) * 300 ≤ 100 * 100)
    × (100 * 100 < (free_pct (snap 0 300 100) + 1) * 300)
    × (free_pct (snap 0 300 100) ≤ 100)
free_pct_floor_example = free_pct_floor (snap 0 300 100) (omega arith)

breaches-verdict_example :
    breaches (snap 10 300 100) (cfg 50 40) ≡ verdict (snap 10 300 100) (cfg 50 40)
breaches-verdict_example = breaches-verdict (snap 10 300 100) (cfg 50 40) (omega arith)

footprint_order_example : footprint busy "/pg" ≡ footprint busy_reordered "/pg"
footprint_order_example =
    footprint_order busy busy_reordered "/pg" refl ∣ Permᴰ.cons refl (Permᴰ.swap refl refl) ∣₁

run-due_example :
    emitted (run example true (cfg 1000 10) rounds)
    ≡ due example (cfg 1000 10) none (samples (cfg 1000 10) rounds)
run-due_example = run-due example (cfg 1000 10) rounds

build_finding-Describes_example :
    Describes example
      (snap 2000 100000 10000)
      (build_finding example
        (pos 7)
        (cfg 1000 50)
        (snap 2000 100000 10000)
        (footprint_over 2000 1000)).evidence
build_finding-Describes_example =
    build_finding-Describes example (pos 7) (cfg 1000 50) (snap 2000 100000 10000) footprint_first

footprint_total_example : footprint busy "/pg" ≡ (
    if busy.exists (join "/pg" "base/pgsql_tmp")
    then min (total_size (busy.walk (join "/pg" "base/pgsql_tmp"))) u64_max
    else 0)
footprint_total_example = footprint_total busy "/pg"
