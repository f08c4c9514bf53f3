-- ===== src/Cli/CgroupThrottle/Tests.antt =====
-- The repository's tests of the parser, a run of the poller, and the theorem at a concrete input.
use pgsleuth.Base.{
  parse_u64, ℕ, String, ◌≡◌, refl, true, Option, none, some, List, [], ◌∷◌, arith, str_eq, count_if,
  ℤ, pos, is_whitespace, lines, split_whitespace,
}
use pgsleuth.External.Example.{example}
use pgsleuth.Agent.{Fires}
use pgsleuth.Core.Window.Runs.{episodes}
use pgsleuth.Core.Window.Episodes.{is_long}
use pgsleuth.Cli.CgroupThrottle.{
  parse, Settings, run, parse_lines, parse_words, set_parsed, set_field,
}
use pgsleuth.Cli.CgroupThrottle.RoundTrip.{print_stat, value_of, parse-print_stat}
use pgsleuth.Cli.CgroupThrottle.Alarms.{stats, throttled, run_throttle-Fires}

parses_fields :
    parse "usage_usec 9\nnr_periods 10\nnr_throttled 3\n\nnr_bursts x\nthrottled_usec 4500 extra\n"
    ≡ record { nr_periods = 10; nr_throttled = 3; throttled_usec = 4500 }
unfolding parse parse_lines lines parse_words split_whitespace set_parsed set_field parse_u64 str_eq
parses_fields = refl

abbrev fields : List (String × ℕ)
fields = ("usage_usec", 9) ∷ ("nr_periods", 10) ∷ ("throttled_usec", 4500) ∷ []

parse-print_stat_example : parse (print_stat fields) ≡ record {
  nr_periods = value_of "nr_periods" 0 fields;
  nr_throttled = value_of "nr_throttled" 0 fields;
  throttled_usec = value_of "throttled_usec" 0 fields;
}
unfolding is_whitespace
parse-print_stat_example = parse-print_stat fields refl

abbrev cfg : Settings
cfg = record {
  cpu_stat_path = "/sys/fs/cgroup/cpu.stat";
  interval_ms = 1000;
  throttled_ms_per_sec_threshold = 100;
  fire_after = 2;
  pg_instance_id = "fixture-pg";
}

-- Two throttled intervals, with a failed reading between.
abbrev rounds : List (ℤ × Option String)
rounds =
    (pos 1, some "throttled_usec 0")
    ∷ (pos 2, some "throttled_usec 200000")
    ∷ (pos 3, none)
    ∷ (pos 4, some "throttled_usec 400000")
    ∷ []

run_throttle-Fires_example :
    Fires true
      (count_if (is_long 2) (episodes 0 (throttled cfg none (stats cfg rounds))))
      (run example true cfg rounds)
run_throttle-Fires_example = run_throttle-Fires example true cfg rounds (omega arith)
