-- ===== src/Otel/Mapping/Order.antt =====
-- What the log record keeps of the order of findings: their severity and their time.
use pgsleuth.Base.{ℕ, ◌/◌, ◌%◌, ◌≤◌, ◌<◌, ◌≡◌, ◌↔◌, arith, ◌==◌, if◌then◌else◌, u64_max, pos}
use pgsleuth.External.{External}
use pgsleuth.Core.Finding.{Finding, Severity, info, low, medium, high, critical}
use pgsleuth.Otel.Mapping.{
  OpenTelemetry, map_severity, map_finding, chrono_to_system_time, epoch_nanos, nanos_per_sec,
}

-- The severities in ascending order.
abbrev pub rank : Severity → ℕ
rank info = 0
rank low = 1
rank medium = 2
rank high = 3
rank critical = 4

module _ (x : External) (o : OpenTelemetry x) where
  -- The number of a severity in the record.
  abbrev pub number : Severity → ℕ
  number s = o.number_of (map_severity x o s).0

  -- By its rank.
  abbrev number_at : ℕ → ℕ
  number_at r =
      if r == 0 then 9 else if r == 1 then 12 else if r == 2 then 13 else if r == 3 then 17 else 21

  number-rank : (s : Severity) → number s ≡ number_at (rank s)
  unfolding map_severity
  number-rank info = o.number_of-info
  number-rank low = o.number_of-info4
  number-rank medium = o.number_of-warn
  number-rank high = o.number_of-error
  number-rank critical = o.number_of-fatal

  rank_le : (s : Severity) → rank s ≤ 4
  rank_le info = omega arith
  rank_le low = omega arith
  rank_le medium = omega arith
  rank_le high = omega arith
  rank_le critical = omega arith

  -- One finding is less severe than another exactly when its record has the lower severity number.
  pub map_finding-severity :
      (f g : Finding x)
      → (rank f.severity < rank g.severity) ↔ (
          o.number_of (map_finding x o f).severity_number
          < o.number_of (map_finding x o g).severity_number)
  unfolding map_finding
  map_finding-severity f g = ground (
    arith,
    number-rank f.severity,
    number-rank g.severity,
    rank_le f.severity,
    rank_le g.severity,
  )

  -- The record of a finding of 1970 or later, with nanoseconds below a second, has its seconds and its nanoseconds.
  pub map_finding-timestamp :
      (f : Finding x) (secs : ℕ)
      → x.timestamp f.fired_at ≡ pos secs
      → secs ≤ u64_max
      → x.timestamp_subsec_nanos f.fired_at < nanos_per_sec
      → ((map_finding x o f).timestamp / nanos_per_sec ≡ secs)
        × ((map_finding x o f).timestamp % nanos_per_sec ≡ x.timestamp_subsec_nanos f.fired_at)
  unfolding map_finding chrono_to_system_time epoch_nanos
  map_finding-timestamp f secs e h n = rw e (ground arith)
