-- ===== src/Cli/TempSpill/Threshold.antt =====
-- The two thresholds of a sample.
use pgsleuth.Base.{
  ℕ, ◌+◌, ◌*◌, ◌/◌, ◌≤◌, ◌<◌, min, ◌≡◌, ◌↔◌, Option, none, some, arith, ltb, if◌then◌else◌, u64_max,
  u128_max,
}
use native.Mathlib.Nat.{
  div-le_of_le-mul, div-mul-le_self, lt-div-mul-add, mul_comm, div-lt_iff_lt-mul,
}
use pgsleuth.Cli.TempSpill.{
  TempSpillConfig, footprint_over, free_space, breaches, BreachReason, TempSpillSample, free_pct,
}

-- A sample of a mount: there is one, no more is free than there is, and the sizes are u64s.
pub record IsMount (s : TempSpillSample) : Type 0 where
  pub total_pos : 0 < s.mount_total_bytes
  pub within : s.mount_available_bytes ≤ s.mount_total_bytes
  pub total_fits : s.mount_total_bytes ≤ u64_max

percent_le : (a t : ℕ) → a ≤ t → a * 100 / t ≤ 100
percent_le a t h = div-le_of_le-mul t (omega arith)

pub free_pct-eq :
    (s : TempSpillSample)
    → IsMount s
    → free_pct s ≡ s.mount_available_bytes * 100 / s.mount_total_bytes
unfolding free_pct
free_pct-eq s m =
    let exact : min (s.mount_available_bytes * 100) u128_max ≡ s.mount_available_bytes * 100 =
      omega arith in
    rw exact (ground (arith, percent_le s.mount_available_bytes s.mount_total_bytes))

-- On a sample of a mount, what comes back is the integer part of the percentage that is free, and at most 100.
pub free_pct_floor :
    (s : TempSpillSample)
    → IsMount s
    → (free_pct s * s.mount_total_bytes ≤ s.mount_available_bytes * 100)
      × (s.mount_available_bytes * 100 < (free_pct s + 1) * s.mount_total_bytes)
      × (free_pct s ≤ 100)
free_pct_floor s m =
    let a = s.mount_available_bytes in
    let t = s.mount_total_bytes in
    rw (free_pct-eq s m) (
      div-mul-le_self (a * 100) t,
      omega (arith, lt-div-mul-add {a = a * 100} m.total_pos),
      percent_le a t m.within,
    )

-- The free-space rule in bytes, with no rounding.
pub free_pct_lt_iff :
    (s : TempSpillSample) (pct : ℕ)
    → IsMount s
    → (free_pct s < pct) ↔ (s.mount_available_bytes * 100 < pct * s.mount_total_bytes)
free_pct_lt_iff s pct m =
    rw (free_pct-eq s m, mul_comm pct s.mount_total_bytes, mul_comm s.mount_total_bytes pct)
      (div-lt_iff_lt-mul m.total_pos)

-- The rule that a sample breaches, in bytes and with no rounding.
abbrev pub verdict : TempSpillSample → TempSpillConfig → Option BreachReason
verdict s cfg =
    if ltb cfg.footprint_threshold_bytes s.footprint_bytes
    then some (footprint_over s.footprint_bytes cfg.footprint_threshold_bytes)
    else if ltb (s.mount_available_bytes * 100) (cfg.free_threshold_pct * s.mount_total_bytes)
    then some (free_space (free_pct s) cfg.free_threshold_pct)
    else none

-- On a sample of a mount, `breaches` names the footprint rule if the footprint is over its threshold; else the free-space rule if 100 times the free bytes are fewer than the configured percentage times the size of the mount; else none.
pub breaches-verdict :
    (s : TempSpillSample) (cfg : TempSpillConfig) → IsMount s → breaches s cfg ≡ verdict s cfg
unfolding breaches
breaches-verdict s cfg m = ground (arith, free_pct_lt_iff s cfg.free_threshold_pct m)
