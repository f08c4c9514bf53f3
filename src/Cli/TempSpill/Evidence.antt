-- ===== src/Cli/TempSpill/Evidence.antt =====
-- What a finding says of the sample that caused it.
use pgsleuth.Base.{◌≡◌, ap, ◌∙◌, some, arith, str_eq}
use pgsleuth.External.{External}
use pgsleuth.Cli.TempSpill.{
  TempSpillConfig, TempSpillSample, BreachReason, free_pct, breaches, footprint_over, free_space,
}
use pgsleuth.Cli.TempSpill.Report.{build_finding}

-- The number that a reason carries is the sample's.
abbrev Fits : TempSpillSample → BreachReason → Type 0
Fits s (footprint_over bytes threshold) = bytes ≡ s.footprint_bytes
Fits s (free_space pct threshold) = pct ≡ free_pct s

breaches-Fits :
    (cfg : TempSpillConfig) (s : TempSpillSample) (reason : BreachReason)
    → breaches s cfg ≡ some reason
    → Fits s reason
unfolding breaches
breaches-Fits cfg s (footprint_over bytes threshold) h = ground arith
breaches-Fits cfg s (free_space pct threshold) h = ground arith

module _ (x : External) where
  open x use {DateTime, Value, number, index, index-object}

  -- The evidence of a finding holds the numbers of a sample.
  pub record Describes (s : TempSpillSample) (evidence : Value) : Type 0 where
    pub footprint_is : index evidence "footprint_bytes" ≡ some (number s.footprint_bytes)
    pub free_is : index evidence "free_pct" ≡ some (number (free_pct s))
    pub total_is : index evidence "mount_total_bytes" ≡ some (number s.mount_total_bytes)
    pub available_is :
        index evidence "mount_available_bytes" ≡ some (number s.mount_available_bytes)

  describe-Describes :
      (now : DateTime) (cfg : TempSpillConfig) (s : TempSpillSample) (reason : BreachReason)
      → Fits s reason
      → Describes s (build_finding x now cfg s reason).evidence
  unfolding build_finding str_eq
  describe-Describes now cfg s (footprint_over bytes threshold) h = record {
    footprint_is = index-object _ _ ∙ ap (λ n. some (number n)) h;
    free_is = index-object _ _;
    total_is = index-object _ _;
    available_is = index-object _ _;
  }
  describe-Describes now cfg s (free_space pct threshold) h = record {
    footprint_is = index-object _ _;
    free_is = index-object _ _ ∙ ap (λ n. some (number n)) h;
    total_is = index-object _ _;
    available_is = index-object _ _;
  }

  -- Whichever rule a sample breaches, the finding of the breach holds the sample's footprint, free percentage, size of the mount and free bytes as evidence, under the same four keys.
  pub build_finding-Describes :
      (now : DateTime) (cfg : TempSpillConfig) (s : TempSpillSample) {reason : BreachReason}
      → breaches s cfg ≡ some reason
      → Describes s (build_finding x now cfg s reason).evidence
  build_finding-Describes now cfg s {reason} h =
      describe-Describes now cfg s reason (breaches-Fits cfg s reason h)
