-- ===== src/Cli/TempSpill/Report.antt =====
-- temp_spill.rs: the finding, and the polling loop with its latch.
use pgsleuth.Base.{
  to_string, String, ◌<>◌, Bool, true, false, Option, none, some, List, [], ◌∷◌, ◌++◌, Result, ok,
  err,
}
use pgsleuth.Cli.TempSpill.{
  TempSpillConfig, TempSpillSample, BreachReason, footprint_over, free_space, free_pct, breaches,
  FileSystem, sample,
}
use pgsleuth.External.{External}
use pgsleuth.BTreeMap
use pgsleuth.BTreeMap.{text_key}
use pgsleuth.Core.Finding.{Finding, standard, high, unknown, string, finding_schema_version}
use pgsleuth.Agent.{Effect, warn_error, fire}

abbrev remediation_text : String
remediation_text =
    "Investigate the queries causing the spill (`pg_stat_database.temp_bytes`, `log_temp_files`). Resize the temp tablespace volume if traffic is expected to grow. Consider raising `work_mem` for the offending sessions to keep sorts/hashes in memory."

module _ (x : External) where
  open x use {DateTime, Value, object, text, number}

  -- The three parts that depend on the reason: the suffix, the summary and the evidence.
  abbrev describe : TempSpillSample → BreachReason → String × String × Value
  describe snap (footprint_over bytes threshold_bytes) = (
    "footprint",
    "pgsql_tmp/ footprint "
        <> to_string bytes
        <> " bytes > "
        <> to_string threshold_bytes
        <> " bytes threshold (free="
        <> to_string (free_pct snap)
        <> "%, total="
        <> to_string snap.mount_total_bytes
        <> " bytes)",
    object (
        ("trigger", text "footprint")
        ∷ ("footprint_bytes", number bytes)
        ∷ ("footprint_threshold_bytes", number threshold_bytes)
        ∷ ("mount_total_bytes", number snap.mount_total_bytes)
        ∷ ("mount_available_bytes", number snap.mount_available_bytes)
        ∷ ("free_pct", number (free_pct snap))
        ∷ []),
  )
  describe snap (free_space pct threshold_pct) = (
    "free_space",
    "Free space "
        <> to_string pct
        <> "% < "
        <> to_string threshold_pct
        <> "% threshold on pgsql_tmp/ mount (footprint="
        <> to_string snap.footprint_bytes
        <> " bytes, total="
        <> to_string snap.mount_total_bytes
        <> " bytes)",
    object (
        ("trigger", text "free_space")
        ∷ ("free_pct", number pct)
        ∷ ("free_threshold_pct", number threshold_pct)
        ∷ ("mount_available_bytes", number snap.mount_available_bytes)
        ∷ ("mount_total_bytes", number snap.mount_total_bytes)
        ∷ ("footprint_bytes", number snap.footprint_bytes)
        ∷ []),
  )

  unfoldable pub build_finding :
      DateTime → TempSpillConfig → TempSpillSample → BreachReason → Finding x
  build_finding now cfg snap reason =
      let (rule_suffix, summary, evidence) = describe snap reason in
      record {
        schema_version = finding_schema_version;
        rule_id = "storage.temp_spill.capacity";
        rule_version = 1;
        tier = standard;
        severity = high;
        fired_at = now;
        pg_instance = record { id = cfg.pg_instance_id; db_name = none; role = unknown };
        summary = summary;
        evidence = evidence;
        remediation = record {
          text = remediation_text;
          knobs = "work_mem" ∷ "temp_tablespaces" ∷ "temp_file_limit" ∷ [];
        };
        otel_attributes =
            BTreeMap.insert "pgsleuth.temp_spill.trigger" (string rule_suffix)
              (BTreeMap.insert "pgsleuth.pgdata" (string cfg.pgdata) []);
      }

  -- The `match` on the breach and the latch.
  unfoldable pub latch :
      Bool
      → TempSpillConfig
      → DateTime
      → TempSpillSample
      → Option BreachReason
      → Bool
      → Bool × List (Effect x)
  unfolding build_finding
  latch emitter cfg now snap (some reason) false =
      (true, fire emitter (build_finding now cfg snap reason))
  latch emitter cfg now snap none true = (false, [])
  latch emitter cfg now snap _ firing = (firing, [])

  -- One round of the loop: the time, and what the sampling returned.
  unfoldable pub tick :
      Bool → TempSpillConfig → Bool → DateTime × Result TempSpillSample → Bool × List (Effect x)
  tick emitter cfg firing (now, err e) =
      (firing, warn_error e "temp-spill sample failed; skipping tick" ∷ [])
  tick emitter cfg firing (now, ok snap) = latch emitter cfg now snap (breaches snap cfg) firing

  -- The loop over as many rounds as the poller lives, each with the file system that it meets.
  unfoldable pub run_from :
      Bool → TempSpillConfig → Bool → List (DateTime × FileSystem) → List (Effect x)
  run_from emitter cfg firing [] = []
  run_from emitter cfg firing ((now, fs) ∷ rounds) =
      let (firing', es) = tick emitter cfg firing (now, sample fs cfg.pgdata) in
      es ++ run_from emitter cfg firing' rounds

  unfoldable pub run : Bool → TempSpillConfig → List (DateTime × FileSystem) → List (Effect x)
  unfolding run_from
  run emitter cfg rounds = run_from emitter cfg false rounds
