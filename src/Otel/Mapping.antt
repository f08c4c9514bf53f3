-- ===== src/Otel/Mapping.antt =====
-- crates/pgsleuth-otel/src/mapping.rs: the log record of a finding.
pub mod Attributes
pub mod Example
pub mod Order
use pgsleuth.Base.{
  ℕ, ◌+◌, ◌*◌, ◌^◌, String, ◌≡◌, Option, none, some, List, [], ◌∷◌, ◌++◌, if◌then◌else◌, u64_max, ℤ,
  unsigned_try_from, pos,
}
use mathlib.Core.Bool.{Bool}
use pgsleuth.External.{External}
use pgsleuth.BTreeMap
use pgsleuth.BTreeMap.{BTreeMap}
use pgsleuth.Core.Finding.{
  Finding, Severity, info, low, medium, high, critical, Tier, standard, cloud_enhanced, deep,
  PgRole, primary, replica, unknown, AttributeValue, string, int, double, bool, Remediation,
  finding_schema_version,
}

-- The crate `opentelemetry` and its SDK: values, severities with the numbers of the data model, and
-- pipelines; with them the text that `serde_json` makes of a remediation.
pub record OpenTelemetry (x : External) : Type 1 where
  pub AnyValue : Type 0
  pub any_int : ℤ → AnyValue
  pub any_string : String → AnyValue
  pub any_double : x.F64 → AnyValue
  pub any_boolean : Bool → AnyValue
  pub SeverityNumber : Type 0
  pub severity_info : SeverityNumber
  pub severity_info4 : SeverityNumber
  pub severity_warn : SeverityNumber
  pub severity_error : SeverityNumber
  pub severity_fatal : SeverityNumber
  pub number_of : SeverityNumber → ℕ
  pub number_of-info : number_of severity_info ≡ 9
  pub number_of-info4 : number_of severity_info4 ≡ 12
  pub number_of-warn : number_of severity_warn ≡ 13
  pub number_of-error : number_of severity_error ≡ 17
  pub number_of-fatal : number_of severity_fatal ≡ 21
  pub remediation_json : Remediation → Option String
  -- values of attributes of metrics and resources, and the text that one shows
  pub Value : Type 0
  pub value_string : String → Value
  pub value_i64 : ℤ → Value
  pub value_f64 : x.F64 → Value
  pub value_bool : Bool → Value
  pub as_str : Value → String
  pub as_str-string : (s : String) → as_str (value_string s) ≡ s
  -- the SDK's resource and pipelines: an endpoint, and what it is set up with
  pub Resource : Type 0
  pub new_resource : List (String × Value) → Resource
  pub LoggerProvider : Type 0
  pub install_batch : String → Resource → Option LoggerProvider
  pub logger_shutdown : LoggerProvider → Bool
  pub SdkMeterProvider : Type 0
  pub build_metrics : String → ℕ → ℕ → Option SdkMeterProvider
  pub meter_shutdown : SdkMeterProvider → Bool

abbrev pub mapping_version : ℕ
mapping_version = 1

unfoldable pub tier_str : Tier → String
tier_str standard = "standard"
tier_str cloud_enhanced = "cloud_enhanced"
tier_str deep = "deep"

unfoldable pub role_str : PgRole → String
role_str primary = "primary"
role_str replica = "replica"
role_str unknown = "unknown"

-- `UNIX_EPOCH + Duration::new(secs, nanos)`, in nanoseconds from the epoch.
abbrev pub nanos_per_sec : ℕ
nanos_per_sec = 10 ^ 9

unfoldable pub epoch_nanos : Option ℕ → ℕ → ℕ
epoch_nanos none nanos = 0
epoch_nanos (some secs) nanos = secs * nanos_per_sec + nanos

module _ (x : External) where
  unfoldable pub chrono_to_system_time : x.DateTime → ℕ
  unfolding epoch_nanos
  chrono_to_system_time dt =
      epoch_nanos (unsigned_try_from u64_max (x.timestamp dt)) (x.timestamp_subsec_nanos dt)

  module _ (o : OpenTelemetry x) where
    open o use {AnyValue, SeverityNumber, any_int, any_string}

    -- Of type `MappedFinding`; the time is in nanoseconds from the epoch.
    pub record MappedFinding : Type 0 where
      pub timestamp : ℕ
      pub severity_number : SeverityNumber
      pub severity_text : String
      pub body : String
      pub attributes : List (String × AnyValue)

    unfoldable pub map_severity : Severity → SeverityNumber × String
    map_severity info = (o.severity_info, "INFO")
    map_severity low = (o.severity_info4, "INFO4")
    map_severity medium = (o.severity_warn, "WARN")
    map_severity high = (o.severity_error, "ERROR")
    map_severity critical = (o.severity_fatal, "FATAL")

    unfoldable pub attribute_to_any : AttributeValue x → AnyValue
    attribute_to_any (string s) = any_string s
    attribute_to_any (int i) = any_int i
    attribute_to_any (double d) = o.any_double d
    attribute_to_any (bool b) = o.any_boolean b

    -- `if let Some(text) = value { attributes.push((key, text)) }`.
    abbrev push_text : String → Option String → List (String × AnyValue)
    push_text key none = []
    push_text key (some t) = (key, any_string t) ∷ []

    -- The rule's own attributes, in the order of their keys.
    unfoldable pub own_attributes : BTreeMap String (AttributeValue x) → List (String × AnyValue)
    unfolding attribute_to_any
    own_attributes [] = []
    own_attributes ((k, v) ∷ m) = (k, attribute_to_any v) ∷ own_attributes m

    -- The eight that every record has.
    unfoldable pub stable_attributes : Finding x → List (String × AnyValue)
    unfolding tier_str role_str
    stable_attributes finding =
        ("pgsleuth.schema.version", any_int (pos finding.schema_version))
        ∷ ("pgsleuth.mapping.version", any_int (pos mapping_version))
        ∷ ("pgsleuth.finding.schema.version", any_int (pos finding_schema_version))
        ∷ ("pgsleuth.rule.id", any_string finding.rule_id)
        ∷ ("pgsleuth.rule.version", any_int (pos finding.rule_version))
        ∷ ("pgsleuth.tier", any_string (tier_str finding.tier))
        ∷ ("pgsleuth.pg.instance", any_string finding.pg_instance.id)
        ∷ ("pgsleuth.pg.role", any_string (role_str finding.pg_instance.role))
        ∷ []

    unfoldable pub attributes_of : Finding x → List (String × AnyValue)
    unfolding own_attributes stable_attributes
    attributes_of finding =
        stable_attributes finding
        ++ (push_text "db.name" finding.pg_instance.db_name
            ++ ((if x.is_null finding.evidence
                  then []
                  else ("pgsleuth.evidence", any_string (x.to_json finding.evidence)) ∷ [])
                ++ (push_text "pgsleuth.remediation" (o.remediation_json finding.remediation)
                    ++ own_attributes finding.otel_attributes)))

    unfoldable pub map_finding : Finding x → MappedFinding
    unfolding map_severity attributes_of chrono_to_system_time
    map_finding finding =
        let (severity_number, severity_text) = map_severity finding.severity in
        record {
          timestamp = chrono_to_system_time finding.fired_at;
          severity_number = severity_number;
          severity_text = severity_text;
          body = finding.summary;
          attributes = attributes_of finding;
        }
