-- ===== src/Otel/Mapping/Example.antt =====
-- A concrete instance of the OpenTelemetry interface, and a finding.
use pgsleuth.Base.{ℕ, String, refl, true, none, some, [], length, pos}
use pgsleuth.External.Example.{example}
use pgsleuth.Core.Finding.{Finding, Severity, deep, unknown}
use pgsleuth.Otel.Mapping.{OpenTelemetry}

-- A severity is its number, and a value is the kind of it.
abbrev pub sdk : OpenTelemetry example
sdk = record {
  AnyValue = ℕ;
  any_int = λ i. 0;
  any_string = λ s. 1;
  any_double = λ d. 2;
  any_boolean = λ b. 3;
  SeverityNumber = ℕ;
  severity_info = 9;
  severity_info4 = 12;
  severity_warn = 13;
  severity_error = 17;
  severity_fatal = 21;
  number_of = λ n. n;
  number_of-info = refl;
  number_of-info4 = refl;
  number_of-warn = refl;
  number_of-error = refl;
  number_of-fatal = refl;
  remediation_json = λ r. some "{}";
  Value = String;
  value_string = λ s. s;
  value_i64 = λ i. "";
  value_f64 = λ d. "";
  value_bool = λ b. "";
  as_str = λ v. v;
  as_str-string = λ s. refl;
  Resource = ℕ;
  new_resource = λ kvs. length kvs;
  LoggerProvider = String;
  install_batch = λ endpoint resource. some endpoint;
  logger_shutdown = λ p. true;
  SdkMeterProvider = String;
  build_metrics = λ endpoint period timeout. some endpoint;
  meter_shutdown = λ p. true;
}

abbrev pub finding : Severity → Finding example
finding severity = record {
  schema_version = 1;
  rule_id = "storage.temp_spill.disk";
  rule_version = 1;
  tier = deep;
  severity = severity;
  fired_at = pos 1700000000;
  pg_instance = record { id = "fixture-pg"; db_name = none; role = unknown };
  summary = "";
  evidence = example.null;
  remediation = record { text = ""; knobs = [] };
  otel_attributes = [];
}
