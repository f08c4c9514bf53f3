-- ===== src/Otel/Emitter.antt =====
-- crates/pgsleuth-otel/src/lib.rs: the emitter of log records.
pub mod Record
mod Tests
use pgsleuth.Base.{ℕ, String, List, [], ◌∷◌, if◌then◌else◌, Result, ◌>>=◌, context, ok}
use pgsleuth.External.{External}
use pgsleuth.BTreeMap.{BTreeMap}
use pgsleuth.Core.Finding.{Finding, AttributeValue, string, int, double, bool}
use pgsleuth.Otel.Mapping.{OpenTelemetry, map_finding}

abbrev pub instrumentation_scope : String
instrumentation_scope = "pgsleuth"

module _ (x : External) where
  pub record EmitterConfig : Type 0 where
    pub otlp_endpoint : String
    pub service_name : String
    pub resource_attributes : BTreeMap String (AttributeValue x)

  module _ (o : OpenTelemetry x) where
    open o use {Value, AnyValue, SeverityNumber, LoggerProvider}

    pub record Emitter : Type 0 where
      pub provider : LoggerProvider

    unfoldable pub attribute_to_otel : AttributeValue x → Value
    attribute_to_otel (string s) = o.value_string s
    attribute_to_otel (int i) = o.value_i64 i
    attribute_to_otel (double d) = o.value_f64 d
    attribute_to_otel (bool b) = o.value_bool b

    unfoldable pub resource_values : BTreeMap String (AttributeValue x) → List (String × Value)
    unfolding attribute_to_otel
    resource_values [] = []
    resource_values ((k, v) ∷ m) = (k, attribute_to_otel v) ∷ resource_values m

    unfoldable pub build_resource : EmitterConfig → o.Resource
    unfolding resource_values
    build_resource config = o.new_resource (
        ("service.name", o.value_string config.service_name)
        ∷ resource_values config.resource_attributes)

    unfoldable pub try_new : EmitterConfig → Result Emitter
    unfolding build_resource
    try_new config =
        context (o.install_batch config.otlp_endpoint (build_resource config))
          "failed to install `OTLP` log pipeline"
        >>= (λ provider. ok (record { provider = provider }))

    -- A call that fills the log record in.
    pub data RecordCall : Type 0 where
      set_timestamp : ℕ → RecordCall
      set_observed_timestamp : ℕ → RecordCall
      set_severity_number : SeverityNumber → RecordCall
      set_severity_text : String → RecordCall
      set_body : AnyValue → RecordCall
      add_attribute : String → AnyValue → RecordCall

    -- What reaches the provider: the scope of its logger, and the record by the calls that fill it.
    pub record Emission : Type 0 where
      pub scope : String
      pub calls : List RecordCall

    unfoldable pub add_attributes : List (String × AnyValue) → List RecordCall
    add_attributes [] = []
    add_attributes ((key, value) ∷ attributes) = add_attribute key value ∷ add_attributes attributes

    -- `now` is what `SystemTime::now` returns, in nanoseconds from the epoch.
    unfoldable pub emit : ℕ → Finding x → Emission
    unfolding add_attributes
    emit now finding =
        let mapped = map_finding x o finding in
        record {
          scope = instrumentation_scope;
          calls =
              set_timestamp mapped.timestamp
              ∷ set_observed_timestamp now
              ∷ set_severity_number mapped.severity_number
              ∷ set_severity_text mapped.severity_text
              ∷ set_body (o.any_string mapped.body)
              ∷ add_attributes mapped.attributes;
        }

    -- The line that the log gets of a provider that does not shut down.
    unfoldable pub shutdown : Emitter → List String
    shutdown e =
        if o.logger_shutdown e.provider
        then []
        else "`OTel` logger provider shutdown reported an error" ∷ []
