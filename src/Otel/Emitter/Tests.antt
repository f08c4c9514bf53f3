-- ===== src/Otel/Emitter/Tests.antt =====
-- The theorem on the log record at a concrete finding.
use pgsleuth.Base.{◌≡◌, refl, [], ◌∷◌, map, str_eq}
use pgsleuth.External.Example.{example}
use pgsleuth.Core.Finding.{Finding, low, string}
use pgsleuth.Otel.Mapping.{attribute_to_any}
use pgsleuth.Otel.Mapping.Attributes.{values_at}
use pgsleuth.Otel.Mapping.Example.{sdk, finding}
use pgsleuth.Otel.Emitter.{emit}
use pgsleuth.Otel.Emitter.Record.{added, emit-attributes}

abbrev with_reason : Finding example
with_reason = record (finding low) {
  otel_attributes = ("pgsleuth.temp_spill.reason", string "footprint") ∷ [];
}

emit-attributes_example :
    values_at "pgsleuth.temp_spill.reason"
      (added example sdk (emit example sdk 0 with_reason).calls)
    ≡ map
        (attribute_to_any example sdk)
        (values_at "pgsleuth.temp_spill.reason" with_reason.otel_attributes)
unfolding str_eq
emit-attributes_example =
    emit-attributes example sdk 0 with_reason "pgsleuth.temp_spill.reason" refl
