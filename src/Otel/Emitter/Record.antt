-- ===== src/Otel/Emitter/Record.antt =====
-- What a finding's log record carries.
use pgsleuth.Base.{ℕ, String, ◌≡◌, refl, ap, ◌∙◌, false, List, [], ◌∷◌, map}
use pgsleuth.External.{External}
use pgsleuth.Core.Finding.{Finding}
use pgsleuth.Otel.Mapping.{OpenTelemetry, map_finding, attribute_to_any}
use pgsleuth.Otel.Mapping.Attributes.{is_reserved, values_at, map_finding-attributes}
use pgsleuth.Otel.Emitter.{
  RecordCall, add_attribute, set_timestamp, set_observed_timestamp, set_severity_number,
  set_severity_text, set_body, add_attributes, emit,
}

module _ (x : External) (o : OpenTelemetry x) where
  -- The attributes that the calls add, in order.
  abbrev pub added : List (RecordCall x o) → List (String × o.AnyValue)
  added [] = []
  added (add_attribute key value ∷ calls) = (key, value) ∷ added calls
  added (set_timestamp t ∷ calls) = added calls
  added (set_observed_timestamp t ∷ calls) = added calls
  added (set_severity_number n ∷ calls) = added calls
  added (set_severity_text s ∷ calls) = added calls
  added (set_body v ∷ calls) = added calls

  added-add_attributes :
      (attributes : List (String × o.AnyValue)) → added (add_attributes x o attributes) ≡ attributes
  unfolding add_attributes
  added-add_attributes [] = refl
  added-add_attributes ((key, value) ∷ attributes) =
      ap (◌∷◌ (key, value)) (added-add_attributes attributes)

  -- In the record that a finding's emission fills, the attributes under a key that the mapping does not write itself are the values that the rule gave it, converted, and no other.
  pub emit-attributes :
      (now : ℕ) (f : Finding x) (k : String)
      → is_reserved k ≡ false
      → values_at k (added (emit x o now f).calls)
        ≡ map (attribute_to_any x o) (values_at k f.otel_attributes)
  unfolding emit
  emit-attributes now f k h =
      ap (values_at k) (added-add_attributes (map_finding x o f).attributes)
      ∙ map_finding-attributes x o f k h
