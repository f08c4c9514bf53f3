-- ===== src/Otel/Mapping/Attributes.antt =====
-- What the log record keeps of a rule's own attributes.
use pgsleuth.Base.{
  String, ◌≡◌, refl, ◌∙◌, true, false, not, ◌&&◌, Option, none, some, List, [], ◌∷◌, ◌++◌, map,
  arith, if◌then◌else◌, str_eq, any,
}
use mathlib.Core.Bool.{Bool}
use pgsleuth.External.{External}
use pgsleuth.BTreeMap.{BTreeMap}
use pgsleuth.Core.Finding.{Finding, AttributeValue}
use pgsleuth.Otel.Mapping.{
  OpenTelemetry, map_finding, attributes_of, stable_attributes, own_attributes, attribute_to_any,
  push_text,
}

-- The keys that the mapping itself writes.
abbrev pub reserved : List String
reserved =
    "pgsleuth.schema.version" ∷ "pgsleuth.mapping.version" ∷ "pgsleuth.finding.schema.version"
    ∷ "pgsleuth.rule.id" ∷ "pgsleuth.rule.version" ∷ "pgsleuth.tier" ∷ "pgsleuth.pg.instance"
    ∷ "pgsleuth.pg.role" ∷ "db.name" ∷ "pgsleuth.evidence" ∷ "pgsleuth.remediation" ∷ []

abbrev pub is_reserved : String → Bool
is_reserved k = any (λ j. str_eq j k) reserved

-- The values under a key, in order.
abbrev pub values_at {ℓ} : {A : Type ℓ} → String → List (String × A) → List A
values_at k [] = []
values_at k ((j, v) ∷ kvs) = let rest = values_at k kvs in if str_eq j k then v ∷ rest else rest

values_at-append {ℓ} :
    {A : Type ℓ} (k : String) (xs ys : List (String × A))
    → values_at k (xs ++ ys) ≡ values_at k xs ++ values_at k ys
values_at-append k [] ys = refl
values_at-append k ((j, v) ∷ xs) ys = ground (arith, values_at-append k xs ys)

-- Keys that are all another.
abbrev all_other {ℓ} : {A : Type ℓ} → String → List (String × A) → Bool
all_other k [] = true
all_other k ((j, v) ∷ kvs) = not (str_eq j k) && all_other k kvs

values_at-other {ℓ} :
    {A : Type ℓ} (k : String) (xs ys : List (String × A))
    → all_other k xs ≡ true
    → values_at k (xs ++ ys) ≡ values_at k ys
values_at-other k [] ys h = refl
values_at-other k ((j, v) ∷ xs) ys h = ground (arith, values_at-other k xs ys)

module _ (x : External) (o : OpenTelemetry x) where
  values_at-own_attributes :
      (k : String) (m : BTreeMap String (AttributeValue x))
      → values_at k (own_attributes x o m) ≡ map (attribute_to_any x o) (values_at k m)
  unfolding own_attributes
  values_at-own_attributes k [] = refl
  values_at-own_attributes k ((j, v) ∷ m) = ground (arith, values_at-own_attributes k m)

  text-all_other :
      (k j : String) (t : Option String)
      → str_eq j k ≡ false
      → all_other k (push_text x o j t) ≡ true
  text-all_other k j none h = refl
  text-all_other k j (some t) h = ground arith

  evidence-all_other :
      (k : String) (b : Bool) (v : o.AnyValue)
      → str_eq "pgsleuth.evidence" k ≡ false
      → all_other k (if b then [] else ("pgsleuth.evidence", v) ∷ []) ≡ true
  evidence-all_other k b v h = ground arith

  stable-all_other :
      (k : String) (f : Finding x)
      → is_reserved k ≡ false
      → all_other k (stable_attributes x o f) ≡ true
  unfolding stable_attributes
  stable-all_other k f h = ground arith

  -- Under a key that the mapping does not write itself, the record has the values that the rule gave it, converted, and no other: no attribute of a rule is lost.
  pub map_finding-attributes :
      (f : Finding x) (k : String)
      → is_reserved k ≡ false
      → values_at k (map_finding x o f).attributes
        ≡ map (attribute_to_any x o) (values_at k f.otel_attributes)
  unfolding map_finding attributes_of
  map_finding-attributes f k h =
      values_at-other k (stable_attributes x o f) _ (stable-all_other k f h)
      ∙ values_at-other k _ _ (text-all_other k "db.name" f.pg_instance.db_name (ground arith))
      ∙ values_at-other k _ _ (
          evidence-all_other k (x.is_null f.evidence) (o.any_string (x.to_json f.evidence))
            (ground arith))
      ∙ values_at-other k _ _ (
          text-all_other k "pgsleuth.remediation" (o.remediation_json f.remediation) (ground arith))
      ∙ values_at-own_attributes k f.otel_attributes
