-- ===== src/Core/Finding/Json/Tests.antt =====
-- The repository's tests of the envelope's JSON, and the theorem at its sample finding.
use pgsleuth.Base.{
  ℕ, zero, suc, code, String, ◌≡◌, refl, ap, true, Option, none, some, List, [], ◌∷◌, arith, ◌==◌,
  if◌then◌else◌, str_eq, ℤ, pos, negsuc,
}
use mathlib.Core.Bool.{Bool}
use pgsleuth.External.{member}
use pgsleuth.External.Example.{
  example, Json, text, number, boolean, integer, float, array, object, Items, nil, cons, to_list,
  to_list-of_list,
}
use pgsleuth.Core.Finding.{Finding, standard, high, replica, string, int}
use pgsleuth.Core.Finding.Json.{
  SerdeJson, to_value, from_value, instance_to_value, remediation_to_value, role_tag,
}
use pgsleuth.Core.Finding.Json.RoundTrip.{from_value-to_value}

abbrev json_u64 : Json → Option ℕ
json_u64 (number n) = some n
json_u64 _ = none

abbrev json_i64 : Json → Option ℤ
json_i64 (integer i) = some i
json_i64 _ = none

abbrev json_f64 : Json → Option ℕ
json_f64 (float d) = some d
json_f64 _ = none

abbrev json_bool : Json → Option Bool
json_bool (boolean b) = some b
json_bool _ = none

abbrev json_str : Json → Option String
json_str (text s) = some s
json_str _ = none

abbrev items : List Json → Items
items [] = nil
items (v ∷ vs) = cons v (items vs)

abbrev values : Items → List Json
values nil = []
values (cons v vs) = v ∷ values vs

values-items : (vs : List Json) → values (items vs) ≡ vs
values-items [] = refl
values-items (v ∷ vs) = ap (◌∷◌ v) (values-items vs)

abbrev json_array : Json → Option (List Json)
json_array (array vs) = some (values vs)
json_array _ = none

abbrev json_object : Json → Option (List (String × Json))
json_object (object ms) = some (to_list ms)
json_object _ = none

abbrev json_members : Json → List (String × Json)
json_members (object ms) = to_list ms
json_members _ = []

-- A time in strokes, behind a sign where it is before the epoch.
abbrev strokes : ℕ → String
strokes zero = ""
strokes (suc n) = String.◌∷◌ "|" (strokes n)

abbrev count : String → ℕ
count String.[] = 0
count (String.◌∷◌ c s) = suc (count s)

count-strokes : (n : ℕ) → count (strokes n) ≡ n
count-strokes zero = refl
count-strokes (suc n) = ap suc (count-strokes n)

abbrev print_time : ℤ → String
print_time (pos n) = String.◌∷◌ "+" (strokes n)
print_time (negsuc n) = String.◌∷◌ "-" (strokes n)

abbrev parse_time : String → Option ℤ
parse_time String.[] = none
parse_time (String.◌∷◌ c s) =
    if code c == b'+' then some (pos (count s)) else some (negsuc (count s))

parse-print_time : (t : ℤ) → parse_time (print_time t) ≡ some t
parse-print_time (pos n) = ap (λ m. some (pos m)) (count-strokes n)
parse-print_time (negsuc n) = ap (λ m. some (negsuc m)) (count-strokes n)

abbrev serde_json : SerdeJson example
serde_json = record {
  integer = integer;
  float = float;
  array = λ vs. array (items vs);
  as_u64 = json_u64;
  as_i64 = json_i64;
  as_f64 = json_f64;
  as_bool = json_bool;
  as_str = json_str;
  as_array = json_array;
  as_object = json_object;
  is_finite = λ d. true;
  to_rfc3339 = print_time;
  parse_rfc3339 = parse_time;
  as_u64-number = λ n h. refl;
  as_i64-integer = λ i h. refl;
  as_f64-float = λ d h. refl;
  as_bool-boolean = λ b. refl;
  as_str-text = λ s. refl;
  is_null-text = λ s. refl;
  as_array-array = λ vs. ap some (values-items vs);
  as_object-object = λ kvs h. ap some (to_list-of_list kvs);
  parse-to_rfc3339 = parse-print_time;
}

abbrev sample_finding : Finding example
sample_finding = record {
  schema_version = 1;
  rule_id = "replica.lag.high";
  rule_version = 1;
  tier = standard;
  severity = high;
  fired_at = pos 17;
  pg_instance = record { id = "prod-main"; db_name = some "app"; role = replica };
  summary = "Replica prod-main lag 142s exceeds 60s";
  evidence = example.object (("lag_seconds", number 142) ∷ ("threshold_seconds", number 60) ∷ []);
  remediation = record {
    text = "Investigate write volume on primary";
    knobs = "max_wal_senders" ∷ [];
  };
  otel_attributes =
      ("pgsleuth.replica.id", string "replica-2") ∷ ("pgsleuth.replica.slot", int (negsuc 0)) ∷ [];
}

from_value-to_value_example :
    from_value example serde_json (to_value example serde_json sample_finding) ≡ some sample_finding
from_value-to_value_example =
    from_value-to_value example serde_json sample_finding (omega arith) (omega arith) refl
      (refl, tt)

-- Without its optional parts, a finding's JSON has no fields for them.
abbrev bare : Finding example
bare = record sample_finding {
  pg_instance = record { id = "prod-main"; db_name = none; role = replica };
  remediation = record { text = "Investigate write volume on primary"; knobs = [] };
  otel_attributes = [];
}

omits_empty_optional_collections_on_the_wire :
    (member (json_members (to_value example serde_json bare)) "otel_attributes" ≡ none)
    × (instance_to_value example serde_json bare.pg_instance
        ≡ example.object (("id", text "prod-main") ∷ ("role", text "replica") ∷ []))
    × (remediation_to_value example serde_json bare.remediation
        ≡ example.object (("text", text "Investigate write volume on primary") ∷ []))
unfolding to_value instance_to_value remediation_to_value role_tag str_eq
omits_empty_optional_collections_on_the_wire = (refl, refl, refl)
