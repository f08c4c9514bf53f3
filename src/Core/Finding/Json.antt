-- ===== src/Core/Finding/Json.antt =====
-- crates/pgsleuth-core/src/finding.rs: the JSON of the envelope, by the attributes of its `derive`s.
pub mod RoundTrip
mod Tests
use pgsleuth.Base.{
  ℕ, ◌≤◌, String, ◌≡◌, true, false, Option, none, some, List, [], ◌∷◌, ◌++◌, leb, if◌then◌else◌,
  str_eq, u32_max, u64_max, and_then, ℤ, is_i64,
}
use mathlib.Core.Bool.{Bool}
use Prim.Native.Nat.{Ordering}
use Prim.Native.String.{compare}
use pgsleuth.BTreeMap.{BTreeMap}
use pgsleuth.External.{External}
use pgsleuth.Core.Finding.{
  Finding, Severity, info, low, medium, high, critical, Tier, standard, cloud_enhanced, deep,
  PgRole, primary, replica, unknown, AttributeValue, string, int, double, bool, Remediation,
  PgInstanceRef,
}

-- A text comes before another.
abbrev pub IsBefore : String → String → Type 0
IsBefore a b = compare a b ≡ Ordering.lt

-- The keys ascend.
abbrev pub IsAscending {ℓ} : {A : Type ℓ} → List (String × A) → Type 0
IsAscending [] = Unit
IsAscending ((k, v) ∷ []) = Unit
IsAscending ((k, v) ∷ (j, w) ∷ kvs) = IsBefore k j × IsAscending ((j, w) ∷ kvs)

-- `serde_json`: the other forms of its values, and what is read off a value; with them the form that
-- `chrono` gives a time. A float that is not finite is written as null.
pub record SerdeJson (x : External) : Type 0 where
  pub integer : ℤ → x.Value
  pub float : x.F64 → x.Value
  pub array : List x.Value → x.Value
  pub as_u64 : x.Value → Option ℕ
  pub as_i64 : x.Value → Option ℤ
  pub as_f64 : x.Value → Option x.F64
  pub as_bool : x.Value → Option Bool
  pub as_str : x.Value → Option String
  pub as_array : x.Value → Option (List x.Value)
  pub as_object : x.Value → Option (List (String × x.Value))
  pub is_finite : x.F64 → Bool
  pub to_rfc3339 : x.DateTime → String
  pub parse_rfc3339 : String → Option x.DateTime
  pub as_u64-number : (n : ℕ) → n ≤ u64_max → as_u64 (x.number n) ≡ some n
  pub as_i64-integer : (i : ℤ) → is_i64 i ≡ true → as_i64 (integer i) ≡ some i
  pub as_f64-float : (d : x.F64) → is_finite d ≡ true → as_f64 (float d) ≡ some d
  pub as_bool-boolean : (b : Bool) → as_bool (x.boolean b) ≡ some b
  pub as_str-text : (s : String) → as_str (x.text s) ≡ some s
  pub is_null-text : (s : String) → x.is_null (x.text s) ≡ false
  pub as_array-array : (vs : List x.Value) → as_array (array vs) ≡ some vs
  pub as_object-object :
      (kvs : List (String × x.Value)) → IsAscending kvs → as_object (x.object kvs) ≡ some kvs
  pub parse-to_rfc3339 : (t : x.DateTime) → parse_rfc3339 (to_rfc3339 t) ≡ some t

-- `rename_all = "lowercase"`.
unfoldable pub tier_tag : Tier → String
tier_tag standard = "standard"
tier_tag cloud_enhanced = "cloudenhanced"
tier_tag deep = "deep"

unfoldable pub severity_tag : Severity → String
severity_tag info = "info"
severity_tag low = "low"
severity_tag medium = "medium"
severity_tag high = "high"
severity_tag critical = "critical"

unfoldable pub role_tag : PgRole → String
role_tag primary = "primary"
role_tag replica = "replica"
role_tag unknown = "unknown"

-- The variant with this name, of the names of an enum.
abbrev pub variant {ℓ} : {A : Type ℓ} → List (String × A) → String → Option A
variant [] t = none
variant ((name, a) ∷ names) t = let rest = variant names t in if str_eq name t then some a else rest

unfoldable pub parse_tier : String → Option Tier
parse_tier =
    variant (("standard", standard) ∷ ("cloudenhanced", cloud_enhanced) ∷ ("deep", deep) ∷ [])

unfoldable pub parse_severity : String → Option Severity
parse_severity = variant (
    ("info", info)
    ∷ ("low", low)
    ∷ ("medium", medium)
    ∷ ("high", high)
    ∷ ("critical", critical)
    ∷ [])

unfoldable pub parse_role : String → Option PgRole
parse_role = variant (("primary", primary) ∷ ("replica", replica) ∷ ("unknown", unknown) ∷ [])

module _ (x : External) (j : SerdeJson x) where
  open x use {Value, object, text, number, boolean, index}

  -- `tag = "type", content = "value"`.
  unfoldable pub attribute_to_value : AttributeValue x → Value
  attribute_to_value (string s) = object (("type", text "string") ∷ ("value", text s) ∷ [])
  attribute_to_value (int i) = object (("type", text "int") ∷ ("value", j.integer i) ∷ [])
  attribute_to_value (double d) = object (("type", text "double") ∷ ("value", j.float d) ∷ [])
  attribute_to_value (bool b) = object (("type", text "bool") ∷ ("value", boolean b) ∷ [])

  abbrev pub attributes_to_list : BTreeMap String (AttributeValue x) → List (String × Value)
  attributes_to_list [] = []
  attributes_to_list ((k, v) ∷ m) = (k, attribute_to_value v) ∷ attributes_to_list m

  abbrev texts_to_list : List String → List Value
  texts_to_list [] = []
  texts_to_list (s ∷ ss) = text s ∷ texts_to_list ss

  -- `skip_serializing_if`: what is empty is not written.
  abbrev pub db_name_field : Option String → List (String × Value)
  db_name_field none = []
  db_name_field (some name) = ("db_name", text name) ∷ []

  abbrev pub knobs_field : List String → List (String × Value)
  knobs_field [] = []
  knobs_field (knob ∷ knobs) = ("knobs", j.array (texts_to_list (knob ∷ knobs))) ∷ []

  abbrev pub otel_attributes_field : BTreeMap String (AttributeValue x) → List (String × Value)
  otel_attributes_field [] = []
  otel_attributes_field ((k, v) ∷ m) =
      ("otel_attributes", object (attributes_to_list ((k, v) ∷ m))) ∷ []

  unfoldable pub instance_to_value : PgInstanceRef → Value
  unfolding role_tag
  instance_to_value r =
      object
        (("id", text r.id) ∷ (db_name_field r.db_name ++ (("role", text (role_tag r.role)) ∷ [])))

  unfoldable pub remediation_to_value : Remediation → Value
  remediation_to_value r = object (("text", text r.text) ∷ knobs_field r.knobs)

  unfoldable pub to_value : Finding x → Value
  unfolding tier_tag severity_tag instance_to_value remediation_to_value attribute_to_value
  to_value f = object (
      ("schema_version", number f.schema_version)
      ∷ ("rule_id", text f.rule_id)
      ∷ ("rule_version", number f.rule_version)
      ∷ ("tier", text (tier_tag f.tier))
      ∷ ("severity", text (severity_tag f.severity))
      ∷ ("fired_at", text (j.to_rfc3339 f.fired_at))
      ∷ ("pg_instance", instance_to_value f.pg_instance)
      ∷ ("summary", text f.summary)
      ∷ ("evidence", f.evidence)
      ∷ ("remediation", remediation_to_value f.remediation)
      ∷ otel_attributes_field f.otel_attributes)

  -- What is read back. A field of this name, as text and as a u32.
  abbrev pub text_field : Value → String → Option String
  text_field v k = and_then (index v k) j.as_str

  abbrev pub u32_field : Value → String → Option ℕ
  u32_field v k =
      and_then (index v k)
        (λ w. and_then (j.as_u64 w) (λ n. if leb n u32_max then some n else none))

  abbrev map_some {ℓ κ} : {A : Type ℓ} {B : Type κ} → (A → B) → Option A → Option B
  map_some g none = none
  map_some g (some a) = some (g a)

  -- `default`: a field that is not there is empty; a text may be null as well.
  abbrev pub db_name_of : Option Value → Option (Option String)
  db_name_of none = some none
  db_name_of (some w) = if x.is_null w then some none else map_some some (j.as_str w)

  abbrev pub texts_of : List Value → Option (List String)
  texts_of [] = some []
  texts_of (w ∷ ws) = and_then (j.as_str w) (λ s. and_then (texts_of ws) (λ ss. some (s ∷ ss)))

  abbrev pub knobs_of : Option Value → Option (List String)
  knobs_of none = some []
  knobs_of (some w) = and_then (j.as_array w) texts_of

  unfoldable pub content_of : String → Value → Option (AttributeValue x)
  content_of tag w =
      if str_eq tag "string"
      then map_some string (j.as_str w)
      else if str_eq tag "int"
      then map_some int (j.as_i64 w)
      else if str_eq tag "double"
      then map_some double (j.as_f64 w)
      else if str_eq tag "bool"
      then map_some bool (j.as_bool w)
      else none

  unfoldable pub attribute_from_value : Value → Option (AttributeValue x)
  unfolding content_of
  attribute_from_value v =
      and_then (text_field v "type") (λ tag. and_then (index v "value") (λ w. content_of tag w))

  abbrev pub attributes_of_list :
      List (String × Value) → Option (BTreeMap String (AttributeValue x))
  attributes_of_list [] = some []
  attributes_of_list ((k, w) ∷ kvs) =
      and_then (attribute_from_value w)
        (λ a. and_then (attributes_of_list kvs) (λ m. some ((k, a) ∷ m)))

  abbrev pub otel_attributes_of : Option Value → Option (BTreeMap String (AttributeValue x))
  otel_attributes_of none = some []
  otel_attributes_of (some w) = and_then (j.as_object w) attributes_of_list

  unfoldable pub instance_from_value : Value → Option PgInstanceRef
  instance_from_value v = and_then (text_field v "id") (λ id.
      and_then (db_name_of (index v "db_name")) (λ db_name.
        and_then (and_then (text_field v "role") parse_role)
          (λ role. some (record { id = id; db_name = db_name; role = role }))))

  unfoldable pub remediation_from_value : Value → Option Remediation
  remediation_from_value v = and_then (text_field v "text") (λ text.
      and_then (knobs_of (index v "knobs")) (λ knobs. some (record { text = text; knobs = knobs })))

  unfoldable pub from_value : Value → Option (Finding x)
  unfolding parse_tier parse_severity parse_role instance_from_value remediation_from_value
      attribute_from_value
  from_value v = and_then (u32_field v "schema_version") (λ schema_version.
      and_then (text_field v "rule_id") (λ rule_id.
        and_then (u32_field v "rule_version") (λ rule_version.
          and_then (and_then (text_field v "tier") parse_tier) (λ tier.
            and_then (and_then (text_field v "severity") parse_severity) (λ severity.
              and_then (and_then (text_field v "fired_at") j.parse_rfc3339) (λ fired_at.
                and_then (and_then (index v "pg_instance") instance_from_value) (λ pg_instance.
                  and_then (text_field v "summary") (λ summary.
                    and_then (index v "evidence") (λ evidence.
                      and_then (and_then (index v "remediation") remediation_from_value)
                        (λ remediation.
                          and_then (otel_attributes_of (index v "otel_attributes"))
                            (λ otel_attributes. some (record {
                              schema_version = schema_version;
                              rule_id = rule_id;
                              rule_version = rule_version;
                              tier = tier;
                              severity = severity;
                              fired_at = fired_at;
                              pg_instance = pg_instance;
                              summary = summary;
                              evidence = evidence;
                              remediation = remediation;
                              otel_attributes = otel_attributes;
                            }))))))))))))
