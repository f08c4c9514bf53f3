-- ===== src/Core/Finding/Json/RoundTrip.antt =====
-- A finding is read back from its JSON.
use pgsleuth.Base.{
  ℕ, ◌≤◌, String, ◌≡◌, refl, true, ◌&&◌, Option, none, some, List, [], ◌∷◌, arith, leb, str_eq,
  u32_max, is_i64,
}
use mathlib.Core.Bool.{Bool}
use pgsleuth.BTreeMap.{BTreeMap}
use pgsleuth.External.{External}
use pgsleuth.Core.Finding.{
  Severity, info, low, medium, high, critical, Tier, standard, cloud_enhanced, deep, PgRole,
  primary, replica, unknown, AttributeValue, string, int, double, bool, Remediation, PgInstanceRef,
  Finding,
}
use pgsleuth.Core.Finding.Json.{
  SerdeJson, tier_tag, severity_tag, role_tag, parse_tier, parse_severity, parse_role,
  attribute_to_value, content_of, attribute_from_value, IsAscending, attributes_to_list,
  texts_to_list, instance_to_value, remediation_to_value, texts_of, attributes_of_list,
  instance_from_value, remediation_from_value, to_value, from_value,
}

parse-tier_tag : (t : Tier) → parse_tier (tier_tag t) ≡ some t
unfolding parse_tier tier_tag str_eq
parse-tier_tag standard = refl
parse-tier_tag cloud_enhanced = refl
parse-tier_tag deep = refl

parse-severity_tag : (s : Severity) → parse_severity (severity_tag s) ≡ some s
unfolding parse_severity severity_tag str_eq
parse-severity_tag info = refl
parse-severity_tag low = refl
parse-severity_tag medium = refl
parse-severity_tag high = refl
parse-severity_tag critical = refl

parse-role_tag : (r : PgRole) → parse_role (role_tag r) ≡ some r
unfolding parse_role role_tag str_eq
parse-role_tag primary = refl
parse-role_tag replica = refl
parse-role_tag unknown = refl

module _ (x : External) (j : SerdeJson x) where
  -- A value that a Rust program can hold and that JSON can: an i64, and a float that is finite.
  abbrev pub is_written : AttributeValue x → Bool
  is_written (string s) = true
  is_written (int i) = is_i64 i
  is_written (double d) = j.is_finite d
  is_written (bool b) = true

  abbrev pub all_written : BTreeMap String (AttributeValue x) → Bool
  all_written [] = true
  all_written ((k, v) ∷ m) = is_written v && all_written m

  attribute_from-to_value :
      (v : AttributeValue x)
      → is_written v ≡ true
      → attribute_from_value x j (attribute_to_value x j v) ≡ some v
  unfolding attribute_from_value attribute_to_value content_of str_eq
  attribute_from-to_value (string s) h =
      rw
        (x.index-object _ "type", j.as_str-text "string", x.index-object _ "value", j.as_str-text s)
        refl
  attribute_from-to_value (int i) h =
      rw
        (
          x.index-object _ "type",
          j.as_str-text "int",
          x.index-object _ "value",
          j.as_i64-integer i h,
        )
        refl
  attribute_from-to_value (double d) h =
      rw
        (
          x.index-object _ "type",
          j.as_str-text "double",
          x.index-object _ "value",
          j.as_f64-float d h,
        )
        refl
  attribute_from-to_value (bool b) h =
      rw
        (
          x.index-object _ "type",
          j.as_str-text "bool",
          x.index-object _ "value",
          j.as_bool-boolean b,
        )
        refl

  attributes_of-to_list :
      (m : BTreeMap String (AttributeValue x))
      → all_written m ≡ true
      → attributes_of_list x j (attributes_to_list x j m) ≡ some m
  attributes_of-to_list [] h = refl
  attributes_of-to_list ((k, v) ∷ m) h =
      rw (attribute_from-to_value v (ground arith), attributes_of-to_list m (ground arith)) refl

  attributes_to_list-IsAscending :
      (m : BTreeMap String (AttributeValue x))
      → IsAscending m
      → IsAscending (attributes_to_list x j m)
  attributes_to_list-IsAscending [] h = tt
  attributes_to_list-IsAscending ((k, v) ∷ []) h = tt
  attributes_to_list-IsAscending ((k, v) ∷ (l, w) ∷ m) (before, h) =
      (before, attributes_to_list-IsAscending ((l, w) ∷ m) h)

  texts_of-to_list : (ss : List String) → texts_of x j (texts_to_list x j ss) ≡ some ss
  texts_of-to_list [] = refl
  texts_of-to_list (s ∷ ss) = rw (j.as_str-text s, texts_of-to_list ss) refl

  instance_from-to_value :
      (id : String) (db_name : Option String) (role : PgRole)
      → let r : PgInstanceRef = record { id = id; db_name = db_name; role = role } in
        instance_from_value x j (instance_to_value x j r) ≡ some r
  unfolding instance_from_value instance_to_value str_eq
  instance_from-to_value id none role =
      rw
        (
          x.index-object _ "id",
          j.as_str-text id,
          x.index-object _ "db_name",
          x.index-object _ "role",
          j.as_str-text (role_tag role),
          parse-role_tag role,
        )
        refl
  instance_from-to_value id (some name) role =
      rw
        (
          x.index-object _ "id",
          j.as_str-text id,
          x.index-object _ "db_name",
          j.is_null-text name,
          j.as_str-text name,
          x.index-object _ "role",
          j.as_str-text (role_tag role),
          parse-role_tag role,
        )
        refl

  remediation_from-to_value :
      (text : String) (knobs : List String)
      → let r : Remediation = record { text = text; knobs = knobs } in
        remediation_from_value x j (remediation_to_value x j r) ≡ some r
  unfolding remediation_from_value remediation_to_value str_eq
  remediation_from-to_value text [] =
      rw (x.index-object _ "text", j.as_str-text text, x.index-object _ "knobs") refl
  remediation_from-to_value text (knob ∷ knobs) =
      rw
        (
          x.index-object _ "text",
          j.as_str-text text,
          x.index-object _ "knobs",
          j.as_array-array (texts_to_list x j (knob ∷ knobs)),
          texts_of-to_list (knob ∷ knobs),
        )
        refl

  leb_u32 : (n : ℕ) → n ≤ u32_max → leb n u32_max ≡ true
  leb_u32 n h = ground arith

  from-to_value :
      (f : Finding x) (m : BTreeMap String (AttributeValue x))
      → f.schema_version ≤ u32_max
      → f.rule_version ≤ u32_max
      → all_written m ≡ true
      → IsAscending m
      → from_value x j (to_value x j (record f { otel_attributes = m }))
        ≡ some (record f { otel_attributes = m })
  unfolding from_value to_value str_eq
  from-to_value f [] hs hr written ascending =
      rw
        (
          x.index-object _ "schema_version",
          j.as_u64-number f.schema_version (omega arith),
          leb_u32 f.schema_version hs,
          x.index-object _ "rule_id",
          j.as_str-text f.rule_id,
          x.index-object _ "rule_version",
          j.as_u64-number f.rule_version (omega arith),
          leb_u32 f.rule_version hr,
          x.index-object _ "tier",
          j.as_str-text (tier_tag f.tier),
          parse-tier_tag f.tier,
          x.index-object _ "severity",
          j.as_str-text (severity_tag f.severity),
          parse-severity_tag f.severity,
          x.index-object _ "fired_at",
          j.as_str-text (j.to_rfc3339 f.fired_at),
          j.parse-to_rfc3339 f.fired_at,
          x.index-object _ "pg_instance",
          instance_from-to_value f.pg_instance.id f.pg_instance.db_name f.pg_instance.role,
          x.index-object _ "summary",
          j.as_str-text f.summary,
          x.index-object _ "evidence",
          x.index-object _ "remediation",
          remediation_from-to_value f.remediation.text f.remediation.knobs,
          x.index-object _ "otel_attributes",
        )
        refl
  from-to_value f ((k, v) ∷ m) hs hr written ascending =
      rw
        (
          x.index-object _ "schema_version",
          j.as_u64-number f.schema_version (omega arith),
          leb_u32 f.schema_version hs,
          x.index-object _ "rule_id",
          j.as_str-text f.rule_id,
          x.index-object _ "rule_version",
          j.as_u64-number f.rule_version (omega arith),
          leb_u32 f.rule_version hr,
          x.index-object _ "tier",
          j.as_str-text (tier_tag f.tier),
          parse-tier_tag f.tier,
          x.index-object _ "severity",
          j.as_str-text (severity_tag f.severity),
          parse-severity_tag f.severity,
          x.index-object _ "fired_at",
          j.as_str-text (j.to_rfc3339 f.fired_at),
          j.parse-to_rfc3339 f.fired_at,
          x.index-object _ "pg_instance",
          instance_from-to_value f.pg_instance.id f.pg_instance.db_name f.pg_instance.role,
          x.index-object _ "summary",
          j.as_str-text f.summary,
          x.index-object _ "evidence",
          x.index-object _ "remediation",
          remediation_from-to_value f.remediation.text f.remediation.knobs,
          x.index-object _ "otel_attributes",
          j.as_object-object _ (attributes_to_list-IsAscending ((k, v) ∷ m) ascending),
          attribute_from-to_value v (ground arith),
          attributes_of-to_list m (ground arith),
        )
        refl

  -- A finding is read back whole from its JSON value, whichever of its optional parts are left out: if its versions are u32 values, the keys of its attributes ascend, as in a `BTreeMap`, its integer attributes are i64 values and its float attributes are finite.
  pub from_value-to_value :
      (f : Finding x)
      → f.schema_version ≤ u32_max
      → f.rule_version ≤ u32_max
      → all_written f.otel_attributes ≡ true
      → IsAscending f.otel_attributes
      → from_value x j (to_value x j f) ≡ some f
  from_value-to_value f = from-to_value f f.otel_attributes
