-- ===== src/Core/Finding.antt =====
-- crates/pgsleuth-core/src/finding.rs: the envelope that every rule emits.
pub mod Json
use pgsleuth.Base.{ℕ, String, Bool, Option, List, ℤ}
use pgsleuth.BTreeMap.{BTreeMap}
use pgsleuth.External.{External}

abbrev pub finding_schema_version : ℕ
finding_schema_version = 1

pub data Tier : Type 0 where
  standard cloud_enhanced deep : Tier

pub data Severity : Type 0 where
  info low medium high critical : Severity

pub data PgRole : Type 0 where
  primary replica unknown : PgRole

pub record PgInstanceRef : Type 0 where
  pub id : String
  pub db_name : Option String
  pub role : PgRole

pub record Remediation : Type 0 where
  pub text : String
  pub knobs : List String

pub data AttributeValue (x : External) : Type 0 where
  string : String → AttributeValue x
  int : ℤ → AttributeValue x
  double : x.F64 → AttributeValue x
  bool : Bool → AttributeValue x

pub record Finding (x : External) : Type 0 where
  pub schema_version : ℕ
  pub rule_id : String
  pub rule_version : ℕ
  pub tier : Tier
  pub severity : Severity
  pub fired_at : x.DateTime
  pub pg_instance : PgInstanceRef
  pub summary : String
  pub evidence : x.Value
  pub remediation : Remediation
  pub otel_attributes : BTreeMap String (AttributeValue x)
