-- ===== src/External.antt =====
-- Third-party crates that the agent's data and rules rest on: `chrono` and `serde_json`, with the
-- documented behaviour that the theorems use, and the type of Rust's 64-bit floats.
pub mod Example
use pgsleuth.Base.{
  ℕ, String, ◌≡◌, true, false, Option, none, some, List, [], ◌∷◌, if◌then◌else◌, str_eq, ℤ,
}
use mathlib.Core.Bool.{Bool}

-- The value that a list of members holds for a key: a later member replaces an earlier one.
abbrev pub member {ℓ} : {A : Type ℓ} → List (String × A) → String → Option A
member [] k = none
member ((j, v) ∷ kvs) k =
    let later = member kvs k in
    elim later [ some w ↦ some w | none ↦ if str_eq j k then some v else none ]

pub record External : Type 1 where
  -- chrono::DateTime<Utc>
  pub DateTime : Type 0
  pub timestamp : DateTime → ℤ
  pub timestamp_subsec_nanos : DateTime → ℕ
  -- serde_json::Value, `json!`'s forms, and what is read off a value
  pub Value : Type 0
  pub null : Value
  pub text : String → Value
  pub number : ℕ → Value
  pub boolean : Bool → Value
  pub object : List (String × Value) → Value
  pub is_null : Value → Bool
  pub to_json : Value → String
  pub index : Value → String → Option Value
  pub is_null-null : is_null null ≡ true
  pub is_null-object : (kvs : List (String × Value)) → is_null (object kvs) ≡ false
  pub index-object :
      (kvs : List (String × Value)) (k : String) → index (object kvs) k ≡ member kvs k
  -- f64
  pub F64 : Type 0
