-- ===== src/External/Example.antt =====
-- A concrete instance of the third-party interface, for tests and for the theorems at concrete inputs.
use pgsleuth.Base.{ℕ, String, ◌≡◌, refl, ap, Bool, true, false, Option, none, List, [], ◌∷◌, ℤ}
use pgsleuth.External.{External, member}

mutual
  pub data Json : Type 0 where
    null : Json
    text : String → Json
    number : ℕ → Json
    boolean : Bool → Json
    integer : ℤ → Json
    float : ℕ → Json
    array : Items → Json
    object : Members → Json

  pub data Items : Type 0 where
    nil : Items
    cons : Json → Items → Items

  pub data Members : Type 0 where
    end : Members
    field : String → Json → Members → Members

abbrev pub of_list : List (String × Json) → Members
of_list [] = end
of_list ((k, v) ∷ kvs) = field k v (of_list kvs)

abbrev pub to_list : Members → List (String × Json)
to_list end = []
to_list (field k v ms) = (k, v) ∷ to_list ms

pub to_list-of_list : (kvs : List (String × Json)) → to_list (of_list kvs) ≡ kvs
to_list-of_list [] = refl
to_list-of_list ((k, v) ∷ kvs) = ap (◌∷◌ (k, v)) (to_list-of_list kvs)

abbrev pub json_is_null : Json → Bool
json_is_null null = true
json_is_null _ = false

abbrev pub json_index : Json → String → Option Json
json_index (object ms) k = member (to_list ms) k
json_index _ k = none

pub json_index-object :
    (kvs : List (String × Json)) (k : String) → json_index (object (of_list kvs)) k ≡ member kvs k
json_index-object kvs k = ap (λ l. member l k) (to_list-of_list kvs)

-- Times are seconds since the epoch, and floats are numbers.
abbrev pub example : External
example = record {
  DateTime = ℤ;
  timestamp = λ t. t;
  timestamp_subsec_nanos = λ t. 0;
  Value = Json;
  null = null;
  text = text;
  number = number;
  boolean = boolean;
  object = λ kvs. object (of_list kvs);
  is_null = json_is_null;
  to_json = λ v. "{}";
  index = json_index;
  is_null-null = refl;
  is_null-object = λ kvs. refl;
  index-object = json_index-object;
  F64 = ℕ;
}
