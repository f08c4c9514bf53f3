-- ===== src/Ebpf/Wire/Structs.antt =====
-- The key of a request, RqKey of crates/pgsleuth-ebpf-common/src/lib.rs, as the bytes by which the
-- kernel's hash map knows it.
use pgsleuth.Base.{ℕ, ◌≡◌, refl, sym, ap, ◌∙◌, ◌↔◌, true, List, [], ◌∷◌}
use pgsleuth.Ebpf.Events.{RqKey, rq_key_eq}
use pgsleuth.Ebpf.Wire.{
  FieldType, u32, u64, Values, AllInRange, write_struct, read_struct, read_struct-write_struct,
}
use pgsleuth.Ebpf.Block.InFlight.{rq_key_eq_iff}

-- A `repr(C)` struct whose bytes are copied, by its fields in the order of the declaration, its explicit
-- padding included.
pub record Pod (E : Type 0) : Type 0 where
  pub fields : List FieldType
  pub values : E → Values fields
  pub of_values : Values fields → E
  pub of_values-values : (e : E) → of_values (values e) ≡ e

abbrev pub rq_key_pod : Pod RqKey
rq_key_pod = record {
  fields = u32 ∷ u32 ∷ u64 ∷ [];
  values = λ k. (k.dev, (0, (k.sector, tt)));
  of_values = λ (dev, (pad, (sector, end))). record { dev = dev; sector = sector };
  of_values-values = λ k. refl;
}

module _ {E : Type 0} (p : Pod E) where
  -- The bytes of a value that is written over what the memory held.
  abbrev pub store : (ℕ → ℕ) → E → List ℕ
  store memory e = write_struct memory p.fields (p.values e)

  -- The value at a pointer to the bytes.
  abbrev load : List ℕ → E
  load bytes = p.of_values (read_struct p.fields bytes)

  -- A value of the Rust type.
  abbrev pub IsWellTyped : E → Type 0
  IsWellTyped e = AllInRange p.fields (p.values e)

  load-store : (memory : ℕ → ℕ) (e : E) → IsWellTyped e → load (store memory e) ≡ e
  load-store memory e h =
      ap p.of_values (read_struct-write_struct memory p.fields (p.values e) h)
      ∙ p.of_values-values e

-- Two keys have the same bytes exactly if they are equal by `==`, whatever the memory held where they are stored: the explicit padding leaves no gap, so that the kernel's map, which compares bytes, finds a request again.
pub store-rq_key_eq :
    (memory memory' : ℕ → ℕ) (a b : RqKey)
    → IsWellTyped rq_key_pod a
    → IsWellTyped rq_key_pod b
    → (store rq_key_pod memory a ≡ store rq_key_pod memory' b) ↔ (rq_key_eq a b ≡ true)
store-rq_key_eq memory memory' a b ha hb = (
  λ e. (rq_key_eq_iff a b).1 (
      sym (load-store rq_key_pod memory a ha)
      ∙ (ap (load rq_key_pod) e ∙ load-store rq_key_pod memory' b hb)),
  λ e. ap (store rq_key_pod memory) ((rq_key_eq_iff a b).0 e),
)
