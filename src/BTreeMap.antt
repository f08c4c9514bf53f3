-- ===== src/BTreeMap.antt =====
-- `BTreeMap`: an association list in the order of its keys, for keys with an order.
use pgsleuth.Base.{
  String, ◌≡◌, refl, ◌↔◌, Bool, true, false, Option, none, some, List, [], ◌∷◌, arith,
  if◌then◌else◌, ℤ, pos, negsuc,
}
use Prim.Native.Nat.{Ordering, compare as nat_cmp}
use Prim.Native.String.{compare}
use text.Mathlib.TextEquality.{eq_iff}

abbrev pub is_eq : Ordering → Bool
is_eq Ordering.eq = true
is_eq _ = false

pub record Key {ℓ} (K : Type ℓ) : Type ℓ where
  pub cmp : K → K → Ordering
  pub cmp_eq_iff : (a b : K) → (is_eq (cmp a b) ≡ true) ↔ (a ≡ b)

pub text_cmp_eq_iff : (a b : String) → (is_eq (compare a b) ≡ true) ↔ (a ≡ b)
text_cmp_eq_iff a b = ground (arith, eq_iff a b)

instance abbrev pub text_key : Key String
text_key = record { cmp = compare; cmp_eq_iff = text_cmp_eq_iff }

abbrev pub then_cmp : Ordering → Ordering → Ordering
then_cmp Ordering.eq o = o
then_cmp Ordering.lt o = Ordering.lt
then_cmp Ordering.gt o = Ordering.gt

abbrev pub pair_cmp : String × String → String × String → Ordering
pair_cmp (a, b) (c, d) = then_cmp (compare a c) (compare b d)

pub pair_cmp_eq_iff : (p q : String × String) → (is_eq (pair_cmp p q) ≡ true) ↔ (p ≡ q)
pair_cmp_eq_iff (a, b) (c, d) = ground (arith, text_cmp_eq_iff a c, text_cmp_eq_iff b d)

-- Pairs of texts, in the order of their first parts and then of their second.
instance abbrev pub text_pair_key : Key (String × String)
text_pair_key = record { cmp = pair_cmp; cmp_eq_iff = pair_cmp_eq_iff }

abbrev pub BTreeMap {ℓ κ} : Type ℓ → Type κ → Type (ℓ ⊔ κ)
BTreeMap K V = List (K × V)

abbrev pub key_eq {ℓ} : {K : Type ℓ} ⦃o : Key K⦄ → K → K → Bool
key_eq ⦃o⦄ a b = is_eq (o.cmp a b)

module _ {ℓ κ} {K : Type ℓ} {V : Type κ} ⦃o : Key K⦄ where
  unfoldable pub get : K → BTreeMap K V → Option V
  get k [] = none
  get k ((j, v) ∷ m) = if key_eq j k then some v else get k m

  unfoldable pub insert : K → V → BTreeMap K V → BTreeMap K V
  insert k v [] = (k, v) ∷ []
  insert k v ((j, w) ∷ m) =
      let rest = insert k v m in
      elim (o.cmp j k) [
        | Ordering.gt ↦ (k, v) ∷ (j, w) ∷ m
        | Ordering.eq ↦ (j, v) ∷ m
        | Ordering.lt ↦ (j, w) ∷ rest
      ]

  pub get-insert :
      (k j : K) (v : V) (m : BTreeMap K V)
      → get j (insert k v m) ≡ (if key_eq k j then some v else get j m)
  unfolding get insert
  get-insert k j v [] = refl
  get-insert k j v ((i, w) ∷ m) =
      ground (arith, o.cmp_eq_iff k j, o.cmp_eq_iff i k, o.cmp_eq_iff i j, get-insert k j v m)

abbrev pub int_cmp : ℤ → ℤ → Ordering
int_cmp (pos m) (pos n) = nat_cmp m n
int_cmp (pos m) (negsuc n) = Ordering.gt
int_cmp (negsuc m) (pos n) = Ordering.lt
int_cmp (negsuc m) (negsuc n) = nat_cmp n m

pub int_cmp_eq_iff : (a b : ℤ) → (is_eq (int_cmp a b) ≡ true) ↔ (a ≡ b)
int_cmp_eq_iff (pos m) (pos n) = ground arith
int_cmp_eq_iff (pos m) (negsuc n) = ground arith
int_cmp_eq_iff (negsuc m) (pos n) = ground arith
int_cmp_eq_iff (negsuc m) (negsuc n) = ground arith

instance abbrev pub int_key : Key ℤ
int_key = record { cmp = int_cmp; cmp_eq_iff = int_cmp_eq_iff }
