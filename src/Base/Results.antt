-- ===== src/Base/Results.antt =====
-- `anyhow::Result`: an error is the text that its `Display` shows, the outermost context.
use Prim.Native.String.{String}
use mathlib.Core.Path.{◌≡◌, refl, ap}
use mathlib.Core.Logic.{◌⊎◌, inl, inr}
use mathlib.Core.List.{List, ◌∷◌}
use mathlib.Core.Option.{Option, none, some}

pub data Result {ℓ} (A : Type ℓ) : Type ℓ where
  ok : A → Result A
  err : String → Result A

infixl 5 ◌>>=◌
abbrev pub ◌>>=◌ {ℓ κ} : {A : Type ℓ} {B : Type κ} → Result A → (A → Result B) → Result B
ok a >>= f = f a
err e >>= f = err e

-- `.context(text)` on an `Option`, and on a result whose error it covers.
abbrev pub context {ℓ} : {A : Type ℓ} → Option A → String → Result A
context none e = err e
context (some a) e = ok a

-- What a round of polling adds to the results so far, if it succeeds.
abbrev pub add_ok {ℓ κ} : {T : Type ℓ} {A : Type κ} → T → Result A → List (T × A) → List (T × A)
add_ok now (ok a) rest = (now, a) ∷ rest
add_ok now (err e) rest = rest

pub Result-cases {ℓ} :
    {A : Type ℓ} (r : Result A) → ((a : A) × (r ≡ ok a)) ⊎ ((e : String) × (r ≡ err e))
Result-cases (ok a) = inl (a, refl)
Result-cases (err e) = inr (e, refl)

abbrev pub from_ok {ℓ} : {A : Type ℓ} → A → Result A → A
from_ok d (ok a) = a
from_ok d (err e) = d

pub ok-injective {ℓ} : {A : Type ℓ} {a b : A} → Result.ok a ≡ ok b → a ≡ b
ok-injective {a} h = ap (from_ok a) h
