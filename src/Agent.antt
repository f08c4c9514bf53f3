-- ===== src/Agent.antt =====
-- What a polling rule does to the world when it decides to fire, in every collector's loop:
-- `if let Some(em) = emitter { em.emit(&finding); }` and the log line behind it.
use pgsleuth.Base.{
  ℕ, suc, ◌+◌, String, ◌<>◌, ◌≡◌, refl, ap, Bool, true, false, List, [], ◌∷◌, ◌++◌, arith,
  if◌then◌else◌, length, length-append,
}
use pgsleuth.External.{External}
use pgsleuth.Core.Finding.{Finding}

pub data Effect (x : External) : Type 0 where
  emit : Finding x → Effect x
  warn : String → Effect x
  -- `tracing::warn!(error = %e, message)`
  warn_error : String → String → Effect x

module _ {x : External} where
  unfoldable pub fire : Bool → Finding x → List (Effect x)
  fire emitter f =
      if emitter
      then emit f ∷ warn ("FINDING fired: " <> f.summary) ∷ []
      else warn ("FINDING fired: " <> f.summary) ∷ []

  -- The findings handed to the emitter.
  abbrev pub emitted : List (Effect x) → List (Finding x)
  emitted [] = []
  emitted (emit f ∷ es) = f ∷ emitted es
  emitted (warn s ∷ es) = emitted es
  emitted (warn_error e s ∷ es) = emitted es

  pub emitted-append : (es es' : List (Effect x)) → emitted (es ++ es') ≡ emitted es ++ emitted es'
  emitted-append [] es' = refl
  emitted-append (emit f ∷ es) es' = ap (◌∷◌ f) (emitted-append es es')
  emitted-append (warn s ∷ es) es' = emitted-append es es'
  emitted-append (warn_error e s ∷ es) es' = emitted-append es es'

  -- The findings that fired, by their log lines: these are there with or without an emitter.
  abbrev pub fired : List (Effect x) → ℕ
  fired [] = 0
  fired (emit f ∷ es) = fired es
  fired (warn s ∷ es) = suc (fired es)
  fired (warn_error e s ∷ es) = fired es

  pub fired-append : (es es' : List (Effect x)) → fired (es ++ es') ≡ fired es + fired es'
  fired-append [] es' = omega arith
  fired-append (emit f ∷ es) es' = fired-append es es'
  fired-append (warn s ∷ es) es' = omega (arith, fired-append es es')
  fired-append (warn_error e s ∷ es) es' = fired-append es es'

  pub emitted-fire : (f : Finding x) → emitted (fire true f) ≡ f ∷ []
  unfolding fire
  emitted-fire f = refl

  pub fired-fire : (emitter : Bool) (f : Finding x) → fired (fire emitter f) ≡ 1
  unfolding fire
  fired-fire true f = refl
  fired-fire false f = refl

  -- Without an emitter nothing is emitted.
  pub emitted-fire-false : (f : Finding x) → emitted (fire false f) ≡ []
  unfolding fire
  emitted-fire-false f = refl

-- A number of alarms: the log has a line for each, and the emitter gets each, if there is one.
pub record Fires {x : External} (emitter : Bool) (alarms : ℕ) (es : List (Effect x)) : Type 0 where
  pub logged : fired es ≡ alarms
  pub sent : length (emitted es) ≡ (if emitter then alarms else 0)

module _ {x : External} (emitter : Bool) where
  pub nil-Fires : Fires {x = x} emitter 0 []
  nil-Fires = ground arith

  pub fire-Fires : (f : Finding x) → Fires emitter 1 (fire emitter f)
  unfolding fire
  fire-Fires f = ground arith

  pub warn_error-Fires :
      {n : ℕ} (e s : String) {es : List (Effect x)}
      → Fires emitter n es
      → Fires emitter n (warn_error e s ∷ es)
  warn_error-Fires e s f = record { logged = f.logged; sent = f.sent }

  pub append-Fires :
      (m n : ℕ) (es es' : List (Effect x))
      → Fires emitter m es
      → Fires emitter n es'
      → Fires emitter (m + n) (es ++ es')
  append-Fires m n es es' f g = ground (
    arith,
    fired-append es es',
    ap length (emitted-append es es'),
    length-append (emitted es) (emitted es'),
  )
