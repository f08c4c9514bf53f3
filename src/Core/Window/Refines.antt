-- ===== src/Core/Window/Refines.antt =====
-- The counter refines the run of breaches that has just been observed.
use pgsleuth.Base.{
  ℕ, suc, min, ◌≡◌, refl, Bool, true, false, not, ◌&&◌, List, [], ◌∷◌, arith, ltb, u32_max,
}
use pgsleuth.Core.Window.{ConsecutiveBreachCounter, observe, default_counter}
use pgsleuth.Core.Window.Runs.{run_length, after, answer}

-- The counter of a run of this length.
pub record Reflects (fire_after k : ℕ) (c : ConsecutiveBreachCounter) : Type 0 where
  pub streak_is : c.streak ≡ min k u32_max
  pub fired_is : c.fired_this_run ≡ (ltb 0 k && not (ltb (min k u32_max) fire_after))

pub default-Reflects : (fire_after : ℕ) → Reflects fire_after 0 default_counter
default-Reflects fire_after = ground arith

pub observe-true-Reflects :
    (fire_after k : ℕ) (c : ConsecutiveBreachCounter)
    → Reflects fire_after k c
    → Reflects fire_after (suc k) (observe c true fire_after).0
unfolding observe
observe-true-Reflects fire_after k c r = ground arith

pub observe-false-Reflects :
    (fire_after : ℕ) (c : ConsecutiveBreachCounter)
    → Reflects fire_after 0 (observe c false fire_after).0
unfolding observe
observe-false-Reflects fire_after c = ground arith

-- After any history the streak is the length of the run of breaches at its end, held at u32's largest value, and the counter is firing exactly when that run is not empty and has reached `fire_after`.
pub after-Reflects :
    (fire_after : ℕ) (h : List Bool) → Reflects fire_after (run_length h) (after fire_after h)
unfolding after
after-Reflects fire_after [] = default-Reflects fire_after
after-Reflects fire_after (true ∷ h) =
    observe-true-Reflects fire_after (run_length h) (after fire_after h)
      (after-Reflects fire_after h)
after-Reflects fire_after (false ∷ h) = observe-false-Reflects fire_after (after fire_after h)

pub observe-true-answer :
    (fire_after k : ℕ) (c : ConsecutiveBreachCounter)
    → Reflects fire_after k c
    → (observe c true fire_after).1 ≡ answer fire_after (suc k)
unfolding observe
observe-true-answer fire_after k c r = ground arith

pub observe-false-answer :
    (fire_after : ℕ) (c : ConsecutiveBreachCounter)
    → (observe c false fire_after).1 ≡ answer fire_after 0
unfolding observe
observe-false-answer fire_after c = refl

-- Whatever came before, the answer to the next interval is the one that the run of breaches calls for.
pub observe-answer :
    (fire_after : ℕ) (h : List Bool) (b : Bool)
    → (observe (after fire_after h) b fire_after).1 ≡ answer fire_after (run_length (b ∷ h))
observe-answer fire_after h true =
    observe-true-answer fire_after (run_length h) (after fire_after h) (after-Reflects fire_after h)
observe-answer fire_after h false = observe-false-answer fire_after (after fire_after h)
