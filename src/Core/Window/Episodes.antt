-- ===== src/Core/Window/Episodes.antt =====
-- One alarm for each episode.
use pgsleuth.Base.{
  ℕ, suc, ◌+◌, ◌≤◌, ◌≡◌, ap, Bool, true, false, ◌&&◌, List, [], ◌∷◌, arith, ltb, leb, count_if,
  u32_max,
}
use pgsleuth.Core.Window.{ConsecutiveBreachCounter, observe, default_counter}
use pgsleuth.Core.Window.Runs.{answer, answers, episodes, is_just_fired}
use pgsleuth.Core.Window.Refines.{
  Reflects, default-Reflects, observe-true-Reflects, observe-false-Reflects, observe-true-answer,
  observe-false-answer,
}

-- A run is an alarm if it reaches `fire_after`, and is not empty.
abbrev pub is_long : ℕ → ℕ → Bool
is_long fire_after k = ltb 0 k && leb fire_after k

-- Alarms so far in the open run count once more when it ends.
abbrev owed : ℕ → ℕ → ℕ
owed fire_after k = count_if (is_long fire_after) (k ∷ [])

owed-suc :
    (fire_after k : ℕ)
    → fire_after ≤ u32_max
    → owed fire_after (suc k)
      ≡ owed fire_after k + count_if is_just_fired (answer fire_after (suc k) ∷ [])
owed-suc fire_after k h = ground arith

answers-episodes :
    (fire_after k : ℕ) (c : ConsecutiveBreachCounter) (bs : List Bool)
    → fire_after ≤ u32_max
    → Reflects fire_after k c
    → count_if is_just_fired (answers c fire_after bs) + owed fire_after k
      ≡ count_if (is_long fire_after) (episodes k bs)
unfolding answers
answers-episodes fire_after k c [] h r = omega arith
answers-episodes fire_after k c (true ∷ bs) h r = omega (
  arith,
  owed-suc fire_after k h,
  ap (λ a. count_if is_just_fired (a ∷ [])) (observe-true-answer fire_after k c r),
  answers-episodes fire_after (suc k) (observe c true fire_after).0 bs h
      (observe-true-Reflects fire_after k c r),
)
answers-episodes fire_after k c (false ∷ bs) h r = omega (
  arith,
  ap (λ a. count_if is_just_fired (a ∷ [])) (observe-false-answer fire_after c),
  answers-episodes fire_after 0 (observe c false fire_after).0 bs h
      (observe-false-Reflects fire_after c),
)

-- From a fresh counter, and with `fire_after` a u32, the intervals answered by `just_fired` are as many as the maximal runs of breaches that are not empty and reach `fire_after`: one alarm for each episode.
pub answers_alarms :
    (fire_after : ℕ) (bs : List Bool)
    → fire_after ≤ u32_max
    → count_if is_just_fired (answers default_counter fire_after bs)
      ≡ count_if (is_long fire_after) (episodes 0 bs)
answers_alarms fire_after bs h =
    omega (arith, answers-episodes fire_after 0 default_counter bs h (default-Reflects fire_after))
