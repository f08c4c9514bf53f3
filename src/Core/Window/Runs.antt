-- ===== src/Core/Window/Runs.antt =====
-- What the counter is for, said without its state: runs of breaching intervals.
use pgsleuth.Base.{
  ℕ, zero, suc, min, Bool, true, false, ◌||◌, List, [], ◌∷◌, ltb, ◌==◌, if◌then◌else◌, u32_max,
}
use pgsleuth.Core.Window.{
  ConsecutiveBreachCounter, BreachState, building, just_fired, still_firing, reset, default_counter,
  observe,
}

-- The run of breaches that has just been observed; the latest interval comes first.
abbrev pub run_length : List Bool → ℕ
run_length [] = 0
run_length (false ∷ h) = 0
run_length (true ∷ h) = suc (run_length h)

-- The counter after a history, the latest interval first.
unfoldable pub after : ℕ → List Bool → ConsecutiveBreachCounter
after fire_after [] = default_counter
after fire_after (b ∷ h) = (observe (after fire_after h) b fire_after).0

-- What an interval answers that ends a run of this length.
abbrev pub answer : ℕ → ℕ → BreachState
answer fire_after zero = reset
answer fire_after (suc k) =
    let s = min (suc k) u32_max in
    if ltb s fire_after
    then building s
    else if k == 0 || ltb (min k u32_max) fire_after
    then just_fired s
    else still_firing s

-- The lengths of the maximal runs of breaches in a sequence, oldest first, behind an open run.
abbrev pub episodes : ℕ → List Bool → List ℕ
episodes k [] = k ∷ []
episodes k (true ∷ bs) = episodes (suc k) bs
episodes k (false ∷ bs) = k ∷ episodes 0 bs

-- The answers to a sequence of intervals, oldest first.
unfoldable pub answers : ConsecutiveBreachCounter → ℕ → List Bool → List BreachState
answers c fire_after [] = []
answers c fire_after (b ∷ bs) = let (c', s) = observe c b fire_after in s ∷ answers c' fire_after bs

abbrev pub is_just_fired : BreachState → Bool
is_just_fired (just_fired s) = true
is_just_fired _ = false
