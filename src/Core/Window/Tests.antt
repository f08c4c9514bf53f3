-- ===== src/Core/Window/Tests.antt =====
-- Runs of the counter on concrete intervals, and the theorems at concrete inputs.
use pgsleuth.Base.{◌≡◌, refl, Bool, true, false, List, [], ◌∷◌, arith, count_if}
use pgsleuth.Core.Window.{
  building, just_fired, still_firing, reset, default_counter, observe, streak, is_firing,
}
use pgsleuth.Core.Window.Runs.{after, answers, episodes, is_just_fired}
use pgsleuth.Core.Window.Episodes.{is_long, answers_alarms}

-- Two breaches, a recovery, then three breaches.
abbrev intervals : List Bool
intervals = true ∷ true ∷ false ∷ true ∷ true ∷ true ∷ []

refires :
    answers default_counter 2 intervals
    ≡ building 1 ∷ just_fired 2 ∷ reset ∷ building 1 ∷ just_fired 2 ∷ still_firing 3 ∷ []
unfolding answers observe
refires = refl

fires_at_once : answers default_counter 1 (true ∷ true ∷ []) ≡ just_fired 1 ∷ still_firing 2 ∷ []
unfolding answers observe
fires_at_once = refl

firing_now : is_firing (after 2 (true ∷ true ∷ [])) ≡ true
unfolding is_firing after observe
firing_now = refl

streak_now : streak (after 2 (true ∷ true ∷ [])) ≡ 2
unfolding streak after observe
streak_now = refl

answers_alarms_example :
    count_if is_just_fired (answers default_counter 2 intervals)
    ≡ count_if (is_long 2) (episodes 0 intervals)
answers_alarms_example = answers_alarms 2 intervals (omega arith)
