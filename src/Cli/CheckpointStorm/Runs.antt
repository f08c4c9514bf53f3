-- ===== src/Cli/CheckpointStorm/Runs.antt =====
-- Runs of one bucket among the intervals that were classified.
use pgsleuth.Base.{
  ℕ, suc, ◌-◌, min, Bool, true, false, ◌||◌, Option, some, List, [], ◌∷◌, ◌++◌, ltb, leb,
  if◌then◌else◌, u32_max,
}
use pgsleuth.Postgres.Checkpointer.{CheckpointBucket}
use pgsleuth.Cli.CheckpointStorm.{
  DominantStreak, StreakState, building, just_fired, still_firing, no_classification, is_some_of,
  observe,
}

-- How long the run of the last bucket gets with one more.
abbrev pub next : Option CheckpointBucket → ℕ → CheckpointBucket → ℕ
next o k b = if is_some_of o b then suc k else 1

-- What a bucket answers that makes a run this long.
abbrev pub answer : ℕ → CheckpointBucket → ℕ → StreakState
answer fire_after b k =
    let s = min k u32_max in
    if ltb s fire_after
    then building b s
    else if leb k 1 || ltb (min (k - 1) u32_max) fire_after
    then just_fired b s
    else still_firing b s

-- The answers to a sequence of intervals, oldest first.
unfoldable pub answers : DominantStreak → ℕ → List (Option CheckpointBucket) → List StreakState
answers s fire_after [] = []
answers s fire_after (b ∷ bs) =
    let (s', state) = observe s b fire_after in state ∷ answers s' fire_after bs

-- The lengths of the maximal runs of one bucket, behind an open run.
abbrev pub episodes : Option CheckpointBucket → ℕ → List CheckpointBucket → List ℕ
episodes o k [] = k ∷ []
episodes o k (b ∷ bs) = (if is_some_of o b then [] else k ∷ []) ++ episodes (some b) (next o k b) bs

abbrev pub is_just_fired : StreakState → Bool
is_just_fired (just_fired b s) = true
is_just_fired _ = false

-- The answers to the intervals that were classified.
abbrev pub classified : List StreakState → List StreakState
classified [] = []
classified (no_classification ∷ states) = classified states
classified (building b s ∷ states) = building b s ∷ classified states
classified (just_fired b s ∷ states) = just_fired b s ∷ classified states
classified (still_firing b s ∷ states) = still_firing b s ∷ classified states
