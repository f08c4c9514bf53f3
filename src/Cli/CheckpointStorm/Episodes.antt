-- ===== src/Cli/CheckpointStorm/Episodes.antt =====
-- One alarm for each run of a bucket, and what an unclassified interval does.
use pgsleuth.Base.{
  ℕ, ◌+◌, ◌≤◌, ◌≡◌, refl, ap, Option, none, some, List, [], ◌∷◌, map, arith, if◌then◌else◌,
  count_if, count_if-append, present, u32_max,
}
use pgsleuth.Postgres.Checkpointer.{CheckpointBucket}
use pgsleuth.Core.Window.Episodes.{is_long}
use pgsleuth.Cli.CheckpointStorm.{
  DominantStreak, default_streak, is_some_of, observe, StreakState, building, just_fired,
  still_firing, no_classification,
}
use pgsleuth.Cli.CheckpointStorm.Runs.{next, answer, answers, episodes, is_just_fired, classified}
use pgsleuth.Cli.CheckpointStorm.Streak.{
  FollowsRun, default-FollowsRun, observe-FollowsRun, observe-run_answer,
}

abbrev owed : ℕ → ℕ → ℕ
owed fire_after k = if is_long fire_after k then 1 else 0

abbrev owed_by : StreakState → ℕ
owed_by a = if is_just_fired a then 1 else 0

-- The alarms that a new interval ends or begins.
owed-next :
    (fire_after : ℕ) (o : Option CheckpointBucket) (k : ℕ) (b : CheckpointBucket)
    → fire_after ≤ u32_max
    → owed fire_after (next o k b)
        + count_if (is_long fire_after) (if is_some_of o b then [] else k ∷ [])
      ≡ owed fire_after k + (if is_just_fired (answer fire_after b (next o k b)) then 1 else 0)
owed-next fire_after o k b h = ground arith

answers-episodes :
    (fire_after : ℕ) (o : Option CheckpointBucket) (k : ℕ) (s : DominantStreak)
    (bs : List (Option CheckpointBucket))
    → fire_after ≤ u32_max
    → FollowsRun fire_after o k s
    → count_if is_just_fired (answers s fire_after bs) + owed fire_after k
      ≡ count_if (is_long fire_after) (episodes o k (present bs))
unfolding answers observe
answers-episodes fire_after o k s [] h r = omega arith
answers-episodes fire_after o k s (none ∷ bs) h r =
    omega (arith, answers-episodes fire_after o k s bs h r)
answers-episodes fire_after o k s (some b ∷ bs) h r = omega (
  arith,
  owed-next fire_after o k b h,
  ap (λ a. owed_by a) (observe-run_answer fire_after o k s b r),
  count_if-append (is_long fire_after) (if is_some_of o b then [] else k ∷ [])
      (episodes (some b) (next o k b) (present bs)),
  answers-episodes fire_after (some b) (next o k b) (observe s (some b) fire_after).0 bs h
      (observe-FollowsRun fire_after o k s b r),
)

-- From a fresh streak, and with `fire_after` a u32, the intervals answered by `just_fired` are as many as the maximal runs of one bucket among the classified intervals that are not empty and reach `fire_after`.
pub answers_storms :
    (fire_after : ℕ) (bs : List (Option CheckpointBucket))
    → fire_after ≤ u32_max
    → count_if is_just_fired (answers default_streak fire_after bs)
      ≡ count_if (is_long fire_after) (episodes none 0 (present bs))
answers_storms fire_after bs h =
    omega (
      arith,
      answers-episodes fire_after none 0 default_streak bs h (default-FollowsRun fire_after),
    )

classified-cons :
    (a : StreakState) (xs ys : List StreakState)
    → classified xs ≡ classified ys
    → classified (a ∷ xs) ≡ classified (a ∷ ys)
classified-cons no_classification xs ys h = h
classified-cons (building b s) xs ys h = ap (◌∷◌ (building b s)) h
classified-cons (just_fired b s) xs ys h = ap (◌∷◌ (just_fired b s)) h
classified-cons (still_firing b s) xs ys h = ap (◌∷◌ (still_firing b s)) h

-- An interval with no bucket neither breaks a streak nor re-arms the alarm: from any state, the answers to the classified intervals are those that they get with the unclassified ones left out.
pub answers-present :
    (fire_after : ℕ) (s : DominantStreak) (bs : List (Option CheckpointBucket))
    → classified (answers s fire_after bs)
      ≡ classified (answers s fire_after (map some (present bs)))
unfolding answers observe
answers-present fire_after s [] = refl
answers-present fire_after s (none ∷ bs) = answers-present fire_after s bs
answers-present fire_after s (some b ∷ bs) =
    classified-cons (observe s (some b) fire_after).1 _ _
      (answers-present fire_after (observe s (some b) fire_after).0 bs)
