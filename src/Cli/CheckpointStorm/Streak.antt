-- ===== src/Cli/CheckpointStorm/Streak.antt =====
-- The streak refines the run of the last bucket, and fires once for each run.
use pgsleuth.Base.{
  ℕ, ◌<◌, min, ◌≡◌, refl, inl, inr, true, not, ◌&&◌, Option, none, some, List, [], ◌∷◌, arith, ltb,
  if◌then◌else◌, Bool-cases, present, u32_max,
}
use pgsleuth.Postgres.Checkpointer.{CheckpointBucket, write_phase_dominant}
use pgsleuth.Cli.CheckpointStorm.{DominantStreak, default_streak, bucket_eq, is_some_of, observe}
use pgsleuth.Cli.CheckpointStorm.Runs.{next, answer}

-- The streak of a run of this bucket with this length; there is no bucket before the first.
pub record FollowsRun (fire_after : ℕ) (o : Option CheckpointBucket) (k : ℕ) (s : DominantStreak)
    : Type 0 where
  pub current_is : s.current ≡ o
  pub streak_is : s.streak ≡ min k u32_max
  pub fired_is : s.fired_for ≡ (if ltb 0 k && not (ltb (min k u32_max) fire_after) then o else none)
  pub empty_is : o ≡ none → k ≡ 0
  pub started : (b : CheckpointBucket) → o ≡ some b → 0 < k

bucket_eq_refl : (b : CheckpointBucket) → bucket_eq b b ≡ true
bucket_eq_refl write_phase_dominant = refl
bucket_eq_refl _ = refl

is_some_of-eq :
    (o : Option CheckpointBucket) (b : CheckpointBucket) → is_some_of o b ≡ true → o ≡ some b
is_some_of-eq o b h = ground arith

pub default-FollowsRun : (fire_after : ℕ) → FollowsRun fire_after none 0 default_streak
default-FollowsRun fire_after = ground arith

pub observe-FollowsRun :
    (fire_after : ℕ) (o : Option CheckpointBucket) (k : ℕ) (s : DominantStreak)
    (b : CheckpointBucket)
    → FollowsRun fire_after o k s
    → FollowsRun fire_after (some b) (next o k b) (observe s (some b) fire_after).0
unfolding observe
observe-FollowsRun fire_after o k s b r = elim (Bool-cases (is_some_of o b)) [
  | inl same ↦ ground (arith, is_some_of-eq o b, bucket_eq_refl b)
  | inr other ↦ ground (arith, bucket_eq_refl b)
]

pub observe-run_answer :
    (fire_after : ℕ) (o : Option CheckpointBucket) (k : ℕ) (s : DominantStreak)
    (b : CheckpointBucket)
    → FollowsRun fire_after o k s
    → (observe s (some b) fire_after).1 ≡ answer fire_after b (next o k b)
unfolding observe
observe-run_answer fire_after o k s b r = elim (Bool-cases (is_some_of o b)) [
  | inl same ↦ ground (arith, is_some_of-eq o b, bucket_eq_refl b)
  | inr other ↦ ground (arith, bucket_eq_refl b)
]

-- The run at the end of a history of classified intervals, the latest first.
abbrev pub run_of : List CheckpointBucket → Option CheckpointBucket × ℕ
run_of [] = (none, 0)
run_of (b ∷ h) = let (o, k) = run_of h in (some b, next o k b)

-- The streak after a history, the latest interval first.
unfoldable pub after : ℕ → List (Option CheckpointBucket) → DominantStreak
after fire_after [] = default_streak
after fire_after (b ∷ h) = (observe (after fire_after h) b fire_after).0

-- After any history the state is that of the run of the last bucket among the classified intervals; those with no bucket do not count.
pub after-FollowsRun :
    (fire_after : ℕ) (h : List (Option CheckpointBucket))
    → FollowsRun fire_after (run_of (present h)).0 (run_of (present h)).1 (after fire_after h)
unfolding after observe
after-FollowsRun fire_after [] = default-FollowsRun fire_after
after-FollowsRun fire_after (none ∷ h) = after-FollowsRun fire_after h
after-FollowsRun fire_after (some b ∷ h) =
    observe-FollowsRun fire_after _ _ (after fire_after h) b (after-FollowsRun fire_after h)
