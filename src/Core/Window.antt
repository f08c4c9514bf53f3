-- ===== src/Core/Window.antt =====
-- crates/pgsleuth-core/src/window.rs: the counter of consecutive breaching intervals.
pub mod Runs
pub mod Refines
pub mod Episodes
mod Tests
use pgsleuth.Base.{ℕ, Bool, true, false, ltb, if◌then◌else◌, u32_max, saturating_add}

pub record ConsecutiveBreachCounter : Type 0 where
  pub streak : ℕ
  pub fired_this_run : Bool

pub data BreachState : Type 0 where
  building : ℕ → BreachState
  just_fired : ℕ → BreachState
  still_firing : ℕ → BreachState
  reset : BreachState

-- `ConsecutiveBreachCounter::default()`.
abbrev pub default_counter : ConsecutiveBreachCounter
default_counter = record { streak = 0; fired_this_run = false }

-- The two paths of `observe` behind its first test.
observe_breach : ConsecutiveBreachCounter → ℕ → ConsecutiveBreachCounter × BreachState
observe_breach c fire_after =
    let s = saturating_add u32_max c.streak 1 in
    if ltb s fire_after
    then (record c { streak = s }, building s)
    else if c.fired_this_run
    then (record c { streak = s }, still_firing s)
    else (record { streak = s; fired_this_run = true }, just_fired s)

unfoldable pub observe :
    ConsecutiveBreachCounter → Bool → ℕ → ConsecutiveBreachCounter × BreachState
unfolding observe_breach
observe c breached fire_after =
    if breached
    then observe_breach c fire_after
    else (record { streak = 0; fired_this_run = false }, reset)

unfoldable pub streak : ConsecutiveBreachCounter → ℕ
streak c = c.streak

unfoldable pub is_firing : ConsecutiveBreachCounter → Bool
is_firing c = c.fired_this_run
