-- ===== src/Float.antt =====
-- Rust's `f64`, of which there is no copy here: the operations that the code uses, and the facts of
-- IEEE 754 that the theorems use.
pub mod Example
use pgsleuth.Base.{ℕ, ◌≤◌, ◌≡◌, Bool, true, false, u64_max}

pub record Float (F : Type 0) : Type 0 where
  pub zero : F
  pub one_and_half : F
  pub sub : F → F → F
  pub mul : F → F → F
  pub max : F → F → F
  -- `a > b`, which is false where one of them is not a number
  pub gt : F → F → Bool
  pub is_finite : F → Bool
  -- `a <= b`
  pub le : F → F → Bool
  -- `a.floor() as u64`, which saturates
  pub floor_u64 : F → ℕ
  pub gt_asymm : (a b : F) → gt a b ≡ true → gt b a ≡ false
  -- `max(a, 0.0)` is not below 0, also where `a` is not a number
  pub max_zero : (a : F) → gt zero (max a zero) ≡ false
  -- what is above 1.5 * b is above b, if b is not negative
  pub gt-scaled : (a b : F) → gt zero b ≡ false → gt a (mul b one_and_half) ≡ true → gt a b ≡ true
  pub floor_fits : (a : F) → floor_u64 a ≤ u64_max
