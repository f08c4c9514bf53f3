-- ===== src/Float/Example.antt =====
-- An instance of the float interface, for tests: numbers of halves, from 0 up.
use pgsleuth.Base.{ℕ, ◌-◌, ◌*◌, ◌/◌, ◌≤◌, min, max, ◌≡◌, true, false, arith, ltb, leb, u64_max}
use pgsleuth.Float.{Float}

pub halves_asymm : (a b : ℕ) → ltb b a ≡ true → ltb a b ≡ false
halves_asymm a b h = ground arith

pub halves_max : (a : ℕ) → ltb (max a 0) 0 ≡ false
halves_max a = ground arith

pub halves_scaled : (a b : ℕ) → ltb b 0 ≡ false → ltb (b * 3 / 2) a ≡ true → ltb b a ≡ true
halves_scaled a b h k = ground arith

pub halves_fit : (a : ℕ) → min (a / 2) u64_max ≤ u64_max
halves_fit a = omega arith

abbrev pub halves : Float ℕ
halves = record {
  zero = 0;
  one_and_half = 3;
  sub = ◌-◌;
  mul = λ a b. a * b / 2;
  max = max;
  gt = λ a b. ltb b a;
  is_finite = λ a. true;
  le = leb;
  floor_u64 = λ a. min (a / 2) u64_max;
  gt_asymm = halves_asymm;
  max_zero = halves_max;
  gt-scaled = halves_scaled;
  floor_fits = halves_fit;
}
