-- ===== src/Trigger/Example.antt =====
-- Fixed-point numbers in the place of `f64`, for the tests: 1.0 is 1024.
use mmtk_art.Base.{ℕ, ◌-◌, ◌*◌, ◌/◌, ◌<◌, ◌^◌, ◌≡◌, refl, min, arith, leb, usize_max}
use mmtk_art.Trigger.Double.{Double}

abbrev pub fixed_to_usize : ℕ → ℕ
fixed_to_usize x = min (x / 1024) usize_max

pub fixed_to_usize-lt : (x : ℕ) → fixed_to_usize x < 2 ^ 64
fixed_to_usize-lt x = omega arith

pub fixed_mul-one : (n : ℕ) → n < 2 ^ 53 → fixed_to_usize (n * 1024 * 1024 / 1024) ≡ n
fixed_mul-one n h = omega arith

abbrev pub fixed : Double
fixed = record {
  F = ℕ;
  one = 1024;
  mul = λ a b. a * b / 1024;
  div = λ a b. a * 1024 / b;
  sub = λ a b. a - b;
  le = leb;
  from_usize = λ n. n * 1024;
  to_usize = fixed_to_usize;
  to_usize-lt = fixed_to_usize-lt;
  mul-one = fixed_mul-one;
  le-one = refl;
}
