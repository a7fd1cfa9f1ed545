-- ===== src/Trigger/Double.antt =====
-- The `f64` operations that mmtk/src/gc_trigger.rs uses, with the casts to and from `usize`.
-- There are no floats here: the type and its operations are a parameter.
use mmtk_art.Base.{ℕ, ◌<◌, ◌^◌, ◌≡◌, Bool, true}

pub record Double : Type 1 where
  pub F : Type 0
  pub one : F
  pub mul : F → F → F
  pub div : F → F → F
  pub sub : F → F → F
  pub le : F → F → Bool
  -- `as f64`, and `as usize`, which saturates
  pub from_usize : ℕ → F
  pub to_usize : F → ℕ
  pub to_usize-lt : (x : F) → to_usize x < 2 ^ 64
  -- An integer below 2 ^ 53 is a double, and a product with 1.0 is exact.
  pub mul-one : (n : ℕ) → n < 2 ^ 53 → to_usize (mul (from_usize n) one) ≡ n
  pub le-one : le one one ≡ true
