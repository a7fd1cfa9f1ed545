-- ===== src/Base/Bits.antt =====
-- Laws of `&` on the native numbers at variables: the step on the lowest digit, masks of low
-- bits, and single bits.
use Prim.Native.Nat.{
  ℕ, zero, suc, ◌+◌, ◌-◌, ◌*◌, ◌/◌, ◌%◌, ◌^◌, ◌≤◌, ◌<◌, min, bit_and, digits, bit_and-bitwise,
}
use mathlib.Core.Path.{◌≡◌, refl, sym, subst, ◌∙◌}
use native.Mathlib.Nat.{
  pow-suc, one-le-pow, div-div-eq-div-mul, div-add-mod, mod-lt, mul-add-mod_self_left, mod-eq_of_lt,
}
use native.Mathlib.Numerals.{add-one}
use native.Mathlib.Omega.{arith}

-- The definition of `&`: one round of fuel for a digit of the first operand.
abbrev and_within : (fuel x y : ℕ) → ℕ
and_within fuel x y = digits (λ _. 0) min fuel x y

and_within-zero : (fuel y : ℕ) → and_within fuel 0 y ≡ 0
and_within-zero zero y = refl
and_within-zero (suc fuel) y = refl

-- More fuel than the first operand makes no difference.
spare_fuel :
    (more fuel x y : ℕ) → x ≤ fuel → fuel ≤ more → and_within more x y ≡ and_within fuel x y
spare_fuel more fuel zero y small fits = and_within-zero more y ∙ sym (and_within-zero fuel y)
spare_fuel more zero (suc x) y small fits = absurd (omega arith)
spare_fuel zero (suc fuel) (suc x) y small fits = absurd (omega arith)
spare_fuel (suc more) (suc fuel) (suc x) y small fits =
    let halved = spare_fuel more fuel (suc x / 2) (y / 2) (omega arith) (omega arith) in omega arith

-- The lowest digits apart.
pub bit_and_step : (x y : ℕ) → bit_and x y ≡ min (x % 2) (y % 2) + 2 * bit_and (x / 2) (y / 2)
bit_and_step zero y =
    let none_here : bit_and 0 y ≡ 0 = bit_and-bitwise 0 y in
    let none_above : bit_and 0 (y / 2) ≡ 0 = bit_and-bitwise 0 (y / 2) in omega arith
bit_and_step (suc x) y =
    let half = suc x / 2 in
    let rest : and_within x half (y / 2) ≡ bit_and half (y / 2) =
      spare_fuel x half half (y / 2) (omega arith) (omega arith)
      ∙ sym (bit_and-bitwise half (y / 2)) in
    omega (arith, bit_and-bitwise (suc x) y)

bit_and-zero_below : (bound x : ℕ) → x < bound → bit_and x 0 ≡ 0
bit_and-zero_below zero x below = absurd (omega arith)
bit_and-zero_below (suc bound) zero below = refl
bit_and-zero_below (suc bound) (suc x) below =
    let of_half = bit_and-zero_below bound (suc x / 2) (omega arith) in
    omega (arith, bit_and_step (suc x) 0)

pub bit_and-zero : (x : ℕ) → bit_and x 0 ≡ 0
bit_and-zero x = bit_and-zero_below (suc x) x (omega arith)

pub bit_and-one : (x : ℕ) → bit_and x 1 ≡ x % 2
bit_and-one x = let above = bit_and-zero (x / 2) in omega (arith, bit_and_step x 1)

pow_double : (k : ℕ) → 2 ^ suc k ≡ 2 * 2 ^ k
pow_double k = omega (arith, pow-suc 2 k)

-- The bit of weight `2 ^ k`.
pub bit_and-pow : (k a : ℕ) → bit_and a (2 ^ k) ≡ a / 2 ^ k % 2 * 2 ^ k
bit_and-pow zero a = omega (arith, bit_and-one a)
bit_and-pow (suc k) a =
    let p = 2 ^ k in
    let half : 2 * p / 2 ≡ p = omega arith in
    rw
      (
        pow_double k,
        bit_and_step a (2 * p),
        half,
        bit_and-pow k (a / 2),
        ← div-div-eq-div-mul a 2 p,
      )
      (omega arith)

mod-double : (a p : ℕ) → 1 ≤ p → a % (2 * p) ≡ a / 2 % p * 2 + a % 2
mod-double a p pos =
    let q = a / 2 / p in
    let s = a / 2 % p * 2 + a % 2 in
    let whole : a ≡ 2 * p * q + s = omega (arith, div-add-mod (a / 2) p) in
    let small : s < 2 * p = omega (arith, mod-lt (a / 2) pos) in
    subst (λ x. x % (2 * p) ≡ s) (sym whole)
      (mul-add-mod_self_left (2 * p) q s ∙ mod-eq_of_lt small)

-- A mask of the `k` lowest bits.
pub bit_and-mask : (k a : ℕ) → bit_and a (2 ^ k - 1) ≡ a % 2 ^ k
bit_and-mask zero a = omega (arith, bit_and-zero a)
bit_and-mask (suc k) a =
    let p = 2 ^ k in
    let pos : 1 ≤ p = one-le-pow k 2 (omega arith) in
    let half : (2 * p - 1) / 2 ≡ p - 1 = omega arith in
    rw (pow_double k, bit_and_step a (2 * p - 1), half, bit_and-mask k (a / 2))
      (omega (arith, mod-double a p pos))

pub div-pow-suc : (a k : ℕ) → a / 2 ^ (k + 1) ≡ a / 2 ^ k / 2
div-pow-suc a k = rw (add-one, pow-suc) (sym (div-div-eq-div-mul a (2 ^ k) 2))

-- Masks of two and of three low bits.
pub bit_and-three : (x : ℕ) → bit_and x 3 ≡ x % 4
bit_and-three x = bit_and-mask 2 x

pub bit_and-seven : (x : ℕ) → bit_and x 7 ≡ x % 8
bit_and-seven x = bit_and-mask 3 x
