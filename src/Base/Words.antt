-- ===== src/Base/Words.antt =====
-- Machine integers as native numbers: a `u32` is below 2 ^ 32 and a `usize` below 2 ^ 64, and an
-- operation that can leave the range is followed by `u32` or `usize`, which wrap.
use Prim.Native.Nat.{ℕ, ◌+◌, ◌-◌, ◌*◌, ◌/◌, ◌%◌, ◌^◌, ◌≤◌}
use native.Mathlib.Nat.{le-div_iff_mul-le, one-le-pow, div-mul-le_self, le_trans}
use native.Mathlib.Omega.{arith}
use mmtk_art.Base.Tests.{ltb, if◌then◌else◌}

abbrev pub u16 : ℕ → ℕ
u16 n = n % 2 ^ 16

abbrev pub u32 : ℕ → ℕ
u32 n = n % 2 ^ 32

abbrev pub usize : ℕ → ℕ
usize n = n % 2 ^ 64

abbrev pub usize_max : ℕ
usize_max = 2 ^ 64 - 1

infixl 60 ◌<<<◌ ◌>>>◌
abbrev pub ◌<<<◌ : ℕ → ℕ → ℕ
x <<< k = x * 2 ^ k

abbrev pub ◌>>>◌ : ℕ → ℕ → ℕ
x >>> k = x / 2 ^ k

-- `a - b` of two `usize` values, wrapping.
abbrev pub sub_usize : ℕ → ℕ → ℕ
sub_usize a b = (a + 2 ^ 64 - b) % 2 ^ 64

-- An `i32` is kept as its bit pattern; this is `as usize` and `as isize` of it, which extend the
-- sign.
abbrev pub sign_extend : ℕ → ℕ
sign_extend w = if ltb w (2 ^ 31) then w else w + (2 ^ 64 - 2 ^ 32)

pub shr_mono : (k : ℕ) {a b : ℕ} → a ≤ b → (a >>> k) ≤ (b >>> k)
shr_mono k {a} {b} h =
    (le-div_iff_mul-le (one-le-pow k 2 (omega arith))).1 (le_trans (div-mul-le_self a (2 ^ k)) h)
