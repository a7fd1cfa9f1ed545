-- ===== src/Base/Panics.antt =====
-- What a Rust function that can panic, or whose unsafe code can be undefined, returns.
use mathlib.Core.Bool.{Bool, true, false}
use mathlib.Core.Option.{Option, none, some}

pub data Outcome {ℓ} (A : Type ℓ) : Type ℓ where
  ok : A → Outcome A
  panic : Outcome A
  -- a loop that has not ended within its fuel
  loops : Outcome A
  -- a null pointer that is dereferenced
  undefined : Outcome A

infixl 5 ◌>>=◌ ◌>>◌
abbrev pub ◌>>=◌ {ℓ κ} : {A : Type ℓ} {B : Type κ} → Outcome A → (A → Outcome B) → Outcome B
ok a >>= f = f a
panic >>= f = panic
loops >>= f = loops
undefined >>= f = undefined

abbrev pub ◌>>◌ {ℓ} : {B : Type ℓ} → Outcome (Unit {0}) → Outcome B → Outcome B
m >> k = m >>= λ _. k

-- `assert!`
abbrev pub assert : Bool → Outcome (Unit {0})
assert true = ok tt
assert false = panic

-- `Option::unwrap`
abbrev pub unwrap {ℓ} : {A : Type ℓ} → Option A → Outcome A
unwrap (some a) = ok a
unwrap none = panic
