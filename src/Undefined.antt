-- ===== src/Undefined.antt =====
-- What using memory comes to, where the program does not check it.
pub data Run {ℓ} (A : Type ℓ) : Type ℓ where
  done : A → Run A
  undefined : Run A

infixl 5 ◌>>=◌
abbrev pub ◌>>=◌ {ℓ κ} : {A : Type ℓ} {B : Type κ} → Run A → (A → Run B) → Run B
done a >>= f = f a
undefined >>= f = undefined
