-- ===== src/Buffers/Blocks.antt =====
-- Allocated blocks by their addresses.
use mmtk_art.Base.{
  ℕ, ◌≡◌, refl, Bool, false, ◌||◌, Option, none, some, List, [], ◌∷◌, ◌==◌, if◌then◌else◌, arith,
}

abbrev pub Table {ℓ} : Type ℓ → Type ℓ
Table A = List (ℕ × A)

module _ {ℓ} {A : Type ℓ} where
  unfoldable pub find : ℕ → Table A → Option A
  find p [] = none
  find p ((q, a) ∷ blocks) = if q == p then some a else find p blocks

  unfoldable pub remove : ℕ → Table A → Table A
  remove p [] = []
  remove p ((q, a) ∷ blocks) = if q == p then remove p blocks else (q, a) ∷ remove p blocks

  unfoldable pub has : ℕ → Table A → Bool
  has p [] = false
  has p ((q, a) ∷ blocks) = q == p || has p blocks

  pub find-remove : (p : ℕ) (blocks : Table A) → find p (remove p blocks) ≡ none
  unfolding find remove
  find-remove p [] = refl
  find-remove p ((q, a) ∷ blocks) = ground (arith, find-remove p blocks)

  pub find_of_absent : (p : ℕ) (blocks : Table A) → has p blocks ≡ false → find p blocks ≡ none
  unfolding find has
  find_of_absent p [] absent = refl
  find_of_absent p ((q, a) ∷ blocks) absent = ground (arith, find_of_absent p blocks)

  pub remove_of_absent :
      (p : ℕ) (blocks : Table A) → has p blocks ≡ false → remove p blocks ≡ blocks
  unfolding remove has
  remove_of_absent p [] absent = refl
  remove_of_absent p ((q, a) ∷ blocks) absent = ground (arith, remove_of_absent p blocks)

  -- The block at an address gets another value.
  unfoldable pub modify : ℕ → (A → A) → Table A → Table A
  modify p f [] = []
  modify p f ((q, a) ∷ blocks) = (q, if q == p then f a else a) ∷ modify p f blocks

  pub modify_of_absent :
      (p : ℕ) (f : A → A) (blocks : Table A) → has p blocks ≡ false → modify p f blocks ≡ blocks
  unfolding modify has
  modify_of_absent p f [] absent = refl
  modify_of_absent p f ((q, a) ∷ blocks) absent = ground (arith, modify_of_absent p f blocks)
