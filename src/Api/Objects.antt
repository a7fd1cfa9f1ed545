-- ===== src/Api/Objects.antt =====
-- Questions about objects, and the calls of `memory_manager` that need no state of the binding:
-- mmtk/src/api.rs. A null object is `none`.
use mmtk_art.Base.{ℕ, Bool, false, not, Option, none, some, ◌==◌}

-- What mmtk-core says of an object.
pub record Heap : Type 0 where
  pub is_in_mmtk_spaces : ℕ → Bool
  pub is_reachable : ℕ → Bool
  pub is_live : ℕ → Bool
  pub is_movable : ℕ → Bool
  pub get_potential_forwarded_object : ℕ → ℕ
  pub get_forwarded_object : ℕ → Option ℕ
  pub pin_object : ℕ → Bool
  pub is_pinned : ℕ → Bool
  pub starting_heap_address : ℕ
  pub last_heap_address : ℕ

abbrev or_false : (ℕ → Bool) → Option ℕ → Bool
or_false test none = false
or_false test (some object) = test object

module _ (heap : Heap) where
  unfoldable pub mmtk_is_object_in_heap_space : Option ℕ → Bool
  mmtk_is_object_in_heap_space object = or_false heap.is_in_mmtk_spaces object

  unfoldable pub mmtk_is_object_marked : Option ℕ → Bool
  mmtk_is_object_marked object = or_false heap.is_reachable object

  unfoldable pub mmtk_is_object_live : Option ℕ → Bool
  mmtk_is_object_live object = or_false heap.is_live object

  unfoldable pub mmtk_is_object_movable : Option ℕ → Bool
  mmtk_is_object_movable object = or_false heap.is_movable object

  unfoldable pub mmtk_is_object_forwarded : Option ℕ → Bool
  mmtk_is_object_forwarded object =
      or_false (λ o. not (heap.get_potential_forwarded_object o == 0)) object

  unfoldable pub mmtk_get_forwarded_object : Option ℕ → Option ℕ
  mmtk_get_forwarded_object none = none
  mmtk_get_forwarded_object (some object) = heap.get_forwarded_object object

  unfoldable pub mmtk_pin_object : ℕ → Bool
  mmtk_pin_object object = heap.pin_object object

  unfoldable pub mmtk_is_object_pinned : ℕ → Bool
  mmtk_is_object_pinned object = heap.is_pinned object

  unfoldable pub mmtk_get_heap_start : ℕ
  mmtk_get_heap_start = heap.starting_heap_address

  unfoldable pub mmtk_get_heap_end : ℕ
  mmtk_get_heap_end = heap.last_heap_address
