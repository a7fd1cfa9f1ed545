-- ===== src/ObjectModel/Tests.antt =====
-- Copying the array of the small memory.
use mmtk_art.Base.{ℕ, ◌+◌, ◌≤◌, ◌<◌, ◌≡◌, ◌⊎◌, refl, inl, inr, ok, arith}
use mmtk_art.Runtime.Example.{runtime}
use mmtk_art.Memory.{load_u32}
use mmtk_art.Abi.Class.{
  klass_slot, get_class, deref, as_object, is_array_class, get_component_size_shift,
}
use mmtk_art.Abi.Sizes.{get_current_size, get_object_size, array_size_of, as_array, data_offset}
use mmtk_art.ObjectModel.{CopyContext, Copied, copy}
use mmtk_art.ObjectModel.Copy.{copy-get_current_size}

abbrev context : CopyContext
context = record { alloc_copy = λ original bytes align offset semantics. 2048 }

copy-get_current_size_example :
    (c : Copied) × (copy runtime context 640 1 ≡ ok c)
    × (c.object ≡ 2048)
    × (c.post_copied ≡ (2048, 24, 1))
    × ((i : ℕ) → i < 24 → c.memory (c.object + i) ≡ runtime.memory (640 + i))
    × ((a : ℕ) → (a < 2048) ⊎ (2072 ≤ a) → c.memory a ≡ runtime.memory a)
    × (get_current_size (record runtime { memory = c.memory }) c.object ≡ ok 24)
unfolding get_current_size get_object_size array_size_of load_u32 klass_slot as_object get_class
    deref is_array_class as_array get_component_size_shift data_offset
copy-get_current_size_example =
    copy-get_current_size runtime refl context 640 1 24 (omega arith) (omega arith)
      (inr (omega arith))
      (record { from_klass = inr (omega arith); from_component = inr (omega arith) }) (omega arith)
      (inl (omega arith)) refl
