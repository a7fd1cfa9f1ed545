-- ===== src/Abi/Casts.antt =====
-- The casts between the mirrors of ART's objects, mmtk/src/abi.rs, apart from those to classes,
-- arrays and strings, which `Abi.Sizes` has. A Rust reference is an address.
use mmtk_art.Base.{ℕ, Outcome, ok, ◌>>=◌, ◌>>◌, ◌!=◌, leb, ◌-◌, ◌^◌}
use mmtk_art.Memory.{load_u32}
use mmtk_art.Runtime.{Runtime, debug_assert}
use mmtk_art.Abi.Offsets
use mmtk_art.Abi.Class.{
  get_class, deref, is_type_of_reference_class, is_dexcache_class, is_classloader_class,
  get_component_size_shift,
}

-- `Object::class_offset`
unfoldable pub class_offset : ℕ
class_offset = Offsets.klass

-- `ObjectReference::from(&Object)`
unfoldable pub object_reference : ℕ → ℕ
object_reference o = o

-- `<&Object>::from` of the mirrors
unfoldable pub class_as_object : ℕ → ℕ
class_as_object c = c

unfoldable pub array_as_object : ℕ → ℕ
array_as_object a = a

unfoldable pub object_array_as_object : ℕ → ℕ
object_array_as_object o = o

unfoldable pub string_as_object : ℕ → ℕ
string_as_object s = s

unfoldable pub reference_as_object : ℕ → ℕ
reference_as_object r = r

unfoldable pub dex_cache_as_object : ℕ → ℕ
dex_cache_as_object d = d

unfoldable pub class_loader_as_object : ℕ → ℕ
class_loader_as_object cl = cl

-- `<&ArtHeapReference<Class>>::from(&Class)`: the address of a reference.
unfoldable pub class_as_heap_reference : ℕ → ℕ
class_as_heap_reference c = c

module _ (r : Runtime) where
  open r use {memory}

  -- `<&ArtHeapReference<T>>::from(ObjectReference)`: the address of a reference.
  unfoldable pub object_as_heap_reference : ℕ → Outcome ℕ
  object_as_heap_reference o = do debug_assert r (ok (leb o (2 ^ 32 - 1))); ok o

  -- `<&Class>::from(&ArtHeapReference<Class>)`, of the address of a reference.
  unfoldable pub heap_reference_as_class : ℕ → Outcome ℕ
  heap_reference_as_class c = do debug_assert r (ok (load_u32 memory c != 0)); ok c

  unfoldable pub as_reference : ℕ → Outcome ℕ
  as_reference o = do
    debug_assert r
        (do klass ← get_class r o; c ← deref r klass; ok (is_type_of_reference_class r c))
    ok o

  unfoldable pub as_dex_cache : ℕ → Outcome ℕ
  as_dex_cache o = do
    debug_assert r (do klass ← get_class r o; c ← deref r klass; ok (is_dexcache_class r c))
    ok o

  unfoldable pub as_class_loader : ℕ → Outcome ℕ
  as_class_loader o = do
    debug_assert r (do klass ← get_class r o; c ← deref r klass; ok (is_classloader_class r c))
    ok o

  -- `Array::get_component_size_shift`
  unfoldable pub get_array_component_size_shift : ℕ → Outcome ℕ
  unfolding get_class deref get_component_size_shift
  get_array_component_size_shift array = do
    klass ← get_class r array
    c ← deref r klass
    get_component_size_shift r c
