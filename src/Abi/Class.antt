-- ===== src/Abi/Class.antt =====
-- `Object`, `Class` and `ArtHeapReference` of mmtk/src/abi.rs: what a class says of itself. An
-- object is its address, and a reference is its `u32`, 0 for `None`.
use mmtk_art.Base.{
  ℕ, ◌+◌, ◌-◌, bit_and, Bool, true, false, not, ◌&&◌, ◌||◌, Outcome, ok, panic, ◌>>=◌, ◌>>◌, ◌==◌,
  ◌!=◌, if◌then◌else◌, usize, sign_extend, ◌>>>◌,
}
use mmtk_art.Memory.{load_u32}
use mmtk_art.Runtime.{Runtime, debug_assert}
use mmtk_art.Abi.Flags
use mmtk_art.Abi.Offsets
use mmtk_art.Abi.Primitive
use mmtk_art.Abi.Primitive.{ArtPrimitive}
use mmtk_art.Abi.Status
use mmtk_art.Abi.Status.{ClassStatus, status_lt, status_ge, status_eq}

module _ (r : Runtime) where
  open r use {memory, is_valid_object, conversions, super_fuel}
  open conversions use {raw_align_up, raw_is_aligned}

  -- `ObjectReference::from(&ArtHeapReference<T>)`
  unfoldable pub to_object_reference : ℕ → Outcome ℕ
  to_object_reference reference = do
    debug_assert r (ok (reference != 0))
    if reference == 0 then panic else ok reference

  -- `ArtHeapReference<T>::deref`
  unfoldable pub deref : ℕ → Outcome ℕ
  unfolding to_object_reference
  deref reference = do
    debug_assert r (ok (reference != 0))
    debug_assert r (do o ← to_object_reference reference; ok (is_valid_object o))
    if reference == 0 then panic else ok reference

  -- `<&Object>::from(ObjectReference)`
  unfoldable pub as_object : ℕ → Outcome ℕ
  as_object o = do debug_assert r (ok (is_valid_object o)); ok o

  unfoldable pub get_field_address : ℕ → ℕ → ℕ
  get_field_address o offset = usize (o + sign_extend offset)

  unfoldable pub get_field_slot : ℕ → ℕ → ℕ
  unfolding get_field_address
  get_field_slot o offset = get_field_address o offset

  unfoldable pub klass_slot : ℕ → ℕ
  unfolding get_field_slot
  klass_slot o = get_field_slot o Offsets.klass

  -- `Object::get_class`
  unfoldable pub get_class : ℕ → Outcome ℕ
  unfolding klass_slot
  get_class o = do debug_assert r (ok (is_valid_object o)); ok (load_u32 memory (klass_slot o))

  abbrev field : ℕ → ℕ → ℕ
  field klass offset = load_u32 memory (klass + offset)

  unfoldable pub is_class_class : ℕ → Outcome Bool
  unfolding get_class
  is_class_class klass = do java_lang_class ← get_class klass; ok (klass == java_lang_class)

  unfoldable pub is_string_class : ℕ → Bool
  is_string_class klass = bit_and (field klass Offsets.class_flags) Flags.string != 0

  unfoldable pub is_classloader_class : ℕ → Bool
  is_classloader_class klass = bit_and (field klass Offsets.class_flags) Flags.class_loader != 0

  unfoldable pub is_dexcache_class : ℕ → Bool
  is_dexcache_class klass = bit_and (field klass Offsets.class_flags) Flags.dex_cache != 0

  unfoldable pub is_type_of_reference_class : ℕ → Bool
  is_type_of_reference_class klass = bit_and (field klass Offsets.class_flags) Flags.reference != 0

  unfoldable pub is_array_class : ℕ → Bool
  is_array_class klass = field klass Offsets.component_type != 0

  unfoldable pub is_abstract : ℕ → Bool
  is_abstract klass = bit_and (field klass Offsets.access_flags) Flags.acc_abstract != 0

  unfoldable pub is_interface : ℕ → Bool
  is_interface klass = bit_and (field klass Offsets.access_flags) Flags.acc_interface != 0

  unfoldable pub get_primitive_type : ℕ → Outcome ArtPrimitive
  get_primitive_type klass = do
    let word = field klass Offsets.primitive_type
    type ← Primitive.from_u32 (bit_and word Flags.primitive_type_mask)
    debug_assert r (
        ok
          ((word >>> Flags.primitive_type_size_shift_shift) == Primitive.component_size_shift type))
    ok type

  unfoldable pub get_primitive_type_size_shift : ℕ → Outcome ℕ
  get_primitive_type_size_shift klass = do
    let word = field klass Offsets.primitive_type
    let size_shift = word >>> Flags.primitive_type_size_shift_shift
    debug_assert r (do
      type ← Primitive.from_u32 (bit_and word Flags.primitive_type_mask)
      ok (size_shift == Primitive.component_size_shift type))
    ok size_shift

  unfoldable pub get_component_size_shift : ℕ → Outcome ℕ
  unfolding deref get_primitive_type_size_shift
  get_component_size_shift klass = do
    component ← deref (field klass Offsets.component_type)
    get_primitive_type_size_shift component

  unfoldable pub is_primitive : ℕ → Outcome Bool
  unfolding get_primitive_type
  is_primitive klass = do type ← get_primitive_type klass; ok (not (Primitive.as_u32 type == 0))

  unfoldable pub is_object_array_class : ℕ → Outcome Bool
  unfolding deref is_primitive
  is_object_array_class klass =
      let component_type = field klass Offsets.component_type in
      let primitive = (deref component_type >>= λ component. is_primitive component) in
      if component_type != 0 then (do p ← primitive; ok (not p)) else ok false

  unfoldable pub is_variable_size : ℕ → Outcome Bool
  unfolding is_class_class is_array_class is_string_class
  is_variable_size klass = do
    class_class ← is_class_class klass
    ok (class_class || is_array_class klass || is_string_class klass)

  unfoldable pub is_instantiable : ℕ → Outcome Bool
  unfolding is_primitive is_interface is_abstract is_array_class
  is_instantiable klass = do
    primitive ← is_primitive klass
    ok (
        (not primitive && not (is_interface klass) && not (is_abstract klass))
        || (is_abstract klass && is_array_class klass))

  unfoldable pub should_have_embedded_vtable : ℕ → Outcome Bool
  unfolding is_instantiable
  should_have_embedded_vtable klass = is_instantiable klass

  unfoldable pub is_instantiable_non_array : ℕ → Outcome Bool
  unfolding is_primitive is_interface is_abstract is_array_class
  is_instantiable_non_array klass = do
    primitive ← is_primitive klass
    ok (
        not primitive
        && not (is_interface klass)
        && not (is_abstract klass)
        && not (is_array_class klass))

  unfoldable pub get_status : ℕ → Outcome ClassStatus
  unfolding get_field_address
  get_status klass =
      Status.from_u32 (load_u32 memory (get_field_address klass Offsets.status) >>> (32 - 4))

  unfoldable pub is_temp : ℕ → Outcome Bool
  unfolding get_status should_have_embedded_vtable
  is_temp klass = do
    status ← get_status klass
    let unresolved =
        status_lt status ClassStatus.resolving && not (status_eq status ClassStatus.error_resolved)
    if unresolved then should_have_embedded_vtable klass else ok false

  unfoldable pub is_resolved : ℕ → Outcome Bool
  unfolding get_status
  is_resolved klass = do
    status ← get_status klass
    ok (status_ge status ClassStatus.resolved || status_eq status ClassStatus.error_resolved)

  unfoldable pub is_erroneous : ℕ → Outcome Bool
  unfolding get_status
  is_erroneous klass = do
    status ← get_status klass
    ok (
        status_eq status ClassStatus.error_resolved
        || status_eq status ClassStatus.error_unresolved)

  unfoldable pub get_reference_instance_offsets : ℕ → Outcome ℕ
  unfolding is_resolved is_erroneous
  get_reference_instance_offsets klass = do
    debug_assert r (do
      resolved ← is_resolved klass
      let erroneous = is_erroneous klass
      if resolved then ok true else erroneous)
    ok (field klass Offsets.reference_instance_offsets)

  unfoldable pub get_embedded_vtable_length : ℕ → ℕ
  unfolding get_field_address
  get_embedded_vtable_length klass = load_u32 memory (get_field_address klass Offsets.class_bytes)

  -- `Class::get_object_size`
  unfoldable pub get_class_object_size : ℕ → Outcome ℕ
  unfolding is_variable_size
  get_class_object_size klass = do
    debug_assert r (do v ← is_variable_size klass; ok (not v))
    ok (field klass Offsets.object_size)

  -- `Class::check_normal_class`
  unfoldable pub check_normal_class : ℕ → Outcome (Unit {0})
  unfolding is_variable_size is_class_class is_string_class is_classloader_class is_array_class
  check_normal_class klass = do
    debug_assert r (do v ← is_variable_size klass; ok (not v))
    debug_assert r (do c ← is_class_class klass; ok (not c))
    debug_assert r (ok (not (is_string_class klass)))
    debug_assert r (ok (not (is_classloader_class klass)))
    debug_assert r (ok (not (is_array_class klass)))
