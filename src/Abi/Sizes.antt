-- ===== src/Abi/Sizes.antt =====
-- The sizes of objects, mmtk/src/abi.rs, with the walk up the superclasses of debug builds.
use mmtk_art.Base.{
  ℕ, zero, suc, ◌+◌, ◌-◌, ◌*◌, ◌/◌, ◌%◌, ◌^◌, bit_and, Bool, not, ◌&&◌, Outcome, ok, loops, ◌>>=◌,
  ◌>>◌, assert, ◌==◌, ◌!=◌, ltb, leb, if◌then◌else◌, usize, sign_extend,
}
use mmtk_art.Memory.{load_u32}
use mmtk_art.Runtime.{Runtime, debug_assert}
use mmtk_art.Abi.Offsets
use mmtk_art.Abi.Class.{
  get_class, deref, as_object, is_class_class, is_string_class, is_array_class,
  is_object_array_class, get_component_size_shift, get_class_object_size,
}

-- `Art::MIN_ALIGNMENT`, mmtk/src/lib.rs
abbrev pub min_alignment : ℕ
min_alignment = 8

-- `usize::is_power_of_two`
abbrev pub is_power_of_two : ℕ → Bool
is_power_of_two n = n != 0 && bit_and n (n - 1) == 0

module _ (r : Runtime) where
  open r use {memory, conversions, super_fuel}
  open conversions use {raw_align_up}

  -- The loop of `check_no_reference_fields`; `total` counts the reference fields so far.
  unfoldable pub count_reference_fields : ℕ → ℕ → ℕ → Outcome ℕ
  count_reference_fields zero klass total = loops
  count_reference_fields (suc fuel) klass total =
      let total' =
        usize (total + load_u32 memory (klass + Offsets.num_reference_instance_fields)) in
      let super_class = load_u32 memory (klass + Offsets.super_class) in
      let rest = (deref r super_class >>= λ super. count_reference_fields fuel super total') in
      if super_class == 0 then ok total' else rest

  -- `Class::check_no_reference_fields`
  unfoldable pub check_no_reference_fields : ℕ → Outcome (Unit {0})
  check_no_reference_fields klass = do
    debug_assert r (do c ← is_class_class r klass; ok (not c))
    debug_assert r (do a ← is_object_array_class r klass; ok (not a))
    let walk = count_reference_fields super_fuel klass 0 >>= λ total. assert (total == 1)
    if r.debug_assertions && not (is_string_class r klass) then walk else ok tt

  -- `<&Array>::from(&Object)` and `<&ArtString>::from(&Object)`
  unfoldable pub as_array : ℕ → Outcome ℕ
  as_array o = do
    debug_assert r (do klass ← get_class r o; c ← deref r klass; ok (is_array_class r c))
    ok o

  unfoldable pub as_string : ℕ → Outcome ℕ
  as_string o = do
    debug_assert r (do klass ← get_class r o; c ← deref r klass; ok (is_string_class r c))
    ok o

  -- `<&Class>::from(&Object)` and `<&ObjectArray<T>>::from(&Object)`
  unfoldable pub as_class : ℕ → Outcome ℕ
  as_class o = do
    debug_assert r (do klass ← get_class r o; c ← deref r klass; is_class_class r c)
    ok o

  unfoldable pub as_object_array : ℕ → Outcome ℕ
  as_object_array o = do
    debug_assert r (do klass ← get_class r o; c ← deref r klass; is_object_array_class r c)
    ok o

  -- `Array::data_offset`
  unfoldable pub data_offset : ℕ → Outcome ℕ
  data_offset component_size = do
    debug_assert r (ok (is_power_of_two component_size))
    let offset = raw_align_up Offsets.first_element component_size
    debug_assert r (ok (raw_align_up offset component_size == offset))
    ok offset

  -- `Array::size_of`; the amount of a shift is taken modulo the width.
  unfoldable pub array_size_of : ℕ → Outcome ℕ
  array_size_of array = do
    klass ← get_class r array
    c ← deref r klass
    shift ← get_component_size_shift r c
    let component_count = sign_extend (load_u32 memory (array + Offsets.length))
    header_size ← data_offset (usize (2 ^ (shift % 64)))
    let data_size = usize (component_count * 2 ^ (shift % 64))
    ok (usize (header_size + data_size))

  -- `ObjectArray::offset_of_element`
  unfoldable pub offset_of_element : ℕ → Outcome ℕ
  offset_of_element index = do
    start ← data_offset Offsets.art_heap_reference_size
    ok (usize (start + usize (index * Offsets.art_heap_reference_size)))

  -- `ArtString`: the count holds the length above one bit that is clear in a compressed string.
  unfoldable pub is_compressed : ℕ → Bool
  is_compressed string = bit_and (load_u32 memory (string + Offsets.count)) 1 == 0

  unfoldable pub get_length : ℕ → ℕ
  get_length string =
      let count = load_u32 memory (string + Offsets.count) in
      if ltb count (2 ^ 31) then count / 2 else count / 2 + 2 ^ 31

  unfoldable pub string_size_of : ℕ → ℕ
  string_size_of string =
      let length = sign_extend (get_length string) in
      let size =
        if is_compressed string
        then usize (Offsets.string_bytes + length)
        else usize (Offsets.string_bytes + usize (2 * length)) in
      raw_align_up size min_alignment

  -- `get_object_size`
  unfoldable pub get_object_size : ℕ → Outcome ℕ
  get_object_size object = do
    o ← as_object r object
    k ← get_class r o
    klass ← deref r k
    let of_array = as_array o >>= λ a. array_size_of a
    let of_class = as_class o >>= λ c. ok (load_u32 memory (c + Offsets.class_size))
    let of_string = as_string o >>= λ s. ok (string_size_of s)
    let of_other = is_class_class r klass >>= λ class_class.
        if class_class
        then of_class
        else if is_string_class r klass
        then of_string
        else get_class_object_size r klass
    result ← (if is_array_class r klass then of_array else of_other)
    debug_assert r (ok (leb Offsets.object_header_size result))
    ok result

  -- `ArtObjectModel::get_current_size`, mmtk/src/object_model.rs
  unfoldable pub get_current_size : ℕ → Outcome ℕ
  get_current_size object = do size ← get_object_size object; ok (raw_align_up size min_alignment)
