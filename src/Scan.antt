-- ===== src/Scan.antt =====
-- Scanning an object for references, mmtk/src/object_scanning.rs. What the code reports to its slot
-- visitor, and the upcalls with which it has ART report more, are a list of visits in order.
pub mod Bitmap
pub mod Elements
pub mod Dispatch
pub mod Statics
pub mod Visitor
mod Tests
use mmtk_art.Base.{
  ℕ, zero, suc, ◌+◌, ◌-◌, ◌*◌, ◌/◌, ◌%◌, ◌^◌, ◌≡◌, refl, bit_and, Bool, true, false, not, List, [],
  ◌∷◌, ◌++◌, Outcome, ok, panic, loops, ◌>>=◌, ◌>>◌, ◌==◌, ◌!=◌, ◌||◌, ltb, if◌then◌else◌, usize,
  u32, sign_extend, Option, none, some,
}
use mmtk_art.Memory.{load_u32}
use mmtk_art.Runtime.{Runtime, debug_assert}
use mmtk_art.Abi.Flags
use mmtk_art.Abi.Offsets
use mmtk_art.Abi.Class.{
  get_class, deref, as_object, to_object_reference, klass_slot, get_field_slot, is_class_class,
  is_string_class, is_dexcache_class, is_classloader_class, is_resolved, is_temp,
  is_instantiable_non_array, is_object_array_class, get_reference_instance_offsets,
  check_normal_class,
}
use mmtk_art.Abi.ClassSize.{get_first_reference_static_fields_offset}
use mmtk_art.Abi.Sizes.{as_class, as_object_array, check_no_reference_fields, offset_of_element}
use mmtk_art.Slots

-- `ArtObjectWithNativeRootsType`, mmtk/src/lib.rs
pub data ArtObjectWithNativeRootsType : Type 0 where
  class dex_cache class_loader : ArtObjectWithNativeRootsType

-- `visit_slot` of the visitor, and the upcalls `scan_object`, `scan_native_roots` and
-- `process_referent`, which call it back.
pub data Visit : Type 0 where
  slot : ℕ → Visit
  scan_object_upcall : (object : ℕ) → Visit
  native_roots : (object : ℕ) → ArtObjectWithNativeRootsType → Visit
  referent : (klass object : ℕ) → Visit

abbrev pub Visits : Type 0
Visits = Outcome (List Visit)

-- One part of a scan after another.
infixr 6 ◌then_visit◌
abbrev pub ◌then_visit◌ : Visits → Visits → Visits
a then_visit b = do xs ← a; ys ← b; ok (xs ++ ys)

-- `forwarding_bits` is what mmtk-core keeps in the header of an object.
unfoldable pub get_forwarding_status : (forwarding_bits : ℕ → ℕ) → (object : ℕ) → ℕ
get_forwarding_status forwarding_bits object = forwarding_bits object

unfoldable pub is_not_forwarded : (forwarding_bits : ℕ → ℕ) → (object : ℕ) → Bool
unfolding get_forwarding_status
is_not_forwarded forwarding_bits object = get_forwarding_status forwarding_bits object == 0b00

-- Fuel for the loop over the bits of a word, one more than there are.
abbrev pub word_fuel : ℕ
word_fuel = 33

module _ (r : Runtime) where
  open r use {memory}

  -- `visit_slot`: a slot that holds a reference.
  unfoldable pub visit_slot : ℕ → List Visit
  visit_slot s = elim (Slots.load memory s) [ none ↦ [] | some object ↦ slot s ∷ [] ]

  -- The closure `visit_one_word` of `visit_instance_fields_references`.
  unfoldable pub visit_one_word : ℕ → (object field_offset ref_offsets : ℕ) → Visits
  visit_one_word zero object field_offset ref_offsets = loops
  visit_one_word (suc fuel) object field_offset ref_offsets =
      let here =
        if bit_and ref_offsets 0b1 != 0
        then visit_slot (get_field_slot r object field_offset)
        else [] in
      let rest =
        visit_one_word fuel object (u32 (field_offset + Offsets.art_heap_reference_size))
          (ref_offsets / 2) in
      if ref_offsets != 0 then (ok here then_visit rest) else ok []

  -- The loop over the words of an overflow bitmap, from word `i` on.
  unfoldable pub visit_words : (words : ℕ) → (i object bitmap : ℕ) → Visits
  visit_words zero i object bitmap = ok []
  visit_words (suc words) i object bitmap =
      visit_one_word word_fuel object
        (u32 (Offsets.object_header_size + i * Offsets.art_heap_reference_size * 32))
        (load_u32 memory (usize (bitmap + 4 * i)))
      then_visit visit_words words (i + 1) object bitmap

  unfoldable pub visit_instance_fields_references : (object klass : ℕ) → Visits
  visit_instance_fields_references object klass = do
    ref_offsets ← get_reference_instance_offsets r klass
    debug_assert r (ok (ref_offsets != 0))
    let slowpath = bit_and ref_offsets Flags.visit_references_slowpath_mask != 0
    let bitmap_num_words = bit_and ref_offsets (2 ^ 32 - 1 - Flags.visit_references_slowpath_mask)
    let class_size = load_u32 memory (klass + Offsets.class_size)
    let overflow_bitmap = usize (usize (klass + class_size) + 2 ^ 64 - u32 (bitmap_num_words * 4))
    if slowpath
        then visit_words bitmap_num_words 0 object overflow_bitmap
        else visit_one_word word_fuel object Offsets.object_header_size ref_offsets

  -- The loop of `visit_static_fields_references`.
  unfoldable pub visit_static_fields : (fields : ℕ) → (klass field_offset : ℕ) → Visits
  visit_static_fields zero klass field_offset = ok []
  visit_static_fields (suc fields) klass field_offset =
      (do
        debug_assert r (ok (field_offset != Offsets.klass))
        ok (visit_slot (get_field_slot r klass (u32 field_offset))))
      then_visit visit_static_fields fields klass
          (usize (field_offset + Offsets.art_heap_reference_size))

  unfoldable pub visit_static_fields_references : ℕ → Visits
  visit_static_fields_references klass = do
    debug_assert r (do t ← is_temp r klass; ok (not t))
    debug_assert r (is_resolved r klass)
    let num_reference_fields = load_u32 memory (klass + Offsets.num_reference_static_fields)
    let visit = get_first_reference_static_fields_offset r klass >>= λ field_offset.
        visit_static_fields num_reference_fields klass field_offset
    if ltb 0 num_reference_fields then visit else ok []

  -- `Class::visit_references`
  unfoldable pub visit_class_references : (visit_native_roots : Bool) → (klass object : ℕ) → Visits
  visit_class_references visit_native_roots klass object =
      (do
        resolved ← is_resolved r klass
        let static = visit_static_fields_references klass
        if resolved then static else ok [])
      then_visit ok (if visit_native_roots then native_roots object class ∷ [] else [])

  -- `ObjectArray::visit_references`, from element `i` on.
  unfoldable pub visit_elements : (elements : ℕ) → (i array : ℕ) → Visits
  visit_elements zero i array = ok []
  visit_elements (suc elements) i array =
      (do offset ← offset_of_element r i; ok (visit_slot (get_field_slot r array (u32 offset))))
      then_visit visit_elements elements (i + 1) array

  unfoldable pub visit_array_references : ℕ → Visits
  visit_array_references array =
      visit_elements (sign_extend (load_u32 memory (array + Offsets.length))) 0 array

  -- `Reference::visit_referent`
  unfoldable pub visit_referent : (object klass : ℕ) → Visits
  visit_referent object klass = do
    klass_object ← to_object_reference r klass
    ok (referent klass_object object ∷ [])

  unfoldable pub visit_dex_cache_roots : ℕ → Visits
  visit_dex_cache_roots object = ok (native_roots object dex_cache ∷ [])

  unfoldable pub visit_classes : ℕ → Visits
  visit_classes object = ok (native_roots object class_loader ∷ [])

  -- The branches of `scan_object`, after the class slot.
  unfoldable pub scan_normal : (object klass : ℕ) → Visits
  scan_normal object klass = do
    check_normal_class r klass
    debug_assert r (is_instantiable_non_array r klass)
    visit_instance_fields_references object klass

  unfoldable pub scan_no_reference_fields : ℕ → Visits
  scan_no_reference_fields klass = do check_no_reference_fields r klass; ok []

  unfoldable pub scan_class : (visit_native_roots : Bool) → (object klass : ℕ) → Visits
  scan_class visit_native_roots object klass = do
    debug_assert r (is_class_class r klass)
    debug_assert r (is_instantiable_non_array r klass)
    visit_instance_fields_references object klass
        then_visit (as_class r object >>= λ as_klass.
            visit_class_references visit_native_roots as_klass object)

  unfoldable pub scan_object_array : (object klass : ℕ) → Visits
  scan_object_array object klass = do
    debug_assert r (is_object_array_class r klass)
    array ← as_object_array r object
    visit_array_references array

  unfoldable pub scan_reference : (object klass : ℕ) → Visits
  scan_reference object klass = do
    debug_assert r (is_instantiable_non_array r klass)
    visit_instance_fields_references object klass then_visit visit_referent object klass

  unfoldable pub scan_dex_cache : (visit_native_roots : Bool) → (object klass : ℕ) → Visits
  scan_dex_cache visit_native_roots object klass = do
    debug_assert r (is_instantiable_non_array r klass)
    debug_assert r (ok (is_dexcache_class r klass))
    visit_instance_fields_references object klass
        then_visit (if visit_native_roots then visit_dex_cache_roots object else ok [])

  unfoldable pub scan_class_loader : (visit_native_roots : Bool) → (object klass : ℕ) → Visits
  scan_class_loader visit_native_roots object klass = do
    debug_assert r (is_instantiable_non_array r klass)
    debug_assert r (ok (is_classloader_class r klass))
    visit_instance_fields_references object klass
        then_visit (if visit_native_roots then visit_classes object else ok [])

  -- The tests of `scan_object` from `java.lang.Class` on, which see no string any more.
  unfoldable pub scan_special :
      (visit_native_roots : Bool) → (object klass class_flags : ℕ) → Visits
  scan_special visit_native_roots object klass class_flags = do
    debug_assert r (ok (not (is_string_class r klass)))
    if class_flags == Flags.class
        then scan_class visit_native_roots object klass
        else if bit_and class_flags Flags.object_array != 0
        then scan_object_array object klass
        else if bit_and class_flags Flags.reference != 0
        then scan_reference object klass
        else if bit_and class_flags Flags.dex_cache != 0
        then scan_dex_cache visit_native_roots object klass
        else if bit_and class_flags Flags.class_loader != 0
        then scan_class_loader visit_native_roots object klass
        else panic

  unfoldable pub scan_object : (visit_native_roots : Bool) → ℕ → Visits
  scan_object visit_native_roots object = do
    obj ← as_object r object
    klass_reference ← get_class r obj
    klass ← deref r klass_reference
    let class_flags = load_u32 memory (klass + Offsets.class_flags)
    ok (slot (klass_slot r obj) ∷ [])
        then_visit (if class_flags == Flags.normal || class_flags == Flags.record_class
            then scan_normal obj klass
            else if bit_and class_flags Flags.no_reference_fields != 0
            then scan_no_reference_fields klass
            else scan_special visit_native_roots obj klass class_flags)

  -- `ArtScanning::scan_object`, mmtk/src/scanning.rs, with the feature `simple_scan_object` or
  -- without.
  unfoldable pub scan_object_with_features :
      (simple_scan_object : Bool) → (forwarding_bits : ℕ → ℕ) → (object : ℕ) → Visits
  unfolding is_not_forwarded
  scan_object_with_features simple_scan_object forwarding_bits object = do
    debug_assert r (ok (is_not_forwarded forwarding_bits object))
    if simple_scan_object then ok (scan_object_upcall object ∷ []) else scan_object true object
