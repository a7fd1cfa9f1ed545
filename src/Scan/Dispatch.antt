-- ===== src/Scan/Dispatch.antt =====
-- What `scan_object` of mmtk/src/object_scanning.rs visits for each kind of object, in a build
-- without debug assertions.
use mmtk_art.Base.{
  ℕ, ◌+◌, ◌≡◌, ◌≢◌, bit_and, true, false, [], ◌∷◌, ok, panic, arith, ◌==◌, ◌!=◌, ◌||◌,
  if◌then◌else◌,
}
use mmtk_art.Memory.{load_u32}
use mmtk_art.Runtime.{Runtime}
use mmtk_art.Abi.Flags
use mmtk_art.Abi.Offsets
use mmtk_art.Abi.Class.{
  klass_slot, get_class, deref, as_object, to_object_reference, check_normal_class,
}
use mmtk_art.Abi.Sizes.{check_no_reference_fields, as_class, as_object_array}
use mmtk_art.Scan.{
  Visits, slot, native_roots, referent, dex_cache, class_loader, ◌then_visit◌,
  visit_instance_fields_references, visit_class_references, visit_array_references,
  visit_dex_cache_roots, visit_classes, visit_referent, scan_normal, scan_no_reference_fields,
  scan_class, scan_object_array, scan_reference, scan_dex_cache, scan_class_loader, scan_special,
  scan_object,
}

-- The kinds of objects, by the flags of their class.
pub data Kind : Type 0 where
  normal no_references class_object object_array reference dex_cache_object class_loader_object
        unexpected :
      Kind

unfoldable pub kind_of : ℕ → Kind
kind_of flags =
    if flags == 0 || flags == 0x800
    then normal
    else if bit_and flags 0x1 != 0
    then no_references
    else if flags == 0x10
    then class_object
    else if bit_and flags 0x8 != 0
    then object_array
    else if bit_and flags 0x780 != 0
    then reference
    else if bit_and flags 0x40 != 0
    then dex_cache_object
    else if bit_and flags 0x20 != 0
    then class_loader_object
    else unexpected

module _ (r : Runtime) (release : r.debug_assertions ≡ false) where
  open r use {memory}

  -- What is visited behind the class slot: the instance fields, for the kinds that have any, and
  -- what the kind adds.
  unfoldable pub contents : Kind → (object klass : ℕ) → Visits
  contents normal object klass = visit_instance_fields_references r object klass
  contents no_references object klass = ok []
  contents class_object object klass =
      visit_instance_fields_references r object klass
      then_visit visit_class_references r true object object
  contents object_array object klass = visit_array_references r object
  contents reference object klass =
      visit_instance_fields_references r object klass then_visit ok (referent klass object ∷ [])
  contents dex_cache_object object klass =
      visit_instance_fields_references r object klass
      then_visit ok (native_roots object dex_cache ∷ [])
  contents class_loader_object object klass =
      visit_instance_fields_references r object klass
      then_visit ok (native_roots object class_loader ∷ [])
  contents unexpected object klass = panic

  scan_special_lem :
      (object klass flags : ℕ)
      → klass ≢ 0
      → scan_special r true object klass flags ≡ (
          if flags == Flags.class
          then contents class_object object klass
          else if bit_and flags 0x8 != 0
          then contents object_array object klass
          else if bit_and flags 0x780 != 0
          then contents reference object klass
          else if bit_and flags 0x40 != 0
          then contents dex_cache_object object klass
          else if bit_and flags 0x20 != 0
          then contents class_loader_object object klass
          else panic)
  unfolding scan_special contents scan_class scan_object_array scan_reference scan_dex_cache
      scan_class_loader as_class as_object_array visit_referent to_object_reference
      visit_dex_cache_roots visit_classes
  scan_special_lem object klass flags valid = ground arith

  after_class_slot :
      (object klass flags : ℕ)
      → klass ≢ 0
      → (if flags == Flags.normal || flags == Flags.record_class
          then scan_normal r object klass
          else if bit_and flags Flags.no_reference_fields != 0
          then scan_no_reference_fields r klass
          else scan_special r true object klass flags)
        ≡ contents (kind_of flags) object klass
  unfolding scan_normal scan_no_reference_fields check_normal_class check_no_reference_fields
      kind_of contents
  after_class_slot object klass flags valid =
      ground (arith, scan_special_lem object klass flags valid)

  -- With debug assertions off, scanning an object whose class pointer is not null visits its class
  -- slot first and then the contents of its kind; it panics if the class flags are unexpected.
  pub scan_object_lem :
      (object : ℕ)
      → let klass = load_u32 memory (klass_slot r object) in
        klass ≢ 0
        → scan_object r true object ≡ (
            ok (slot (klass_slot r object) ∷ [])
            then_visit contents
                (kind_of (load_u32 memory (klass + Offsets.class_flags)))
                object
                klass)
  unfolding scan_object get_class deref as_object
  scan_object_lem object valid =
      let klass = load_u32 memory (klass_slot r object) in
      ground
        (arith, after_class_slot object klass (load_u32 memory (klass + Offsets.class_flags)) valid)
