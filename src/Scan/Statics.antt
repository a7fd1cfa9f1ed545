-- ===== src/Scan/Statics.antt =====
-- The reference statics of a class: `visit_static_fields_references` of
-- mmtk/src/object_scanning.rs with the class sizes of mmtk/src/abi.rs.
use mmtk_art.Base.{
  ℕ, ◌+◌, ◌*◌, ◌<◌, ◌^◌, ◌≡◌, ◌⊎◌, Bool, true, false, ok, arith, concat_map, range_from, ◌==◌,
  if◌then◌else◌,
}
use mmtk_art.Memory.{load_u32, load_u32-lt}
use mmtk_art.Runtime.{Runtime}
use mmtk_art.Abi.Offsets
use mmtk_art.Abi.Class.{should_have_embedded_vtable, get_embedded_vtable_length}
use mmtk_art.Abi.ClassSize.{get_first_reference_static_fields_offset}
use mmtk_art.Abi.ClassSize.Room.{static_fields_offset}
use mmtk_art.Scan.{visit_static_fields_references}
use mmtk_art.Scan.Elements.{static_at, visit_static_fields_lem}

module _ (r : Runtime) where
  -- Where the statics begin: behind the class, or behind its embedded vtable.
  abbrev pub first_static : (embedded : Bool) (klass : ℕ) → ℕ
  first_static false klass = Offsets.class_bytes
  first_static true klass =
      if r.pointer_size == 4
      then 128 + 4 * get_embedded_vtable_length r klass
      else 136 + 8 * get_embedded_vtable_length r klass

  get_embedded_vtable_length-lt : (klass : ℕ) → get_embedded_vtable_length r klass < 2 ^ 32
  unfolding get_embedded_vtable_length
  get_embedded_vtable_length-lt klass = load_u32-lt r.memory _

  offset_lem :
      (embedded : Bool) (klass : ℕ)
      → r.debug_assertions ≡ false
      → (r.pointer_size ≡ 4) ⊎ (r.pointer_size ≡ 8)
      → should_have_embedded_vtable r klass ≡ ok embedded
      → get_first_reference_static_fields_offset r klass ≡ ok (first_static embedded klass)
  unfolding get_first_reference_static_fields_offset
  offset_lem false klass release pointer e = ground arith
  offset_lem true klass release pointer e = ground (
    arith,
    static_fields_offset r.conversions (get_embedded_vtable_length r klass) r.pointer_size
        (get_embedded_vtable_length-lt klass) pointer,
  )

  first_static-positive : (embedded : Bool) (klass : ℕ) → 0 < first_static embedded klass
  first_static-positive false klass = omega arith
  first_static-positive true klass = ground arith

  -- Without debug assertions, the reference statics of a class below 4 GB that end below 2 ^ 31
  -- bytes are visited, all that are not null and in order: they begin behind the class, and, if the
  -- class has one, behind the embedded vtable, whose entries are pointers of 4 or 8 bytes.
  pub visit_static_fields_references_lem :
      (embedded : Bool) (klass : ℕ)
      → r.debug_assertions ≡ false
      → (r.pointer_size ≡ 4) ⊎ (r.pointer_size ≡ 8)
      → should_have_embedded_vtable r klass ≡ ok embedded
      → klass < 2 ^ 32
      → let fields = load_u32 r.memory (klass + Offsets.num_reference_static_fields) in
        first_static embedded klass + 4 * fields < 2 ^ 31
        → visit_static_fields_references r klass
          ≡ ok (concat_map (static_at r klass (first_static embedded klass)) (range_from 0 fields))
  unfolding visit_static_fields_references
  visit_static_fields_references_lem embedded klass release pointer e small fits = ground (
    arith,
    first_static-positive embedded klass,
    offset_lem embedded klass release pointer e,
    visit_static_fields_lem r (load_u32 r.memory (klass + Offsets.num_reference_static_fields))
        klass (first_static embedded klass) small,
  )
