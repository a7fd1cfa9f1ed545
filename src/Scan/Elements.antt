-- ===== src/Scan/Elements.antt =====
-- Elements of object arrays and static fields of classes, mmtk/src/object_scanning.rs.
use mmtk_art.Base.{
  ℕ, zero, suc, ◌+◌, ◌*◌, ◌≤◌, ◌<◌, ◌^◌, ◌≡◌, refl, List, concat_map, range_from, ok, arith, u32,
  usize,
}
use mmtk_art.Memory.{load_u32}
use mmtk_art.Runtime.{Runtime}
use mmtk_art.Abi.Offsets
use mmtk_art.Abi.Class.{get_field_slot}
use mmtk_art.Abi.Sizes.{data_offset, offset_of_element}
use mmtk_art.Scan.{Visit, visit_slot, visit_elements, visit_array_references, visit_static_fields}

module _ (r : Runtime) where
  open r use {memory, conversions}

  aligned_twelve : conversions.raw_align_up 12 4 ≡ 12
  aligned_twelve = omega (
    arith,
    conversions.le-raw_align_up 12 4 (omega arith),
    conversions.raw_align_up-lt 12 4 (omega arith),
    conversions.raw_align_up-aligned 12 4 (omega arith),
  )

  offset_of_element_lem : (i : ℕ) → i < 2 ^ 32 → offset_of_element r i ≡ ok (12 + 4 * i)
  unfolding offset_of_element data_offset
  offset_of_element_lem i small = ground (arith, aligned_twelve)

  field_slot_lem :
      (o offset : ℕ) → o < 2 ^ 32 → offset < 2 ^ 31 → get_field_slot r o (u32 offset) ≡ o + offset
  unfolding get_field_slot
  field_slot_lem o offset small fits = ground arith

  abbrev pub element_at : (array i : ℕ) → List Visit
  element_at array i = visit_slot r (array + 12 + 4 * i)

  visit_elements_lem :
      (elements i array : ℕ)
      → array < 2 ^ 32
      → i + elements ≤ 2 ^ 28
      → visit_elements r elements i array
        ≡ ok (concat_map (element_at array) (range_from i elements))
  unfolding visit_elements
  visit_elements_lem zero i array small few = refl
  visit_elements_lem (suc elements) i array small few =
      let at_element : get_field_slot r array (u32 (12 + 4 * i)) ≡ array + 12 + 4 * i =
        omega (arith, field_slot_lem array (12 + 4 * i) small (omega arith)) in
      rw
        (
          offset_of_element_lem i (omega arith),
          at_element,
          visit_elements_lem elements (i + 1) array small (omega arith),
        )
        refl

  -- Visiting an object array below 4 GB, of up to 2 ^ 28 elements, ends without a panic, in a
  -- debug build either, and visits exactly the elements that are not null, in order, from offset
  -- 12 on.
  pub visit_array_references_lem :
      (array : ℕ)
      → array < 2 ^ 32
      → load_u32 memory (array + Offsets.length) ≤ 2 ^ 28
      → visit_array_references r array
        ≡ ok (
            concat_map (element_at array) (range_from 0 (load_u32 memory (array + Offsets.length))))
  unfolding visit_array_references
  visit_array_references_lem array small few =
      ground (arith, visit_elements_lem (load_u32 memory (array + Offsets.length)) 0 array)

  abbrev pub static_at : (klass start i : ℕ) → List Visit
  static_at klass start i = visit_slot r (klass + (start + 4 * i))

  visit_static_fields_from :
      (fields i klass start offset : ℕ)
      → klass < 2 ^ 32
      → 0 < start
      → start + 4 * (i + fields) < 2 ^ 31
      → offset ≡ start + 4 * i
      → visit_static_fields r fields klass offset
        ≡ ok (concat_map (static_at klass start) (range_from i fields))
  unfolding visit_static_fields
  visit_static_fields_from zero i klass start offset small pos fits e = refl
  visit_static_fields_from (suc fields) i klass start offset small pos fits e = ground (
    arith,
    field_slot_lem klass offset,
    visit_static_fields_from fields (i + 1) klass start (usize (offset + 4)),
  )

  -- The reference statics of a class below 4 GB, from an offset that is not 0 on and ending below
  -- 2 ^ 31 bytes, are visited, all that are not null and in order, without a panic.
  pub visit_static_fields_lem :
      (fields klass start : ℕ)
      → klass < 2 ^ 32
      → 0 < start
      → start + 4 * fields < 2 ^ 31
      → visit_static_fields r fields klass start
        ≡ ok (concat_map (static_at klass start) (range_from 0 fields))
  visit_static_fields_lem fields klass start small pos fits =
      visit_static_fields_from fields 0 klass start start small pos (omega arith) (omega arith)
