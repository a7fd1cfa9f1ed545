-- ===== src/Abi/ClassSize.antt =====
-- `Class::compute_class_size` and `Class::get_first_reference_static_fields_offset` of
-- mmtk/src/abi.rs.
pub mod Room
use mmtk_art.Base.{
  ℕ, zero, suc, ◌+◌, ◌-◌, ◌*◌, ◌%◌, ◌^◌, bit_and, Bool, true, false, not, ◌&&◌, Outcome, ok, ◌>>=◌,
  ◌>>◌, ltb, leb, if◌then◌else◌, usize,
}
use mmtk_art.Runtime.{Runtime, Conversions, debug_assert}
use mmtk_art.Abi.Offsets.{class_bytes, art_heap_reference_size}
use mmtk_art.Abi.Class.{is_resolved, should_have_embedded_vtable, get_embedded_vtable_length}

-- `while gap >= width && num != 0 { num -= 1; gap -= width; }`; the result is `(num, gap)`.
unfoldable pub shuffle : (width num gap : ℕ) → ℕ × ℕ
shuffle width zero gap = (0, gap)
shuffle width (suc num) gap =
    let rest = shuffle width num (gap - width) in if leb width gap then rest else (suc num, gap)

-- The numbers of static fields that do not fit the gap before the 64-bit fields.
unfoldable pub shuffle_forward : (gap num_8bit num_16bit num_32bit : ℕ) → ℕ × ℕ × ℕ
shuffle_forward gap num_8bit num_16bit num_32bit =
    let (left_32bit, gap_32bit) = shuffle 4 num_32bit gap in
    let (left_16bit, gap_16bit) = shuffle 2 num_16bit gap_32bit in
    let (left_8bit, gap_8bit) = shuffle 1 num_8bit gap_16bit in (left_8bit, left_16bit, left_32bit)

module _ (c : Conversions) where
  open c use {raw_align_up, raw_is_aligned}

  -- Space used by the class, the embedded vtable and the references.
  unfoldable pub size_before_primitives : Bool → (num_vtable_entries num_ref ptr_size : ℕ) → ℕ
  size_before_primitives has_embedded_vtable num_vtable_entries num_ref ptr_size =
      let size =
        if has_embedded_vtable
        then usize (
            raw_align_up (class_bytes + 4) ptr_size
            + ptr_size
            + usize (num_vtable_entries * ptr_size))
        else class_bytes in
      usize (size + num_ref * art_heap_reference_size)

  -- Space used by the primitive statics, behind `size` bytes.
  unfoldable pub add_primitives : (size num_8bit num_16bit num_32bit num_64bit : ℕ) → ℕ
  add_primitives size num_8bit num_16bit num_32bit num_64bit =
      if not (raw_is_aligned size 8) && ltb 0 num_64bit
      then (let gap = 8 - bit_and size 0x7 in
          let (left_8bit, left_16bit, left_32bit) =
            shuffle_forward gap num_8bit num_16bit num_32bit in
          usize
            (usize (size + gap) + (left_8bit + left_16bit * 2 + left_32bit * 4 + num_64bit * 8)))
      else usize (size + (num_8bit + num_16bit * 2 + num_32bit * 4 + num_64bit * 8))

  unfoldable pub compute_class_size :
      Bool
      → (num_vtable_entries num_8bit num_16bit num_32bit num_64bit num_ref num_bitmap ptr_size : ℕ)
      → ℕ
  compute_class_size has_embedded_vtable num_vtable_entries num_8bit num_16bit num_32bit num_64bit
        num_ref num_bitmap ptr_size =
      let before = size_before_primitives has_embedded_vtable num_vtable_entries num_ref ptr_size in
      let size = add_primitives before num_8bit num_16bit num_32bit num_64bit in
      if ltb 0 num_bitmap then usize (raw_align_up size 4 + num_bitmap * 4) else size

module _ (r : Runtime) where
  unfoldable pub get_first_reference_static_fields_offset : ℕ → Outcome ℕ
  get_first_reference_static_fields_offset klass = do
    debug_assert r (is_resolved r klass)
    embedded ← should_have_embedded_vtable r klass
    ok (
        if embedded
        then compute_class_size r.conversions true (get_embedded_vtable_length r klass) 0 0 0 0 0 0
            r.pointer_size
        else class_bytes)
