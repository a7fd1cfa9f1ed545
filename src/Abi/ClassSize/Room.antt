-- ===== src/Abi/ClassSize/Room.antt =====
-- `compute_class_size` of mmtk/src/abi.rs gives every static field its room.
use mmtk_art.Base.{
  ℕ, zero, suc, ◌+◌, ◌-◌, ◌*◌, ◌≤◌, ◌<◌, ◌^◌, ◌≡◌, ◌⊎◌, bit_and, Bool, true, false, arith,
}
use mmtk_art.Base.Bits.{bit_and-seven}
use mmtk_art.Runtime.{Conversions}
use mmtk_art.Abi.Offsets.{class_bytes}
use mmtk_art.Abi.ClassSize.{
  shuffle, shuffle_forward, size_before_primitives, add_primitives, compute_class_size,
}

-- Each field that is shuffled forward takes its width out of the gap; the loop ends with no field
-- left or with too small a gap.
shuffle_lem :
    (width num gap : ℕ)
    → let (left, rest) = shuffle width num gap in
      (num * width + rest ≡ left * width + gap) × (left ≤ num) × ((left ≡ 0) ⊎ (rest < width))
unfolding shuffle
shuffle_lem width zero gap = grind arith
shuffle_lem width (suc num) gap = grind (arith, shuffle_lem width num (gap - width))

shuffle_forward_lem :
    (gap n8 n16 n32 : ℕ)
    → let (l8, l16, l32) = shuffle_forward gap n8 n16 n32 in
      (n8 + n16 * 2 + n32 * 4 ≤ l8 + l16 * 2 + l32 * 4 + gap)
      × (l8 ≤ n8)
      × (l16 ≤ n16)
      × (l32 ≤ n32)
unfolding shuffle_forward
shuffle_forward_lem gap n8 n16 n32 =
    let (left_32bit, gap_32bit) = shuffle 4 n32 gap in
    let (left_16bit, gap_16bit) = shuffle 2 n16 gap_32bit in
    omega (arith, shuffle_lem 4 n32 gap, shuffle_lem 2 n16 gap_32bit, shuffle_lem 1 n8 gap_16bit)

module _ (c : Conversions) where
  -- Counts that a `u32` holds, and pointers of 4 or 8 bytes.
  pub record IsCount (num_vtable_entries num_ref ptr_size : ℕ) : Type 0 where
    pub vtable_fits : num_vtable_entries < 2 ^ 32
    pub ref_fits : num_ref < 2 ^ 32
    pub pointer : (ptr_size ≡ 4) ⊎ (ptr_size ≡ 8)

  pub size_before_primitives_bounds :
      (embedded : Bool) (vtable num_ref ptr_size : ℕ)
      → IsCount vtable num_ref ptr_size
      → (class_bytes + 4 * num_ref ≤ size_before_primitives c embedded vtable num_ref ptr_size)
        × (size_before_primitives c embedded vtable num_ref ptr_size < 2 ^ 36)
  unfolding size_before_primitives
  size_before_primitives_bounds true vtable num_ref ptr_size h = grind (
    arith,
    c.le-raw_align_up (class_bytes + 4) ptr_size,
    c.raw_align_up-lt (class_bytes + 4) ptr_size,
  )
  size_before_primitives_bounds false vtable num_ref ptr_size h = omega arith

  add_primitives_room :
      (before n8 n16 n32 n64 : ℕ)
      → before < 2 ^ 36
      → n8 < 2 ^ 32
      → n16 < 2 ^ 32
      → n32 < 2 ^ 32
      → n64 < 2 ^ 32
      → let size = add_primitives c before n8 n16 n32 n64 in
        (before + n8 + 2 * n16 + 4 * n32 + 8 * n64 ≤ size)
        × (size ≤ before + n8 + 2 * n16 + 4 * n32 + 8 * n64 + 7)
        × (n64 ≡ 0 → size ≡ before + n8 + 2 * n16 + 4 * n32)
  unfolding add_primitives
  add_primitives_room before n8 n16 n32 n64 hb h8 h16 h32 h64 = ground (
    arith,
    bit_and-seven before,
    c.raw_is_aligned_lem before 8,
    shuffle_forward_lem (8 - bit_and before 7) n8 n16 n32,
  )

  -- For all counts of fields that a `u32` holds, and pointers of 4 or 8 bytes, the size of a class
  -- has room for the part before the primitive statics, every primitive static field and the
  -- bitmap, and at most 10 bytes of padding; with no 64-bit field and no bitmap there is no
  -- padding at all.
  pub compute_class_size_room :
      (embedded : Bool) (vtable n8 n16 n32 n64 num_ref num_bitmap ptr_size : ℕ)
      → IsCount vtable num_ref ptr_size
      → n8 < 2 ^ 32
      → n16 < 2 ^ 32
      → n32 < 2 ^ 32
      → n64 < 2 ^ 32
      → num_bitmap < 2 ^ 32
      → let before = size_before_primitives c embedded vtable num_ref ptr_size in
        let needed = before + n8 + 2 * n16 + 4 * n32 + 8 * n64 + 4 * num_bitmap in
        let size =
          compute_class_size c embedded vtable n8 n16 n32 n64 num_ref num_bitmap ptr_size in
        (needed ≤ size) × (size ≤ needed + 10) × (n64 ≡ 0 → num_bitmap ≡ 0 → size ≡ needed)
  unfolding compute_class_size
  compute_class_size_room embedded vtable n8 n16 n32 n64 num_ref num_bitmap ptr_size h h8 h16 h32
        h64 hb =
      let before = size_before_primitives c embedded vtable num_ref ptr_size in
      ground (
        arith,
        size_before_primitives_bounds embedded vtable num_ref ptr_size h,
        add_primitives_room before n8 n16 n32 n64,
        c.le-raw_align_up (add_primitives c before n8 n16 n32 n64) 4,
        c.raw_align_up-lt (add_primitives c before n8 n16 n32 n64) 4,
      )

  -- With pointers of 4 or 8 bytes and a vtable length that a `u32` holds, the reference statics of
  -- a class with an embedded vtable begin right behind it: the length word at 120, the pointer to
  -- the interface table and the vtable entries, aligned to the pointer size.
  pub static_fields_offset :
      (vtable ptr_size : ℕ)
      → vtable < 2 ^ 32
      → (ptr_size ≡ 4) ⊎ (ptr_size ≡ 8)
      → let offset = compute_class_size c true vtable 0 0 0 0 0 0 ptr_size in
        (ptr_size ≡ 4 → offset ≡ 128 + 4 * vtable) × (ptr_size ≡ 8 → offset ≡ 136 + 8 * vtable)
  unfolding compute_class_size add_primitives size_before_primitives
  static_fields_offset vtable ptr_size small pointer = ground (
    arith,
    c.le-raw_align_up 124 ptr_size,
    c.raw_align_up-lt 124 ptr_size,
    c.raw_align_up-aligned 124 ptr_size,
  )
