-- ===== src/Startup/Layout.antt =====
-- The address range that `set_vm_layout` of mmtk/src/lib.rs gives the heap.
use mmtk_art.Base.{ℕ, ◌+◌, ◌*◌, ◌^◌, ◌≤◌, ◌<◌, ◌≡◌, arith, usize, false, ok, panic}
use mmtk_art.Trigger.Double.{Double}
use mmtk_art.Startup.{Core, Build, VmLayout, vm_layout}

module _ (C : Core) (D : Double) (build : Build) (chunk : C.bytes_in_chunk ≡ 2 ^ 22) where
  abbrev layout : ℕ → VmLayout
  layout capacity = record {
    log_address_space = 32;
    heap_start = C.chunk_align_down 0x400000;
    heap_end = C.chunk_align_up (usize (0x400000 + capacity + 5 * C.bytes_in_chunk));
    log_space_extent = 31;
    force_use_contiguous_spaces = false;
  }

  accepted :
      (capacity : ℕ) → capacity ≤ 2 ^ 31 → vm_layout C D build capacity ≡ ok (layout capacity)
  unfolding vm_layout
  accepted capacity small = ground arith

  bounds :
      (capacity : ℕ)
      → capacity ≤ 2 ^ 31
      → (0 < (layout capacity).heap_start)
        × ((layout capacity).heap_start ≤ 2 ^ 22)
        × (2 ^ 22 + capacity + 5 * 2 ^ 22 ≤ (layout capacity).heap_end)
        × ((layout capacity).heap_end < 2 ^ 32)
  bounds capacity small =
      let end : usize (0x400000 + capacity + 5 * C.bytes_in_chunk)
          ≡ 2 ^ 22 + capacity + 5 * 2 ^ 22 =
        omega arith in
      omega (
        arith,
        C.chunk_align_down-le 0x400000,
        C.lt-chunk_align_down 0x400000,
        C.le-chunk_align_up (usize (0x400000 + capacity + 5 * C.bytes_in_chunk)),
        C.chunk_align_up-lt (usize (0x400000 + capacity + 5 * C.bytes_in_chunk)),
      )

  -- Setting the layout panics for a capacity above 2 GB. For any other, with chunks of 4 MB, the
  -- heap begins at most at 4 MB and not at the null address, it has room for the capacity and five
  -- chunks above 4 MB, and it ends below 4 GB, where every address fits a compressed reference.
  -- From a capacity of 1788 MB on it reaches above the address 0x7000_0000, at which the boot image
  -- is to be mapped.
  pub vm_layout_lem :
      (capacity large excessive : ℕ)
      → capacity ≤ 2 ^ 31
      → 1788 * 2 ^ 20 ≤ large
      → large ≤ 2 ^ 31
      → 2 ^ 31 < excessive
      → (vm_layout C D build excessive ≡ panic)
        × (l : VmLayout) × (vm_layout C D build capacity ≡ ok l)
        × (0 < l.heap_start)
        × (l.heap_start ≤ 2 ^ 22)
        × (2 ^ 22 + capacity + 5 * 2 ^ 22 ≤ l.heap_end)
        × (l.heap_end < 2 ^ 32)
        × (overlapping : VmLayout) × (vm_layout C D build large ≡ ok overlapping)
        × (0x70000000 < overlapping.heap_end)
  unfolding vm_layout
  vm_layout_lem capacity large excessive small from_1788 to_2048 above =
      let (start_pos, start_low, room, end_low) = bounds capacity small in
      (
        ground arith,
        layout capacity,
        accepted capacity small,
        start_pos,
        start_low,
        room,
        end_low,
        layout large,
        accepted large to_2048,
        omega (arith, bounds large to_2048),
      )
