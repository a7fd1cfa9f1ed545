-- ===== src/Api/Barriers.antt =====
-- The barriers before and after a write of a reference and a copy of an array, mmtk/src/api.rs.
pub mod Overlap
use mmtk_art.Base.{
  ℕ, zero, suc, ◌+◌, ◌*◌, ◌%◌, ◌^◌, Bool, true, false, not, ◌&&◌, ◌||◌, Option, none, some, Outcome,
  ok, loops, ◌>>=◌, ◌>>◌, assert, ◌==◌, ◌!=◌, ltb, leb, if◌then◌else◌, usize, ◌<<<◌,
}
use mmtk_art.Runtime.{Runtime, debug_assert}
use mmtk_art.Abi.Sizes.{get_object_size}
use mmtk_art.Slots
use mmtk_art.Slots.{ArtMemorySlice, ArtSlotIterator, log_bytes_in_slot}

-- What the barrier of a mutator is told.
pub data Barrier : Type 0 where
  write_pre write_post : (src slot : ℕ) → (target : Option ℕ) → Barrier
  copy_pre copy_post : (src dst : ArtMemorySlice) → Barrier

-- Equality of what two slots hold.
abbrev pub same_object : Option ℕ → Option ℕ → Bool
same_object none none = true
same_object none (some b) = false
same_object (some a) none = false
same_object (some a) (some b) = a == b

unfoldable pub mmtk_object_reference_write_pre : (src slot : ℕ) → Option ℕ → Barrier
mmtk_object_reference_write_pre src slot target = write_pre src slot target

abbrev pub region : (start bytes : ℕ) → ArtMemorySlice
unfolding Slots.from_range
region start bytes = Slots.from_range start (usize (start + bytes))

unfoldable pub mmtk_array_copy_pre : (src dst count : ℕ) → Barrier
mmtk_array_copy_pre src dst count =
    let bytes = usize (count <<< log_bytes_in_slot) in
    copy_pre (region src bytes) (region dst bytes)

module _ (r : Runtime) where
  open r use {memory, is_valid_object}

  -- `Address::is_aligned_to`
  abbrev pub is_aligned_to_4 : ℕ → Outcome Bool
  is_aligned_to_4 a = ok (r.conversions.raw_is_aligned a 4)

  unfoldable pub mmtk_object_reference_write_post : (src slot : ℕ) → Option ℕ → Outcome Barrier
  mmtk_object_reference_write_post src slot target = do
    debug_assert r (ok (is_valid_object src))
    debug_assert r (is_aligned_to_4 slot)
    let within = (get_object_size r src >>= λ size. ok (ltb slot (usize (src + size))))
    debug_assert r (if slot == 0 then ok true else (if leb src slot then within else ok false))
    debug_assert r (ok (is_valid_target target))
    ok (write_post src slot target)
    where
      is_valid_target : Option ℕ → Bool
      is_valid_target none = true
      is_valid_target (some object) = is_valid_object object

  -- The loop over the slots of the source.
  unfoldable pub check_src : ℕ → ArtSlotIterator → Outcome (Unit {0})
  check_src zero it = loops
  check_src (suc fuel) it =
      let rest = check_src fuel (Slots.next it).1 in
      elim (Slots.next it).0 [
        | none ↦ ok tt
        | some addr ↦ (is_aligned_to_4 addr >>= assert) >> rest
      ]

  -- The loop over the slots of the destination, with the index that it counts.
  unfoldable pub check_dst : ℕ → (src dst count idx : ℕ) → ArtSlotIterator → Outcome (Unit {0})
  check_dst zero src dst count idx it = loops
  check_dst (suc fuel) src dst count idx it =
      let bytes = usize (count <<< log_bytes_in_slot) in
      let overlapping = ltb dst (usize (src + bytes)) || ltb src (usize (dst + bytes)) in
      let compared = src != 0 && not overlapping in
      let src_addr = usize (src + usize (idx <<< log_bytes_in_slot)) in
      let rest =
        check_dst fuel src dst count (if compared then idx + 1 else idx) (Slots.next it).1 in
      elim (Slots.next it).0 [
        | none ↦ ok tt
        | some dst_addr ↦
            (is_aligned_to_4 dst_addr >>= assert)
            >> (if compared
                then assert (same_object (Slots.load memory dst_addr) (Slots.load memory src_addr))
                else ok tt)
            >> rest
      ]

  -- `fuel` is for the loops, which only a debug build has.
  unfoldable pub mmtk_array_copy_post : (fuel src dst count : ℕ) → Outcome Barrier
  mmtk_array_copy_post fuel src dst count =
      let bytes = usize (count <<< log_bytes_in_slot) in
      let checks =
        check_src fuel (Slots.iter_slots (region src bytes))
        >> check_dst fuel src dst count 0 (Slots.iter_slots (region dst bytes)) in
      (if r.debug_assertions then checks else ok tt)
      >> ok (copy_post (region src bytes) (region dst bytes))
