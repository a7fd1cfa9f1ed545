-- ===== src/Api/Barriers/Overlap.antt =====
-- The checks of `mmtk_array_copy_post`, mmtk/src/api.rs, in a debug build.
use mmtk_art.Base.{
  ℕ, zero, suc, ◌+◌, ◌*◌, ◌%◌, ◌≤◌, ◌<◌, ◌^◌, ◌≡◌, true, ◌&&◌, ◌||◌, ok, panic, ◌==◌, if◌then◌else◌,
  arith, usize,
}
use mmtk_art.Runtime.{Runtime}
use mmtk_art.Slots.{ArtSlotIterator, next, iter_slots, from_range}
use mmtk_art.Api.Barriers.{copy_post, check_src, check_dst, mmtk_array_copy_post}

module _ (r : Runtime) where
  abbrev at : (cursor limit : ℕ) → ArtSlotIterator
  at cursor limit = record { cursor = cursor; limit = limit }

  check_src_lem :
      (fuel n cursor limit : ℕ)
      → limit ≡ cursor + 4 * n
      → limit + 4 ≤ 2 ^ 64
      → n < fuel
      → check_src r fuel (at cursor limit) ≡ (if n == 0 || cursor % 4 == 0 then ok tt else panic)
  unfolding check_src next
  check_src_lem zero n cursor limit e fits enough = absurd (omega arith)
  check_src_lem (suc fuel) zero cursor limit e fits enough = ground arith
  check_src_lem (suc fuel) (suc n) cursor limit e fits enough = ground (
    arith,
    r.conversions.raw_is_aligned_lem cursor 4,
    check_src_lem fuel n (usize (cursor + 4)) limit,
  )

  check_dst_lem :
      (fuel n src dst count idx cursor limit : ℕ)
      → limit ≡ cursor + 4 * n
      → limit + 4 ≤ 2 ^ 64
      → n ≤ count
      → src + 4 * count < 2 ^ 64
      → dst + 4 * count < 2 ^ 64
      → n < fuel
      → check_dst r fuel src dst count idx (at cursor limit)
        ≡ (if n == 0 || cursor % 4 == 0 then ok tt else panic)
  unfolding check_dst next
  check_dst_lem zero n src dst count idx cursor limit e fits few fits_src fits_dst enough =
      absurd (omega arith)
  check_dst_lem (suc fuel) zero src dst count idx cursor limit e fits few fits_src fits_dst enough =
      ground arith
  check_dst_lem (suc fuel) (suc n) src dst count idx cursor limit e fits few fits_src fits_dst
        enough =
      ground (
        arith,
        r.conversions.raw_is_aligned_lem cursor 4,
        check_dst_lem fuel n src dst count idx (usize (cursor + 4)) limit,
        check_dst_lem fuel n src dst count (idx + 1) (usize (cursor + 4)) limit,
      )

  -- In a debug build with fuel for the slots, and regions that end at least 4 bytes below 2 ^ 64,
  -- the barrier after a copy panics exactly if there is something to copy and one of the regions is
  -- not aligned to 4 bytes. In no case does it compare what the regions hold: the result is the
  -- same for every memory, since any two regions count as overlapping.
  pub mmtk_array_copy_post_lem :
      (fuel src dst count : ℕ)
      → r.debug_assertions ≡ true
      → src + 4 * count + 4 ≤ 2 ^ 64
      → dst + 4 * count + 4 ≤ 2 ^ 64
      → count < fuel
      → mmtk_array_copy_post r fuel src dst count ≡ (
          if count == 0 || (src % 4 == 0 && dst % 4 == 0)
          then ok (copy_post (from_range src (src + 4 * count)) (from_range dst (dst + 4 * count)))
          else panic)
  unfolding mmtk_array_copy_post iter_slots from_range
  mmtk_array_copy_post_lem fuel src dst count debug fits_src fits_dst enough =
      let bytes : usize (count * 2 ^ 2) ≡ 4 * count = omega arith in
      let end_src : usize (src + 4 * count) ≡ src + 4 * count = omega arith in
      let end_dst : usize (dst + 4 * count) ≡ dst + 4 * count = omega arith in
      ground (
        arith,
        check_src_lem fuel count src (src + 4 * count),
        check_dst_lem fuel count src dst count 0 dst (dst + 4 * count),
      )
