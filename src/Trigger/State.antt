-- ===== src/Trigger/State.antt =====
-- The state of the GC trigger and its inherent methods, mmtk/src/gc_trigger.rs.
-- Every atomic field is read and written with relaxed ordering; here a method runs on its own, and
-- `Trigger.Threads` interleaves them.
use mmtk_art.Base.{
  ℕ, ◌+◌, min, max, ◌&&◌, Bool, ltb, ◌==◌, if◌then◌else◌, usize, usize_max, sub_usize, ◌>>>◌, not,
}
use mmtk_art.Trigger.Double.{Double}

-- What the methods read of the MMTk instance.
pub record Mmtk : Type 0 where
  pub reserved_pages : ℕ
  pub is_jank_perceptible : Bool
  pub is_nursery_collection : Bool

-- Sizes in bytes.
pub record ArtTriggerInit (D : Double) : Type 0 where
  pub min_free : ℕ
  pub max_free : ℕ
  pub initial_size : ℕ
  pub capacity : ℕ
  pub growth_limit : ℕ
  pub target_utilization : D.F
  pub foreground_heap_growth_multiplier : D.F

-- Sizes in pages.
pub record ArtTrigger (D : Double) : Type 0 where
  pub min_free : ℕ
  pub max_free : ℕ
  pub capacity : ℕ
  pub growth_limit : ℕ
  pub target_utilization : D.F
  pub target_footprint : ℕ
  pub pending_allocation : ℕ
  pub reserved_pages_before_gc : ℕ
  pub concurrent_start_pages : ℕ
  pub foreground_heap_growth_multiplier : D.F
  pub min_foreground_target_footprint : ℕ
  pub min_foreground_concurrent_start_pages : ℕ

module _ {D : Double} where
  open D use {F, one, mul, div, sub, le, from_usize, to_usize}

  -- `log_page` is `LOG_BYTES_IN_PAGE` of mmtk-core.
  unfoldable pub new : (log_page : ℕ) → ℕ → ℕ → ℕ → ℕ → ℕ → F → F → ArtTrigger D
  new log_page min_free max_free initial_size capacity growth_limit utilization multiplier =
      record {
        min_free = min_free >>> log_page;
        max_free = max_free >>> log_page;
        capacity = capacity >>> log_page;
        growth_limit = growth_limit >>> log_page;
        target_utilization = utilization;
        target_footprint = initial_size >>> log_page;
        pending_allocation = 0;
        reserved_pages_before_gc = 0;
        concurrent_start_pages = usize_max;
        foreground_heap_growth_multiplier = multiplier;
        min_foreground_target_footprint = 0;
        min_foreground_concurrent_start_pages = 0;
      }

  unfoldable pub get_heap_growth_multiplier : Bool → ArtTrigger D → F
  get_heap_growth_multiplier jank_perceptible t =
      if not jank_perceptible then one else t.foreground_heap_growth_multiplier

  unfoldable pub set_ideal_footprint : ℕ → ArtTrigger D → ArtTrigger D
  set_ideal_footprint target t = record t {
    target_footprint = if ltb t.growth_limit target then t.growth_limit else target;
  }

  unfoldable pub set_concurrent_start_pages : ArtTrigger D → ArtTrigger D
  set_concurrent_start_pages t = t

  unfoldable pub clamp_growth_limit_inner : ArtTrigger D → ArtTrigger D
  clamp_growth_limit_inner t = record t { capacity = t.growth_limit }

  unfoldable pub clear_growth_limit : ArtTrigger D → ArtTrigger D
  unfolding set_concurrent_start_pages
  clear_growth_limit t =
      let grown =
        if t.target_footprint == t.growth_limit && ltb t.growth_limit t.capacity
        then set_concurrent_start_pages (record t { target_footprint = t.capacity })
        else t in
      record grown { growth_limit = t.capacity }

  -- With no other thread at work the first `compare_exchange` succeeds.
  unfoldable pub grow_heap_on_jank_perceptible_switch : ArtTrigger D → ArtTrigger D
  grow_heap_on_jank_perceptible_switch t =
      if ltb t.target_footprint t.min_foreground_target_footprint
      then record t { target_footprint = t.min_foreground_target_footprint }
      else t

  -- The first half of `grow_for_utilization`: the target size, and the pages to grow by.
  unfoldable pub size_for_utilization : Mmtk → ArtTrigger D → ℕ × ℕ
  unfolding get_heap_growth_multiplier
  size_for_utilization m t =
      let reserved = m.reserved_pages in
      let multiplier = get_heap_growth_multiplier m.is_jank_perceptible t in
      let adjusted_max_free = to_usize (mul (from_usize t.max_free) multiplier) in
      let delta = to_usize (mul (from_usize reserved) (sub (div one t.target_utilization) one)) in
      let grow_pages = max (min delta t.max_free) t.min_free in
      if m.is_nursery_collection
      then (if ltb (usize (reserved + adjusted_max_free)) t.target_footprint
          then (usize (reserved + adjusted_max_free), t.max_free)
          else (max reserved t.target_footprint, 0))
      else (usize (reserved + to_usize (mul (from_usize grow_pages) multiplier)), grow_pages)

  unfoldable pub grow_for_utilization : Mmtk → ArtTrigger D → ArtTrigger D
  unfolding size_for_utilization set_ideal_footprint get_heap_growth_multiplier
  grow_for_utilization m t =
      let reserved = m.reserved_pages in
      let multiplier = get_heap_growth_multiplier m.is_jank_perceptible t in
      let (size, grow_pages) = size_for_utilization m t in
      let target_size =
        if ltb (sub_usize size reserved) t.pending_allocation
        then usize (size + t.pending_allocation)
        else size in
      let min_foreground =
        if le multiplier one && ltb 0 grow_pages
        then min
            (usize (
              reserved
              + to_usize (mul (from_usize grow_pages) t.foreground_heap_growth_multiplier)))
            t.growth_limit
        else 0 in
      record (set_ideal_footprint target_size t) {
        min_foreground_target_footprint = min_foreground;
      }
