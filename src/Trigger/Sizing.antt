-- ===== src/Trigger/Sizing.antt =====
-- The size of the heap after a collection: `on_gc_end` and `grow_for_utilization` of
-- mmtk/src/gc_trigger.rs, for an application in the background, whose multiplier is 1.0.
use mmtk_art.Base.{ℕ, ◌+◌, ◌≤◌, ◌<◌, ◌^◌, ◌≡◌, min, max, ltb, if◌then◌else◌, true, false, arith}
use mmtk_art.Trigger.Double.{Double}
use mmtk_art.Trigger.State.{Mmtk, ArtTrigger, size_for_utilization}
use mmtk_art.Trigger.Policy.{on_gc_end}

module _ {D : Double} where
  -- A background collection over sizes that a double holds exactly.
  pub record IsBackground (m : Mmtk) (t : ArtTrigger D) : Type 0 where
    pub background : m.is_jank_perceptible ≡ false
    pub small_reserved : m.reserved_pages < 2 ^ 52
    pub small_min : t.min_free < 2 ^ 52
    pub small_max : t.max_free < 2 ^ 52
    pub small_target : t.target_footprint < 2 ^ 52
    pub small_pending : t.pending_allocation < 2 ^ 52

  pub full_size :
      (m : Mmtk) (t : ArtTrigger D)
      → IsBackground m t
      → m.is_nursery_collection ≡ false
      → let (size, grow_pages) = size_for_utilization m t in
        (size ≡ m.reserved_pages + grow_pages)
        × (t.min_free ≤ grow_pages)
        × (grow_pages ≤ max t.min_free t.max_free)
  unfolding size_for_utilization
  full_size m t b full = ground (
    arith,
    D.mul-one (
        max
          (min
            (D.to_usize (
              D.mul (D.from_usize m.reserved_pages)
                (D.sub (D.div D.one t.target_utilization) D.one)))
            t.max_free)
          t.min_free),
  )

  pub nursery_size :
      (m : Mmtk) (t : ArtTrigger D)
      → IsBackground m t
      → m.is_nursery_collection ≡ true
      → let (size, grow_pages) = size_for_utilization m t in
        size ≡ max m.reserved_pages (min t.target_footprint (m.reserved_pages + t.max_free))
  unfolding size_for_utilization
  nursery_size m t b nursery = ground (arith, D.mul-one t.max_free)

  -- With page counts below 2 ^ 52, after a full collection in the background the footprint leaves
  -- at least `min_free` pages, and room for the pending pages, over the reserved ones unless the
  -- growth limit stops it. Within that limit it is the reserved pages and between `min_free` and
  -- the larger of `min_free` and `max_free` pages more, and exactly if these are fewer than the
  -- pending ones the pending pages on top; nothing is pending any more.
  pub on_gc_end_full :
      (m : Mmtk) (t : ArtTrigger D)
      → IsBackground m t
      → m.is_nursery_collection ≡ false
      → let t' = on_gc_end m t in
        (min t.growth_limit (m.reserved_pages + t.min_free) ≤ t'.target_footprint)
        × (min t.growth_limit (m.reserved_pages + t.pending_allocation) ≤ t'.target_footprint)
        × (t'.target_footprint ≤ t.growth_limit)
        × (grow : ℕ) × (t.min_free ≤ grow)
        × (grow ≤ max t.min_free t.max_free)
        × (t'.target_footprint
            ≡ min t.growth_limit (
                m.reserved_pages
                + grow
                + (if ltb grow t.pending_allocation then t.pending_allocation else 0)))
        × (t'.pending_allocation ≡ 0)
        × (t'.reserved_pages_before_gc ≡ 0)
  unfolding on_gc_end
  on_gc_end_full m t b full =
      let (size, at_least, at_most) = full_size m t b full in
      (
        ground arith,
        ground arith,
        ground arith,
        (size_for_utilization m t).1,
        at_least,
        at_most,
        ground arith,
        ground arith,
        ground arith,
      )

  -- With page counts below 2 ^ 52, a nursery collection in the background never raises the
  -- footprint for the sake of free space: if nothing is pending, the footprint afterwards is the
  -- old one, cut down to `max_free` pages over the reserved ones and raised to these if it was
  -- below, within the growth limit.
  pub on_gc_end_nursery :
      (m : Mmtk) (t : ArtTrigger D)
      → IsBackground m t
      → m.is_nursery_collection ≡ true
      → t.pending_allocation ≡ 0
      → (on_gc_end m t).target_footprint
        ≡ min t.growth_limit
            (max m.reserved_pages (min t.target_footprint (m.reserved_pages + t.max_free)))
  unfolding on_gc_end
  on_gc_end_nursery m t b nursery none_pending = ground (arith, nursery_size m t b nursery)
