-- ===== src/Trigger/Relief.antt =====
-- A poll right after a collection: `on_gc_end` and `is_gc_required` of mmtk/src/gc_trigger.rs.
use mmtk_art.Base.{
  ◌+◌, ◌≤◌, ◌<◌, ◌^◌, ◌≡◌, min, Bool, true, Bool-cases, inl, inr, some, List, ◌∷◌, if◌then◌else◌,
  arith,
}
use mmtk_art.Trigger.Double.{Double}
use mmtk_art.Trigger.State.{Mmtk, ArtTrigger}
use mmtk_art.Trigger.Policy.{Round, on_gc_end, is_gc_required}
use mmtk_art.Trigger.Sizing.{IsBackground, full_size, nursery_size}

module _ {D : Double} where
  footprint_after :
      (m : Mmtk) (t : ArtTrigger D)
      → IsBackground m t
      → let t' = on_gc_end m t in
        (min t.growth_limit (m.reserved_pages + (if m.is_nursery_collection then 0 else t.min_free))
          ≤ t'.target_footprint)
        × (t'.pending_allocation ≡ 0)
        × (t'.growth_limit ≡ t.growth_limit)
        × (t'.target_footprint ≤ t.growth_limit)
  unfolding on_gc_end
  footprint_after m t b = elim (Bool-cases m.is_nursery_collection) [
    | inl nursery ↦ ground (arith, nursery_size m t b nursery)
    | inr full ↦ ground (arith, full_size m t b full)
  ]

  -- A collection relieves the trigger. With page counts below 2 ^ 52, a poll after a collection in
  -- the background, before anything is pending, answers just what the plan asks for, leaves the
  -- trigger as it is and ends in its first round, if the pages then reserved are within the growth
  -- limit and at most those that the collection left, or, after a full collection, `min_free` more.
  -- If more than the growth limit is reserved, it asks for a collection at once, whatever the plan
  -- asks for.
  pub on_gc_end-is_gc_required :
      (m : Mmtk) (t : ArtTrigger D) (collection : Bool) (calm crowded : Round) (rounds : List Round)
      → IsBackground m t
      → calm.reserved_pages ≤ t.growth_limit
      → calm.reserved_pages ≤ m.reserved_pages + (if m.is_nursery_collection then 0 else t.min_free)
      → t.growth_limit < crowded.reserved_pages
      → crowded.reserved_pages < 2 ^ 64
      → let t' = on_gc_end m t in
        (is_gc_required collection (calm ∷ rounds) t' ≡ some (collection, t'))
        × (is_gc_required collection (crowded ∷ rounds) t' ≡ some (true, t'))
  unfolding is_gc_required
  on_gc_end-is_gc_required m t collection calm crowded rounds b within freed above small =
      let (enough, none_pending, limit, bounded) = footprint_after m t b in
      (ground arith, ground arith)
