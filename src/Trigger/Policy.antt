-- ===== src/Trigger/Policy.antt =====
-- `impl GCTriggerPolicy<Art> for ArtTrigger`, mmtk/src/gc_trigger.rs.
use mmtk_art.Base.{
  ℕ, ◌+◌, Bool, true, false, ◌||◌, Option, none, some, List, [], ◌∷◌, ltb, leb, if◌then◌else◌,
  usize, sub_usize, ◌>>>◌,
}
use mmtk_art.Trigger.Double.{Double}
use mmtk_art.Trigger.State.{
  Mmtk, ArtTrigger, set_ideal_footprint, set_concurrent_start_pages, clamp_growth_limit_inner,
  grow_heap_on_jank_perceptible_switch, grow_for_utilization,
}

-- One round of the loop in `is_gc_required`: what the plan has reserved, and whether
-- `compare_exchange_weak`, which may fail for no reason, goes through.
pub record Round : Type 0 where
  pub reserved_pages : ℕ
  pub exchanged : Bool

module _ {D : Double} where
  unfoldable pub on_pending_allocation : ℕ → ArtTrigger D → ArtTrigger D
  on_pending_allocation pages t = record t {
    pending_allocation = usize (t.pending_allocation + pages);
  }

  unfoldable pub on_gc_start : Mmtk → ArtTrigger D → ArtTrigger D
  on_gc_start m t = record t { reserved_pages_before_gc = m.reserved_pages }

  unfoldable pub on_gc_end : Mmtk → ArtTrigger D → ArtTrigger D
  unfolding grow_for_utilization
  on_gc_end m t = record (grow_for_utilization m t) {
    pending_allocation = 0;
    reserved_pages_before_gc = 0;
  }

  -- `collection` is `plan.collection_required(space_full, space)`; `none` is a loop that goes on.
  unfoldable pub is_gc_required : Bool → List Round → ArtTrigger D → Option (Bool × ArtTrigger D)
  is_gc_required collection [] t = none
  is_gc_required collection (round ∷ rounds) t =
      let rest = is_gc_required collection rounds t in
      let new_target = usize (round.reserved_pages + t.pending_allocation) in
      if leb new_target t.target_footprint
      then some (false || collection, t)
      else if ltb t.growth_limit new_target
      then some (true || collection, t)
      else if round.exchanged
      then some (
        false || collection,
        record t {
          target_footprint = new_target;
          pending_allocation = sub_usize t.pending_allocation t.pending_allocation;
        },
      )
      else rest

  unfoldable pub is_heap_full : ℕ → ArtTrigger D → Bool
  is_heap_full reserved_pages t = leb t.target_footprint reserved_pages

  unfoldable pub get_current_heap_size_in_pages : ArtTrigger D → ℕ
  get_current_heap_size_in_pages t = t.target_footprint

  unfoldable pub get_max_heap_size_in_pages : ArtTrigger D → ℕ
  get_max_heap_size_in_pages t = t.growth_limit

  unfoldable pub can_heap_size_grow : ArtTrigger D → Bool
  can_heap_size_grow t = ltb t.target_footprint t.growth_limit

  unfoldable pub clamp_max_heap_size : (log_page : ℕ) → ℕ → ArtTrigger D → Bool × ArtTrigger D
  unfolding set_ideal_footprint set_concurrent_start_pages
  clamp_max_heap_size log_page max_heap_size t =
      let max_heap_pages = max_heap_size >>> log_page in
      let limited = record t { capacity = max_heap_pages; growth_limit = max_heap_pages } in
      (true, set_concurrent_start_pages (set_ideal_footprint max_heap_pages limited))

  unfoldable pub grow_heap_size_for_event : ArtTrigger D → ArtTrigger D
  unfolding grow_heap_on_jank_perceptible_switch
  grow_heap_size_for_event t = grow_heap_on_jank_perceptible_switch t

  unfoldable pub clamp_growth_limit : ArtTrigger D → ArtTrigger D
  unfolding clamp_growth_limit_inner
  clamp_growth_limit t = clamp_growth_limit_inner t
