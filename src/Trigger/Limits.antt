-- ===== src/Trigger/Limits.antt =====
-- The limits of the heap under the operations of the GC trigger, mmtk/src/gc_trigger.rs.
use mmtk_art.Base.{
  ℕ, ◌+◌, ◌≤◌, ◌<◌, ◌^◌, ◌≡◌, Bool, Option, none, some, List, [], ◌∷◌, arith, ◌>>>◌, ◌==◌,
  if◌then◌else◌, shr_mono,
}
use mmtk_art.Trigger.Double.{Double}
use mmtk_art.Trigger.State.{Mmtk, ArtTrigger, new, grow_for_utilization, clear_growth_limit}
use mmtk_art.Trigger.Policy.{
  Round, on_pending_allocation, on_gc_start, on_gc_end, is_gc_required, clamp_max_heap_size,
  grow_heap_size_for_event, clamp_growth_limit, get_current_heap_size_in_pages,
  get_max_heap_size_in_pages,
}

-- What the VM and MMTk ask of the trigger after start-up.
pub data Event : Type 0 where
  pending_allocation : ℕ → Event
  gc_start : Mmtk → Event
  gc_end : Mmtk → Event
  poll : Bool → List Round → Event
  jank_perceptible_switch : Event
  clamp_limit : Event
  clear_limit : Event

module _ {D : Double} where
  -- A poll that is still looping has changed nothing.
  abbrev polled : ArtTrigger D → Option (Bool × ArtTrigger D) → ArtTrigger D
  polled t none = t
  polled t (some (required, t')) = t'

  unfoldable pub apply : Event → ArtTrigger D → ArtTrigger D
  apply (pending_allocation n) t = on_pending_allocation n t
  apply (gc_start m) t = on_gc_start m t
  apply (gc_end m) t = on_gc_end m t
  apply (poll collection rounds) t = polled t (is_gc_required collection rounds t)
  apply jank_perceptible_switch t = grow_heap_size_for_event t
  apply clamp_limit t = clamp_growth_limit t
  apply clear_limit t = clear_growth_limit t

  pub run : List Event → ArtTrigger D → ArtTrigger D
  run [] t = t
  run (e ∷ events) t = run events (apply e t)

  pub record IsBounded (t : ArtTrigger D) : Type 0 where
    pub footprint : t.target_footprint ≤ t.growth_limit
    pub limit : t.growth_limit ≤ t.capacity
    pub foreground : t.min_foreground_target_footprint ≤ t.growth_limit

  grow_for_utilization-IsBounded :
      (m : Mmtk) (t : ArtTrigger D) → IsBounded t → IsBounded (grow_for_utilization m t)
  unfolding grow_for_utilization
  grow_for_utilization-IsBounded m t b = ground arith

  is_gc_required-IsBounded :
      (collection : Bool) (rounds : List Round) (t : ArtTrigger D)
      → IsBounded t
      → IsBounded (polled t (is_gc_required collection rounds t))
  unfolding is_gc_required
  is_gc_required-IsBounded collection [] t b = b
  is_gc_required-IsBounded collection (round ∷ rounds) t b =
      ground (arith, is_gc_required-IsBounded collection rounds t b)

  pub apply-IsBounded : (e : Event) (t : ArtTrigger D) → IsBounded t → IsBounded (apply e t)
  unfolding apply
  apply-IsBounded (pending_allocation n) t b = unfold on_pending_allocation in ground arith
  apply-IsBounded (gc_start m) t b = unfold on_gc_start in ground arith
  apply-IsBounded (gc_end m) t b = unfold on_gc_end in ground arith
  apply-IsBounded (poll collection rounds) t b = is_gc_required-IsBounded collection rounds t b
  apply-IsBounded jank_perceptible_switch t b = unfold grow_heap_size_for_event in ground arith
  apply-IsBounded clamp_limit t b = unfold clamp_growth_limit in ground arith
  apply-IsBounded clear_limit t b = unfold clear_growth_limit in ground arith

  -- Through every sequence of allocations, polls, collections, switches to the foreground and
  -- changes of the growth limit, the target footprint stays within the growth limit, the growth
  -- limit within the capacity, and the footprint kept for the foreground within the growth limit.
  pub run-IsBounded :
      (events : List Event) (t : ArtTrigger D) → IsBounded t → IsBounded (run events t)
  unfolding run
  run-IsBounded [] t b = b
  run-IsBounded (e ∷ events) t b = run-IsBounded events (apply e t) (apply-IsBounded e t b)

  -- Created with an initial size within the growth limit and a growth limit within the capacity,
  -- all in bytes, the trigger is bounded from the start.
  pub new-IsBounded :
      (log_page min_free max_free initial capacity growth_limit : ℕ) (utilization multiplier : D.F)
      → initial ≤ growth_limit
      → growth_limit ≤ capacity
      → IsBounded (
          new {D = D} log_page min_free max_free initial capacity growth_limit utilization
            multiplier)
  unfolding new
  new-IsBounded log_page min_free max_free initial capacity growth_limit utilization multiplier p
        q =
      record {
        footprint = shr_mono log_page p;
        limit = shr_mono log_page q;
        foreground = omega arith;
      }

  -- Clamping the maximal heap size keeps the bounds if no larger footprint is kept for the
  -- foreground; the limit, the capacity and the footprint are then all the given size in pages.
  pub clamp_max_heap_size-IsBounded :
      (log_page bytes : ℕ) (t : ArtTrigger D)
      → t.min_foreground_target_footprint ≤ (bytes >>> log_page)
      → let t' = (clamp_max_heap_size log_page bytes t).1 in
        IsBounded t'
        × (t'.capacity ≡ (bytes >>> log_page))
        × (t'.growth_limit ≡ (bytes >>> log_page))
        × (t'.target_footprint ≡ (bytes >>> log_page))
  unfolding clamp_max_heap_size
  clamp_max_heap_size-IsBounded log_page bytes t h = ground arith

  -- A footprint kept for the foreground is not lowered with the maximal heap size: if it is above
  -- the new maximum and the heap is clamped, a switch to the foreground sets the current heap size
  -- above the maximal one, and a poll answers just what the plan asks for while the reserved and
  -- pending pages together stay within that footprint, also above the maximum.
  pub clamp_max_heap_size_exceeded :
      (log_page bytes : ℕ) (t : ArtTrigger D) (collection : Bool) (round : Round)
      (rounds : List Round)
      → (bytes >>> log_page) < t.min_foreground_target_footprint
      → round.reserved_pages + t.pending_allocation < 2 ^ 64
      → round.reserved_pages + t.pending_allocation ≤ t.min_foreground_target_footprint
      → let t' = grow_heap_size_for_event (clamp_max_heap_size log_page bytes t).1 in
        (get_max_heap_size_in_pages t' < get_current_heap_size_in_pages t')
        × (is_gc_required collection (round ∷ rounds) t' ≡ some (collection, t'))
  unfolding clamp_max_heap_size grow_heap_size_for_event get_max_heap_size_in_pages
      get_current_heap_size_in_pages is_gc_required
  clamp_max_heap_size_exceeded log_page bytes t collection round rounds h fits within =
      (ground arith, ground arith)

  -- Clearing the growth limit raises it to the capacity, and the footprint with it if that was at
  -- the limit; after the capacity has been clamped to the growth limit, clearing changes nothing.
  pub clear_growth_limit_lem :
      (t : ArtTrigger D)
      → IsBounded t
      → let cleared = clear_growth_limit t in
        (cleared.growth_limit ≡ t.capacity)
        × (cleared.capacity ≡ t.capacity)
        × (cleared.target_footprint
            ≡ (if t.target_footprint == t.growth_limit then t.capacity else t.target_footprint))
        × (clear_growth_limit (clamp_growth_limit t) ≡ clamp_growth_limit t)
  unfolding clear_growth_limit clamp_growth_limit
  clear_growth_limit_lem t b = ground arith
