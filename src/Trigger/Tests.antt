-- ===== src/Trigger/Tests.antt =====
-- The trigger on concrete values, with fixed-point numbers in the place of `f64`.
use mmtk_art.Base.{
  ℕ, ◌+◌, ◌-◌, ◌≤◌, ◌<◌, ◌^◌, ◌≡◌, refl, min, max, ltb, if◌then◌else◌, Bool, true, false, some,
  List, [], ◌∷◌, arith, usize_max,
}
use mmtk_art.Trigger.Example.{fixed}
use mmtk_art.Trigger.State.{Mmtk, ArtTrigger, new}
use mmtk_art.Trigger.Policy.{
  Round, is_gc_required, on_gc_end, clamp_max_heap_size, grow_heap_size_for_event,
  get_current_heap_size_in_pages, get_max_heap_size_in_pages,
}
use mmtk_art.Trigger.Limits.{
  Event, gc_start, gc_end, poll, pending_allocation, jank_perceptible_switch, clear_limit, run,
  IsBounded, run-IsBounded, new-IsBounded, clamp_max_heap_size_exceeded,
}
use mmtk_art.Trigger.Polling.{after_failures, IsPolled, is_gc_required-IsPolled}
use mmtk_art.Trigger.Sizing.{on_gc_end_full, on_gc_end_nursery}
use mmtk_art.Trigger.Relief.{on_gc_end-is_gc_required}
use mmtk_art.Trigger.Threads.{
  System, Reach, here, later, thread, load_target, get_reserved, load_pending, between, exchanged,
}
use mmtk_art.Trigger.Threads.Bounds.{Reach-IsBounded}
use mmtk_art.Trigger.Threads.Races.{quiet, pending_wraps, jank_switch_shrinks}

-- A heap of 4 MB that may grow to 64 MB, of 256 MB at most, with a utilization of 0.75.
abbrev started : ArtTrigger fixed
started = new 12 524288 8388608 4194304 268435456 67108864 768 2048

abbrev background : ℕ → Mmtk
background reserved = record {
  reserved_pages = reserved;
  is_jank_perceptible = false;
  is_nursery_collection = false;
}

abbrev nursery : ℕ → Mmtk
nursery reserved = record {
  reserved_pages = reserved;
  is_jank_perceptible = false;
  is_nursery_collection = true;
}

abbrev trigger_with : (target pending min_foreground limit : ℕ) → ArtTrigger fixed
trigger_with target pending min_foreground limit = record {
  min_free = 128;
  max_free = 2048;
  capacity = limit;
  growth_limit = limit;
  target_utilization = 768;
  target_footprint = target;
  pending_allocation = pending;
  reserved_pages_before_gc = 0;
  concurrent_start_pages = usize_max;
  foreground_heap_growth_multiplier = 2048;
  min_foreground_target_footprint = min_foreground;
  min_foreground_concurrent_start_pages = 0;
}

-- 900 reserved pages at utilization 0.75 want 299 more; in the foreground twice as many.
sizes_after_gc :
    ((on_gc_end (background 900) started).target_footprint ≡ 1199)
    × ((on_gc_end (background 900) started).min_foreground_target_footprint ≡ 1498)
    × ((on_gc_end (nursery 900) started).target_footprint ≡ 1024)
unfolding on_gc_end new
sizes_after_gc = (refl, refl, refl)

abbrev history : List Event
history =
    pending_allocation 40
    ∷ poll false (after_failures 2 1000)
    ∷ gc_start (background 900)
    ∷ gc_end (background 900)
    ∷ jank_perceptible_switch
    ∷ clear_limit
    ∷ []

started-IsBounded : IsBounded started
started-IsBounded =
    new-IsBounded 12 524288 8388608 4194304 268435456 67108864 768 2048 (omega arith) (omega arith)

run-IsBounded_example : IsBounded (run history started)
run-IsBounded_example = run-IsBounded history started started-IsBounded

-- Polled with 1040 pages the heap of 1024 grows; the growth limit of 1030 forbids it.
polled :
    is_gc_required false (after_failures 2 1000) (trigger_with 1024 40 0 1030)
    ≡ some (true, trigger_with 1024 40 0 1030)
unfolding is_gc_required
polled = refl

is_gc_required-IsPolled_example :
    (required : Bool) × (t' : ArtTrigger fixed) × (is_gc_required false
        (after_failures 2 1000)
        (trigger_with 1024 40 0 2048)
      ≡ some (required, t'))
    × IsPolled false 1040 (trigger_with 1024 40 0 2048) required t'
is_gc_required-IsPolled_example =
    is_gc_required-IsPolled false 2 1000 (trigger_with 1024 40 0 2048) (omega arith)

abbrev reserving : ℕ → Round
reserving pages = record { reserved_pages = pages; exchanged = true }

clamp_max_heap_size_exceeded_example :
    let t' =
      grow_heap_size_for_event (clamp_max_heap_size 12 4194304 (trigger_with 1500 0 2048 4096)).1 in
    (get_max_heap_size_in_pages t' < get_current_heap_size_in_pages t')
    × (is_gc_required false (reserving 2000 ∷ []) t' ≡ some (false, t'))
clamp_max_heap_size_exceeded_example =
    clamp_max_heap_size_exceeded 12 4194304 (trigger_with 1500 0 2048 4096) false (reserving 2000)
      [] (omega arith) (omega arith) (omega arith)

on_gc_end_full_example :
    let t' = on_gc_end (background 900) (trigger_with 1024 40 0 4096) in
    (min 4096 (900 + 128) ≤ t'.target_footprint)
    × (min 4096 (900 + 40) ≤ t'.target_footprint)
    × (t'.target_footprint ≤ 4096)
    × (grow : ℕ) × (128 ≤ grow)
    × (grow ≤ max 128 2048)
    × (t'.target_footprint ≡ min 4096 (900 + grow + (if ltb grow 40 then 40 else 0)))
    × (t'.pending_allocation ≡ 0)
    × (t'.reserved_pages_before_gc ≡ 0)
on_gc_end_full_example =
    on_gc_end_full (background 900) (trigger_with 1024 40 0 4096)
      (record {
        background = refl;
        small_reserved = omega arith;
        small_min = omega arith;
        small_max = omega arith;
        small_target = omega arith;
        small_pending = omega arith;
      })
      refl

-- A full collection leaves 900 pages, and `min_free` is 128.
on_gc_end-is_gc_required_example :
    let t' = on_gc_end (background 900) (trigger_with 1024 40 0 4096) in
    (is_gc_required true (reserving 1028 ∷ []) t' ≡ some (true, t'))
    × (is_gc_required true (reserving 5000 ∷ []) t' ≡ some (true, t'))
on_gc_end-is_gc_required_example =
    on_gc_end-is_gc_required (background 900) (trigger_with 1024 40 0 4096) true (reserving 1028)
      (reserving 5000) []
      (record {
        background = refl;
        small_reserved = omega arith;
        small_min = omega arith;
        small_max = omega arith;
        small_target = omega arith;
        small_pending = omega arith;
      })
      (omega arith) (omega arith) (omega arith) (omega arith)

on_gc_end_nursery_example :
    (on_gc_end (nursery 900) (trigger_with 1024 0 0 4096)).target_footprint
    ≡ min 4096 (max 900 (min 1024 (900 + 2048)))
on_gc_end_nursery_example =
    on_gc_end_nursery (nursery 900) (trigger_with 1024 0 0 4096)
      (record {
        background = refl;
        small_reserved = omega arith;
        small_min = omega arith;
        small_max = omega arith;
        small_target = omega arith;
        small_pending = omega arith;
      })
      refl refl

-- One thread's poll raises the footprint while another thread is in a poll.
Reach-IsBounded_example :
    IsBounded (record (trigger_with 1024 40 0 4096) { target_footprint = 1040 })
    × ((trigger_with 1040 40 0 4096).growth_limit ≡ (trigger_with 1024 40 0 4096).growth_limit)
    × ((trigger_with 1040 40 0 4096).capacity ≡ (trigger_with 1024 40 0 4096).capacity)
Reach-IsBounded_example =
    Reach-IsBounded {s = quiet (trigger_with 1024 40 0 4096)} (omega arith) (λ i. refl)
      (later
        (later
          (later
            (later (later (later here (thread 1 load_target)) (thread 0 load_target))
              (thread 0 (get_reserved 1000)))
            (thread 0 load_pending))
          (thread 0 (between (omega arith) (omega arith))))
        (thread 0 (exchanged refl)))

pending_wraps_example :
    (u : System fixed) × Reach (quiet (trigger_with 1024 40 0 4096)) u
    × (u.trigger.pending_allocation ≡ 2 ^ 64 - 40)
    × (u.trigger.target_footprint ≡ 1041)
pending_wraps_example =
    pending_wraps (trigger_with 1024 40 0 4096) 1000 1001 (omega arith) (omega arith) (omega arith)
      (omega arith) (omega arith)

jank_switch_shrinks_example :
    (u v : System fixed) × Reach (quiet (trigger_with 1024 40 1500 4096)) u
    × Reach u v
    × (u.trigger.target_footprint ≡ 2040)
    × (v.trigger.target_footprint ≡ 1500)
    × (v.trigger.target_footprint < u.trigger.target_footprint)
jank_switch_shrinks_example =
    jank_switch_shrinks (trigger_with 1024 40 1500 4096) 2000 (omega arith) (omega arith)
      (omega arith) (omega arith)
