-- ===== src/Trigger/Accesses.antt =====
-- Every method of the trigger one atomic access at a time, in any order of the threads: also the
-- collector's and the changes of the limits, mmtk/src/gc_trigger.rs, which `Trigger.Threads`
-- leaves out.
pub mod Bounds
pub mod Crossing
mod Tests
use mmtk_art.Base.{
  ℕ, ◌+◌, min, max, ◌≤◌, ◌<◌, ◌≡◌, ◌≢◌, ◌⊎◌, Bool, true, false, ◌&&◌, ltb, usize, sub_usize,
}
use mmtk_art.Trigger.Double.{Double}
use mmtk_art.Trigger.State.{Mmtk, ArtTrigger, get_heap_growth_multiplier}
use mmtk_art.Trigger.Threads.{Pc, idle, Move, update}

-- Where a thread stands in a method that changes the trigger, with its local variables; `next` is
-- where a call returns to.
pub data Method : Type 0 where
  returned : Method
  -- `on_gc_start`
  starting : (reserved_pages : ℕ) → Method
  -- `set_ideal_footprint`
  ideal : (target_footprint : ℕ) → (next : Method) → Method
  limited : (next : Method) → Method
  store_target : (target_footprint : ℕ) → (next : Method) → Method
  -- `on_gc_end` with `grow_for_utilization`, on what the plan and the instance answered
  growing nursery_over : Mmtk → Method
  sized adding_pending : Mmtk → (target_size grow_pages : ℕ) → Method
  foreground : Mmtk → (grow_pages : ℕ) → Method
  store_foreground : (min_foreground : ℕ) → Method
  store_pending store_reserved : Method
  -- `clamp_growth_limit`
  clamping : Method
  store_capacity : (growth_limit : ℕ) → Method
  -- `clear_growth_limit`
  clearing : Method
  loaded_capacity : (capacity : ℕ) → Method
  loaded_limit : (capacity growth_limit : ℕ) → Method
  raise_target store_limit : (capacity : ℕ) → Method
  -- `clamp_max_heap_size`
  clamp_capacity clamp_limit : (max_heap_pages : ℕ) → Method

module _ {D : Double} where
  open D use {one, mul, le, from_usize, to_usize}

  -- The pages that a nursery collection leaves free.
  abbrev pub adjusted_max_free : Mmtk → ArtTrigger D → ℕ
  unfolding get_heap_growth_multiplier
  adjusted_max_free m t =
      to_usize (mul (from_usize t.max_free) (get_heap_growth_multiplier m.is_jank_perceptible t))

  -- The sizes that a full collection computes, without an access: the target size, and the pages
  -- to grow by.
  abbrev pub grown : Mmtk → ArtTrigger D → ℕ × ℕ
  unfolding get_heap_growth_multiplier
  grown m t =
      let delta =
        to_usize (mul (from_usize m.reserved_pages) (D.sub (D.div one t.target_utilization) one)) in
      let grow_pages = max (min delta t.max_free) t.min_free in
      (
        usize (
            m.reserved_pages
            + to_usize
                (mul (from_usize grow_pages) (get_heap_growth_multiplier m.is_jank_perceptible t))),
        grow_pages,
      )

  -- Whether a footprint is kept for the foreground, and which, within the limit that is loaded.
  abbrev pub keeps_foreground : Mmtk → (grow_pages : ℕ) → ArtTrigger D → Bool
  unfolding get_heap_growth_multiplier
  keeps_foreground m grow_pages t =
      le (get_heap_growth_multiplier m.is_jank_perceptible t) one && ltb 0 grow_pages

  abbrev pub kept_foreground : Mmtk → (grow_pages : ℕ) → ArtTrigger D → ℕ
  kept_foreground m grow_pages t =
      min
        (usize (
          m.reserved_pages
          + to_usize (mul (from_usize grow_pages) t.foreground_heap_growth_multiplier)))
        t.growth_limit

  -- One access in such a method, from the trigger `t`.
  pub data Access (t : ArtTrigger D) : Method → ArtTrigger D → Method → Type 0 where
    started :
        {reserved : ℕ}
        → Access t (starting reserved) (record t { reserved_pages_before_gc = reserved }) returned
    ideal_within :
        {target : ℕ} {next : Method}
        → target ≤ t.growth_limit
        → Access t (ideal target next) t (store_target target next)
    ideal_over :
        {target : ℕ} {next : Method}
        → t.growth_limit < target
        → Access t (ideal target next) t (limited next)
    load_again : {next : Method} → Access t (limited next) t (store_target t.growth_limit next)
    stored_target :
        {target : ℕ} {next : Method}
        → Access t (store_target target next) (record t { target_footprint = target }) next
    grow_full :
        {m : Mmtk}
        → m.is_nursery_collection ≡ false
        → Access t (growing m) t (sized m (grown m t).0 (grown m t).1)
    grow_nursery :
        {m : Mmtk}
        → m.is_nursery_collection ≡ true
        → usize (m.reserved_pages + adjusted_max_free m t) < t.target_footprint
        → Access t
            (growing m)
            t
            (sized m (usize (m.reserved_pages + adjusted_max_free m t)) t.max_free)
    nursery_full :
        {m : Mmtk}
        → m.is_nursery_collection ≡ true
        → t.target_footprint ≤ usize (m.reserved_pages + adjusted_max_free m t)
        → Access t (growing m) t (nursery_over m)
    keep_nursery :
        {m : Mmtk}
        → Access t (nursery_over m) t (sized m (max m.reserved_pages t.target_footprint) 0)
    pending_fits :
        {m : Mmtk} {target grow_pages : ℕ}
        → t.pending_allocation ≤ sub_usize target m.reserved_pages
        → Access t (sized m target grow_pages) t (ideal target (foreground m grow_pages))
    pending_over :
        {m : Mmtk} {target grow_pages : ℕ}
        → sub_usize target m.reserved_pages < t.pending_allocation
        → Access t (sized m target grow_pages) t (adding_pending m target grow_pages)
    add_pending :
        {m : Mmtk} {target grow_pages : ℕ}
        → Access t
            (adding_pending m target grow_pages)
            t
            (ideal (usize (target + t.pending_allocation)) (foreground m grow_pages))
    keep_foreground :
        {m : Mmtk} {grow_pages : ℕ}
        → keeps_foreground m grow_pages t ≡ true
        → Access t (foreground m grow_pages) t (store_foreground (kept_foreground m grow_pages t))
    no_foreground :
        {m : Mmtk} {grow_pages : ℕ}
        → keeps_foreground m grow_pages t ≡ false
        → Access t (foreground m grow_pages) t (store_foreground 0)
    stored_foreground :
        {min_foreground : ℕ}
        → Access t
            (store_foreground min_foreground)
            (record t { min_foreground_target_footprint = min_foreground })
            store_pending
    stored_pending : Access t store_pending (record t { pending_allocation = 0 }) store_reserved
    stored_reserved : Access t store_reserved (record t { reserved_pages_before_gc = 0 }) returned
    clamp_load : Access t clamping t (store_capacity t.growth_limit)
    stored_capacity :
        {limit : ℕ} → Access t (store_capacity limit) (record t { capacity = limit }) returned
    load_capacity : Access t clearing t (loaded_capacity t.capacity)
    load_limit :
        {capacity : ℕ}
        → Access t (loaded_capacity capacity) t (loaded_limit capacity t.growth_limit)
    at_limit :
        {capacity limit : ℕ}
        → t.target_footprint ≡ limit
        → limit < capacity
        → Access t (loaded_limit capacity limit) t (raise_target capacity)
    below_limit :
        {capacity limit : ℕ}
        → (t.target_footprint ≢ limit) ⊎ (capacity ≤ limit)
        → Access t (loaded_limit capacity limit) t (store_limit capacity)
    raised_target :
        {capacity : ℕ}
        → Access t
            (raise_target capacity)
            (record t { target_footprint = capacity })
            (store_limit capacity)
    stored_limit :
        {capacity : ℕ}
        → Access t (store_limit capacity) (record t { growth_limit = capacity }) returned
    clamped_capacity :
        {pages : ℕ}
        → Access t (clamp_capacity pages) (record t { capacity = pages }) (clamp_limit pages)
    clamped_limit :
        {pages : ℕ}
        → Access t (clamp_limit pages) (record t { growth_limit = pages }) (ideal pages returned)

-- A thread polls, allocates or switches to the foreground, or it is in one of the methods above.
pub data Thread : Type 0 where
  user : Pc → Thread
  method : Method → Thread

module _ {D : Double} (max_pages : ℕ) where
  -- What a thread does next. The methods can be called at any time, with a maximal heap size of at
  -- most `max_pages`.
  pub data Act (t : ArtTrigger D) : Thread → ArtTrigger D → Thread → Type 0 where
    use_trigger : {t' : ArtTrigger D} {p p' : Pc} → Move t p t' p' → Act t (user p) t' (user p')
    access :
        {t' : ArtTrigger D} {p p' : Method} → Access t p t' p' → Act t (method p) t' (method p')
    return : Act t (method returned) t (user idle)
    on_gc_start : (reserved : ℕ) → Act t (user idle) t (method (starting reserved))
    on_gc_end : (m : Mmtk) → Act t (user idle) t (method (growing m))
    clamp_growth_limit : Act t (user idle) t (method clamping)
    clear_growth_limit : Act t (user idle) t (method clearing)
    clamp_max_heap_size :
        (pages : ℕ) → pages ≤ max_pages → Act t (user idle) t (method (clamp_capacity pages))

pub record Machine (D : Double) : Type 0 where
  pub trigger : ArtTrigger D
  pub threads : ℕ → Thread

module _ {D : Double} (max_pages : ℕ) where
  pub data Run (s : Machine D) : Machine D → Type 0 where
    here : Run s s
    then :
        {u : Machine D} (i : ℕ) {t : ArtTrigger D} {p : Thread}
        → Run s u
        → Act max_pages u.trigger (u.threads i) t p
        → Run s (record { trigger = t; threads = update u.threads i p })
