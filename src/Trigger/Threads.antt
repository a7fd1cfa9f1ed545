-- ===== src/Trigger/Threads.antt =====
-- Threads that use the trigger at the same time: `is_gc_required`, `on_pending_allocation` and
-- `grow_heap_on_jank_perceptible_switch` of mmtk/src/gc_trigger.rs, one atomic access at a time, in
-- any order, while no collection and no change of the limits is under way: `Trigger.Accesses` has
-- these, too.
pub mod Bounds
pub mod Races
use mmtk_art.Base.{
  ℕ, ◌+◌, ◌≤◌, ◌<◌, ◌≡◌, ◌≢◌, Bool, true, false, ◌==◌, if◌then◌else◌, usize, sub_usize,
}
use mmtk_art.Trigger.Double.{Double}
use mmtk_art.Trigger.State.{Mmtk, ArtTrigger, clear_growth_limit}
use mmtk_art.Trigger.Policy.{on_pending_allocation, on_gc_start, on_gc_end, clamp_growth_limit}

-- Where a thread stands, with its local variables.
pub data Pc : Type 0 where
  idle : Pc  -- outside, or at the head of the loop in `is_gc_required`
  loaded_target : (old_target : ℕ) → Pc
  loaded_reserved : (old_target reserved_pages : ℕ) → Pc
  loaded_pending : (old_target new_target pending : ℕ) → Pc
  exchange : (old_target new_target pending : ℕ) → Pc
  subtract : (pending : ℕ) → Pc
  answered : (gc_required : Bool) → Pc
  jank_loaded : (target : ℕ) → Pc
  jank_loop : (target : ℕ) → Pc
  jank_exchange : (target min_foreground : ℕ) → Pc

module _ {D : Double} where
  -- One access of one thread, from the trigger `t`.
  pub data Move (t : ArtTrigger D) : Pc → ArtTrigger D → Pc → Type 0 where
    load_target : Move t idle t (loaded_target t.target_footprint)
    get_reserved :
        {old : ℕ} (reserved : ℕ) → Move t (loaded_target old) t (loaded_reserved old reserved)
    load_pending :
        {old reserved : ℕ}
        → Move t
            (loaded_reserved old reserved)
            t
            (loaded_pending old (usize (reserved + t.pending_allocation)) t.pending_allocation)
    fits : {old new p : ℕ} → new ≤ old → Move t (loaded_pending old new p) t (answered false)
    over :
        {old new p : ℕ}
        → old < new
        → t.growth_limit < new
        → Move t (loaded_pending old new p) t (answered true)
    between :
        {old new p : ℕ}
        → old < new
        → new ≤ t.growth_limit
        → Move t (loaded_pending old new p) t (exchange old new p)
    exchanged :
        {old new p : ℕ}
        → t.target_footprint ≡ old
        → Move t (exchange old new p) (record t { target_footprint = new }) (subtract p)
    -- The weak exchange may fail for no reason.
    failed : {old new p : ℕ} → Move t (exchange old new p) t idle
    subtracted :
        {p : ℕ}
        → Move t
            (subtract p)
            (record t { pending_allocation = sub_usize t.pending_allocation p })
            (answered false)
    returned : {b : Bool} → Move t (answered b) t idle
    pend : (pages : ℕ) → Move t idle (on_pending_allocation pages t) idle
    jank_load : Move t idle t (jank_loaded t.target_footprint)
    jank_skip :
        {target : ℕ}
        → t.min_foreground_target_footprint ≤ target
        → Move t (jank_loaded target) t idle
    jank_enter :
        {target : ℕ}
        → target < t.min_foreground_target_footprint
        → Move t (jank_loaded target) t (jank_loop target)
    jank_load_min :
        {target : ℕ}
        → Move t (jank_loop target) t (jank_exchange target t.min_foreground_target_footprint)
    jank_exchanged :
        {target min_foreground : ℕ}
        → t.target_footprint ≡ target
        → Move t
            (jank_exchange target min_foreground)
            (record t { target_footprint = min_foreground })
            idle
    jank_failed :
        {target min_foreground : ℕ}
        → t.target_footprint ≢ target
        → Move t (jank_exchange target min_foreground) t (jank_loop t.target_footprint)

abbrev pub update {ℓ} : {A : Type ℓ} → (ℕ → A) → ℕ → A → ℕ → A
update pc i p j = if i == j then p else pc j

pub record System (D : Double) : Type 0 where
  pub trigger : ArtTrigger D
  pub pc : ℕ → Pc

module _ {D : Double} where
  pub data Step (s : System D) : System D → Type 0 where
    thread :
        (i : ℕ) {t : ArtTrigger D} {p : Pc}
        → Move s.trigger (s.pc i) t p
        → Step s (record { trigger = t; pc = update s.pc i p })

  pub data Reach (s : System D) : System D → Type 0 where
    here : Reach s s
    later : {u v : System D} → Reach s u → Step u v → Reach s v
