-- ===== src/Trigger/Accesses/Bounds.antt =====
-- What no interleaving of the accesses exceeds.
use mmtk_art.Base.{ℕ, ◌≤◌, ◌≡◌, arith, ◌==◌, Bool-cases, inl, inr}
use mmtk_art.Trigger.Double.{Double}
use mmtk_art.Trigger.State.{ArtTrigger}
use mmtk_art.Trigger.Policy.{on_pending_allocation}
use mmtk_art.Trigger.Threads.{Pc, idle, exchange, jank_exchange, Move, load_target, between}
use mmtk_art.Trigger.Accesses.{
  Method, ideal, limited, store_target, store_foreground, store_capacity, loaded_capacity,
  loaded_limit, raise_target, store_limit, clamp_capacity, clamp_limit, Access, Thread, user,
  method, Act, use_trigger, access, clamp_max_heap_size, Machine, Run, here, then, ideal_within,
  load_again, stored_target,
}

module _ (max_pages : ℕ) where
  -- What a thread is about to store is within the maximum.
  abbrev IsSound : Method → Type 0
  IsSound (ideal target next) = IsSound next
  IsSound (limited next) = IsSound next
  IsSound (store_target target next) = (target ≤ max_pages) × IsSound next
  IsSound (store_foreground pages) = pages ≤ max_pages
  IsSound (store_capacity pages) = pages ≤ max_pages
  IsSound (loaded_capacity pages) = pages ≤ max_pages
  IsSound (loaded_limit pages limit) = pages ≤ max_pages
  IsSound (raise_target pages) = pages ≤ max_pages
  IsSound (store_limit pages) = pages ≤ max_pages
  IsSound (clamp_capacity pages) = pages ≤ max_pages
  IsSound (clamp_limit pages) = pages ≤ max_pages
  IsSound _ = Unit

  abbrev IsSoundUser : Pc → Type 0
  IsSoundUser (exchange _ new _) = new ≤ max_pages
  IsSoundUser (jank_exchange _ min_foreground) = min_foreground ≤ max_pages
  IsSoundUser _ = Unit

  abbrev IsSoundThread : Thread → Type 0
  IsSoundThread (user p) = IsSoundUser p
  IsSoundThread (method p) = IsSound p

  idle-IsSound : (p : Thread) → p ≡ user idle → IsSoundThread p
  idle-IsSound p e = rw e tt

  module _ {D : Double} where
    pub record IsWithin (t : ArtTrigger D) : Type 0 where
      pub footprint : t.target_footprint ≤ max_pages
      pub limit : t.growth_limit ≤ max_pages
      pub capacity : t.capacity ≤ max_pages
      pub foreground : t.min_foreground_target_footprint ≤ max_pages

    Move-IsWithin :
        {t t' : ArtTrigger D} {p p' : Pc}
        → Move t p t' p'
        → IsWithin t
        → IsSoundUser p
        → IsWithin t' × IsSoundUser p'
    unfolding on_pending_allocation
    Move-IsWithin load_target w s = ground arith
    Move-IsWithin (between _ within) w s = ground arith
    Move-IsWithin mv w s = ground arith

    Access-IsWithin :
        {t t' : ArtTrigger D} {p p' : Method}
        → Access t p t' p'
        → IsWithin t
        → IsSound p
        → IsWithin t' × IsSound p'
    Access-IsWithin (ideal_within h) w s = ground arith
    Access-IsWithin load_again w s = ground arith
    Access-IsWithin stored_target w s = ground arith
    Access-IsWithin a w s = ground arith

    Act-IsWithin :
        {t t' : ArtTrigger D} {p p' : Thread}
        → Act max_pages t p t' p'
        → IsWithin t
        → IsSoundThread p
        → IsWithin t' × IsSoundThread p'
    Act-IsWithin (use_trigger mv) w s = Move-IsWithin mv w s
    Act-IsWithin (access a) w s = Access-IsWithin a w s
    Act-IsWithin (clamp_max_heap_size pages h) w s = (w, h)
    Act-IsWithin a w s = (w, tt)

    record Inv (s : Machine D) : Type 0 where
      within : IsWithin s.trigger
      sound : (i : ℕ) → IsSoundThread (s.threads i)

    Run-Inv : {s u : Machine D} → Run max_pages s u → Inv s → Inv u
    Run-Inv here inv = inv
    Run-Inv (then {u} i {t} {p} r act) inv =
        let before = Run-Inv r inv in
        let (within, sound) = Act-IsWithin act before.within (before.sound i) in
        record {
          within = within;
          sound = λ j. elim (Bool-cases (i == j)) [
            | inl e ↦ rw e sound
            | inr e ↦ rw e (before.sound j)
          ];
        }

    -- However the threads interleave the single atomic accesses of all methods of the trigger, none
    -- of the footprint, the growth limit, the capacity and the footprint kept for the foreground ever
    -- exceeds a size that they are within at the start and that no maximal heap size set later is
    -- above.
    pub Run-IsWithin :
        {s u : Machine D}
        → IsWithin s.trigger
        → ((i : ℕ) → s.threads i ≡ user idle)
        → Run max_pages s u
        → IsWithin u.trigger
    Run-IsWithin {s} w quiet r =
        (Run-Inv r
          (record { within = w; sound = λ i. idle-IsSound (s.threads i) (quiet i) })).within
