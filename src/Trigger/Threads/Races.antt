-- ===== src/Trigger/Threads/Races.antt =====
-- Two interleavings in which the trigger loses what its methods mean to keep.
use mmtk_art.Base.{ℕ, ◌+◌, ◌-◌, ◌≤◌, ◌<◌, ◌^◌, ◌≡◌, refl, arith}
use mmtk_art.Trigger.Double.{Double}
use mmtk_art.Trigger.State.{ArtTrigger}
use mmtk_art.Trigger.Threads.{
  idle, load_target, get_reserved, load_pending, between, exchanged, subtracted, jank_load,
  jank_enter, jank_load_min, jank_exchanged, jank_failed, System, Reach, thread, here, later,
}

module _ {D : Double} where
  abbrev pub quiet : ArtTrigger D → System D
  quiet t = record { trigger = t; pc = λ _. idle }

  -- Two polls that both raise the footprint both subtract the pending pages. Whenever a poll with
  -- `r` reserved pages has to raise the footprint within the growth limit, pages are pending, and a
  -- second poll before the first has subtracted sees more pages reserved, still within the limit,
  -- the count of the pending pages can wrap round below zero.
  pub pending_wraps :
      (t : ArtTrigger D) (r r' : ℕ)
      → 0 < t.pending_allocation
      → t.growth_limit < 2 ^ 64
      → t.target_footprint < r + t.pending_allocation
      → r < r'
      → r' + t.pending_allocation ≤ t.growth_limit
      → (u : System D) × Reach (quiet t) u
        × (u.trigger.pending_allocation ≡ 2 ^ 64 - t.pending_allocation)
        × (u.trigger.target_footprint ≡ r' + t.pending_allocation)
  pending_wraps t r r' pending small low more within =
      let start : Reach (quiet t) (quiet t) = here in
      let raised =
        (later
          (later
            (later (later (later (start) (thread 0 load_target)) (thread 0 (get_reserved r)))
              (thread 0 load_pending))
            (thread 0 (between (omega arith) (omega arith))))
          (thread 0 (exchanged refl))) in
      let raised_twice =
        later
          (later
            (later (later (later raised (thread 1 load_target)) (thread 1 (get_reserved r')))
              (thread 1 load_pending))
            (thread 1 (between (omega arith) (omega arith))))
          (thread 1 (exchanged refl)) in
      (
        _,
        later (later raised_twice (thread 0 subtracted)) (thread 1 subtracted),
        omega arith,
        omega arith,
      )

  -- A switch to the foreground can shrink the heap. If the footprint is below the one kept for the
  -- foreground, and a poll raises it above that while the switch is under way, the switch, which
  -- tries its exchange again with the footprint it then finds, sets it back.
  pub jank_switch_shrinks :
      (t : ArtTrigger D) (r : ℕ)
      → t.target_footprint < t.min_foreground_target_footprint
      → t.min_foreground_target_footprint < r + t.pending_allocation
      → r + t.pending_allocation ≤ t.growth_limit
      → t.growth_limit < 2 ^ 64
      → (u v : System D) × Reach (quiet t) u
        × Reach u v
        × (u.trigger.target_footprint ≡ r + t.pending_allocation)
        × (v.trigger.target_footprint ≡ t.min_foreground_target_footprint)
        × (v.trigger.target_footprint < u.trigger.target_footprint)
  jank_switch_shrinks t r low above within small =
      let start : Reach (quiet t) (quiet t) = here in
      let switching = later (later (start) (thread 0 jank_load)) (thread 0 (jank_enter low)) in
      let polled =
        later
          (later
            (later (later (later switching (thread 1 load_target)) (thread 1 (get_reserved r)))
              (thread 1 load_pending))
            (thread 1 (between (omega arith) (omega arith))))
          (thread 1 (exchanged refl)) in
      (
        _,
        _,
        polled,
        later
            (later
              (later (later here (thread 0 jank_load_min)) (thread 0 (jank_failed (omega arith))))
              (thread 0 jank_load_min))
            (thread 0 (jank_exchanged refl)),
        omega arith,
        refl,
        omega arith,
      )
