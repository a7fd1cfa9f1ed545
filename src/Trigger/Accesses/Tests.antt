-- ===== src/Trigger/Accesses/Tests.antt =====
-- Threads on a concrete trigger.
use mmtk_art.Base.{ℕ, ◌<◌, ◌≡◌, refl, arith}
use mmtk_art.Trigger.Example.{fixed}
use mmtk_art.Trigger.State.{ArtTrigger, new}
use mmtk_art.Trigger.Threads.{idle}
use mmtk_art.Trigger.Accesses.{
  user, Machine, Run, here, then, clamp_max_heap_size, access, clamped_capacity, clamped_limit,
}
use mmtk_art.Trigger.Accesses.Bounds.{IsWithin, Run-IsWithin}
use mmtk_art.Trigger.Accesses.Crossing.{quiet, limits_cross}

-- A heap of 1024 pages that may grow to 16384, of 65536 at most.
abbrev started : ArtTrigger fixed
started = new 12 524288 8388608 4194304 268435456 67108864 768 2048

-- A thread sets the maximal heap size to 80000 pages, and has not yet stored the footprint.
abbrev enlarging : (u : Machine fixed) × Run 80000 (quiet 80000 started) u
unfolding new
enlarging = (
  _,
  then 0 (then 0 (then 0 here (clamp_max_heap_size 80000 (omega arith))) (access clamped_capacity))
      (access clamped_limit),
)

Run-IsWithin_example : IsWithin 80000 enlarging.0.trigger
unfolding new
Run-IsWithin_example =
    Run-IsWithin 80000
      (record {
        footprint = omega arith;
        limit = omega arith;
        capacity = omega arith;
        foreground = omega arith;
      })
      (λ i. refl) enlarging.1

limits_cross_example :
    (u : Machine fixed) × Run 65536 (quiet 65536 started) u
    × ((i : ℕ) → u.threads i ≡ user idle)
    × (u.trigger.growth_limit ≡ 65536)
    × (u.trigger.capacity ≡ 16384)
    × (u.trigger.capacity < u.trigger.growth_limit)
unfolding new
limits_cross_example = limits_cross 65536 started (omega arith)
