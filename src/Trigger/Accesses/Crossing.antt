-- ===== src/Trigger/Accesses/Crossing.antt =====
-- An interleaving of `clear_growth_limit` and `clamp_growth_limit` that crosses the two limits.
use mmtk_art.Base.{ℕ, ◌<◌, ◌≡◌, refl, inl, arith, ℕ_discrete}
use mmtk_art.Trigger.Double.{Double}
use mmtk_art.Trigger.State.{ArtTrigger}
use mmtk_art.Trigger.Threads.{idle, update}
use mmtk_art.Trigger.Accesses.{
  method, clearing, clamping, loaded_capacity, store_capacity, returned, clamp_load,
  stored_capacity, load_capacity, load_limit, at_limit, below_limit, raised_target, stored_limit,
  user, access, return, clamp_growth_limit, clear_growth_limit, Machine, Run, here, then,
}

module _ {D : Double} (max_pages : ℕ) where
  abbrev pub quiet : ArtTrigger D → Machine D
  quiet t = record { trigger = t; threads = λ _. user idle }

  -- Where thread 0 has read the capacity to clear the growth limit, and thread 1 has then clamped
  -- the capacity.
  abbrev clamped : ArtTrigger D → Machine D
  clamped t = record {
    trigger = record t { capacity = t.growth_limit };
    threads =
        update
          (update
            (update
              (update
                (update (update (λ _. user idle) 0 (method clearing)) 0
                  (method (loaded_capacity t.capacity)))
                1 (method clamping))
              1 (method (store_capacity t.growth_limit)))
            1 (method returned))
          1 (user idle);
  }

  run_clamped : (t : ArtTrigger D) → Run max_pages (quiet t) (clamped t)
  run_clamped t =
      let start : Run max_pages (quiet t) (quiet t) = here in
      let read = then 0 (then 0 start clear_growth_limit) (access load_capacity) in
      let called = then 1 (then 1 read clamp_growth_limit) (access clamp_load) in
      then 1 (then 1 called (access stored_capacity)) return

  -- The growth limit is meant to stay within the capacity. If it is below, a thread that clears the
  -- growth limit and one that clamps the capacity to it can swap the two: the growth limit is then
  -- the old capacity, above the new one, when both have returned.
  pub limits_cross :
      (t : ArtTrigger D)
      → t.growth_limit < t.capacity
      → (u : Machine D) × Run max_pages (quiet t) u
        × ((i : ℕ) → u.threads i ≡ user idle)
        × (u.trigger.growth_limit ≡ t.capacity)
        × (u.trigger.capacity ≡ t.growth_limit)
        × (u.trigger.capacity < u.trigger.growth_limit)
  limits_cross t below =
      let loaded = then 0 (run_clamped t) (access load_limit) in
      elim (ℕ_discrete t.target_footprint t.growth_limit) [
        | yes e ↦ (
          _,
          then 0
              (then 0 (then 0 (then 0 loaded (access (at_limit e below))) (access raised_target))
                (access stored_limit))
              return,
          λ i. ground arith,
          refl,
          refl,
          below,
        )
        | no ne ↦ (
          _,
          then 0 (then 0 (then 0 loaded (access (below_limit (inl ne)))) (access stored_limit))
              return,
          λ i. ground arith,
          refl,
          refl,
          below,
        )
      ]
