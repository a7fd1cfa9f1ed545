-- ===== src/WeakRefs/Phases.antt =====
-- Every collection goes through the phases that it should, in order.
use mmtk_art.Base.{ℕ, ◌+◌, ◌≡◌, refl, List, [], ◌∷◌, ◌||◌, if◌then◌else◌, ok, concat_map, arith}
use mmtk_art.WeakRefs.{
  phase1, phase2, phase3, Collection, Upcall, sweep_system_weaks, process_references, process_phase,
  process_weak_refs, collect, collections,
}

-- What a collection should do, without any state: soft references are cleared in an emergency and
-- in the Zygote.
unfoldable pub expected : Collection → List Upcall
expected gc =
    if gc.is_nursery_collection
    then sweep_system_weaks ∷ []
    else let clear = gc.is_emergency_collection || gc.is_zygote_process in
      process_references phase1 clear
      ∷ process_references phase2 clear
      ∷ process_references phase3 clear
      ∷ []

collect_lem : (fuel : ℕ) (gc : Collection) → collect (3 + fuel) gc phase1 ≡ ok (expected gc, phase1)
unfolding collect process_weak_refs process_phase expected
collect_lem fuel gc = ground arith

-- From the initial phase on, every sequence of collections, nursery and full ones mixed, ends with
-- three calls for a collection and is back in the first phase: a nursery collection only sweeps
-- the system weaks, and a full one processes the references of phase 1, 2 and 3 in this order,
-- clearing soft references exactly if it is an emergency or the process is the Zygote.
pub collections_lem :
    (gcs : List Collection) → collections 3 gcs phase1 ≡ ok (concat_map expected gcs, phase1)
unfolding collections
collections_lem [] = refl
collections_lem (gc ∷ gcs) = rw (collect_lem 0 gc, collections_lem gcs) refl
