-- ===== src/WeakRefs/Tests.antt =====
-- Full collections, of which one is an emergency and one in the Zygote, and a nursery one.
use mmtk_art.Base.{◌≡◌, Bool, true, false, [], ◌∷◌, ok}
use mmtk_art.WeakRefs.{
  phase1, phase2, phase3, Collection, sweep_system_weaks, process_references, collections,
}
use mmtk_art.WeakRefs.Phases.{expected, collections_lem}

abbrev collection : (nursery emergency zygote : Bool) → Collection
collection nursery emergency zygote = record {
  is_nursery_collection = nursery;
  is_emergency_collection = emergency;
  is_zygote_process = zygote;
}

collections_lem_example :
    collections 3
      (collection false false false
        ∷ collection true true true
        ∷ collection false true false
        ∷ collection false false true
        ∷ [])
      phase1
    ≡ ok (
      process_references phase1 false
          ∷ process_references phase2 false
          ∷ process_references phase3 false
          ∷ sweep_system_weaks
          ∷ process_references phase1 true
          ∷ process_references phase2 true
          ∷ process_references phase3 true
          ∷ process_references phase1 true
          ∷ process_references phase2 true
          ∷ process_references phase3 true
          ∷ [],
      phase1,
    )
unfolding expected
collections_lem_example = collections_lem (
    collection false false false
    ∷ collection true true true
    ∷ collection false true false
    ∷ collection false false true
    ∷ [])
