-- ===== src/Unsupported.antt =====
-- What mmtk-core can ask for and the binding does not implement: mmtk/src/reference_glue.rs, and
-- methods of mmtk/src/object_model.rs, mmtk/src/scanning.rs and mmtk/src/active_plan.rs. The types
-- of mmtk-core are numbers.
use mmtk_art.Base.{ℕ, Bool, Option, List, Outcome, panic}

-- `ArtReferenceGlue`
unfoldable pub set_referent : (reference referent : ℕ) → Outcome (Unit {0})
set_referent reference referent = panic

unfoldable pub get_referent : (object : ℕ) → Outcome (Option ℕ)
get_referent object = panic

unfoldable pub enqueue_references : (references : List ℕ) → (tls : ℕ) → Outcome (Unit {0})
enqueue_references references tls = panic

unfoldable pub clear_referent : (new_reference : ℕ) → Outcome (Unit {0})
clear_referent new_reference = panic

-- `ArtObjectModel`
unfoldable pub copy_to : (original copied region : ℕ) → Outcome ℕ
copy_to original copied region = panic

unfoldable pub get_reference_when_copied_to : (original copied : ℕ) → Outcome ℕ
get_reference_when_copied_to original copied = panic

unfoldable pub get_type_descriptor : (reference : ℕ) → Outcome (List ℕ)
get_type_descriptor reference = panic

-- `ArtScanning`
unfoldable pub notify_initial_thread_scan_complete :
    (partial_scan : Bool) → (tls : ℕ) → Outcome (Unit {0})
notify_initial_thread_scan_complete partial_scan tls = panic

unfoldable pub supports_return_barrier : Outcome Bool
supports_return_barrier = panic

unfoldable pub prepare_for_roots_re_scanning : Outcome (Unit {0})
prepare_for_roots_re_scanning = panic

-- `ArtActivePlan::vm_trace_object`
unfoldable pub vm_trace_object : (queue object worker : ℕ) → Outcome ℕ
vm_trace_object queue object worker = panic
