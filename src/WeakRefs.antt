-- ===== src/WeakRefs.antt =====
-- The phases of weak reference processing: `process_weak_refs` of mmtk/src/scanning.rs and
-- `RefProcessingPhase` of mmtk/src/lib.rs.
pub mod Phases
mod Tests
use mmtk_art.Base.{
  ℕ, zero, suc, Bool, true, false, ◌||◌, if◌then◌else◌, List, [], ◌∷◌, ◌++◌, Outcome, ok, loops,
  ◌>>=◌,
}

pub data RefProcessingPhase : Type 0 where
  phase1 phase2 phase3 : RefProcessingPhase

-- What the code asks of the current collection and process.
pub record Collection : Type 0 where
  pub is_nursery_collection : Bool
  pub is_emergency_collection : Bool
  pub is_zygote_process : Bool

-- The upcalls that it makes.
pub data Upcall : Type 0 where
  sweep_system_weaks : Upcall
  process_references : RefProcessingPhase → (clear_soft_references : Bool) → Upcall

abbrev pub clear_soft_references : Collection → Bool
clear_soft_references gc = gc.is_emergency_collection || gc.is_zygote_process

-- The upcall that is made, whether it wants to be called again, and the phase from then on.
pub record Step : Type 0 where
  pub upcall : Upcall
  pub call_again : Bool
  pub current_phase : RefProcessingPhase

-- The `match` on the current phase.
unfoldable pub process_phase : (clear_soft : Bool) → RefProcessingPhase → Step
process_phase clear_soft phase1 = record {
  upcall = process_references phase1 clear_soft;
  call_again = true;
  current_phase = phase2;
}
process_phase clear_soft phase2 = record {
  upcall = process_references phase2 clear_soft;
  call_again = true;
  current_phase = phase3;
}
process_phase clear_soft phase3 = record {
  upcall = process_references phase3 clear_soft;
  call_again = false;
  current_phase = phase1;
}

unfoldable pub process_weak_refs : Collection → RefProcessingPhase → Step
unfolding process_phase
process_weak_refs gc phase =
    if gc.is_nursery_collection
    then record { upcall = sweep_system_weaks; call_again = false; current_phase = phase }
    else process_phase (clear_soft_references gc) phase

-- A collection calls `process_weak_refs` until it returns false: the upcalls, and the phase at the
-- end.
unfoldable pub collect :
    ℕ → Collection → RefProcessingPhase → Outcome (List Upcall × RefProcessingPhase)
unfolding process_weak_refs
collect zero gc phase = loops
collect (suc fuel) gc phase =
    let step = process_weak_refs gc phase in
    let again = collect fuel gc step.current_phase in
    let with_rest = again >>= λ rest. ok (step.upcall ∷ rest.0, rest.1) in
    if step.call_again then with_rest else ok (step.upcall ∷ [], step.current_phase)

-- One collection after another, each with the same fuel.
unfoldable pub collections :
    ℕ → List Collection → RefProcessingPhase → Outcome (List Upcall × RefProcessingPhase)
collections fuel [] phase = ok ([], phase)
collections fuel (gc ∷ gcs) phase = do
  (upcalls, next) ← collect fuel gc phase
  (rest, last) ← collections fuel gcs next
  ok (upcalls ++ rest, last)
