-- ===== src/Startup.antt =====
-- Starting MMTk: the statics and `set_vm_layout` of mmtk/src/lib.rs, the initialization functions
-- of mmtk/src/api.rs and `create_gc_trigger` of mmtk/src/collection.rs.
pub mod Layout
pub mod Once
pub mod HeapSize
pub mod Example
mod Tests
use mmtk_art.Base.{
  ℕ, ◌+◌, ◌*◌, ◌^◌, ◌≤◌, ◌<◌, ◌≡◌, Bool, true, false, not, ◌&&◌, ◌||◌, Option, none, some, List, [],
  ◌∷◌, Outcome, ok, ◌>>=◌, ◌>>◌, assert, leb, ◌==◌, if◌then◌else◌, usize, ◌<<<◌,
}
use mmtk_art.Trigger.Double.{Double}
use mmtk_art.Trigger.State.{ArtTriggerInit, ArtTrigger, new}

pub record VmLayout : Type 0 where
  pub log_address_space : ℕ
  pub heap_start : ℕ
  pub heap_end : ℕ
  pub log_space_extent : ℕ
  pub force_use_contiguous_spaces : Bool

pub data GcTriggerSelector : Type 0 where
  fixed_heap_size : ℕ → GcTriggerSelector
  delegated : GcTriggerSelector

-- What the code uses of mmtk-core: the options of a builder, the instance that is made from them,
-- and the alignment to chunks.
pub record Core : Type 1 where
  pub Plan : Type 0
  pub Builder : Type 0
  pub Instance : Type 0
  pub set_plan : Plan → Builder → Builder
  pub set_is_zygote_process : Bool → Builder → Builder
  pub is_zygote_process : Builder → Bool
  pub set_gc_trigger : GcTriggerSelector → Builder → Bool × Builder
  pub set_layout : VmLayout → Builder → Builder
  pub init : Builder → Instance
  pub bytes_in_chunk : ℕ
  pub chunk_align_down : ℕ → ℕ
  pub chunk_align_up : ℕ → ℕ
  -- The option holds what it was set to.
  pub is_zygote_process_lem :
      (z : Bool) (b : Builder) → is_zygote_process (set_is_zygote_process z b) ≡ z
  pub chunk_align_down-le : (a : ℕ) → chunk_align_down a ≤ a
  pub lt-chunk_align_down : (a : ℕ) → a < chunk_align_down a + bytes_in_chunk
  pub le-chunk_align_up : (a : ℕ) → a ≤ chunk_align_up a
  pub chunk_align_up-lt : (a : ℕ) → chunk_align_up a < a + bytes_in_chunk

-- The statics, and the threads with which mmtk-core's `initialize_collection` was called.
pub record Statics (C : Core) (D : Double) : Type 0 where
  pub upcalls : Option ℕ
  pub builder : C.Builder
  pub trigger_init : ArtTriggerInit D
  pub singleton : Option C.Instance
  pub is_mmtk_initialized : Bool
  pub is_mmtk_reinitializing : Bool
  pub art_pointer_size : ℕ
  pub collections : List ℕ

-- A build with `debug_assertions`, and one with the feature `ss_no_gc_in_harness`.
pub record Build : Type 0 where
  pub debug_assertions : Bool
  pub ss_no_gc_in_harness : Bool

abbrev pub debug_assert : Build → Bool → Outcome (Unit {0})
debug_assert build condition = if build.debug_assertions then assert condition else ok tt

-- Equality of `bool`.
abbrev pub bool_eq : Bool → Bool → Bool
bool_eq true b = b
bool_eq false b = not b

module _ (C : Core) (D : Double) (build : Build) where
  -- The layout that `set_vm_layout` makes on a 64-bit target, of the capacity in bytes.
  unfoldable pub vm_layout : ℕ → Outcome VmLayout
  vm_layout capacity = do
    assert (leb capacity (2 <<< 30))
    let start : ℕ = 0x400000
    let end = start + capacity
    ok (record {
      log_address_space = 32;
      heap_start = C.chunk_align_down start;
      heap_end = C.chunk_align_up (usize (end + 5 * C.bytes_in_chunk));
      log_space_extent = 31;
      force_use_contiguous_spaces = false;
    })

  unfoldable pub set_vm_layout : Statics C D → Outcome (Statics C D)
  unfolding vm_layout
  set_vm_layout s = do
    layout ← vm_layout s.trigger_init.capacity
    ok (record s { builder = C.set_layout layout s.builder })

  -- The first use of `SINGLETON` makes the instance.
  unfoldable pub initialize_singleton : Statics C D → Outcome (Statics C D)
  unfolding set_vm_layout
  initialize_singleton s =
      let make : Outcome (Statics C D) = (do
        assert (not s.is_mmtk_initialized)
        s' ← set_vm_layout s
        ok (record s' { singleton = some (C.init s'.builder); is_mmtk_initialized = true })) in
      elim s.singleton [ some instance ↦ ok s | none ↦ make ]

  unfoldable pub mmtk_init :
      (upcalls : ℕ) → C.Plan → (is_zygote_process : Bool) → Statics C D → Outcome (Statics C D)
  unfolding initialize_singleton
  mmtk_init upcalls plan is_zygote_process s = do
    assert (not s.is_mmtk_initialized || not is_zygote_process)
    let builder = C.set_is_zygote_process is_zygote_process (C.set_plan plan s.builder)
    let first =
        (debug_assert build (bool_eq (C.is_zygote_process builder) is_zygote_process)
          >> initialize_singleton (record s { upcalls = some upcalls; builder = builder }))
    if s.is_mmtk_initialized then ok (record s { is_mmtk_reinitializing = true }) else first

  unfoldable pub mmtk_initialize_collection : (tls : ℕ) → Statics C D → Outcome (Statics C D)
  unfolding initialize_singleton
  mmtk_initialize_collection tls s = do
    debug_assert build s.is_mmtk_initialized
    let forward : Outcome (Statics C D) = (do
      s' ← initialize_singleton s
      ok (record s' { collections = tls ∷ s'.collections }))
    if not s.is_mmtk_reinitializing then forward else ok s

  unfoldable pub mmtk_set_runtime_pointer_size : ℕ → Statics C D → Statics C D
  mmtk_set_runtime_pointer_size pointer_size s = record s { art_pointer_size = pointer_size }

  -- The result says whether the builder took the policy.
  unfoldable pub mmtk_set_heap_size :
      (min max growth_limit : ℕ)
      → D.F
      → (min_free max_free : ℕ) → D.F
      → Statics C D
      → Bool × Statics C D
  mmtk_set_heap_size min max growth_limit target_utilization min_free max_free multiplier s =
      let trigger : ArtTriggerInit D = record {
        min_free = min_free;
        max_free = max_free;
        initial_size = min;
        capacity = if build.ss_no_gc_in_harness then 1073741824 else max;
        growth_limit = growth_limit;
        target_utilization = target_utilization;
        foreground_heap_growth_multiplier = multiplier;
      } in
      let policy = if min == max then fixed_heap_size min else delegated in
      let (accepted, builder) = C.set_gc_trigger policy s.builder in
      (accepted, record s { trigger_init = trigger; builder = builder })

  -- `create_gc_trigger`, mmtk/src/collection.rs
  unfoldable pub create_gc_trigger : (log_page : ℕ) → Statics C D → ArtTrigger D
  create_gc_trigger log_page s =
      let t = s.trigger_init in
      new log_page t.min_free t.max_free t.initial_size t.capacity t.growth_limit
        t.target_utilization t.foreground_heap_growth_multiplier
