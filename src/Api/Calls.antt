-- ===== src/Api/Calls.antt =====
-- The calls of mmtk/src/api.rs that mmtk-core handles: what is asserted before, whether the static
-- `SINGLETON` is made by the call, what is called, and what ART gets.
use mmtk_art.Base.{
  ℕ, Bool, none, some, Outcome, ok, panic, undefined, ◌>>=◌, ◌>>◌, if◌then◌else◌, u32,
}
use mmtk_art.Trigger.Double.{Double}
use mmtk_art.Startup.{Core, Build, Statics, debug_assert, initialize_singleton}
use mmtk_art.Buffers
use mmtk_art.Buffers.{Block, RustAllocatedRegionBuffer, RustObjectReferenceBuffer, lend_vector}

-- What the calls use of mmtk-core, ART and LLVM. `W` is the state that these keep, the mutators and
-- the heap among it, and `I` what the instance was made as.
pub record Callees (I W : Type 0) : Type 0 where
  pub start_worker : (tls worker : ℕ) → I → W → W
  pub bind_mutator : (tls : ℕ) → I → W → ℕ × W
  pub flush_mutator : (mutator : ℕ) → W → W
  pub destroy_mutator : (mutator : ℕ) → W → W
  pub alloc : (mutator size align offset semantics : ℕ) → W → ℕ × W
  pub post_alloc : (mutator object size semantics : ℕ) → W → W
  pub set_vm_space : (start size : ℕ) → I → W → W
  pub remove_vm_space : (start size : ℕ) → I → W → W
  pub handle_user_collection_request : (tls : ℕ) → (force exhaustive : Bool) → I → W → Bool × W
  pub handle_pre_first_zygote_fork_collection_request : (tls : ℕ) → I → W → W
  pub has_zygote_space : I → W → Bool
  pub clamp_max_heap_size : (max : ℕ) → I → W → Bool × W
  pub set_is_jank_perceptible : Bool → I → W → W
  pub set_is_zygote_process : Bool → I → W → W
  pub grow_heap_size_for_event : I → W → W
  pub clamp_growth_limit : I → W → W
  pub clear_growth_limit : I → W → W
  -- The vectors that the instance makes, with their addresses.
  pub iterate_allocated_regions : I → W → (ℕ × Block) × W
  pub enumerate_large_objects : I → W → (ℕ × Block) × W
  pub total_bytes : I → W → ℕ
  pub free_bytes : I → W → ℕ
  pub used_bytes : I → W → ℕ
  pub num_of_workers : I → W → ℕ
  pub is_emergency_collection : I → W → Bool
  pub is_nursery_collection : I → W → Bool
  pub is_zygote_process : I → W → Bool
  pub prepare_to_fork : I → W → W
  pub create_perf_counters : I → W → W
  pub harness_end : I → W → W
  pub after_fork : (tls : ℕ) → I → W → W
  pub harness_begin : (tls : ℕ) → I → W → W
  -- The upcall of ART
  pub set_has_zygote_space_in_art : Bool → W → W
  -- `__llvm_profile_write_file`
  pub llvm_profile_write_file : W → ℕ × W

module _ (C : Core) (D : Double) (build : Build) {W : Type 0} (callees : Callees C.Instance W) where
  abbrev pub Handler : Type 0 → Type 0
  Handler A = Statics C D → W → Outcome (A × Statics C D × W)

  -- A use of `SINGLETON`, which the first use makes.
  abbrev on_singleton : {A : Type 0} → (C.Instance → W → A × W) → Handler A
  on_singleton call s w = do
    s' ← initialize_singleton C D build s
    elim s'.singleton [
      | none ↦ panic
      | some instance ↦ let (answer, w') = call instance w in ok (answer, s', w')
    ]

  -- A use that changes what mmtk-core keeps and answers nothing, and one that only answers.
  abbrev tell : (C.Instance → W → W) → Handler (Unit {0})
  tell call = on_singleton (λ instance w. (tt, call instance w))

  abbrev ask : {A : Type 0} → (C.Instance → W → A) → Handler A
  ask call = on_singleton (λ instance w. (call instance w, w))

  -- A call on a mutator, which does not touch the static.
  abbrev on_mutator : {A : Type 0} → (W → A × W) → Handler A
  on_mutator call s w = let (answer, w') = call w in ok (answer, s, w')

  -- The assertion that MMTk is initialized, in debug builds.
  abbrev initialized : {A : Type 0} → Handler A → Handler A
  initialized handler s w = debug_assert build s.is_mmtk_initialized >> handler s w

  unfoldable pub mmtk_start_gc_worker_thread : (tls worker : ℕ) → Handler (Unit {0})
  mmtk_start_gc_worker_thread tls worker = initialized (tell (callees.start_worker tls worker))

  unfoldable pub mmtk_bind_mutator : (tls : ℕ) → Handler ℕ
  mmtk_bind_mutator tls = initialized (on_singleton (callees.bind_mutator tls))

  unfoldable pub mmtk_flush_mutator : (mutator : ℕ) → Handler (Unit {0})
  mmtk_flush_mutator mutator = initialized (on_mutator (λ w. (tt, callees.flush_mutator mutator w)))

  unfoldable pub mmtk_destroy_mutator : (mutator : ℕ) → Handler (Unit {0})
  mmtk_destroy_mutator mutator =
      initialized (on_mutator (λ w. (tt, callees.destroy_mutator mutator w)))

  unfoldable pub mmtk_alloc : (mutator size align offset allocator : ℕ) → Handler ℕ
  mmtk_alloc mutator size align offset allocator =
      initialized (on_mutator (callees.alloc mutator size align offset allocator))

  unfoldable pub mmtk_post_alloc : (mutator object size allocator : ℕ) → Handler (Unit {0})
  mmtk_post_alloc mutator object size allocator =
      initialized (on_mutator (λ w. (tt, callees.post_alloc mutator object size allocator w)))

  unfoldable pub mmtk_set_image_space : (image_start_address image_size : ℕ) → Handler (Unit {0})
  mmtk_set_image_space start size = initialized (tell (callees.set_vm_space start size))

  unfoldable pub mmtk_remove_image_space : (image_start_address image_size : ℕ) → Handler (Unit {0})
  mmtk_remove_image_space start size = initialized (tell (callees.remove_vm_space start size))

  unfoldable pub mmtk_handle_user_collection_request :
      (tls : ℕ) → (force exhaustive : Bool) → Handler Bool
  mmtk_handle_user_collection_request tls force exhaustive =
      initialized (on_singleton (callees.handle_user_collection_request tls force exhaustive))

  -- `UPCALLS` is null until `mmtk_init` sets it.
  unfoldable pub mmtk_handle_pre_first_zygote_fork_collection_request :
      (tls : ℕ) → Handler (Unit {0})
  mmtk_handle_pre_first_zygote_fork_collection_request tls s w = do
    (handled, s1, w1) ←
        initialized (tell (callees.handle_pre_first_zygote_fork_collection_request tls)) s w
    (has_zygote_space, s2, w2) ← ask callees.has_zygote_space s1 w1
    elim s2.upcalls [
      | none ↦ undefined
      | some upcalls ↦ ok (tt, s2, callees.set_has_zygote_space_in_art has_zygote_space w2)
    ]

  unfoldable pub mmtk_clamp_max_heap_size : ℕ → Handler Bool
  mmtk_clamp_max_heap_size max = on_singleton (callees.clamp_max_heap_size max)

  unfoldable pub mmtk_set_is_jank_perceptible : Bool → Handler (Unit {0})
  mmtk_set_is_jank_perceptible b = tell (callees.set_is_jank_perceptible b)

  unfoldable pub mmtk_grow_heap_on_jank_perceptible_switch : Handler (Unit {0})
  mmtk_grow_heap_on_jank_perceptible_switch = tell callees.grow_heap_size_for_event

  unfoldable pub mmtk_clamp_growth_limit : Handler (Unit {0})
  mmtk_clamp_growth_limit = tell callees.clamp_growth_limit

  unfoldable pub mmtk_clear_growth_limit : Handler (Unit {0})
  mmtk_clear_growth_limit = tell callees.clear_growth_limit

  -- The vector is lent to ART, with the memory that `lent` says is.
  unfoldable pub mmtk_iterate_allocated_regions :
      (lent : Buffers.World) → Handler (RustAllocatedRegionBuffer × Buffers.World)
  mmtk_iterate_allocated_regions lent s w = do
    ((ptr, regions), s', w') ← on_singleton callees.iterate_allocated_regions s w
    ok (lend_vector ptr regions lent, s', w')

  unfoldable pub mmtk_enumerate_large_objects :
      (lent : Buffers.World) → Handler (RustObjectReferenceBuffer × Buffers.World)
  mmtk_enumerate_large_objects lent s w = do
    ((ptr, objects), s', w') ← on_singleton callees.enumerate_large_objects s w
    ok (lend_vector ptr objects lent, s', w')

  unfoldable pub mmtk_get_total_bytes : Handler ℕ
  mmtk_get_total_bytes = ask callees.total_bytes

  unfoldable pub mmtk_get_free_bytes : Handler ℕ
  mmtk_get_free_bytes = ask callees.free_bytes

  unfoldable pub mmtk_get_used_bytes : Handler ℕ
  mmtk_get_used_bytes = ask callees.used_bytes

  unfoldable pub mmtk_get_number_of_workers : Handler ℕ
  mmtk_get_number_of_workers = ask (λ instance w. u32 (callees.num_of_workers instance w))

  unfoldable pub mmtk_is_emergency_collection : Handler Bool
  mmtk_is_emergency_collection = ask callees.is_emergency_collection

  unfoldable pub mmtk_is_nursery_collection : Handler Bool
  mmtk_is_nursery_collection = ask callees.is_nursery_collection

  unfoldable pub mmtk_set_is_zygote_process : Bool → Handler (Unit {0})
  mmtk_set_is_zygote_process b = tell (callees.set_is_zygote_process b)

  unfoldable pub mmtk_is_zygote_process : Handler Bool
  mmtk_is_zygote_process = ask callees.is_zygote_process

  unfoldable pub mmtk_pre_zygote_fork : Handler (Unit {0})
  mmtk_pre_zygote_fork = tell callees.prepare_to_fork

  unfoldable pub mmtk_post_zygote_fork : (tls : ℕ) → Handler (Unit {0})
  mmtk_post_zygote_fork tls = tell (callees.after_fork tls)

  unfoldable pub mmtk_create_perf_counters : Handler (Unit {0})
  mmtk_create_perf_counters = tell callees.create_perf_counters

  unfoldable pub mmtk_harness_begin : (tls : ℕ) → Handler (Unit {0})
  mmtk_harness_begin tls = tell (callees.harness_begin tls)

  -- With the feature `llvm_pgo_build` LLVM writes the profile, without nothing does.
  abbrev write_file : (llvm_pgo_build : Bool) → W → ℕ × W
  write_file llvm_pgo_build w = if llvm_pgo_build then callees.llvm_profile_write_file w else (0, w)

  unfoldable pub mmtk_dump_llvm_profile_file : (llvm_pgo_build : Bool) → Handler ℕ
  mmtk_dump_llvm_profile_file llvm_pgo_build s w = do
    (has_zygote_space, s', w') ← ask callees.has_zygote_space s w
    let (result, w'') = if has_zygote_space then write_file llvm_pgo_build w' else (0, w')
    ok (result, s', w'')

  unfoldable pub mmtk_harness_end : (llvm_pgo_build : Bool) → Handler (Unit {0})
  unfolding mmtk_dump_llvm_profile_file
  mmtk_harness_end llvm_pgo_build s w = do
    (ended, s1, w1) ← tell callees.harness_end s w
    (result, s2, w2) ← mmtk_dump_llvm_profile_file llvm_pgo_build s1 w1
    ok (tt, s2, w2)
