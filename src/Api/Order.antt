-- ===== src/Api/Order.antt =====
-- Calls of mmtk/src/api.rs that come before `mmtk_init`.
use mmtk_art.Base.{ℕ, ◌≡◌, Bool, true, false, some, Outcome, ok, ◌>>=◌}
use mmtk_art.Trigger.Double.{Double}
use mmtk_art.Startup.{Core, Build, Statics, VmLayout}
use mmtk_art.Buffers
use mmtk_art.Buffers.{RustAllocatedRegionBuffer, RustObjectReferenceBuffer}
use mmtk_art.Api.Calls.{
  Callees, Handler, mmtk_start_gc_worker_thread, mmtk_bind_mutator, mmtk_flush_mutator,
  mmtk_destroy_mutator, mmtk_alloc, mmtk_post_alloc, mmtk_set_image_space, mmtk_remove_image_space,
  mmtk_handle_user_collection_request, mmtk_handle_pre_first_zygote_fork_collection_request,
  mmtk_clamp_max_heap_size, mmtk_set_is_jank_perceptible, mmtk_grow_heap_on_jank_perceptible_switch,
  mmtk_clamp_growth_limit, mmtk_clear_growth_limit, mmtk_iterate_allocated_regions,
  mmtk_enumerate_large_objects, mmtk_get_total_bytes, mmtk_get_free_bytes, mmtk_get_used_bytes,
  mmtk_get_number_of_workers, mmtk_is_emergency_collection, mmtk_is_nursery_collection,
  mmtk_set_is_zygote_process, mmtk_is_zygote_process, mmtk_pre_zygote_fork, mmtk_post_zygote_fork,
  mmtk_create_perf_counters, mmtk_harness_begin, mmtk_harness_end, mmtk_dump_llvm_profile_file,
}

-- The calls that assert that MMTk is initialized, and those that use the instance and do not; each
-- with what it answers.
pub data Checked : Type 0 where
  start_gc_worker_thread : (tls worker : ℕ) → Checked
  bind_mutator : (tls : ℕ) → Checked
  flush_mutator destroy_mutator : (mutator : ℕ) → Checked
  alloc : (mutator size align offset allocator : ℕ) → Checked
  post_alloc : (mutator object size allocator : ℕ) → Checked
  set_image_space remove_image_space : (start size : ℕ) → Checked
  handle_user_collection_request : (tls : ℕ) → (force exhaustive : Bool) → Checked
  handle_pre_first_zygote_fork : (tls : ℕ) → Checked

-- The one that makes an upcall.
abbrev pub uses_upcalls : Checked → Bool
uses_upcalls (handle_pre_first_zygote_fork tls) = true
uses_upcalls _ = false

abbrev pub CheckedAnswer : Checked → Type 0
CheckedAnswer (bind_mutator tls) = ℕ
CheckedAnswer (alloc mutator size align offset allocator) = ℕ
CheckedAnswer (handle_user_collection_request tls force exhaustive) = Bool
CheckedAnswer _ = Unit {0}

pub data Unchecked : Type 0 where
  clamp_max_heap_size : ℕ → Unchecked
  set_is_jank_perceptible set_is_zygote_process : Bool → Unchecked
  grow_heap_on_jank_perceptible_switch clamp_growth_limit clear_growth_limit : Unchecked
  iterate_allocated_regions enumerate_large_objects : (lent : Buffers.World) → Unchecked
  get_total_bytes get_free_bytes get_used_bytes get_number_of_workers : Unchecked
  is_emergency_collection is_nursery_collection is_zygote_process : Unchecked
  pre_zygote_fork create_perf_counters : Unchecked
  post_zygote_fork harness_begin : (tls : ℕ) → Unchecked
  harness_end dump_llvm_profile_file : (llvm_pgo_build : Bool) → Unchecked

abbrev pub UncheckedAnswer : Unchecked → Type 0
UncheckedAnswer (clamp_max_heap_size max) = Bool
UncheckedAnswer (iterate_allocated_regions lent) = RustAllocatedRegionBuffer × Buffers.World
UncheckedAnswer (enumerate_large_objects lent) = RustObjectReferenceBuffer × Buffers.World
UncheckedAnswer get_total_bytes = ℕ
UncheckedAnswer get_free_bytes = ℕ
UncheckedAnswer get_used_bytes = ℕ
UncheckedAnswer get_number_of_workers = ℕ
UncheckedAnswer is_emergency_collection = Bool
UncheckedAnswer is_nursery_collection = Bool
UncheckedAnswer is_zygote_process = Bool
UncheckedAnswer (dump_llvm_profile_file llvm_pgo_build) = ℕ
UncheckedAnswer _ = Unit {0}

module _ (C : Core) (D : Double) (build : Build) {W : Type 0} (callees : Callees C.Instance W) where
  unfoldable pub checked : (call : Checked) → Handler C D build callees (CheckedAnswer call)
  unfolding mmtk_start_gc_worker_thread mmtk_bind_mutator mmtk_flush_mutator mmtk_destroy_mutator
      mmtk_alloc mmtk_post_alloc mmtk_set_image_space mmtk_remove_image_space
      mmtk_handle_user_collection_request mmtk_handle_pre_first_zygote_fork_collection_request
  checked (start_gc_worker_thread tls worker) =
      mmtk_start_gc_worker_thread C D build callees tls worker
  checked (bind_mutator tls) = mmtk_bind_mutator C D build callees tls
  checked (flush_mutator mutator) = mmtk_flush_mutator C D build callees mutator
  checked (destroy_mutator mutator) = mmtk_destroy_mutator C D build callees mutator
  checked (alloc mutator size align offset allocator) =
      mmtk_alloc C D build callees mutator size align offset allocator
  checked (post_alloc mutator object size allocator) =
      mmtk_post_alloc C D build callees mutator object size allocator
  checked (set_image_space start size) = mmtk_set_image_space C D build callees start size
  checked (remove_image_space start size) = mmtk_remove_image_space C D build callees start size
  checked (handle_user_collection_request tls force exhaustive) =
      mmtk_handle_user_collection_request C D build callees tls force exhaustive
  checked (handle_pre_first_zygote_fork tls) =
      mmtk_handle_pre_first_zygote_fork_collection_request C D build callees tls

  unfoldable pub unchecked : (call : Unchecked) → Handler C D build callees (UncheckedAnswer call)
  unfolding mmtk_clamp_max_heap_size mmtk_set_is_jank_perceptible
      mmtk_grow_heap_on_jank_perceptible_switch mmtk_clamp_growth_limit mmtk_clear_growth_limit
      mmtk_iterate_allocated_regions mmtk_enumerate_large_objects mmtk_get_total_bytes
      mmtk_get_free_bytes mmtk_get_used_bytes mmtk_get_number_of_workers
      mmtk_is_emergency_collection mmtk_is_nursery_collection mmtk_set_is_zygote_process
      mmtk_is_zygote_process mmtk_pre_zygote_fork mmtk_post_zygote_fork mmtk_create_perf_counters
      mmtk_harness_begin mmtk_harness_end mmtk_dump_llvm_profile_file
  unchecked (clamp_max_heap_size max) = mmtk_clamp_max_heap_size C D build callees max
  unchecked (set_is_jank_perceptible b) = mmtk_set_is_jank_perceptible C D build callees b
  unchecked (set_is_zygote_process b) = mmtk_set_is_zygote_process C D build callees b
  unchecked grow_heap_on_jank_perceptible_switch =
      mmtk_grow_heap_on_jank_perceptible_switch C D build callees
  unchecked clamp_growth_limit = mmtk_clamp_growth_limit C D build callees
  unchecked clear_growth_limit = mmtk_clear_growth_limit C D build callees
  unchecked (iterate_allocated_regions lent) = mmtk_iterate_allocated_regions C D build callees lent
  unchecked (enumerate_large_objects lent) = mmtk_enumerate_large_objects C D build callees lent
  unchecked get_total_bytes = mmtk_get_total_bytes C D build callees
  unchecked get_free_bytes = mmtk_get_free_bytes C D build callees
  unchecked get_number_of_workers = mmtk_get_number_of_workers C D build callees
  unchecked get_used_bytes = mmtk_get_used_bytes C D build callees
  unchecked is_emergency_collection = mmtk_is_emergency_collection C D build callees
  unchecked is_nursery_collection = mmtk_is_nursery_collection C D build callees
  unchecked is_zygote_process = mmtk_is_zygote_process C D build callees
  unchecked pre_zygote_fork = mmtk_pre_zygote_fork C D build callees
  unchecked create_perf_counters = mmtk_create_perf_counters C D build callees
  unchecked (post_zygote_fork tls) = mmtk_post_zygote_fork C D build callees tls
  unchecked (harness_begin tls) = mmtk_harness_begin C D build callees tls
  unchecked (harness_end llvm_pgo_build) = mmtk_harness_end C D build callees llvm_pgo_build
  unchecked (dump_llvm_profile_file llvm_pgo_build) =
      mmtk_dump_llvm_profile_file C D build callees llvm_pgo_build

  -- The call returns, and the statics are then `s`.
  abbrev pub Returns : {A : Type 0} → Outcome (A × Statics C D × W) → Statics C D → Type 0
  Returns result s = (result >>= λ (answer, s', w). ok s') ≡ ok s

  -- The statics after the instance has been made from the options as they are.
  abbrev made : VmLayout → Statics C D → Statics C D
  made l s = record s {
    builder = C.set_layout l s.builder;
    singleton = some (C.init (C.set_layout l s.builder));
    is_mmtk_initialized = true;
  }
