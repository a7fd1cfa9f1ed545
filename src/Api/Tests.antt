-- ===== src/Api/Tests.antt =====
-- Calls of ART on concrete mutators, regions and options.
use mmtk_art.Base.{ℕ, ◌+◌, ◌*◌, ◌≡◌, refl, true, false, none, some, List, [], ◌∷◌, ok, panic, arith}
use mmtk_art.Runtime.Example.{runtime}
use mmtk_art.Slots.{from_range}
use mmtk_art.Trigger.Example.{fixed}
use mmtk_art.Startup.{Statics, VmLayout}
use mmtk_art.Startup.Example.{Options, core, build, options, statics}
use mmtk_art.Base
use mmtk_art.Buffers
use mmtk_art.Buffers.{RustBuffer, done, undefined}
use mmtk_art.Buffers.Blocks.{has}
use mmtk_art.Api.Cursors.{
  BumpPointer, Mutator, AllocatorSelector, mmtk_set_default_thread_local_cursor_limit,
  mmtk_get_default_thread_local_cursor_limit, get-set_cursor_limit,
}
use mmtk_art.Api.Barriers.{copy_post, mmtk_array_copy_post}
use mmtk_art.Api.Barriers.Overlap.{mmtk_array_copy_post_lem}
use mmtk_art.Api.Calls.{Callees}
use mmtk_art.Api.Lending.{Listing, release, list, release-list}

-- Two regions that hold different references: 1000 at 72, and nothing at 88.
mmtk_array_copy_post_lem_example :
    mmtk_array_copy_post (record runtime { debug_assertions = true }) 3 72 88 2
    ≡ ok (copy_post (from_range 72 80) (from_range 88 96))
mmtk_array_copy_post_lem_example =
    mmtk_array_copy_post_lem (record runtime { debug_assertions = true }) 3 72 88 2 refl
      (omega arith) (omega arith) (omega arith)

abbrev uninitialized : Statics core fixed
uninitialized = statics none none false

abbrev layout_256 : VmLayout
layout_256 = record {
  log_address_space = 32;
  heap_start = 4194304;
  heap_end = 293601280;
  log_space_extent = 31;
  force_use_contiguous_spaces = false;
}

-- The calls that mmtk-core has had, by their numbers here, as its whole state. Two regions are
-- listed, and one large object.
abbrev callees : Callees Options (List ℕ)
callees = record {
  start_worker = λ tls worker i w. 1 ∷ w;
  bind_mutator = λ tls i w. (tls * 256, 2 ∷ w);
  flush_mutator = λ mutator w. 3 ∷ w;
  destroy_mutator = λ mutator w. 4 ∷ w;
  alloc = λ mutator size align offset semantics w. (4096, 5 ∷ w);
  post_alloc = λ mutator object size semantics w. 6 ∷ w;
  set_vm_space = λ start size i w. 7 ∷ w;
  remove_vm_space = λ start size i w. 8 ∷ w;
  handle_user_collection_request = λ tls force exhaustive i w. (force, 9 ∷ w);
  handle_pre_first_zygote_fork_collection_request = λ tls i w. 10 ∷ w;
  has_zygote_space = λ i w. true;
  clamp_max_heap_size = λ max i w. (true, 11 ∷ w);
  set_is_jank_perceptible = λ b i w. 12 ∷ w;
  set_is_zygote_process = λ b i w. 13 ∷ w;
  grow_heap_size_for_event = λ i w. 14 ∷ w;
  clamp_growth_limit = λ i w. 15 ∷ w;
  clear_growth_limit = λ i w. 16 ∷ w;
  iterate_allocated_regions =
      λ i w. ((8192, record { items = 1 ∷ 2 ∷ []; capacity = 4; item_bytes = 16 }), 17 ∷ w);
  enumerate_large_objects =
      λ i w. ((12288, record { items = 7 ∷ []; capacity = 4; item_bytes = 8 }), 18 ∷ w);
  total_bytes = λ i w. 1048576;
  free_bytes = λ i w. 65536;
  used_bytes = λ i w. 983040;
  num_of_workers = λ i w. 4;
  is_emergency_collection = λ i w. false;
  is_nursery_collection = λ i w. true;
  is_zygote_process = λ i w. true;
  prepare_to_fork = λ i w. 19 ∷ w;
  create_perf_counters = λ i w. 20 ∷ w;
  harness_end = λ i w. 21 ∷ w;
  after_fork = λ tls i w. 22 ∷ w;
  harness_begin = λ tls i w. 23 ∷ w;
  set_has_zygote_space_in_art = λ b w. 24 ∷ w;
  llvm_profile_write_file = λ w. (0, 25 ∷ w);
}

abbrev initialized : Statics core fixed
initialized = statics (some 4096) (some (options none)) true

abbrev nothing_lent : Buffers.World
nothing_lent = record { lent = []; reported = [] }

release-list_example :
    (b : RustBuffer) × (lent' : Buffers.World) × (list core fixed build callees Listing.regions
        nothing_lent initialized []
      ≡ ok ((b, lent'), initialized, 17 ∷ []))
    × (b.len ≡ 2)
    × (b.capacity ≡ 4)
    × (release Listing.regions b lent' ≡ done nothing_lent)
    × (release Listing.large_objects b lent' ≡ undefined)
    × (release Listing.regions b nothing_lent ≡ undefined)
unfolding has
release-list_example =
    release-list core fixed build callees Listing.regions initialized (options none) [] (17 ∷ [])
      nothing_lent 8192 (record { items = 1 ∷ 2 ∷ []; capacity = 4; item_bytes = 16 }) refl refl
      refl (omega arith) (omega arith) refl

-- Allocators with different bump pointers.
abbrev allocators : Mutator
allocators = record {
  bump_allocators = λ i. record { cursor = i; limit = i + 10 };
  immix_allocators = λ i. record { cursor = i; limit = i + 20 };
}

get-set_cursor_limit_example :
    let p : BumpPointer = record { cursor = 4096; limit = 8192 } in
    (m' : Mutator) × (mmtk_set_default_thread_local_cursor_limit build true
        (AllocatorSelector.immix 0)
        p
        allocators
      ≡ ok m')
    × (mmtk_get_default_thread_local_cursor_limit build true (AllocatorSelector.immix 0) m' ≡ ok p)
    × (m'.bump_allocators 0 ≡ record { cursor = 0; limit = 10 })
    × (m'.immix_allocators 0 ≡ p)
    × (mmtk_set_default_thread_local_cursor_limit build true
          (AllocatorSelector.bump_pointer 1)
          p
          allocators
        ≡ panic)
    × (mmtk_get_default_thread_local_cursor_limit build true
          (AllocatorSelector.bump_pointer 1)
          allocators
        ≡ panic)
get-set_cursor_limit_example =
    get-set_cursor_limit build (AllocatorSelector.immix 0) (AllocatorSelector.bump_pointer 1)
      (record { cursor = 4096; limit = 8192 }) allocators 0 refl refl
