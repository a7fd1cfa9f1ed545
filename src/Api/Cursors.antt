-- ===== src/Api/Cursors.antt =====
-- The thread-local cursor and limit of a mutator's default allocator, mmtk/src/api.rs.
use mmtk_art.Base.{
  ℕ, zero, suc, ◌≡◌, refl, Bool, true, false, Outcome, ok, panic, ◌>>◌, arith, ◌==◌, ◌&&◌,
  if◌then◌else◌,
}
use mmtk_art.Startup.{Build, debug_assert}

pub record BumpPointer : Type 0 where
  pub cursor : ℕ
  pub limit : ℕ

-- `AllocatorSelector` of mmtk-core, with the indices of the allocators. `other` are the selectors
-- that the code does not tell apart.
pub data AllocatorSelector : Type 0 where
  bump_pointer immix other : ℕ → AllocatorSelector

-- What the code reads and writes of a `Mutator`: the bump pointers of its allocators.
pub record Mutator : Type 0 where
  pub bump_allocators : ℕ → BumpPointer
  pub immix_allocators : ℕ → BumpPointer

abbrev pub at_zero : BumpPointer → (ℕ → BumpPointer) → ℕ → BumpPointer
at_zero p allocators i = if i == 0 then p else allocators i

-- The `match` on the selector, to set and to get.
abbrev set_bump_pointer : AllocatorSelector → BumpPointer → Mutator → Outcome Mutator
set_bump_pointer (bump_pointer zero) p m =
    ok (record m { bump_allocators = at_zero p m.bump_allocators })
set_bump_pointer (bump_pointer (suc i)) p m = panic
set_bump_pointer (immix zero) p m =
    ok (record m { immix_allocators = at_zero p m.immix_allocators })
set_bump_pointer (immix (suc i)) p m = panic
set_bump_pointer (other i) p m = panic

abbrev get_bump_pointer : AllocatorSelector → Mutator → Outcome BumpPointer
get_bump_pointer (bump_pointer zero) m = ok (m.bump_allocators 0)
get_bump_pointer (bump_pointer (suc i)) m = panic
get_bump_pointer (immix zero) m = ok (m.immix_allocators 0)
get_bump_pointer (immix (suc i)) m = panic
get_bump_pointer (other i) m = panic

-- Whether the default allocator is the first bump or immix allocator.
abbrev pub is_supported : AllocatorSelector → Bool
is_supported (bump_pointer i) = i == 0
is_supported (immix i) = i == 0
is_supported (other i) = false

-- `initialized` is `IS_MMTK_INITIALIZED`, `selector` the mapping of the default semantics.
module _ (build : Build) (initialized : Bool) where
  unfoldable pub mmtk_set_default_thread_local_cursor_limit :
      AllocatorSelector → BumpPointer → Mutator → Outcome Mutator
  mmtk_set_default_thread_local_cursor_limit selector p m =
      debug_assert build initialized >> set_bump_pointer selector p m

  unfoldable pub mmtk_get_default_thread_local_cursor_limit :
      AllocatorSelector → Mutator → Outcome BumpPointer
  mmtk_get_default_thread_local_cursor_limit selector m =
      debug_assert build initialized >> get_bump_pointer selector m

-- Whose bump pointers a selector means.
abbrev pub is_bump_pointer : AllocatorSelector → Bool
is_bump_pointer (bump_pointer i) = true
is_bump_pointer _ = false

abbrev pub is_immix : AllocatorSelector → Bool
is_immix (immix i) = true
is_immix _ = false

-- Once MMTk is initialized, in a debug build too: if the default allocator is the first bump or
-- the first immix allocator, a cursor and limit that are set are those that are got, and setting
-- changes no other allocator of either kind; with any other default allocator both calls panic.
pub get-set_cursor_limit :
    (build : Build) (selector unsupported : AllocatorSelector) (p : BumpPointer) (m : Mutator)
    (i : ℕ)
    → is_supported selector ≡ true
    → is_supported unsupported ≡ false
    → (m' : Mutator) × (mmtk_set_default_thread_local_cursor_limit build true selector p m ≡ ok m')
      × (mmtk_get_default_thread_local_cursor_limit build true selector m' ≡ ok p)
      × (m'.bump_allocators i
          ≡ (if is_bump_pointer selector && i == 0 then p else m.bump_allocators i))
      × (m'.immix_allocators i ≡ (if is_immix selector && i == 0 then p else m.immix_allocators i))
      × (mmtk_set_default_thread_local_cursor_limit build true unsupported p m ≡ panic)
      × (mmtk_get_default_thread_local_cursor_limit build true unsupported m ≡ panic)
unfolding mmtk_set_default_thread_local_cursor_limit mmtk_get_default_thread_local_cursor_limit
get-set_cursor_limit build (bump_pointer zero) unsupported p m i good bad = (
  record m { bump_allocators = at_zero p m.bump_allocators },
  ground arith,
  ground arith,
  refl,
  refl,
  ground arith,
  ground arith,
)
get-set_cursor_limit build (bump_pointer (suc k)) unsupported p m i good bad = absurd (ground arith)
get-set_cursor_limit build (immix zero) unsupported p m i good bad = (
  record m { immix_allocators = at_zero p m.immix_allocators },
  ground arith,
  ground arith,
  refl,
  refl,
  ground arith,
  ground arith,
)
get-set_cursor_limit build (immix (suc k)) unsupported p m i good bad = absurd (ground arith)
get-set_cursor_limit build (other k) unsupported p m i good bad = absurd (ground arith)
