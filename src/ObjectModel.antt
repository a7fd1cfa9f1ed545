-- ===== src/ObjectModel.antt =====
-- Copying objects, mmtk/src/object_model.rs.
pub mod Copy
mod Tests
use mmtk_art.Base.{ℕ, ◌+◌, ◌-◌, Bool, Outcome, ok, ◌>>=◌, ◌&&◌, ltb, leb, if◌then◌else◌}
use mmtk_art.Memory.{Memory}
use mmtk_art.Runtime.{Runtime}
use mmtk_art.Abi.Sizes.{get_current_size, min_alignment}

-- `GCWorkerCopyContext` of mmtk-core: where the copy of an object goes.
pub record CopyContext : Type 0 where
  pub alloc_copy : (original bytes align offset semantics : ℕ) → ℕ

-- What a copy leaves: the memory, the new object, and what `post_copy` was called with.
pub record Copied : Type 0 where
  pub memory : Memory
  pub object : ℕ
  pub post_copied : (ℕ × ℕ × ℕ)

-- `std::ptr::copy_nonoverlapping::<u8>`
abbrev pub copy_bytes : (src dst bytes : ℕ) → Memory → Memory
copy_bytes src dst bytes m a = if leb dst a && ltb a (dst + bytes) then m (src + (a - dst)) else m a

unfoldable pub get_size_when_copied : Runtime → ℕ → Outcome ℕ
get_size_when_copied r object = get_current_size r object

unfoldable pub get_align_when_copied : ℕ → ℕ
get_align_when_copied object = min_alignment

unfoldable pub get_align_offset_when_copied : ℕ → ℕ
get_align_offset_when_copied object = 0

unfoldable pub ref_to_object_start : ℕ → ℕ
ref_to_object_start object = object

unfoldable pub ref_to_header : ℕ → ℕ
ref_to_header object = object

unfoldable pub is_object_sane : Runtime → ℕ → Bool
is_object_sane r object = r.is_valid_object object

unfoldable pub copy : Runtime → CopyContext → (original semantics : ℕ) → Outcome Copied
unfolding get_size_when_copied
copy r context original semantics = do
  bytes ← get_size_when_copied r original
  let dst = context.alloc_copy original bytes min_alignment 0 semantics
  ok (record {
    memory = copy_bytes original dst bytes r.memory;
    object = dst;
    post_copied = (dst, bytes, semantics);
  })
