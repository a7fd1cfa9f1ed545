-- ===== src/Runtime.antt =====
-- What the code that walks objects is given: the memory, the build, the upcalls into ART and the
-- alignment functions of mmtk-core.
pub mod Example
use mmtk_art.Base.{
  ℕ, ◌+◌, ◌%◌, ◌≤◌, ◌<◌, ◌≡◌, Bool, Outcome, ok, ◌>>=◌, assert, ◌==◌, if◌then◌else◌,
}
use mmtk_art.Memory.{Memory}

-- `mmtk::util::conversions`: the least multiple of the alignment that is not below the value.
pub record Conversions : Type 0 where
  pub raw_align_up : ℕ → ℕ → ℕ
  pub raw_is_aligned : ℕ → ℕ → Bool
  pub le-raw_align_up : (v align : ℕ) → 0 < align → v ≤ raw_align_up v align
  pub raw_align_up-lt : (v align : ℕ) → 0 < align → raw_align_up v align < v + align
  pub raw_align_up-aligned : (v align : ℕ) → 0 < align → raw_align_up v align % align ≡ 0
  pub raw_is_aligned_lem : (v align : ℕ) → 0 < align → raw_is_aligned v align ≡ (v % align == 0)

pub record Runtime : Type 0 where
  -- A build with `debug_assertions`, and without `overflow-checks`: its arithmetic wraps.
  pub debug_assertions : Bool
  pub memory : Memory
  -- The upcall `is_valid_object`.
  pub is_valid_object : ℕ → Bool
  -- `ART_POINTER_SIZE`
  pub pointer_size : ℕ
  pub conversions : Conversions
  -- How many classes the walk up the superclasses may meet; only debug builds make it.
  pub super_fuel : ℕ

-- `debug_assert!`, whose condition a release build does not evaluate.
abbrev pub debug_assert : Runtime → Outcome Bool → Outcome (Unit {0})
debug_assert r condition = if r.debug_assertions then (condition >>= assert) else ok tt
