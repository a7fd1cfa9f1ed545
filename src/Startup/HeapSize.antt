-- ===== src/Startup/HeapSize.antt =====
-- The heap size that ART sets is the one that the GC trigger works with: `mmtk_set_heap_size` of
-- mmtk/src/api.rs and `create_gc_trigger` of mmtk/src/collection.rs.
use mmtk_art.Base.{ℕ, if◌then◌else◌}
use mmtk_art.Trigger.Double.{Double}
use mmtk_art.Startup.{Core, Build}

module _ (C : Core) (D : Double) (build : Build) (log_page : ℕ) where
  -- The capacity that a build keeps of the maximal size.
  abbrev pub kept_capacity : ℕ → ℕ
  kept_capacity max = if build.ss_no_gc_in_harness then 1073741824 else max
