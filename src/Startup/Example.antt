-- ===== src/Startup/Example.antt =====
-- A concrete MMTk, whose builder is the options that were set, for the tests.
use mmtk_art.Base.{
  ℕ, ◌+◌, ◌*◌, ◌/◌, ◌≤◌, ◌<◌, refl, Bool, true, false, Option, none, some, [], arith,
}
use mmtk_art.Trigger.Example.{fixed}
use mmtk_art.Startup.{Core, Build, Statics, VmLayout, GcTriggerSelector}

pub record Options : Type 0 where
  pub plan : ℕ
  pub is_zygote : Bool
  pub trigger : Option GcTriggerSelector
  pub layout : Option VmLayout

pub chunk_down-lt : (a : ℕ) → a < a / 4194304 * 4194304 + 4194304
chunk_down-lt a = omega arith

pub chunk_down-le : (a : ℕ) → a / 4194304 * 4194304 ≤ a
chunk_down-le a = omega arith

pub chunk_up-le : (a : ℕ) → a ≤ (a + 4194303) / 4194304 * 4194304
chunk_up-le a = omega arith

pub chunk_up-lt : (a : ℕ) → (a + 4194303) / 4194304 * 4194304 < a + 4194304
chunk_up-lt a = omega arith

abbrev pub core : Core
core = record {
  Plan = ℕ;
  Builder = Options;
  Instance = Options;
  set_plan = λ p o. record o { plan = p };
  set_is_zygote_process = λ z o. record o { is_zygote = z };
  is_zygote_process = λ o. o.is_zygote;
  set_gc_trigger = λ t o. (true, record o { trigger = some t });
  set_layout = λ l o. record o { layout = some l };
  init = λ o. o;
  bytes_in_chunk = 4194304;
  chunk_align_down = λ a. a / 4194304 * 4194304;
  chunk_align_up = λ a. (a + 4194303) / 4194304 * 4194304;
  is_zygote_process_lem = λ z o. refl;
  chunk_align_down-le = chunk_down-le;
  lt-chunk_align_down = chunk_down-lt;
  le-chunk_align_up = chunk_up-le;
  chunk_align_up-lt = chunk_up-lt;
}

abbrev pub build : Build
build = record { debug_assertions = true; ss_no_gc_in_harness = false }

abbrev pub options : Option VmLayout → Options
options layout = record { plan = 3; is_zygote = true; trigger = none; layout = layout }

abbrev pub statics : Option ℕ → Option Options → Bool → Statics core fixed
statics upcalls singleton initialized = record {
  upcalls = upcalls;
  builder = options none;
  trigger_init = record {
    min_free = 524288;
    max_free = 8388608;
    initial_size = 4194304;
    capacity = 268435456;
    growth_limit = 67108864;
    target_utilization = 768;
    foreground_heap_growth_multiplier = 2048;
  };
  singleton = singleton;
  is_mmtk_initialized = initialized;
  is_mmtk_reinitializing = false;
  art_pointer_size = 8;
  collections = [];
}
