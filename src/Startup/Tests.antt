-- ===== src/Startup/Tests.antt =====
-- Starting the concrete MMTk.
use mmtk_art.Base.{
  ◌+◌, ◌*◌, ◌^◌, ◌≤◌, ◌<◌, ◌≡◌, refl, true, false, none, some, List, [], ◌∷◌, ok, panic, arith,
}
use mmtk_art.Trigger.Example.{fixed}
use mmtk_art.Startup.{Statics, VmLayout, vm_layout, mmtk_init}
use mmtk_art.Startup.Example.{core, build, options, statics}
use mmtk_art.Startup.Layout.{vm_layout_lem}
use mmtk_art.Startup.Once.{
  Call, init, initialize_collection, set_runtime_pointer_size, calls, any_zygote_init,
  is_zygote_init, set_up, IsStarted, calls_lem,
}

abbrev running : Statics core fixed
running = statics (some 4096) (some (options none)) true

-- 256 MB from 4 MB on, with slack up to 280 MB.
abbrev layout_256 : VmLayout
layout_256 = record {
  log_address_space = 32;
  heap_start = 4194304;
  heap_end = 293601280;
  log_space_extent = 31;
  force_use_contiguous_spaces = false;
}

vm_layout_lem_example :
    (vm_layout core fixed build 3221225472 ≡ panic)
    × (l : VmLayout) × (vm_layout core fixed build 268435456 ≡ ok l)
    × (0 < l.heap_start)
    × (l.heap_start ≤ 2 ^ 22)
    × (2 ^ 22 + 268435456 + 5 * 2 ^ 22 ≤ l.heap_end)
    × (l.heap_end < 2 ^ 32)
    × (overlapping : VmLayout) × (vm_layout core fixed build 2147483648 ≡ ok overlapping)
    × (0x70000000 < overlapping.heap_end)
vm_layout_lem_example =
    vm_layout_lem core fixed build refl 268435456 2147483648 3221225472 (omega arith) (omega arith)
      (omega arith) (omega arith)

abbrev restart : List (Call core fixed build)
restart = initialize_collection 9 ∷ init 0 5 false ∷ initialize_collection 10 ∷ []

abbrev zygote_restart : List (Call core fixed build)
zygote_restart = set_runtime_pointer_size 4 ∷ init 0 5 true ∷ []

calls_lem_example :
    (s1 : Statics core fixed) × (mmtk_init core fixed build 4096 3 true (statics none none false)
      ≡ ok s1)
    × (s1.builder ≡ options (some layout_256))
    × IsStarted core fixed build (options (some layout_256)) 4096 s1
    × (calls core fixed build zygote_restart s1 ≡ panic)
    × (s2 : Statics core fixed) × (calls core fixed build restart s1 ≡ ok s2)
    × IsStarted core fixed build (options (some layout_256)) 4096 s2
    × (s2.collections ≡ 9 ∷ [])
unfolding any_zygote_init is_zygote_init set_up vm_layout
calls_lem_example =
    calls_lem core fixed build 4096 3 true restart zygote_restart (statics none none false)
      layout_256 refl refl refl refl refl refl
