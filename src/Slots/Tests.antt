-- ===== src/Slots/Tests.antt =====
-- Slots and slices on concrete addresses.
use mmtk_art.Base.{ℕ, ◌+◌, ◌*◌, ◌≤◌, ◌<◌, ◌≡◌, ◌↔◌, ◌⊎◌, inl, none, some, [], ◌∷◌, ok, arith}
use mmtk_art.Memory.{Memory, load_u32}
use mmtk_art.Runtime.Example.{runtime, memory}
use mmtk_art.Slots.{compress, load, store, from_range, iter_slots, drain, copy}
use mmtk_art.Slots.Refs.{load-store}
use mmtk_art.Slots.Slices.{drain-iter_slots, copy_lem}

load-store_example :
    (load (store 72 4096 memory) 72 ≡ some 4096)
    × (load (store 72 4096 memory) 84 ≡ load memory 84)
    × ((load memory 84 ≡ none) ↔ (load_u32 memory 84 ≡ 0))
    × ((o : ℕ) → load memory 84 ≡ some o → compress o ≡ load_u32 memory 84)
load-store_example = load-store memory 72 84 4096 (omega arith) (omega arith) (inl (omega arith))

drain-iter_slots_example : drain 4 (iter_slots (from_range 100 111)) ≡ some (100 ∷ 104 ∷ 108 ∷ [])
drain-iter_slots_example = drain-iter_slots 100 111 4 (omega arith) (omega arith)

-- The two slices overlap.
copy_lem_example :
    (m : Memory) × (copy runtime (from_range 652 664) (from_range 656 668) ≡ ok m)
    × ((i : ℕ) → i < 3 → load_u32 m (656 + 4 * i) ≡ load_u32 memory (652 + 4 * i))
    × ((a : ℕ) → (a < 656) ⊎ (668 ≤ a) → m a ≡ memory a)
copy_lem_example = copy_lem runtime 652 656 3 (omega arith) (omega arith)
