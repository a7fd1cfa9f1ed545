-- ===== src/Slots/Refs.antt =====
-- Slots hold what is stored in them: `compress`, `decompress`, `ArtSlot` of mmtk/src/lib.rs.
use mmtk_art.Base.{ℕ, ◌+◌, ◌≤◌, ◌<◌, ◌^◌, ◌≡◌, ◌↔◌, ◌⊎◌, none, some, arith}
use mmtk_art.Memory.{Memory, load_u32, load_u32-lt, load-store_self, load-store_apart}
use mmtk_art.Slots.{compress, decompress, load, store}

-- An object below 4 GB survives compression: its compressed form decompresses to it. A compressed
-- word is null exactly if it is zero, and otherwise compresses back to itself.
pub decompress-compress :
    (object word : ℕ)
    → 0 < object
    → object < 2 ^ 32
    → word < 2 ^ 32
    → (decompress (compress object) ≡ some object)
      × ((decompress word ≡ none) ↔ (word ≡ 0))
      × ((o : ℕ) → decompress word ≡ some o → compress o ≡ word)
unfolding compress decompress
decompress-compress object word p q small =
    (ground arith, (λ h. ground arith, λ h. ground arith), λ o h. ground arith)

-- A slot loads the object that was stored in it, an object below 4 GB, and a store in one slot
-- changes no slot that it does not overlap. Any slot is null exactly if its word is zero, and an
-- object that it loads compresses back to its word.
pub load-store :
    (m : Memory) (slot other object : ℕ)
    → 0 < object
    → object < 2 ^ 32
    → (slot + 4 ≤ other) ⊎ (other + 4 ≤ slot)
    → (load (store slot object m) slot ≡ some object)
      × (load (store slot object m) other ≡ load m other)
      × ((load m other ≡ none) ↔ (load_u32 m other ≡ 0))
      × ((o : ℕ) → load m other ≡ some o → compress o ≡ load_u32 m other)
unfolding load store
load-store m slot other object p q apart =
    let (stored, null, compressed) =
      decompress-compress object (load_u32 m other) p q (load_u32-lt m other) in
    (
      ground (
        arith,
        load-store_self m slot (compress object),
        decompress-compress object object p q q,
      ),
      ground (arith, load-store_apart m slot other (compress object) apart),
      null,
      compressed,
    )
