-- ===== src/Api/Lending.antt =====
-- The vectors that mmtk/src/api.rs lends to ART until it releases them:
-- `mmtk_iterate_allocated_regions` and `mmtk_enumerate_large_objects`.
use mmtk_art.Base.{
  ℕ, ◌≡◌, ◌≢◌, ◌<◌, ◌≤◌, refl, false, some, List, [], ◌∷◌, if◌then◌else◌, ◌==◌, length, take-length,
  ok, arith,
}
use mmtk_art.Trigger.Double.{Double}
use mmtk_art.Startup.{Core, Build, Statics, initialize_singleton}
use mmtk_art.Buffers
use mmtk_art.Buffers.{
  Block, RustBuffer, lend_vector, Run, done, undefined, address_bytes, region_bytes, from_raw_parts,
  mmtk_release_rust_allocated_region_buffer, mmtk_release_rust_object_reference_buffer,
}
use mmtk_art.Buffers.Blocks.{find, remove, has, find_of_absent, remove_of_absent}
use mmtk_art.Api.Calls.{
  Callees, Handler, mmtk_iterate_allocated_regions, mmtk_enumerate_large_objects,
}

-- What is listed, the size of an entry, and how ART releases the list.
pub data Listing : Type 0 where
  regions large_objects : Listing

abbrev pub other : Listing → Listing
other regions = large_objects
other large_objects = regions

abbrev pub entry_bytes : Listing → ℕ
entry_bytes regions = region_bytes
entry_bytes large_objects = address_bytes

abbrev pub release : Listing → (b : RustBuffer) → Buffers.World → Run Buffers.World
release regions b = mmtk_release_rust_allocated_region_buffer b.ptr b.len b.capacity
release large_objects b = mmtk_release_rust_object_reference_buffer b.ptr b.len b.capacity

none_of_length : (xs : List ℕ) → length xs ≡ 0 → xs ≡ []
none_of_length [] e = refl
none_of_length (x ∷ xs) e = absurd (omega arith)

-- A vector that is lent can be taken back with its own size of items, and once, unless it has no
-- memory.
module _ (ptr : ℕ) (v : Block) (lent : Buffers.World) (absent : has ptr lent.lent ≡ false) where
  abbrev after : Buffers.World
  after = (lend_vector ptr v lent).1

  take_back :
      0 < ptr
      → length v.items ≤ v.capacity
      → from_raw_parts v.item_bytes ptr (length v.items) v.capacity after ≡ done (v.items, lent)
  unfolding from_raw_parts find remove
  take_back pos fits =
      ground
        (arith, take-length v.items, remove_of_absent ptr lent.lent absent, none_of_length v.items)

  take_back_other :
      (bytes : ℕ)
      → 0 < ptr
      → length v.items ≤ v.capacity
      → v.item_bytes ≢ bytes
      → from_raw_parts bytes ptr (length v.items) v.capacity after
        ≡ (if v.capacity == 0 then done (v.items, lent) else undefined)
  unfolding from_raw_parts find
  take_back_other bytes pos fits ne = ground (arith, none_of_length v.items)

  take_back_twice :
      (bytes : ℕ)
      → 0 < ptr
      → length v.items ≤ v.capacity
      → from_raw_parts bytes ptr (length v.items) v.capacity lent
        ≡ (if v.capacity == 0 then done (v.items, lent) else undefined)
  unfolding from_raw_parts
  take_back_twice bytes pos fits =
      ground (arith, find_of_absent ptr lent.lent absent, none_of_length v.items)

module _ (C : Core) (D : Double) (build : Build) {W : Type 0} (callees : Callees C.Instance W) where
  -- The call, and what makes the vector.
  abbrev pub list : Listing → Buffers.World → Handler C D build callees (RustBuffer × Buffers.World)
  list regions = mmtk_iterate_allocated_regions C D build callees
  list large_objects = mmtk_enumerate_large_objects C D build callees

  abbrev pub listed : Listing → C.Instance → W → (ℕ × Block) × W
  listed regions = callees.iterate_allocated_regions
  listed large_objects = callees.enumerate_large_objects

  -- When the instance is made, and the vector it makes is a proper one and none of those that ART
  -- still has: ART gets the vector's length and capacity, and releasing it with the function for
  -- its kind leaves the lent memory as it was before. Releasing it with the other function, or
  -- again, is undefined if it has memory, and does nothing if its capacity is 0.
  pub release-list :
      (l : Listing) (s : Statics C D) (i : C.Instance) (w w' : W) (lent : Buffers.World) (ptr : ℕ)
      (v : Block)
      → s.singleton ≡ some i
      → listed l i w ≡ ((ptr, v), w')
      → v.item_bytes ≡ entry_bytes l
      → 0 < ptr
      → length v.items ≤ v.capacity
      → has ptr lent.lent ≡ false
      → (b : RustBuffer) × (lent' : Buffers.World) × (list l lent s w ≡ ok ((b, lent'), s, w'))
        × (b.len ≡ length v.items)
        × (b.capacity ≡ v.capacity)
        × (release l b lent' ≡ done lent)
        × (release (other l) b lent' ≡ (if v.capacity == 0 then done lent else undefined))
        × (release l b lent ≡ (if v.capacity == 0 then done lent else undefined))
  unfolding mmtk_iterate_allocated_regions mmtk_enumerate_large_objects initialize_singleton
      mmtk_release_rust_allocated_region_buffer mmtk_release_rust_object_reference_buffer
  release-list regions s i w w' lent ptr v made e size pos fits absent = (
    record { ptr = ptr; len = length v.items; capacity = v.capacity },
    (lend_vector ptr v lent).1,
    ground arith,
    refl,
    refl,
    ground (arith, take_back ptr v lent absent pos fits),
    ground (arith, take_back_other ptr v lent absent address_bytes pos fits),
    ground (arith, take_back_twice ptr v lent absent (entry_bytes regions) pos fits),
  )
  release-list large_objects s i w w' lent ptr v made e size pos fits absent = (
    record { ptr = ptr; len = length v.items; capacity = v.capacity },
    (lend_vector ptr v lent).1,
    ground arith,
    refl,
    refl,
    ground (arith, take_back ptr v lent absent pos fits),
    ground (arith, take_back_other ptr v lent absent region_bytes pos fits),
    ground (arith, take_back_twice ptr v lent absent (entry_bytes large_objects) pos fits),
  )
