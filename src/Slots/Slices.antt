-- ===== src/Slots/Slices.antt =====
-- Slices of slots: `ArtSlotIterator` and `ArtMemorySlice` of mmtk/src/lib.rs.
use mmtk_art.Base.{
  ℕ, zero, suc, ◌+◌, ◌-◌, ◌*◌, ◌/◌, ◌%◌, ◌≤◌, ◌<◌, ◌^◌, ◌≡◌, ◌⊎◌, refl, some, map, range_from, ok,
  arith, usize,
}
use mmtk_art.Base.Bits.{bit_and-three}
use mmtk_art.Memory.{Memory, load_u32}
use mmtk_art.Runtime.{Runtime}
use mmtk_art.Slots.{from_range, iter_slots, drain, copy_words, copy}

module _ (base limit : ℕ) (fits : limit + 4 ≤ 2 ^ 64) where
  abbrev slot_at : ℕ → ℕ
  slot_at i = base + 4 * i

  drain_from :
      (fuel k cursor n : ℕ)
      → cursor ≡ slot_at k
      → n ≡ (limit - cursor + 3) / 4
      → n < fuel
      → drain fuel (record { cursor = cursor; limit = limit }) ≡ some (map slot_at (range_from k n))
  unfolding drain
  drain_from zero k cursor n at e enough = absurd (omega arith)
  drain_from (suc fuel) k cursor zero at e enough = ground arith
  drain_from (suc fuel) k cursor (suc n) at e enough =
      ground (arith, drain_from fuel (k + 1) (usize (cursor + 4)) n)

-- Going through a slice that ends at least 4 bytes below 2 ^ 64 ends, with fuel above the number
-- of its slots, and meets the addresses from its start to its end in steps of four bytes, each
-- once and in order.
pub drain-iter_slots :
    (first last fuel : ℕ)
    → last + 4 ≤ 2 ^ 64
    → (last - first + 3) / 4 < fuel
    → drain fuel (iter_slots (from_range first last))
      ≡ some (map (λ i. first + 4 * i) (range_from 0 ((last - first + 3) / 4)))
unfolding iter_slots from_range
drain-iter_slots first last fuel fits enough =
    drain_from first last fits fuel 0 first ((last - first + 3) / 4) (omega arith) refl enough

module _ (src tgt n : ℕ) (m : Memory) where
  copied_byte :
      (a b : ℕ) → tgt ≤ a → a < tgt + 4 * n → src + (a - tgt) ≡ b → copy_words src tgt n m a ≡ m b
  copied_byte a b low high e = ground arith

  copied_word :
      (i : ℕ) → i < n → load_u32 (copy_words src tgt n m) (tgt + 4 * i) ≡ load_u32 m (src + 4 * i)
  unfolding load_u32
  copied_word i below = rw (first, byte 1 (omega arith), byte 2 (omega arith), byte 3 (omega arith))
    where
      first : copy_words src tgt n m (tgt + 4 * i) ≡ m (src + 4 * i)
      first = copied_byte (tgt + 4 * i) (src + 4 * i) (omega arith) (omega arith) (omega arith)

      byte : (k : ℕ) → k < 4 → copy_words src tgt n m (tgt + 4 * i + k) ≡ m (src + 4 * i + k)
      byte k small =
          copied_byte (tgt + 4 * i + k) (src + 4 * i + k) (omega arith) (omega arith) (omega arith)

slice_bytes : (a n : ℕ) → a + 4 * n < 2 ^ 64 → (a + 4 * n + 2 ^ 64 - a) % 2 ^ 64 ≡ 4 * n
slice_bytes a n h = omega arith

copy-eq-ok :
    (r : Runtime) (src tgt n : ℕ)
    → src + 4 * n < 2 ^ 64
    → tgt + 4 * n < 2 ^ 64
    → copy r (from_range src (src + 4 * n)) (from_range tgt (tgt + 4 * n))
      ≡ ok (copy_words src tgt n r.memory)
unfolding copy from_range
copy-eq-ok r src tgt n fits_src fits_tgt =
    let words : 4 * n / 4 ≡ n = omega arith in
    rw (slice_bytes src n fits_src, slice_bytes tgt n fits_tgt, words)
      (ground (arith, bit_and-three (4 * n)))

-- Copying between slices of `n` slots that end below 2 ^ 64 never fails, in a debug build either,
-- and also where the slices overlap: afterwards each slot of the target holds the word that the
-- slot of the source held before, and no byte outside of the target has changed.
pub copy_lem :
    (r : Runtime) (src tgt n : ℕ)
    → src + 4 * n < 2 ^ 64
    → tgt + 4 * n < 2 ^ 64
    → (m : Memory) × (copy r (from_range src (src + 4 * n)) (from_range tgt (tgt + 4 * n)) ≡ ok m)
      × ((i : ℕ) → i < n → load_u32 m (tgt + 4 * i) ≡ load_u32 r.memory (src + 4 * i))
      × ((a : ℕ) → (a < tgt) ⊎ (tgt + 4 * n ≤ a) → m a ≡ r.memory a)
copy_lem r src tgt n fits_src fits_tgt = (
  copy_words src tgt n r.memory,
  copy-eq-ok r src tgt n fits_src fits_tgt,
  copied_word src tgt n r.memory,
  λ a outside. ground arith,
)
