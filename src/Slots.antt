-- ===== src/Slots.antt =====
-- Compressed references, slots and slices of slots, mmtk/src/lib.rs. A slot is its address, and an
-- object reference is its address, which is not zero.
pub mod Refs
pub mod Slices
mod Tests
use mmtk_art.Base.{
  ℕ, zero, suc, ◌+◌, ◌-◌, ◌*◌, ◌/◌, ◌%◌, ◌^◌, bit_and, Bool, Option, none, some, List, [], ◌∷◌,
  Outcome, ok, ◌>>=◌, ◌>>◌, ◌&&◌, ◌==◌, ltb, leb, if◌then◌else◌, u32, usize, sub_usize, ◌<<<◌,
  ◌>>>◌,
}
use mathlib.Core.Option
use mmtk_art.Memory.{Memory, load_u32, store_u32}
use mmtk_art.Runtime.{Runtime, debug_assert}

-- `LOG_BYTES_IN_INT` and `LOG_BYTES_IN_SLOT`
abbrev pub log_bytes_in_int : ℕ
log_bytes_in_int = 2

abbrev pub log_bytes_in_slot : ℕ
log_bytes_in_slot = 2

unfoldable pub compress : ℕ → ℕ
compress object = u32 object

unfoldable pub decompress : ℕ → Option ℕ
decompress v = if v == 0 then none else some v

-- `ArtSlot::load` and `ArtSlot::store`
unfoldable pub load : Memory → ℕ → Option ℕ
unfolding decompress
load m slot = decompress (load_u32 m slot)

unfoldable pub store : ℕ → ℕ → Memory → Memory
unfolding compress
store slot object m = store_u32 slot (compress object) m

-- `ArtSlot::as_address`, and `ArtSlot::load_class`, which does not look at what it reads.
unfoldable pub as_address : ℕ → ℕ
as_address slot = slot

unfoldable pub load_class : Memory → ℕ → ℕ
load_class m slot = load_u32 m slot

-- `ArtMemorySlice`, a range of addresses, and `ArtSlotIterator`
pub record ArtMemorySlice : Type 0 where
  pub range_start : ℕ
  pub range_end : ℕ

pub record ArtSlotIterator : Type 0 where
  pub cursor : ℕ
  pub limit : ℕ

unfoldable pub from_range : ℕ → ℕ → ArtMemorySlice
from_range start end = record { range_start = start; range_end = end }

-- `Iterator::next`: the item and the iterator after it.
unfoldable pub next : ArtSlotIterator → Option ℕ × ArtSlotIterator
next it =
    if leb it.limit it.cursor
    then (none, it)
    else (some it.cursor, record it { cursor = usize (it.cursor + (1 <<< log_bytes_in_slot)) })

unfoldable pub iter_slots : ArtMemorySlice → ArtSlotIterator
iter_slots slice = record { cursor = slice.range_start; limit = slice.range_end }

-- A slice does not say which object it lies in.
unfoldable pub object : ArtMemorySlice → Option ℕ
object slice = none

unfoldable pub start : ArtMemorySlice → ℕ
start slice = slice.range_start

unfoldable pub bytes : ArtMemorySlice → ℕ
bytes slice = sub_usize slice.range_end slice.range_start

-- What `for slot in iterator` goes through; `none` if the fuel does not suffice.
unfoldable pub drain : ℕ → ArtSlotIterator → Option (List ℕ)
unfolding next
drain zero it = none
drain (suc fuel) it =
    let rest = drain fuel (next it).1 in
    elim (next it).0 [ none ↦ some [] | some slot ↦ Option.map (λ slots. slot ∷ slots) rest ]

-- `std::ptr::copy` of `words` 32-bit words, which reads all of the source first.
abbrev pub copy_words : (src tgt words : ℕ) → Memory → Memory
copy_words src tgt words m b =
    if leb tgt b && ltb b (tgt + 4 * words) then m (src + (b - tgt)) else m b

-- `ArtMemorySlice::copy`
unfoldable pub copy : Runtime → ArtMemorySlice → ArtMemorySlice → Outcome Memory
unfolding start bytes
copy r src tgt = do
  debug_assert r (ok (bytes src == bytes tgt))
  debug_assert r (ok (bit_and (bytes src) ((1 <<< log_bytes_in_int) - 1) == 0))
  ok (copy_words (start src) (start tgt) (bytes tgt >>> log_bytes_in_int) r.memory)
