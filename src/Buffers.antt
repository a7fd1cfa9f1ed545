-- ===== src/Buffers.antt =====
-- Buffers that Rust lends to ART, mmtk/src/scanning.rs and mmtk/src/api.rs: ART writes roots to a
-- buffer, hands it back for a new one, and at last releases it. The memory of a vector belongs
-- either to ART, which has its raw parts, or to the work that its contents were reported as.
pub mod Blocks
pub mod Reports
pub mod Misuse
mod Tests
use mmtk_art.Base.{
  ℕ, ◌<◌, take, ◌≡◌, ◌≢◌, Bool, true, false, not, ◌&&◌, ◌||◌, Option, none, some, List, [], ◌∷◌,
  ◌++◌, length, ◌==◌, leb, if◌then◌else◌, map, range_from, ◌≤◌,
}
-- Using memory that is not lent, or with another capacity or item size than it has, is undefined.
pub use mmtk_art.Undefined.{Run, done, undefined, ◌>>=◌}
use Blocks.{Table, find, remove, has, modify}

-- A vector: the items that are initialised, how many there can be, and the size of one.
pub record Block : Type 0 where
  pub items : List ℕ
  pub capacity : ℕ
  pub item_bytes : ℕ

pub record RustBuffer : Type 0 where
  pub ptr : ℕ
  pub len : ℕ
  pub capacity : ℕ

-- The same of a vector of object references, and of addresses with sizes.
abbrev pub RustObjectReferenceBuffer : Type 0
RustObjectReferenceBuffer = RustBuffer

abbrev pub RustAllocatedRegionBuffer : Type 0
RustAllocatedRegionBuffer = RustBuffer

-- What mmtk-core is given: roots to process, with the address of their vector.
pub data Work : Type 0 where
  roots pinning_roots vm_space_nodes : (ptr : ℕ) → (items : List ℕ) → Work

pub record World : Type 0 where
  pub lent : Table Block
  pub reported : List Work

-- The allocator of Rust, and `EDGES_WORK_BUFFER_SIZE` of mmtk-core. A fresh vector is none of those
-- that ART has; it can have the memory of a vector that was reported, since mmtk-core drops that
-- when the work is done.
pub record Allocator : Type 0 where
  pub work_packet_capacity : ℕ
  pub work_packet_capacity_pos : 0 < work_packet_capacity
  pub fresh : World → ℕ
  pub granted : World → ℕ
  pub fresh_pos : (w : World) → 0 < fresh w
  pub has-fresh : (w : World) → has (fresh w) w.lent ≡ false
  -- `Vec::with_capacity` gives at least the capacity that it is asked for.
  pub le-granted : (w : World) → work_packet_capacity ≤ granted w

-- The sizes of an address, an object reference and a slot, and of an address with a size.
abbrev pub address_bytes : ℕ
address_bytes = 8

abbrev pub region_bytes : ℕ
region_bytes = 16

-- `Vec::from_raw_parts`, which takes the memory back from ART. A vector without capacity has no
-- memory: its address is only not null, and it can be put together any number of times.
unfoldable pub from_raw_parts : (item_bytes ptr length capacity : ℕ) → World → Run (List ℕ × World)
from_raw_parts item_bytes ptr len capacity w =
    let taken : Run (List ℕ × World) = elim (find ptr w.lent) [
      | none ↦ undefined
      | some b ↦
          if b.capacity == capacity && b.item_bytes == item_bytes && leb len (length b.items)
          then done (take len b.items, record w { lent = remove ptr w.lent })
          else undefined
    ] in
    if capacity == 0
    then (if len == 0 && not (ptr == 0) then done ([], w) else undefined)
    else taken

-- What ART writes to a buffer before it hands it back; more than its capacity is out of bounds.
unfoldable pub write_items : ℕ → List ℕ → World → Run World
write_items ptr items w = elim (find ptr w.lent) [
  | none ↦ undefined
  | some b ↦
      if leb (length items) b.capacity
      then done (record w { lent = modify ptr (λ b'. record b' { items = items }) w.lent })
      else undefined
]

-- `ManuallyDrop`: the raw parts of a vector are given to ART, with its memory if it has any.
abbrev pub lend_vector : (ptr : ℕ) → Block → World → RustBuffer × World
lend_vector ptr v w = (
  record { ptr = ptr; len = length v.items; capacity = v.capacity },
  if v.capacity == 0 then w else record w { lent = (ptr, v) ∷ w.lent },
)

-- The functions that ART calls for nodes and for slots, with the context of the closure bound.
abbrev pub Report : Type 0
Report = (ptr length capacity : ℕ) → World → Run (RustBuffer × World)

abbrev pub NodesClosure : Type 0
NodesClosure = Report

abbrev pub SlotsClosure : Type 0
SlotsClosure = Report

module _ (a : Allocator) where
  -- A new, empty vector, lent to ART.
  unfoldable pub renew_buffer : World → RustBuffer × World
  renew_buffer w =
      lend_vector (a.fresh w)
        (record { items = []; capacity = a.granted w; item_bytes = address_bytes }) w

  -- The items of a buffer, if there is one, become work; `work` says which.
  unfoldable pub report_and_renew_buffer :
      (work : ℕ → List ℕ → Work) → (ptr length capacity : ℕ) → World → Run (RustBuffer × World)
  unfolding renew_buffer
  report_and_renew_buffer work ptr len capacity w =
      let report =
        (from_raw_parts address_bytes ptr len capacity w >>= λ (buf, w').
        done (record w' { reported = w'.reported ++ (work ptr buf ∷ []) })) in
      (if ptr == 0 then done w else report) >>= λ w'. done (renew_buffer w')

  unfoldable pub report_nodes_and_renew_buffer :
      (ptr length capacity : ℕ) → World → Run (RustBuffer × World)
  unfolding report_and_renew_buffer
  report_nodes_and_renew_buffer = report_and_renew_buffer pinning_roots

  unfoldable pub report_slots_and_renew_buffer :
      (ptr length capacity : ℕ) → World → Run (RustBuffer × World)
  unfolding report_and_renew_buffer
  report_slots_and_renew_buffer = report_and_renew_buffer roots

  unfoldable pub report_vm_space_nodes_and_renew_buffer :
      (ptr length capacity : ℕ) → World → Run (RustBuffer × World)
  unfolding report_and_renew_buffer
  report_vm_space_nodes_and_renew_buffer = report_and_renew_buffer vm_space_nodes

  unfoldable pub to_nodes_closure : NodesClosure
  unfolding report_nodes_and_renew_buffer
  to_nodes_closure = report_nodes_and_renew_buffer

  unfoldable pub to_vm_space_nodes_closure : NodesClosure
  unfolding report_vm_space_nodes_and_renew_buffer
  to_vm_space_nodes_closure = report_vm_space_nodes_and_renew_buffer

  unfoldable pub to_slots_closure : SlotsClosure
  unfolding report_slots_and_renew_buffer
  to_slots_closure = report_slots_and_renew_buffer

  -- With the upcalls `scan_vm_space_objects` and `scan_all_roots` of ART.
  unfoldable pub scan_vm_space_objects : (NodesClosure → World → Run World) → World → Run World
  unfolding to_vm_space_nodes_closure
  scan_vm_space_objects upcall = upcall to_vm_space_nodes_closure

  unfoldable pub scan_vm_specific_roots : (SlotsClosure → World → Run World) → World → Run World
  unfolding to_slots_closure
  scan_vm_specific_roots scan_all_roots = scan_all_roots to_slots_closure

-- The vector that is put together is dropped at once.
abbrev release : (item_bytes ptr length capacity : ℕ) → World → Run World
release item_bytes ptr len capacity w =
    from_raw_parts item_bytes ptr len capacity w >>= λ (buf, w'). done w'

unfoldable pub mmtk_release_rust_buffer :
    (single_worker : Bool) → (ptr length capacity : ℕ) → World → Run World
mmtk_release_rust_buffer single_worker ptr len capacity w =
    if not single_worker then release address_bytes ptr len capacity w else done w

unfoldable pub mmtk_release_rust_buffer_unchecked : (ptr length capacity : ℕ) → World → Run World
mmtk_release_rust_buffer_unchecked = release address_bytes

unfoldable pub mmtk_release_rust_allocated_region_buffer :
    (ptr length capacity : ℕ) → World → Run World
mmtk_release_rust_allocated_region_buffer = release region_bytes

unfoldable pub mmtk_release_rust_object_reference_buffer :
    (ptr length capacity : ℕ) → World → Run World
mmtk_release_rust_object_reference_buffer = release address_bytes

-- What `object_graph_traversal_report_roots` uses of mmtk-core's `ObjectGraphTraversal`, which is
-- the only worker's: its mark stack is the one buffer.
pub record Traversal : Type 1 where
  pub State : Type 0
  pub report_roots : ℕ → State → State
  pub get_mark_stack : State → RustBuffer

unfoldable pub object_graph_traversal_report_roots :
    (t : Traversal) → (ptr length capacity : ℕ) → t.State → RustBuffer × t.State
object_graph_traversal_report_roots t ptr len capacity s =
    let s' = if ptr == 0 then s else t.report_roots len s in (t.get_mark_stack s', s')

-- With the feature `single_worker`: the closure with the traversal, and the scan with it.
unfoldable pub object_graph_traversal_to_slots_closure :
    (t : Traversal) → (ptr length capacity : ℕ) → t.State → RustBuffer × t.State
unfolding object_graph_traversal_report_roots
object_graph_traversal_to_slots_closure t = object_graph_traversal_report_roots t

unfoldable pub single_threaded_scan_vm_specific_roots :
    (t : Traversal)
    → (((ptr length capacity : ℕ) → t.State → RustBuffer × t.State) → t.State → t.State)
    → t.State
    → t.State
unfolding object_graph_traversal_to_slots_closure
single_threaded_scan_vm_specific_roots t scan_all_roots =
    scan_all_roots (object_graph_traversal_to_slots_closure t)

-- The scan of one mutator's roots does nothing.
unfoldable pub scan_roots_in_mutator_thread : World → World
scan_roots_in_mutator_thread w = w

unfoldable pub single_threaded_scan_roots_in_mutator_thread : (t : Traversal) → t.State → t.State
single_threaded_scan_roots_in_mutator_thread t s = s
