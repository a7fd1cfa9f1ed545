-- ===== src/Lib.antt =====
-- The binding of MMTk to the Android Runtime (ART), mmtk/src: the Rust code that gives mmtk-core
-- its view of ART's objects and decides when to collect and how far the heap grows.
--
-- The parts, and how they interact:
-- * mmtk-core polls the GC trigger (mmtk/src/gc_trigger.rs, `ArtTrigger`) at allocations, and tells
--   it when a collection starts and ends. The trigger keeps a target footprint, the current heap
--   size, below a growth limit. `Trigger.State` and `Trigger.Policy` have its fields and one
--   function per method. `Trigger.Threads` has the atomic accesses of polls, allocations and
--   foreground switches as steps of threads, `Trigger.Accesses` those of every method. The children
--   of `Trigger` prove it in `Limits`, `Polling`, `Sizing`, `Relief`, `Threads.Bounds`,
--   `Threads.Races`, `Accesses.Bounds` and `Accesses.Crossing`.
-- * C code calls Rust closures through a function pointer and an address (mmtk/src/lib.rs,
--   `MutatorClosure`, `ScanObjectClosure`, `TraceObjectClosure`; mmtk/src/scanning.rs,
--   `to_scan_object_closure`): `Closures` and `Closures.Tracing`, proved in `Closures.Calls`.
-- * A collection stops and flushes the mutators (mmtk/src/collection.rs, mmtk/src/active_plan.rs)
--   with such closures: `Mutators`, with the upcalls as events of a trace, and `Mutators.Flush`.
-- * ART reports its roots in buffers that Rust lends to it (mmtk/src/scanning.rs,
--   `scan_vm_specific_roots`, `report_slots_and_renew_buffer` and their siblings; mmtk/src/api.rs,
--   `mmtk_release_rust_buffer` and its siblings): `Buffers`, whose state is the memory that ART
--   holds and the work reported. `Buffers.Blocks` has the table of lent memory, `Buffers.Reports` and
--   `Buffers.Misuse` the proofs.
-- * A collection scans objects (mmtk/src/object_scanning.rs, `scan_object`): `Scan` has one function
--   per function of it, whose result is the list of visits in order. `Scan.Bitmap`, `Scan.Elements`,
--   `Scan.Statics` and `Scan.Dispatch` prove it, and `Scan.Visitor` carries the visits out with a
--   slot visitor, which must not write to the memory that is scanned, and with ART's upcalls.
-- * Scanning reads ART's objects through mirrors of their layout (mmtk/src/abi.rs): `Abi.Layout` has
--   the structs, `Abi.Offsets` and `Abi.Flags` the constants, `Abi.Class` what a class says of
--   itself, `Abi.ClassSize` the computation of class sizes, `Abi.Sizes` those of objects, arrays and
--   strings, with `get_current_size` of mmtk/src/object_model.rs, and `Abi.Casts` the casts between
--   the mirrors; `Abi.Codes`, `Abi.ClassSize.Room`, `Abi.Objects` and `Abi.Superclasses` prove
--   them.
-- * A collection copies objects (mmtk/src/object_model.rs, `copy`): `ObjectModel`, proved in
--   `ObjectModel.Copy`.
-- * Slots hold compressed references (mmtk/src/lib.rs, `compress`, `decompress`, `ArtSlot`,
--   `ArtMemorySlice`): `Slots`.
-- * After the trace, `process_weak_refs` (mmtk/src/scanning.rs) goes through the phases of weak
--   reference processing: `WeakRefs`.
-- * ART starts MMTk (mmtk/src/api.rs, `mmtk_init`, `mmtk_set_heap_size`, and the statics and
--   `set_vm_layout` of mmtk/src/lib.rs), which then creates the trigger (mmtk/src/collection.rs,
--   `create_gc_trigger`): `Startup`.
-- * ART allocates, asks and configures through the other calls of mmtk/src/api.rs: `Api.Calls` has
--   those on the instance, each with its assertion, what it passes on to mmtk-core and its answer,
--   `Api.Objects` the questions about objects, `Api.Barriers` the write and copy barriers with their
--   debug checks, and `Api.Cursors` the thread-local cursor and limit. `Api.Order`,
--   `Api.Lending` and `Api.Barriers.Overlap` prove them.
-- * What the binding leaves unimplemented (mmtk/src/reference_glue.rs and methods of other files)
--   panics: `Unsupported`.
--
-- How the code is modelled:
-- * `usize` and `u32` are native natural numbers with the wrap-around of a release build on a 64-bit
--   target written out; an `i32` is its bit pattern, extended where the code casts it. A build with
--   debug assertions wraps, too, as one without overflow checks does: where Android.bp turns on
--   `overflow-checks` for debug builds, an operation that overflows panics instead.
-- * Memory is a function from addresses to bytes, read in little-endian words (`Memory`). An object,
--   a class and a reference are addresses.
-- * A function that can panic returns an `Outcome` (`Base.Panics`); `debug_assert!` is checked if the
--   build has debug assertions, which is a field of `Runtime` and of `Startup.Build`. Using memory
--   that is not lent, the address of no closure, or upcalls that are null, is `undefined`
--   (`Undefined`, `Buffers`, `Closures`, `Api.Calls`).
-- * `Buffers` has the report functions of a build without the feature `single_worker`, and beside
--   them the one that replaces that for slots in a build with it, on the traversal of mmtk-core.
-- * `f64` is a parameter, `Trigger.Double`, with the facts that the proofs use. So are the
--   alignment functions of mmtk-core (`Runtime.Conversions`), its builder and instance
--   (`Startup.Core`), its copy context (`ObjectModel.CopyContext`), the allocator of Rust
--   (`Buffers.Allocator`), the calls of mmtk-core that `Api.Calls` makes (`Api.Calls.Callees`), and
--   what ART says of its threads (`Mutators.Threads`).
-- * In `Trigger.Threads` and `Trigger.Accesses` each atomic access is one step, and the steps of the
--   threads interleave, in the former only those of polls, allocations and foreground switches; the
--   reorderings that `Ordering::Relaxed` allows beyond that are not modelled. In `Trigger.Policy` a
--   method runs on its own, and `is_gc_required` takes what each round of its loop finds: the
--   reserved pages, and whether the weak exchange succeeds.
-- * Loops run on fuel. The loop over the bits of a word has 33 rounds, one more than it needs for 32
--   bits; `drain` and `collect` are proved with their fuel to end; the walk up the superclasses of debug
--   builds takes the number of classes from `Runtime.super_fuel`, and the debug checks of an array
--   copy take one more than the elements.
--
-- Not modelled: the tracing output; the bodies of ART's upcalls and of mmtk-core, and the table of
-- function pointers to the former, `ArtUpcalls`; the constants of mmtk/src/object_model.rs that say
-- where the metadata of an object lie, and its dump of an object by an upcall; the compiler hints
-- `likely` and `unlikely`.
pub mod Base
pub mod Undefined
pub mod Memory
pub mod Runtime
pub mod Abi
pub mod Slots
pub mod Scan
pub mod Trigger
pub mod WeakRefs
pub mod Startup
pub mod Closures
pub mod Buffers
pub mod Mutators
pub mod ObjectModel
pub mod Unsupported
pub mod Api
