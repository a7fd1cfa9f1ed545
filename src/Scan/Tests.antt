-- ===== src/Scan/Tests.antt =====
-- Scanning the objects of the small memory.
use mmtk_art.Base.{
  ℕ, inr, ◌+◌, ◌≡◌, refl, true, false, none, some, List, [], ◌∷◌, ok, ◌==◌, if◌then◌else◌, arith,
}
use mmtk_art.Runtime.{Runtime}
use mmtk_art.Runtime.Example.{runtime, words}
use mmtk_art.Memory.{Memory, load_u32}
use mmtk_art.Undefined.{done}
use mmtk_art.Slots
use mmtk_art.Abi.Primitive
use mmtk_art.Abi.Class.{
  should_have_embedded_vtable, get_embedded_vtable_length, get_field_address, get_field_slot,
  get_reference_instance_offsets, klass_slot,
}
use mmtk_art.Scan.{
  slot, visit_slot, visit_one_word, word_fuel, visit_instance_fields_references,
  visit_array_references, visit_static_fields_references, scan_object,
}
use mmtk_art.Scan.Bitmap.{
  marked_fields, visit_one_word_lem, visit_instance_fields_fast, visit_instance_fields_slow,
}
use mmtk_art.Scan.Elements.{visit_array_references_lem}
use mmtk_art.Scan.Statics.{visit_static_fields_references_lem}
use mmtk_art.Scan.{Visit, scan_object_with_features}
use mmtk_art.Closures.{World, SlotVisitor}
use mmtk_art.Scan.Visitor.{Reports, IsVisited, perform_all, scan_object-IsVisited}
use mmtk_art.Scan.Dispatch.{contents, kind_of, scan_object_lem}

visit_one_word_lem_example :
    visit_one_word runtime word_fuel 64 8 0b1011 ≡ ok (slot 72 ∷ slot 84 ∷ [])
unfolding marked_fields visit_slot get_field_slot load_u32 Slots.load Slots.decompress
visit_one_word_lem_example = visit_one_word_lem runtime 64 8 0b1011 (omega arith) (omega arith)

visit_instance_fields_fast_example :
    visit_instance_fields_references runtime 64 256 ≡ ok (slot 72 ∷ slot 84 ∷ [])
unfolding marked_fields visit_slot get_field_slot get_reference_instance_offsets load_u32 Slots.load
    Slots.decompress
visit_instance_fields_fast_example =
    visit_instance_fields_fast runtime 64 256 0b1011 refl (omega arith) (omega arith)

-- The bitmap marks the class slot 64 + 8 and 64 + 20.
visit_instance_fields_slow_example :
    visit_instance_fields_references runtime 64 384 ≡ ok (slot 72 ∷ slot 84 ∷ [])
unfolding marked_fields visit_slot get_field_slot get_reference_instance_offsets load_u32 Slots.load
    Slots.decompress
visit_instance_fields_slow_example =
    visit_instance_fields_slow runtime 64 384 1 refl (omega arith) (omega arith) (omega arith)

visit_array_references_lem_example :
    visit_array_references runtime 640 ≡ ok (slot 652 ∷ slot 660 ∷ [])
unfolding visit_slot load_u32 Slots.load Slots.decompress
visit_array_references_lem_example =
    let elements : load_u32 runtime.memory (640 + 8) ≡ 3 = refl in
    visit_array_references_lem runtime 640 (omega arith) (omega arith)

-- A class at 2048 with an embedded vtable of one entry, so that its statics begin at 2192.
abbrev with_vtable : Runtime
with_vtable = record runtime {
  memory = words ((2140, 3) ∷ (2152, 0x20000) ∷ (2168, 1) ∷ (2192, 3000) ∷ (2200, 4000) ∷ []);
}

visit_static_fields_references_lem_example :
    visit_static_fields_references with_vtable 2048 ≡ ok (slot 2192 ∷ slot 2200 ∷ [])
unfolding should_have_embedded_vtable get_embedded_vtable_length get_field_address visit_slot
    load_u32 Slots.load Slots.decompress Primitive.from_u32
visit_static_fields_references_lem_example =
    visit_static_fields_references_lem with_vtable true 2048 refl (inr refl) refl (omega arith)
      (omega arith)

scan_object_lem_example : scan_object runtime true 64 ≡ ok (slot 64 ∷ slot 72 ∷ slot 84 ∷ [])
unfolding contents kind_of klass_slot visit_instance_fields_references visit_slot get_field_slot
    get_reference_instance_offsets visit_one_word load_u32 Slots.load Slots.decompress
scan_object_lem_example =
    let of_class : load_u32 runtime.memory (klass_slot runtime 64) ≡ 256 = refl in
    scan_object_lem runtime refl 64 (omega arith)

-- A visitor that keeps the slots, the last one first, at 48, and counts its calls, next to the
-- memory that is scanned; another closure is at 56.
abbrev keep_slots : SlotVisitor (List ℕ) (ℕ × Memory)
keep_slots x seen (calls, memory) = (tt, x ∷ seen, (calls + 1, memory))

abbrev reports : Reports
reports = record {
  scan_object = λ object. object ∷ (object + 8) ∷ (object + 20) ∷ [];
  scan_native_roots = λ object kind. [];
  process_referent = λ klass reference. [];
}

abbrev visitors : World (List ℕ) (ℕ × Memory)
visitors = record {
  captured = λ q. if q == 48 then some [] else if q == 56 then some (1 ∷ []) else none;
  rest = (0, runtime.memory);
}

abbrev visited : List Visit
visited = slot 64 ∷ slot 72 ∷ slot 84 ∷ []

scan_object-IsVisited_example :
    (between : World (List ℕ) (ℕ × Memory)) × (perform_all reports keep_slots 48
        (slot 64 ∷ [])
        visitors
      ≡ done between)
    × (scan_object_with_features (record runtime { memory = between.rest.1 }) false (λ o. 0) 64
        ≡ ok visited)
    × (scan_object_with_features runtime false (λ o. 0) 64 ≡ ok visited)
    × IsVisited reports keep_slots 48
        (64 ∷ 72 ∷ 84 ∷ [])
        []
        visitors
        (perform_all reports keep_slots 48 visited visitors)
    × (asked : List Visit) × (scan_object_with_features runtime true (λ o. 0) 64 ≡ ok asked)
    × IsVisited reports keep_slots 48
        (64 ∷ 72 ∷ 84 ∷ [])
        []
        visitors
        (perform_all reports keep_slots 48 asked visitors)
unfolding contents kind_of klass_slot visit_instance_fields_references visit_slot get_field_slot
    get_reference_instance_offsets visit_one_word load_u32 Slots.load Slots.decompress
scan_object-IsVisited_example =
    let of_class : load_u32 runtime.memory (klass_slot runtime 64) ≡ 256 = refl in
    scan_object-IsVisited reports keep_slots 48 (λ (rest : ℕ × Memory). rest.1) (λ x s rest. refl)
      runtime refl (λ o. 0) 64 (slot 72 ∷ slot 84 ∷ []) (slot 64 ∷ []) (slot 72 ∷ slot 84 ∷ []) []
      visitors refl refl refl (omega arith) refl
