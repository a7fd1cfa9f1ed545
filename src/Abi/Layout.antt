-- ===== src/Abi/Layout.antt =====
-- The mirrors of ART's objects, mmtk/src/abi.rs: the fields of each `#[repr(C)]` struct in order,
-- and their offsets by the rule of that representation.
use Prim.Native.String.{String}
use text.Mathlib.Text.{◌==◌ as str_eq}
use mmtk_art.Base.{
  ℕ, ◌+◌, ◌-◌, ◌*◌, ◌/◌, ◌≡◌, refl, max, List, [], ◌∷◌, Option, none, some, if◌then◌else◌,
}

-- The types of the fields. `reference` is `ArtHeapReference<T>`, an optional non-zero `u32`.
pub data FieldType : Type 0 where
  u16 : FieldType
  u32 : FieldType
  i32 : FieldType
  u64 : FieldType
  reference : FieldType
  object : FieldType
  opaque_pointer : FieldType

abbrev pub Struct : Type 0
Struct = List (String × FieldType)

unfoldable pub size_of_field : FieldType → ℕ
size_of_field FieldType.u16 = 2
size_of_field FieldType.u32 = 4
size_of_field FieldType.i32 = 4
size_of_field FieldType.u64 = 8
size_of_field FieldType.reference = 4
size_of_field FieldType.object = 8
size_of_field FieldType.opaque_pointer = 8

unfoldable pub align_of_field : FieldType → ℕ
align_of_field FieldType.u16 = 2
align_of_field FieldType.u32 = 4
align_of_field FieldType.i32 = 4
align_of_field FieldType.u64 = 8
align_of_field FieldType.reference = 4
align_of_field FieldType.object = 4
align_of_field FieldType.opaque_pointer = 8

abbrev round_up : ℕ → ℕ → ℕ
round_up n align = (n + align - 1) / align * align

-- The offset of a field, from the end of the fields before it.
offset_from : ℕ → String → Struct → Option ℕ
unfolding align_of_field size_of_field
offset_from end name [] = none
offset_from end name ((field, type) ∷ fields) =
    let start = round_up end (align_of_field type) in
    if str_eq field name then some start else offset_from (start + size_of_field type) name fields

unfoldable pub offset_of : String → Struct → Option ℕ
unfolding offset_from
offset_of = offset_from 0

struct_end : ℕ → Struct → ℕ
unfolding align_of_field size_of_field
struct_end end [] = end
struct_end end ((field, type) ∷ fields) =
    struct_end (round_up end (align_of_field type) + size_of_field type) fields

struct_align : Struct → ℕ
unfolding align_of_field
struct_align [] = 1
struct_align ((field, type) ∷ fields) = max (align_of_field type) (struct_align fields)

unfoldable pub size_of : Struct → ℕ
unfolding struct_end struct_align
size_of fields = round_up (struct_end 0 fields) (struct_align fields)

abbrev pub object_struct : Struct
object_struct = ("klass", FieldType.reference) ∷ ("monitor", FieldType.u32) ∷ []

abbrev pub class_struct : Struct
class_struct =
    ("header", FieldType.object)
    ∷ ("class_loader", FieldType.reference)
    ∷ ("component_type", FieldType.reference)
    ∷ ("dex_cache", FieldType.reference)
    ∷ ("ext_data", FieldType.reference)
    ∷ ("iftable", FieldType.reference)
    ∷ ("name", FieldType.reference)
    ∷ ("super_class", FieldType.reference)
    ∷ ("vtable", FieldType.reference)
    ∷ ("ifields", FieldType.u64)
    ∷ ("methods", FieldType.u64)
    ∷ ("sfields", FieldType.u64)
    ∷ ("access_flags", FieldType.u32)
    ∷ ("class_flags", FieldType.u32)
    ∷ ("class_size", FieldType.u32)
    ∷ ("clinit_thread_id", FieldType.u32)
    ∷ ("dex_class_def_idx", FieldType.i32)
    ∷ ("dex_type_idx", FieldType.i32)
    ∷ ("num_reference_instance_fields", FieldType.u32)
    ∷ ("num_reference_static_fields", FieldType.u32)
    ∷ ("object_size", FieldType.u32)
    ∷ ("object_size_alloc_fast_path", FieldType.u32)
    ∷ ("primitive_type", FieldType.u32)
    ∷ ("reference_instance_offsets", FieldType.u32)
    ∷ ("status", FieldType.u32)
    ∷ ("copied_methods_offset", FieldType.u16)
    ∷ ("virtual_methods_offset", FieldType.u16)
    ∷ []

abbrev pub array_struct : Struct
array_struct =
    ("header", FieldType.object) ∷ ("length", FieldType.i32) ∷ ("first_element", FieldType.u32) ∷ []

abbrev pub string_struct : Struct
string_struct =
    ("header", FieldType.object) ∷ ("count", FieldType.i32) ∷ ("hash_code", FieldType.u32) ∷ []

abbrev pub reference_struct : Struct
reference_struct =
    ("header", FieldType.object)
    ∷ ("pending_next", FieldType.reference)
    ∷ ("queue", FieldType.reference)
    ∷ ("queue_next", FieldType.reference)
    ∷ ("referent", FieldType.reference)
    ∷ []

abbrev pub dex_cache_struct : Struct
dex_cache_struct =
    ("header", FieldType.object)
    ∷ ("class_loader", FieldType.reference)
    ∷ ("location", FieldType.reference)
    ∷ ("dex_file", FieldType.u64)
    ∷ ("resolved_call_sites", FieldType.u64)
    ∷ ("resolved_fields", FieldType.u64)
    ∷ ("resolved_fields_array", FieldType.u64)
    ∷ ("resolved_method_types", FieldType.u64)
    ∷ ("resolved_method_types_array", FieldType.u64)
    ∷ ("resolved_methods", FieldType.u64)
    ∷ ("resolved_methods_array", FieldType.u64)
    ∷ ("resolved_types", FieldType.u64)
    ∷ ("resolved_types_array", FieldType.u64)
    ∷ ("strings", FieldType.u64)
    ∷ ("strings_array", FieldType.u64)
    ∷ []

abbrev pub class_loader_struct : Struct
class_loader_struct =
    ("header", FieldType.object)
    ∷ ("name", FieldType.reference)
    ∷ ("packages", FieldType.reference)
    ∷ ("parent", FieldType.reference)
    ∷ ("proxy_cache", FieldType.reference)
    ∷ ("allocator", FieldType.u64)
    ∷ ("class_table", FieldType.u64)
    ∷ []

abbrev pub art_field_struct : Struct
art_field_struct =
    ("declaring_class", FieldType.reference)
    ∷ ("access_flags", FieldType.u32)
    ∷ ("field_dex_idx", FieldType.u32)
    ∷ ("offset", FieldType.u32)
    ∷ []

abbrev pub art_method_struct : Struct
art_method_struct =
    ("declaring_class", FieldType.reference)
    ∷ ("access_flags", FieldType.u32)
    ∷ ("dex_method_index", FieldType.u32)
    ∷ ("method_index", FieldType.u16)
    ∷ ("hotness_count_or_imt_index", FieldType.u16)
    ∷ ("data", FieldType.opaque_pointer)
    ∷ ("entry_point_from_quick_compiled_code", FieldType.opaque_pointer)
    ∷ []

sizes :
    (size_of object_struct ≡ 8)
    × (size_of class_struct ≡ 120)
    × (size_of array_struct ≡ 16)
    × (size_of string_struct ≡ 16)
    × (size_of reference_struct ≡ 24)
    × (size_of dex_cache_struct ≡ 112)
    × (size_of class_loader_struct ≡ 40)
    × (size_of art_field_struct ≡ 16)
    × (size_of art_method_struct ≡ 32)
unfolding size_of
sizes = (refl, refl, refl, refl, refl, refl, refl, refl, refl)
