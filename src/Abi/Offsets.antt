-- ===== src/Abi/Offsets.antt =====
-- The offsets at which the code reads the fields of its mirrors of ART's objects, and the sizes
-- of these, mmtk/src/abi.rs; `layout` holds them against the `#[repr(C)]` structs.
use mmtk_art.Base.{ℕ, ◌≡◌, refl, some}
use mmtk_art.Abi.Layout.{
  offset_of, size_of, object_struct, class_struct, array_struct, string_struct,
}

abbrev pub klass : ℕ
klass = 0

abbrev pub component_type : ℕ
component_type = 12

abbrev pub super_class : ℕ
super_class = 32

abbrev pub access_flags : ℕ
access_flags = 64

abbrev pub class_flags : ℕ
class_flags = 68

abbrev pub class_size : ℕ
class_size = 72

abbrev pub num_reference_instance_fields : ℕ
num_reference_instance_fields = 88

abbrev pub num_reference_static_fields : ℕ
num_reference_static_fields = 92

abbrev pub object_size : ℕ
object_size = 96

abbrev pub primitive_type : ℕ
primitive_type = 104

abbrev pub reference_instance_offsets : ℕ
reference_instance_offsets = 108

abbrev pub status : ℕ
status = 112

abbrev pub length : ℕ
length = 8

abbrev pub first_element : ℕ
first_element = 12

abbrev pub count : ℕ
count = 8

-- `size_of::<Class>()`
abbrev pub class_bytes : ℕ
class_bytes = 120

-- `size_of::<ArtString>()`
abbrev pub string_bytes : ℕ
string_bytes = 16

-- `OBJECT_HEADER_SIZE`
abbrev pub object_header_size : ℕ
object_header_size = 8

-- `ART_HEAP_REFERENCE_SIZE`
abbrev pub art_heap_reference_size : ℕ
art_heap_reference_size = 4

layout :
    (offset_of "klass" object_struct ≡ some klass)
    × (offset_of "component_type" class_struct ≡ some component_type)
    × (offset_of "super_class" class_struct ≡ some super_class)
    × (offset_of "access_flags" class_struct ≡ some access_flags)
    × (offset_of "class_flags" class_struct ≡ some class_flags)
    × (offset_of "class_size" class_struct ≡ some class_size)
    × (offset_of "num_reference_instance_fields" class_struct ≡ some num_reference_instance_fields)
    × (offset_of "num_reference_static_fields" class_struct ≡ some num_reference_static_fields)
    × (offset_of "object_size" class_struct ≡ some object_size)
    × (offset_of "primitive_type" class_struct ≡ some primitive_type)
    × (offset_of "reference_instance_offsets" class_struct ≡ some reference_instance_offsets)
    × (offset_of "status" class_struct ≡ some status)
    × (offset_of "length" array_struct ≡ some length)
    × (offset_of "first_element" array_struct ≡ some first_element)
    × (offset_of "count" string_struct ≡ some count)
    × (size_of class_struct ≡ class_bytes)
    × (size_of string_struct ≡ string_bytes)
    × (size_of object_struct ≡ object_header_size)
unfolding offset_of size_of
layout = (
  refl, refl, refl, refl, refl, refl, refl, refl, refl, refl, refl, refl, refl, refl, refl, refl,
  refl, refl,
)
