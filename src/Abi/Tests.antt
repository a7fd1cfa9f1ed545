-- ===== src/Abi/Tests.antt =====
-- Concrete primitives, statuses and class sizes.
use mmtk_art.Base.{
  [], ◌∷◌, ℕ, ◌+◌, ◌*◌, ◌%◌, ◌≤◌, ◌<◌, ◌≡◌, ◌↔◌, refl, inr, true, false, ok, panic, arith,
}
use mmtk_art.Memory.{load_u32}
use mmtk_art.Runtime.{Runtime}
use mmtk_art.Runtime.Example.{conversions, runtime, words}
use mmtk_art.Abi.Class.{
  klass_slot, is_class_class, get_class, is_object_array_class, is_string_class,
}
use mmtk_art.Abi.Superclasses.{check_no_reference_fields_lem}
use mmtk_art.Abi.Sizes.{check_no_reference_fields, array_size_of, string_size_of}
use mmtk_art.Abi.Objects.{array_size_of_lem, string_size_of_lem}
use mmtk_art.Abi.Primitive
use mmtk_art.Abi.Primitive.{ArtPrimitive}
use mmtk_art.Abi.Status
use mmtk_art.Abi.Status.{ClassStatus}
use mmtk_art.Abi.Codes.{from_u32_lem}
use mmtk_art.Abi.ClassSize.{
  size_before_primitives, add_primitives, shuffle_forward, shuffle, compute_class_size,
}
use mmtk_art.Abi.ClassSize.Room.{compute_class_size_room}

from_u32_lem_example :
    ((Primitive.from_u32 6 ≡ ok ArtPrimitive.long) ↔ (6 ≡ Primitive.as_u32 ArtPrimitive.long))
    × ((Primitive.from_u32 6 ≡ panic) ↔ (9 < 6))
    × ((Status.from_u32 6 ≡ ok ClassStatus.resolved) ↔ (6 ≡ Status.as_u32 ClassStatus.resolved))
    × ((Status.from_u32 6 ≡ panic) ↔ (15 < 6))
from_u32_lem_example = from_u32_lem 6 ArtPrimitive.long ClassStatus.resolved

-- With a class whose references end at 132, a byte and a 16-bit field move before the two longs.
compute_class_size_room_example :
    let (size, n64, num_bitmap) : ℕ × ℕ × ℕ =
      (compute_class_size conversions false 0 1 1 0 2 3 1 8, 2, 1) in
    (120 + 12 + 1 + 2 + 0 + 16 + 4 ≤ size)
    × (size ≤ 120 + 12 + 1 + 2 + 0 + 16 + 4 + 10)
    × (n64 ≡ 0 → num_bitmap ≡ 0 → size ≡ 120 + 12 + 1 + 2 + 0 + 16 + 4)
unfolding size_before_primitives
compute_class_size_room_example =
    compute_class_size_room conversions false 0 1 1 0 2 3 1 8
      (record { vtable_fits = omega arith; ref_fits = omega arith; pointer = inr refl })
      (omega arith) (omega arith) (omega arith) (omega arith) (omega arith)

size_of_it : compute_class_size conversions false 0 1 1 0 2 3 1 8 ≡ 156
unfolding compute_class_size add_primitives size_before_primitives shuffle_forward shuffle
size_of_it = refl

-- A class at 256 whose superclass, at 512, has the class pointer of all objects.
abbrev two_classes : Runtime
two_classes = record runtime {
  debug_assertions = true;
  memory = words ((256, 128) ∷ (288, 512) ∷ (600, 1) ∷ []);
}

check_no_reference_fields_lem_example : check_no_reference_fields two_classes 256 ≡ ok tt
unfolding is_class_class get_class klass_slot is_object_array_class is_string_class load_u32
check_no_reference_fields_lem_example =
    check_no_reference_fields_lem two_classes 256 (512 ∷ []) refl refl refl refl
      (refl, ground arith, refl, refl) (omega arith)

-- An array of 3 elements of 4 bytes.
array_size_of_lem_example : array_size_of runtime 640 ≡ ok 24
unfolding klass_slot load_u32
array_size_of_lem_example =
    let (klass, component) : ℕ × ℕ = (512, 704) in
    array_size_of_lem runtime refl 640 klass component 2 refl (omega arith) refl (omega arith) refl
      (omega arith) (omega arith)

-- An uncompressed string of 5 characters.
string_size_of_lem_example :
    (string_size_of runtime 736 % 8 ≡ 0)
    × (16 + 5 * (1 + 1) ≤ string_size_of runtime 736)
    × (string_size_of runtime 736 < 16 + 5 * (1 + 1) + 8)
unfolding load_u32
string_size_of_lem_example = string_size_of_lem runtime 736 5 1 (omega arith) (omega arith) refl
