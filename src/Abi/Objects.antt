-- ===== src/Abi/Objects.antt =====
-- Sizes of arrays and strings, mmtk/src/abi.rs, in a build without debug assertions.
use mmtk_art.Base.{
  ℕ, zero, suc, refl, usize, ◌+◌, ◌*◌, ◌/◌, ◌%◌, ◌^◌, ◌≤◌, ◌<◌, ◌≡◌, ◌≢◌, false, ok, arith,
  if◌then◌else◌, ◌==◌,
}
use mmtk_art.Base.Bits.{bit_and-one}
use mmtk_art.Memory.{load_u32}
use mmtk_art.Runtime.{Runtime}
use mmtk_art.Abi.Offsets
use mmtk_art.Abi.Class.{
  klass_slot, get_class, deref, get_component_size_shift, get_primitive_type_size_shift,
}
use mmtk_art.Abi.Sizes.{array_size_of, data_offset, string_size_of, is_compressed, get_length}

module _ (r : Runtime) (release : r.debug_assertions ≡ false) where
  open r use {memory, conversions}

  first_element_offset :
      (width : ℕ)
      → width ≤ 3
      → conversions.raw_align_up 12 (2 ^ width) ≡ (if width == 3 then 16 else 12)
  first_element_offset zero small =
      let start : conversions.raw_align_up 12 1 ≡ 12 = omega (
        arith,
        conversions.le-raw_align_up 12 1 (omega arith),
        conversions.raw_align_up-lt 12 1 (omega arith),
      ) in
      start
  first_element_offset (suc zero) small =
      let start : conversions.raw_align_up 12 2 ≡ 12 = omega (
        arith,
        conversions.le-raw_align_up 12 2 (omega arith),
        conversions.raw_align_up-lt 12 2 (omega arith),
        conversions.raw_align_up-aligned 12 2 (omega arith),
      ) in
      start
  first_element_offset (suc (suc zero)) small =
      let start : conversions.raw_align_up 12 4 ≡ 12 = omega (
        arith,
        conversions.le-raw_align_up 12 4 (omega arith),
        conversions.raw_align_up-lt 12 4 (omega arith),
        conversions.raw_align_up-aligned 12 4 (omega arith),
      ) in
      start
  first_element_offset (suc (suc (suc zero))) small =
      let start : conversions.raw_align_up 12 8 ≡ 16 = omega (
        arith,
        conversions.le-raw_align_up 12 8 (omega arith),
        conversions.raw_align_up-lt 12 8 (omega arith),
        conversions.raw_align_up-aligned 12 8 (omega arith),
      ) in
      start
  first_element_offset (suc (suc (suc (suc n)))) small = absurd (omega arith)

  shift_fits : (width : ℕ) → width ≤ 3 → usize (2 ^ (width % 64)) ≡ 2 ^ width
  shift_fits zero small = refl
  shift_fits (suc zero) small = refl
  shift_fits (suc (suc zero)) small = refl
  shift_fits (suc (suc (suc zero))) small = refl
  shift_fits (suc (suc (suc (suc n)))) small = absurd (omega arith)

  elements_fit :
      (width length start : ℕ)
      → width ≤ 3
      → length < 2 ^ 31
      → start ≤ 16
      → usize (start + usize (length * 2 ^ (width % 64))) ≡ start + length * 2 ^ width
  elements_fit zero length start small fits low = omega arith
  elements_fit (suc zero) length start small fits low = omega arith
  elements_fit (suc (suc zero)) length start small fits low = omega arith
  elements_fit (suc (suc (suc zero))) length start small fits low = omega arith
  elements_fit (suc (suc (suc (suc n)))) length start small fits low = absurd (omega arith)

  -- Without debug assertions, an array of a length below 2 ^ 31 whose class has a component type
  -- of 1, 2, 4 or 8 bytes takes its header, up to offset 12 or for 8 bytes 16, and its elements,
  -- and nothing else.
  pub array_size_of_lem :
      (array klass component width : ℕ)
      → load_u32 memory (klass_slot r array) ≡ klass
      → klass ≢ 0
      → load_u32 memory (klass + Offsets.component_type) ≡ component
      → component ≢ 0
      → load_u32 memory (component + Offsets.primitive_type) / 2 ^ 16 ≡ width
      → width ≤ 3
      → load_u32 memory (array + Offsets.length) < 2 ^ 31
      → array_size_of r array
        ≡ ok
            ((if width == 3 then 16 else 12) + load_u32 memory (array + Offsets.length) * 2 ^ width)
  unfolding array_size_of get_class deref get_component_size_shift get_primitive_type_size_shift
      data_offset
  array_size_of_lem array klass component width of_class valid of_component valid_component of_width
        small fits =
      let length = load_u32 memory (array + Offsets.length) in
      let start : ℕ = if width == 3 then 16 else 12 in
      ground (
        arith,
        first_element_offset width small,
        shift_fits width small,
        elements_fit width length start small fits (ground arith),
      )

module _ (r : Runtime) where
  open r use {memory, conversions}

  -- A string of less than 2 ^ 30 characters takes its header of 16 bytes and one byte for each
  -- character if it is compressed and two otherwise, rounded up to a multiple of 8 by less than 8.
  pub string_size_of_lem :
      (string length bit : ℕ)
      → bit < 2
      → length < 2 ^ 30
      → load_u32 memory (string + Offsets.count) ≡ 2 * length + bit
      → (string_size_of r string % 8 ≡ 0)
        × (16 + length * (1 + bit) ≤ string_size_of r string)
        × (string_size_of r string < 16 + length * (1 + bit) + 8)
  unfolding string_size_of is_compressed get_length
  string_size_of_lem string length zero two few of_count = ground (
    arith,
    bit_and-one (2 * length),
    conversions.le-raw_align_up (16 + length) 8,
    conversions.raw_align_up-lt (16 + length) 8,
    conversions.raw_align_up-aligned (16 + length) 8,
  )
  string_size_of_lem string length (suc zero) two few of_count = ground (
    arith,
    bit_and-one (2 * length + 1),
    conversions.le-raw_align_up (16 + 2 * length) 8,
    conversions.raw_align_up-lt (16 + 2 * length) 8,
    conversions.raw_align_up-aligned (16 + 2 * length) 8,
  )
  string_size_of_lem string length (suc (suc n)) two few of_count = absurd (omega arith)
