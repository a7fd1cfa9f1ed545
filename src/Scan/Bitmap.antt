-- ===== src/Scan/Bitmap.antt =====
-- The bitmaps of reference fields: `visit_instance_fields_references` of
-- mmtk/src/object_scanning.rs visits the fields whose bits are set.
use mmtk_art.Base.{
  ℕ, zero, suc, ◌+◌, ◌-◌, ◌*◌, ◌/◌, ◌%◌, ◌≤◌, ◌<◌, ◌^◌, ◌≡◌, refl, List, [], concat_map, range_from,
  ok, arith, ◌==◌, if◌then◌else◌, u32, usize,
}
use mmtk_art.Base.Bits.{div-pow-suc, bit_and-one, bit_and-pow, bit_and-mask}
use native.Mathlib.Nat.{pow-suc}
use mmtk_art.Memory.{load_u32, load_u32-lt}
use mmtk_art.Runtime.{Runtime}
use mmtk_art.Abi.Offsets
use mmtk_art.Abi.Class.{get_field_slot, get_reference_instance_offsets}
use mmtk_art.Scan.{
  Visit, visit_slot, visit_one_word, visit_words, visit_instance_fields_references, word_fuel,
}

module _ (r : Runtime) where
  open r use {memory}

  -- The visit of the `i`-th field from `base` on, if bit `i` of `bits` is set.
  abbrev pub marked_field : (object base bits : ℕ) → ℕ → List Visit
  marked_field object base bits i =
      if bits / 2 ^ i % 2 == 1
      then visit_slot r (get_field_slot r object (u32 (base + 4 * i)))
      else []

  module _ (object base bits : ℕ) where
    no_bits :
        (n i : ℕ)
        → bits / 2 ^ i ≡ 0
        → concat_map (marked_field object base bits) (range_from i n) ≡ []
    no_bits zero i e = refl
    no_bits (suc n) i e = ground (arith, div-pow-suc bits i, no_bits n (i + 1))

    visit_one_word_from :
        (fuel n i offset word : ℕ)
        → word ≡ bits / 2 ^ i
        → offset ≡ u32 (base + 4 * i)
        → word < 2 ^ n
        → n < fuel
        → visit_one_word r fuel object offset word
          ≡ ok (concat_map (marked_field object base bits) (range_from i n))
    unfolding visit_one_word
    visit_one_word_from zero n i offset word e o fits enough = absurd (omega arith)
    visit_one_word_from (suc fuel) zero i offset word e o fits enough = ground arith
    visit_one_word_from (suc fuel) (suc n) i offset word e o fits enough =
        let rest =
          visit_one_word_from fuel n (i + 1) (u32 (offset + 4)) (word / 2)
            (rw (div-pow-suc bits i, e)) (omega arith) (omega (arith, pow-suc 2 n)) (omega arith) in
        ground (arith, rest, bit_and-one word, no_bits (suc n) i)

  -- The visits of the 32 fields of a word.
  unfoldable pub marked_fields : (object base bits : ℕ) → List Visit
  marked_fields object base bits = concat_map (marked_field object base bits) (range_from 0 32)

  -- The loop over the bits of a `u32`, for fields from a `u32` offset on, ends within its fuel and
  -- visits exactly the fields whose bits are set and which are not null, in the order of the bits.
  pub visit_one_word_lem :
      (object base bits : ℕ)
      → base < 2 ^ 32
      → bits < 2 ^ 32
      → visit_one_word r word_fuel object base bits ≡ ok (marked_fields object base bits)
  unfolding marked_fields
  visit_one_word_lem object base bits small fits =
      visit_one_word_from object base bits word_fuel 32 0 base bits (omega arith) (omega arith) fits
        (omega arith)

  -- The fields that word `i` of an overflow bitmap marks.
  abbrev pub word_fields : (object bitmap : ℕ) → ℕ → List Visit
  word_fields object bitmap i =
      marked_fields object (u32 (Offsets.object_header_size + i * 128))
        (load_u32 memory (usize (bitmap + 4 * i)))

  pub visit_words_lem :
      (words i object bitmap : ℕ)
      → visit_words r words i object bitmap
        ≡ ok (concat_map (word_fields object bitmap) (range_from i words))
  unfolding visit_words
  visit_words_lem zero i object bitmap = refl
  visit_words_lem (suc words) i object bitmap =
      let base : u32 (Offsets.object_header_size + i * Offsets.art_heap_reference_size * 32)
          ≡ u32 (Offsets.object_header_size + i * 128) =
        omega arith in
      rw
        (
          base,
          visit_one_word_lem object (u32 (Offsets.object_header_size + i * 128))
              (load_u32 memory (usize (bitmap + 4 * i))) (omega arith) (load_u32-lt memory _),
          visit_words_lem words (i + 1) object bitmap,
        )
        refl

  -- With the fast bitmap of up to 31 bits, visiting the instance fields of an object of a class
  -- ends, without a panic, and visits exactly the fields whose bits are set and which are not
  -- null, from offset 8 on in steps of 4.
  pub visit_instance_fields_fast :
      (object klass bits : ℕ)
      → get_reference_instance_offsets r klass ≡ ok bits
      → 0 < bits
      → bits < 2 ^ 31
      → visit_instance_fields_references r object klass
        ≡ ok (marked_fields object Offsets.object_header_size bits)
  unfolding visit_instance_fields_references
  visit_instance_fields_fast object klass bits e pos fits = ground (
    arith,
    bit_and-pow 31 bits,
    visit_one_word_lem object Offsets.object_header_size bits (omega arith) (omega arith),
  )

  -- If the offsets word of a class has its top bit set, the others, below 2 ^ 30, count the words
  -- of a bitmap at the end of the class. With the class below 4 GB and that bitmap above the null
  -- address, visiting the instance fields of an object ends, without a panic, and visits exactly
  -- the fields that the bitmap marks, 32 fields to a word, and which are not null, in order.
  pub visit_instance_fields_slow :
      (object klass words : ℕ)
      → get_reference_instance_offsets r klass ≡ ok (2 ^ 31 + words)
      → words < 2 ^ 30
      → klass < 2 ^ 32
      → 4 * words ≤ klass + load_u32 memory (klass + Offsets.class_size)
      → let bitmap = klass + load_u32 memory (klass + Offsets.class_size) - 4 * words in
        visit_instance_fields_references r object klass
        ≡ ok (concat_map (word_fields object bitmap) (range_from 0 words))
  unfolding visit_instance_fields_references
  visit_instance_fields_slow object klass words e few small room =
      let bitmap = klass + load_u32 memory (klass + Offsets.class_size) - 4 * words in
      let at_bitmap : usize (
            usize (klass + load_u32 memory (klass + Offsets.class_size)) + 2 ^ 64 - u32 (words * 4))
          ≡ bitmap =
        omega (arith, load_u32-lt memory (klass + Offsets.class_size)) in
      let count : (2 ^ 31 + words) % 2 ^ 31 ≡ words = omega arith in
      rw (e, bit_and-mask 31 (2 ^ 31 + words), bit_and-pow 31 (2 ^ 31 + words), count, at_bitmap)
        (ground (arith, visit_words_lem words 0 object bitmap))
