-- ===== src/ObjectModel/Copy.antt =====
-- A copy of an object is the object: `copy` of mmtk/src/object_model.rs.
use mmtk_art.Base.{
  ℕ, ◌+◌, ◌-◌, ◌≤◌, ◌<◌, ◌^◌, ◌≡◌, ◌≢◌, ◌⊎◌, refl, ap, ◌∙◌, inl, inr, false, ok, arith,
}
use mmtk_art.Memory.{Memory, load_u32, load_u32-lt}
use mmtk_art.Runtime.{Runtime}
use mmtk_art.Abi.Offsets
use mmtk_art.Abi.Class.{
  klass_slot, get_class, deref, as_object, is_array_class, is_class_class, is_string_class,
  get_class_object_size, is_variable_size, get_component_size_shift, get_primitive_type_size_shift,
  get_field_slot,
}
use mmtk_art.Abi.Sizes.{
  get_object_size, get_current_size, as_array, as_class, as_string, array_size_of, string_size_of,
  data_offset, is_compressed, get_length,
}
use mmtk_art.ObjectModel.{CopyContext, Copied, copy_bytes, get_size_when_copied, copy}

module _ (m : Memory) (src dst bytes : ℕ) where
  copied_byte :
      (a b : ℕ)
      → dst ≤ a
      → a < dst + bytes
      → src + (a - dst) ≡ b
      → copy_bytes src dst bytes m a ≡ m b
  copied_byte a b low high e = ground arith

  -- A word within the copy.
  copied_word :
      (i : ℕ)
      → i + 4 ≤ bytes
      → load_u32 (copy_bytes src dst bytes m) (dst + i) ≡ load_u32 m (src + i)
  unfolding load_u32
  copied_word i within =
      rw (first, byte 1 (omega arith), byte 2 (omega arith), byte 3 (omega arith))
    where
      first : copy_bytes src dst bytes m (dst + i) ≡ m (src + i)
      first = copied_byte (dst + i) (src + i) (omega arith) (omega arith) (omega arith)

      byte : (k : ℕ) → k < 4 → copy_bytes src dst bytes m (dst + i + k) ≡ m (src + i + k)
      byte k small =
          copied_byte (dst + i + k) (src + i + k) (omega arith) (omega arith) (omega arith)

  -- A word outside of the copy.
  kept_word :
      (a : ℕ)
      → (a + 4 ≤ dst) ⊎ (dst + bytes ≤ a)
      → load_u32 (copy_bytes src dst bytes m) a ≡ load_u32 m a
  unfolding load_u32
  kept_word a outside = ground arith

-- In a build without debug assertions the size of an object comes from these words.
module _ (r : Runtime) (release : r.debug_assertions ≡ false) (m : Memory) where
  abbrev other : Runtime
  other = record r { memory = m }

  record IsSame (o o' klass component : ℕ) : Type 0 where
    of_klass : load_u32 r.memory (klass_slot r o) ≡ klass
    of_component : load_u32 r.memory (klass + Offsets.component_type) ≡ component
    same_klass : load_u32 m (klass_slot r o') ≡ klass
    same_length : load_u32 m (o' + Offsets.length) ≡ load_u32 r.memory (o + Offsets.length)
    same_component : load_u32 m (klass + Offsets.component_type) ≡ component
    same_flags :
        load_u32 m (klass + Offsets.class_flags) ≡ load_u32 r.memory (klass + Offsets.class_flags)
    same_object_size :
        load_u32 m (klass + Offsets.object_size) ≡ load_u32 r.memory (klass + Offsets.object_size)
    same_class_class : load_u32 m (klass_slot r klass) ≡ load_u32 r.memory (klass_slot r klass)
    same_primitive_type :
        load_u32 m (component + Offsets.primitive_type)
        ≡ load_u32 r.memory (component + Offsets.primitive_type)
    same_class_size :
        (load_u32 r.memory (klass_slot r klass) ≢ klass)
        ⊎ (load_u32 m (o' + Offsets.class_size) ≡ load_u32 r.memory (o + Offsets.class_size))

  array_size_of_same :
      (o o' klass component : ℕ)
      → IsSame o o' klass component
      → array_size_of other o' ≡ array_size_of r o
  unfolding array_size_of get_class klass_slot deref get_component_size_shift
      get_primitive_type_size_shift data_offset
  array_size_of_same o o' klass component h = ground arith

  string_size_of_same :
      (o o' klass component : ℕ)
      → IsSame o o' klass component
      → string_size_of other o' ≡ string_size_of r o
  unfolding string_size_of get_length is_compressed
  string_size_of_same o o' klass component h =
      let count : load_u32 m (o' + Offsets.count) ≡ load_u32 r.memory (o + Offsets.count) =
        h.same_length in
      rw (count) refl

  get_object_size_same :
      (o o' klass component : ℕ)
      → IsSame o o' klass component
      → get_object_size other o' ≡ get_object_size r o
  unfolding get_object_size as_object get_class klass_slot deref is_array_class is_class_class
      is_string_class get_class_object_size is_variable_size as_array as_class as_string
  get_object_size_same o o' klass component h =
      ground (
        arith,
        array_size_of_same o o' klass component h,
        string_size_of_same o o' klass component h,
      )

klass_slot_lem : (r : Runtime) (o : ℕ) → o < 2 ^ 64 → klass_slot r o ≡ o
unfolding klass_slot get_field_slot
klass_slot_lem r o low = omega arith

module _ (r : Runtime) (release : r.debug_assertions ≡ false) (context : CopyContext) where
  module _ (original semantics bytes : ℕ) where
    abbrev pub destination : ℕ
    destination = context.alloc_copy original bytes 8 0 semantics

    abbrev pub after_copy : Memory
    after_copy = copy_bytes original destination bytes r.memory

    abbrev pub klass_of : ℕ
    klass_of = load_u32 r.memory (klass_slot r original)

    abbrev pub component_of : ℕ
    component_of = load_u32 r.memory (klass_of + Offsets.component_type)

    -- The copy does not overlap the class or the component type of the object.
    pub record IsApart : Type 0 where
      pub from_klass :
          (destination + bytes ≤ klass_of) ⊎ (klass_of + Offsets.class_bytes ≤ destination)
      pub from_component :
          (destination + bytes ≤ component_of) ⊎ (component_of + Offsets.class_bytes ≤ destination)

    copied_words :
        original < 2 ^ 64
        → destination < 2 ^ 64
        → IsApart
        → 12 ≤ bytes
        → (load_u32 r.memory klass_of ≢ klass_of) ⊎ (76 ≤ bytes)
        → IsSame r release after_copy original destination klass_of component_of
    copied_words low_src low_dst apart large sized =
        let word = copied_word r.memory original destination bytes in
        let kept = kept_word r.memory original destination bytes in
        let klass_low : klass_of < 2 ^ 64 =
          omega (arith, load_u32-lt r.memory (klass_slot r original)) in
        let at_src = klass_slot_lem r original low_src in
        let at_dst = klass_slot_lem r destination low_dst in
        let at_klass = klass_slot_lem r klass_of klass_low in
        let klass_word : load_u32 after_copy (klass_slot r destination) ≡ klass_of =
          let start : klass_slot r destination ≡ destination + 0 = omega (arith, at_dst) in
          let origin : original + 0 ≡ klass_slot r original = omega (arith, at_src) in
          ap (load_u32 after_copy) start ∙ word 0 (omega arith) ∙ ap (load_u32 r.memory) origin in
        let class_class : load_u32 after_copy (klass_slot r klass_of)
            ≡ load_u32 r.memory (klass_slot r klass_of) =
          rw at_klass (kept klass_of (omega arith)) in
        record {
          of_klass = refl;
          of_component = refl;
          same_klass = klass_word;
          same_length = word 8 (omega arith);
          same_component = kept (klass_of + 12) (omega arith);
          same_flags = kept (klass_of + 68) (omega arith);
          same_object_size = kept (klass_of + 96) (omega arith);
          same_class_class = class_class;
          same_primitive_type = kept (component_of + 104) (omega arith);
          same_class_size = elim sized [
            | inl plain ↦ inl (rw at_klass plain)
            | inr class_object ↦ inr (word 72 (omega arith))
          ];
        }

    -- Without debug assertions, copying an object of at least 12 bytes, to memory below 2 ^ 64 that
    -- overlaps neither the object nor its class nor the class's component type, gives an object
    -- with the same bytes and, asked in the memory after the copy, of the same size, of which
    -- mmtk-core is told. Nothing else has changed. An object of `java.lang.Class` must have at least
    -- 76 bytes, among which it holds its size.
    pub copy-get_current_size :
        original < 2 ^ 64
        → destination < 2 ^ 64
        → (destination + bytes ≤ original) ⊎ (original + bytes ≤ destination)
        → IsApart
        → 12 ≤ bytes
        → (load_u32 r.memory klass_of ≢ klass_of) ⊎ (76 ≤ bytes)
        → get_current_size r original ≡ ok bytes
        → (c : Copied) × (copy r context original semantics ≡ ok c)
          × (c.object ≡ destination)
          × (c.post_copied ≡ (destination, bytes, semantics))
          × ((i : ℕ) → i < bytes → c.memory (c.object + i) ≡ r.memory (original + i))
          × ((a : ℕ) → (a < destination) ⊎ (destination + bytes ≤ a) → c.memory a ≡ r.memory a)
          × (get_current_size (record r { memory = c.memory }) c.object ≡ ok bytes)
    unfolding copy get_size_when_copied get_current_size
    copy-get_current_size low_src low_dst apart class_apart large sized size =
        let words = copied_words low_src low_dst class_apart large sized in
        (
          record {
            memory = after_copy;
            object = destination;
            post_copied = (destination, bytes, semantics);
          },
          rw size,
          refl,
          refl,
          λ i within.
              copied_byte r.memory original destination bytes (destination + i) (original + i)
                (omega arith) (omega arith) (omega arith),
          λ a outside. ground arith,
          rw
              (get_object_size_same r release after_copy original destination klass_of component_of
                words)
              size,
        )
