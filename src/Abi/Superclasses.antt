-- ===== src/Abi/Superclasses.antt =====
-- The walk up the superclasses in `Class::check_no_reference_fields`, mmtk/src/abi.rs.
use mmtk_art.Base.{
  ℕ, zero, suc, ◌+◌, ◌<◌, ◌^◌, ◌≡◌, ◌≢◌, true, false, List, [], ◌∷◌, length, ok, panic, arith, ◌==◌,
  if◌then◌else◌, usize,
}
use mmtk_art.Memory.{load_u32}
use mmtk_art.Runtime.{Runtime}
use mmtk_art.Abi.Offsets
use mmtk_art.Abi.Class.{
  deref, to_object_reference, is_class_class, is_object_array_class, is_string_class,
}
use mmtk_art.Abi.Sizes.{count_reference_fields, check_no_reference_fields}

module _ (r : Runtime) where
  open r use {memory}

  -- These are the superclasses of the class, all of them valid, up to one that has none.
  abbrev pub IsChain : (klass : ℕ) → List ℕ → Type 0
  IsChain klass [] = load_u32 memory (klass + Offsets.super_class) ≡ 0
  IsChain klass (super ∷ supers) =
      (load_u32 memory (klass + Offsets.super_class) ≡ super)
      × (super ≢ 0)
      × (r.is_valid_object super ≡ true)
      × IsChain super supers

  -- The reference fields that a class and its superclasses have together.
  abbrev pub reference_fields : (klass : ℕ) → List ℕ → ℕ
  reference_fields klass [] = load_u32 memory (klass + Offsets.num_reference_instance_fields)
  reference_fields klass (super ∷ supers) =
      load_u32 memory (klass + Offsets.num_reference_instance_fields)
      + reference_fields super supers

  count_reference_fields_lem :
      (fuel klass total : ℕ) (supers : List ℕ)
      → IsChain klass supers
      → total < 2 ^ 64
      → length supers < fuel
      → count_reference_fields r fuel klass total
        ≡ ok (usize (total + reference_fields klass supers))
  unfolding count_reference_fields deref to_object_reference
  count_reference_fields_lem zero klass total supers chain small enough = absurd (omega arith)
  count_reference_fields_lem (suc fuel) klass total [] chain small enough = ground arith
  count_reference_fields_lem (suc fuel) klass total (super ∷ supers) (is_super, valid, sane, chain)
        small enough =
      ground (
        arith,
        count_reference_fields_lem fuel super
            (usize (total + load_u32 memory (klass + Offsets.num_reference_instance_fields))) supers
            chain,
      )

  -- In a debug build, for a class that is not `java.lang.Class`, `java.lang.String` or an object
  -- array's, the walk up a chain of superclasses shorter than the fuel ends, and the check panics
  -- exactly if the class and its superclasses do not have one reference field together, modulo
  -- 2 ^ 64: the class pointer of `java.lang.Object`.
  pub check_no_reference_fields_lem :
      (klass : ℕ) (supers : List ℕ)
      → r.debug_assertions ≡ true
      → is_class_class r klass ≡ ok false
      → is_object_array_class r klass ≡ ok false
      → is_string_class r klass ≡ false
      → IsChain klass supers
      → length supers < r.super_fuel
      → check_no_reference_fields r klass
        ≡ (if usize (reference_fields klass supers) == 1 then ok tt else panic)
  unfolding check_no_reference_fields
  check_no_reference_fields_lem klass supers debug not_class not_array not_string chain enough =
      ground (arith, count_reference_fields_lem r.super_fuel klass 0 supers chain)
