-- ===== src/Abi/Flags.antt =====
-- The flag constants of `impl Class` in mmtk/src/abi.rs, without their prefixes.
use Prim.Native.Nat.{bit_or}
use mmtk_art.Base.{ℕ, ◌-◌, ◌<<<◌}

abbrev pub normal : ℕ
normal = 0x0

abbrev pub no_reference_fields : ℕ
no_reference_fields = 0x1

abbrev pub string : ℕ
string = 0x4

abbrev pub object_array : ℕ
object_array = 0x8

abbrev pub class : ℕ
class = 0x10

abbrev pub class_loader : ℕ
class_loader = 0x20

abbrev pub dex_cache : ℕ
dex_cache = 0x40

abbrev pub soft_reference : ℕ
soft_reference = 0x80

abbrev pub weak_reference : ℕ
weak_reference = 0x100

abbrev pub finalizer_reference : ℕ
finalizer_reference = 0x200

abbrev pub phantom_reference : ℕ
phantom_reference = 0x400

abbrev pub record_class : ℕ
record_class = 0x800

abbrev pub primitive_array : ℕ
primitive_array = 0x1000

-- `kClassFlagReference`
abbrev pub reference : ℕ
reference =
    bit_or (bit_or (bit_or soft_reference weak_reference) finalizer_reference) phantom_reference

-- `kAccInterface` and `kAccAbstract` of `access_flags`.
abbrev pub acc_interface : ℕ
acc_interface = 0x0200

abbrev pub acc_abstract : ℕ
acc_abstract = 0x0400

abbrev pub visit_references_slowpath_shift : ℕ
visit_references_slowpath_shift = 31

abbrev pub visit_references_slowpath_mask : ℕ
visit_references_slowpath_mask = 1 <<< visit_references_slowpath_shift

abbrev pub primitive_type_size_shift_shift : ℕ
primitive_type_size_shift_shift = 16

abbrev pub primitive_type_mask : ℕ
primitive_type_mask = (1 <<< primitive_type_size_shift_shift) - 1
