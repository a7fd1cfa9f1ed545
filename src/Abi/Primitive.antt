-- ===== src/Abi/Primitive.antt =====
-- `ArtPrimitive` of mmtk/src/abi.rs.
use mmtk_art.Base.{ℕ, ◌<◌, ◌≡◌, ◌↔◌, Outcome, ok, panic, arith, ◌==◌, if◌then◌else◌}

pub data ArtPrimitive : Type 0 where
  not_primitive boolean byte char short int long float double void : ArtPrimitive

-- The discriminants.
abbrev pub as_u32 : ArtPrimitive → ℕ
as_u32 not_primitive = 0
as_u32 boolean = 1
as_u32 byte = 2
as_u32 char = 3
as_u32 short = 4
as_u32 int = 5
as_u32 long = 6
as_u32 float = 7
as_u32 double = 8
as_u32 void = 9

unfoldable pub from_u32 : ℕ → Outcome ArtPrimitive
from_u32 value =
    if value == 0
    then ok not_primitive
    else if value == 1
    then ok boolean
    else if value == 2
    then ok byte
    else if value == 3
    then ok char
    else if value == 4
    then ok short
    else if value == 5
    then ok int
    else if value == 6
    then ok long
    else if value == 7
    then ok float
    else if value == 8
    then ok double
    else if value == 9
    then ok void
    else panic

-- `PRIM_OBJECT_REFERENCE_SIZE`
abbrev prim_object_reference_size : ℕ
prim_object_reference_size = 4

unfoldable pub component_size_shift_width : ℕ → ℕ
component_size_shift_width component_size =
    if component_size == 1
    then 0
    else if component_size == 2
    then 1
    else if component_size == 4
    then 2
    else if component_size == 8
    then 3
    else 0

unfoldable pub component_size_shift : ArtPrimitive → ℕ
unfolding component_size_shift_width
component_size_shift void = 0
component_size_shift boolean = 0
component_size_shift byte = 0
component_size_shift char = 1
component_size_shift short = 1
component_size_shift int = 2
component_size_shift float = 2
component_size_shift long = 3
component_size_shift double = 3
component_size_shift not_primitive = component_size_shift_width prim_object_reference_size

-- Conversion from `u32` undoes the discriminant and nothing else: it gives a primitive exactly for
-- that primitive's discriminant, and panics exactly above the last one.
pub ArtPrimitive-from_u32 :
    (value : ℕ) (p : ArtPrimitive)
    → ((from_u32 value ≡ ok p) ↔ (value ≡ as_u32 p)) × ((from_u32 value ≡ panic) ↔ (9 < value))
unfolding from_u32
ArtPrimitive-from_u32 value p =
    ((λ h. ground arith, λ h. ground arith), (λ h. ground arith, λ h. ground arith))
