-- ===== src/Abi/Codes.antt =====
-- The two enumerations that mmtk/src/abi.rs decodes from words of ART.
use mmtk_art.Base.{ℕ, ◌<◌, ◌≡◌, ◌↔◌, ok, panic}
use mmtk_art.Abi.Primitive
use mmtk_art.Abi.Primitive.{ArtPrimitive, ArtPrimitive-from_u32}
use mmtk_art.Abi.Status
use mmtk_art.Abi.Status.{ClassStatus, ClassStatus-from_u32}

-- Conversion from `u32` undoes the discriminant and nothing else, for primitive types and for class
-- statuses: it gives a value exactly for that value's discriminant, and panics exactly above the
-- last one.
pub from_u32_lem :
    (value : ℕ) (p : ArtPrimitive) (s : ClassStatus)
    → ((Primitive.from_u32 value ≡ ok p) ↔ (value ≡ Primitive.as_u32 p))
      × ((Primitive.from_u32 value ≡ panic) ↔ (9 < value))
      × ((Status.from_u32 value ≡ ok s) ↔ (value ≡ Status.as_u32 s))
      × ((Status.from_u32 value ≡ panic) ↔ (15 < value))
from_u32_lem value p s =
    let (decoded, refused) = ArtPrimitive-from_u32 value p in
    let (status, no_status) = ClassStatus-from_u32 value s in (decoded, refused, status, no_status)
