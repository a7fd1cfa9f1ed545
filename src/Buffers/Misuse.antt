-- ===== src/Buffers/Misuse.antt =====
-- A buffer that ART has given back is not ART's any more.
use mmtk_art.Base.{ℕ, ◌<◌, ◌≡◌, ◌≢◌, refl, Bool, none, List, arith, ◌⊎◌, inl, inr, if◌then◌else◌}
use mmtk_art.Buffers.{
  address_bytes, RustBuffer, World, Run, done, undefined, Allocator, from_raw_parts, renew_buffer,
  report_and_renew_buffer, mmtk_release_rust_buffer, mmtk_release_rust_buffer_unchecked,
}
use mmtk_art.Buffers.Blocks.{find, remove, find-remove}
use mmtk_art.Buffers.Reports.{Kind, report, report_lem}

from_raw_parts-undefined :
    (bytes ptr len capacity : ℕ) (w : World)
    → 0 < capacity
    → find ptr w.lent ≡ none
    → from_raw_parts bytes ptr len capacity w ≡ undefined
unfolding from_raw_parts
from_raw_parts-undefined bytes ptr len capacity w roomy e = ground arith

Run-cases {ℓ} : {A : Type ℓ} (m : Run A) → (m ≡ undefined) ⊎ ((x : A) × (m ≡ done x))
Run-cases (done x) = inr (x, refl)
Run-cases undefined = inl refl

-- What is taken back is not lent any more.
from_raw_parts-done :
    (bytes ptr len capacity : ℕ) (w w' : World) (items : List ℕ)
    → 0 < capacity
    → from_raw_parts bytes ptr len capacity w ≡ done (items, w')
    → w' ≡ record w { lent = remove ptr w.lent }
unfolding from_raw_parts
from_raw_parts-done bytes ptr len capacity w w' items roomy e = ground arith

module _ (a : Allocator) where
  -- What is reported is not lent any more, unless the next buffer lies where it did.
  report-done :
      (k : Kind) (ptr len capacity : ℕ) (w w' : World) (b : RustBuffer)
      → 0 < ptr
      → 0 < capacity
      → b.ptr ≢ ptr
      → report a k ptr len capacity w ≡ done (b, w')
      → find ptr w'.lent ≡ none
  unfolding report_and_renew_buffer renew_buffer find
  report-done k ptr len capacity w w' b pos roomy apart e =
      elim (Run-cases (from_raw_parts address_bytes ptr len capacity w)) [
        | inl refused ↦ absurd (ground (arith, report_lem a k ptr len capacity w))
        | inr ((items, w1), taken) ↦ ground (
          arith,
          report_lem a k ptr len capacity w,
          from_raw_parts-done address_bytes ptr len capacity w w1 items roomy taken,
          find-remove ptr w.lent,
        )
      ]

  -- Once a buffer has been reported, and the next buffer does not happen to have its memory again,
  -- to report it once more, as roots of any kind and with any length and a capacity that is not 0,
  -- is undefined. So is releasing it unchecked, and releasing it otherwise, except that this does
  -- nothing in a build with the feature `single_worker`.
  pub report_again :
      (k again : Kind) (single_worker : Bool) (ptr len capacity len' capacity' : ℕ) (w w' : World)
      (b : RustBuffer)
      → 0 < ptr
      → 0 < capacity
      → 0 < capacity'
      → b.ptr ≢ ptr
      → report a k ptr len capacity w ≡ done (b, w')
      → (report a again ptr len' capacity' w' ≡ undefined)
        × (mmtk_release_rust_buffer_unchecked ptr len' capacity' w' ≡ undefined)
        × (mmtk_release_rust_buffer single_worker ptr len' capacity' w'
            ≡ (if single_worker then done w' else undefined))
  unfolding mmtk_release_rust_buffer mmtk_release_rust_buffer_unchecked report_and_renew_buffer
  report_again k again single_worker ptr len capacity len' capacity' w w' b pos roomy roomy' apart
        e =
      let gone = report-done k ptr len capacity w w' b pos roomy apart e in
      let refused = from_raw_parts-undefined address_bytes ptr len' capacity' w' roomy' gone in
      (
        ground (arith, report_lem a again ptr len' capacity' w', refused),
        ground (arith, refused),
        ground (arith, refused),
      )
