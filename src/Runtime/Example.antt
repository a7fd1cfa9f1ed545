-- ===== src/Runtime/Example.antt =====
-- A concrete alignment by division and a small memory, for the tests.
use native.Mathlib.Nat.{lt-div-mul-add, div-mul-le_self, mul-mod_left}
use mmtk_art.Base.{
  ℕ, ◌+◌, ◌-◌, ◌*◌, ◌/◌, ◌%◌, ◌≤◌, ◌<◌, ◌≡◌, refl, true, false, List, [], ◌∷◌, arith, ◌==◌, ltb,
  leb, ◌&&◌, ◌^◌, if◌then◌else◌,
}
use mmtk_art.Memory.{Memory}
use mmtk_art.Runtime.{Runtime, Conversions}

abbrev pub align_up : ℕ → ℕ → ℕ
align_up v align = (v + (align - 1)) / align * align

pub le-align_up : (v align : ℕ) → 0 < align → v ≤ align_up v align
le-align_up v align pos =
    let below : v + (align - 1) < align_up v align + align = lt-div-mul-add pos in omega arith

pub align_up-lt : (v align : ℕ) → 0 < align → align_up v align < v + align
align_up-lt v align pos = omega (arith, div-mul-le_self (v + (align - 1)) align)

pub align_up-aligned : (v align : ℕ) → 0 < align → align_up v align % align ≡ 0
align_up-aligned v align pos = mul-mod_left ((v + (align - 1)) / align) align

abbrev pub conversions : Conversions
conversions = record {
  raw_align_up = align_up;
  raw_is_aligned = λ v align. v % align == 0;
  le-raw_align_up = le-align_up;
  raw_align_up-lt = align_up-lt;
  raw_align_up-aligned = align_up-aligned;
  raw_is_aligned_lem = λ v align pos. refl;
}

-- Words at addresses, and zeros elsewhere.
abbrev pub words : List (ℕ × ℕ) → Memory
words [] b = 0
words ((a, v) ∷ rest) b =
    if leb a b && ltb b (a + 4) then v / 2 ^ (8 * (b - a)) % 2 ^ 8 else words rest b

-- At 64 an object of the class at 256, which marks the fields at 8, 12 and 20; at 384 a class
-- of 124 bytes whose bitmap is its last word; at 640 an array of 3 elements of 4 bytes,
-- and at 736 a string of 5 characters.
abbrev pub memory : Memory
memory = words (
    (64, 256)
    ∷ (72, 1000)
    ∷ (84, 2000)
    ∷ (324, 0)
    ∷ (364, 0b1011)
    ∷ (368, 0x70000000)
    ∷ (456, 124)
    ∷ (492, 0x80000001)
    ∷ (504, 0b1001)
    ∷ (640, 512)
    ∷ (648, 3)
    ∷ (652, 3000)
    ∷ (660, 4000)
    ∷ (524, 704)
    ∷ (808, 0x20000)
    ∷ (744, 11)
    ∷ [])

abbrev pub runtime : Runtime
runtime = record {
  debug_assertions = false;
  memory = memory;
  is_valid_object = λ o. true;
  pointer_size = 8;
  conversions = conversions;
  super_fuel = 16;
}
