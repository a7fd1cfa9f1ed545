-- ===== src/Memory.antt =====
-- The memory that the binding reads and writes through raw pointers: bytes, with little-endian
-- loads and stores of 32 bits. `Address` and `ObjectReference` of mmtk-core are numbers.
use mmtk_art.Base.{ℕ, ◌+◌, ◌*◌, ◌/◌, ◌%◌, ◌^◌, ◌≤◌, ◌<◌, ◌≡◌, ◌⊎◌, arith, ◌==◌, if◌then◌else◌}

abbrev pub Memory : Type 0
Memory = ℕ → ℕ

unfoldable pub load_u8 : Memory → ℕ → ℕ
load_u8 m a = m a % 2 ^ 8

unfoldable pub load_u32 : Memory → ℕ → ℕ
unfolding load_u8
load_u32 m a =
    load_u8 m a
    + 2 ^ 8 * load_u8 m (a + 1)
    + 2 ^ 16 * load_u8 m (a + 2)
    + 2 ^ 24 * load_u8 m (a + 3)

unfoldable pub store_u32 : ℕ → ℕ → Memory → Memory
store_u32 a v m b =
    if b == a
    then v % 2 ^ 8
    else if b == a + 1
    then v / 2 ^ 8 % 2 ^ 8
    else if b == a + 2
    then v / 2 ^ 16 % 2 ^ 8
    else if b == a + 3
    then v / 2 ^ 24 % 2 ^ 8
    else m b

pub load_u32-lt : (m : Memory) (a : ℕ) → load_u32 m a < 2 ^ 32
unfolding load_u32
load_u32-lt m a = omega arith

pub load-store_self : (m : Memory) (a v : ℕ) → v < 2 ^ 32 → load_u32 (store_u32 a v m) a ≡ v
unfolding load_u32 store_u32
load-store_self m a v h = ground arith

pub load-store_apart :
    (m : Memory) (a b v : ℕ)
    → (a + 4 ≤ b) ⊎ (b + 4 ≤ a)
    → load_u32 (store_u32 a v m) b ≡ load_u32 m b
unfolding load_u32 store_u32
load-store_apart m a b v h = ground arith
