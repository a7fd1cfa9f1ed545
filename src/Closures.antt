-- ===== src/Closures.antt =====
-- Rust closures that C code calls, mmtk/src/lib.rs and mmtk/src/scanning.rs: a function pointer
-- with the address of what the closure has captured. A use of an address at which no closure of
-- the type is alive is undefined.
pub mod Tracing
pub mod Calls
mod Tests
use mmtk_art.Base.{ℕ, Option, none, some, List, [], ◌∷◌, ◌==◌, if◌then◌else◌}
use mmtk_art.Undefined.{Run, done, undefined, ◌>>=◌}

-- The captured state of the closures of one type that are alive, by address, and all other state.
pub record World (Captured Rest : Type 0) : Type 0 where
  pub captured : ℕ → Option Captured
  pub rest : Rest

abbrev pub set_captured : {S : Type 0} → ℕ → S → (ℕ → Option S) → ℕ → Option S
set_captured p s captured q = if q == p then some s else captured q

module _ (Arg Ret S W : Type 0) where
  -- `F: FnMut(Arg) -> Ret`, which changes what it has captured, and other state.
  abbrev pub FnMut : Type 0
  FnMut = Arg → S → W → Ret × S × W

  -- `func`, and `data`, which the C code passes back to it.
  pub record Closure : Type 0 where
    pub func : Arg → (data_ptr : ℕ) → World S W → Run (Ret × World S W)
    pub data_ptr : ℕ

module _ {Arg Ret S W : Type 0} where
  unfoldable pub call_rust_closure :
      FnMut Arg Ret S W → Arg → (callback_ptr : ℕ) → World S W → Run (Ret × World S W)
  call_rust_closure callback x callback_ptr w = elim (w.captured callback_ptr) [
    | none ↦ undefined
    | some s ↦
        let (ret, s', rest) = callback x s w.rest in
        done (ret, record { captured = set_captured callback_ptr s' w.captured; rest = rest })
  ]

  unfoldable pub from_rust_closure : FnMut Arg Ret S W → (callback : ℕ) → Closure Arg Ret S W
  unfolding call_rust_closure
  from_rust_closure callback p = record { func = call_rust_closure callback; data_ptr = p }

  -- C code that calls a closure for one argument after another.
  unfoldable pub call_all : Closure Arg Ret S W → List Arg → World S W → Run (List Ret × World S W)
  call_all closure [] w = done ([], w)
  call_all closure (x ∷ xs) w = do
    (ret, w1) ← closure.func x closure.data_ptr w
    (rets, w2) ← call_all closure xs w1
    done (ret ∷ rets, w2)

-- `MutatorClosure`
abbrev pub MutatorClosure : (S W : Type 0) → Type 0
MutatorClosure S W = Closure ℕ (Unit {0}) S W

-- `ScanObjectClosure`
abbrev pub ScanObjectClosure : (S W : Type 0) → Type 0
ScanObjectClosure S W = Closure ℕ (Unit {0}) S W

-- `SlotVisitor::visit_slot` of a visitor
abbrev pub SlotVisitor : (S W : Type 0) → Type 0
SlotVisitor S W = FnMut ℕ (Unit {0}) S W

module _ {S W : Type 0} where
  unfoldable pub scan_object_fn :
      SlotVisitor S W → (slot slot_visitor_ptr : ℕ) → World S W → Run (Unit {0} × World S W)
  unfolding call_rust_closure
  scan_object_fn visit_slot slot slot_visitor_ptr w =
      call_rust_closure visit_slot slot slot_visitor_ptr w

  unfoldable pub to_scan_object_closure :
      SlotVisitor S W → (slot_visitor : ℕ) → ScanObjectClosure S W
  unfolding scan_object_fn
  to_scan_object_closure visit_slot p = record { func = scan_object_fn visit_slot; data_ptr = p }
