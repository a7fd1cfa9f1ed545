-- ===== src/Closures/Tests.antt =====
-- A closure that counts what it is called with.
use mmtk_art.Base.{ℕ, ◌+◌, ◌≡◌, refl, ◌==◌, if◌then◌else◌, none, some, List, [], ◌∷◌}
use mmtk_art.Undefined.{undefined}
use mmtk_art.Closures.{World, FnMut, from_rust_closure, call_all}
use mmtk_art.Closures.Calls.{IsCalled, in_rust, call_all-from_rust_closure}

-- It returns the sum so far, which it has captured, and leaves a trace of the calls.
abbrev add_up : FnMut ℕ ℕ ℕ (List ℕ)
add_up x sum trace = (sum + x, sum + x, x ∷ trace)

abbrev world : World ℕ (List ℕ)
world = record {
  captured = λ p. if p == 64 then some 5 else if p == 72 then some 1 else none;
  rest = [];
}

call_all-from_rust_closure_example :
    IsCalled 64 world
      (6 ∷ 8 ∷ [])
      8
      (2 ∷ 1 ∷ [])
      (call_all (from_rust_closure add_up 64) (1 ∷ 2 ∷ []) world)
    × (call_all (from_rust_closure add_up 80) (3 ∷ 1 ∷ 2 ∷ []) world ≡ undefined)
unfolding in_rust
call_all-from_rust_closure_example =
    call_all-from_rust_closure add_up 3 (1 ∷ 2 ∷ []) 64 80 5 world refl refl
