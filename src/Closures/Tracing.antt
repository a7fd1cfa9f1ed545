-- ===== src/Closures/Tracing.antt =====
-- `TraceObjectClosure` of mmtk/src/lib.rs: a closure that traces an object and returns where the
-- object then is.
use mmtk_art.Base.{ℕ}
use mmtk_art.Undefined.{Run}
use mmtk_art.Closures
use mmtk_art.Closures.{World, FnMut, Closure}

abbrev pub TraceObjectClosure : (S W : Type 0) → Type 0
TraceObjectClosure S W = Closure ℕ ℕ S W

module _ {S W : Type 0} where
  unfoldable pub call_rust_closure :
      FnMut ℕ ℕ S W → (object callback_ptr : ℕ) → World S W → Run (ℕ × World S W)
  unfolding Closures.call_rust_closure
  call_rust_closure callback object callback_ptr w =
      Closures.call_rust_closure callback object callback_ptr w

  unfoldable pub from_rust_closure : FnMut ℕ ℕ S W → (callback : ℕ) → TraceObjectClosure S W
  unfolding call_rust_closure
  from_rust_closure callback p = record { func = call_rust_closure callback; data_ptr = p }
