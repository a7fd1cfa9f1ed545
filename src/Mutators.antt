-- ===== src/Mutators.antt =====
-- Stopping, flushing and going through the mutators: mmtk/src/collection.rs,
-- mmtk/src/active_plan.rs and `MutatorClosure` of mmtk/src/lib.rs.
pub mod Flush
mod Tests
use mmtk_art.Base.{
  ℕ, zero, suc, Bool, Option, none, some, List, [], ◌∷◌, ◌++◌, Outcome, ok, panic, assert, ◌==◌,
  if◌then◌else◌, true, false,
}
use mathlib.Core.Option
use mmtk_art.Undefined.{Run, done, undefined, ◌>>=◌}
use mmtk_art.Closures.{World, FnMut, MutatorClosure, from_rust_closure, call_all}

-- What ART's upcalls tell of the threads. `mutators` are the ones that `for_all_mutators` evaluates
-- its closure for, in that order.
pub record Threads : Type 0 where
  pub mutators : List ℕ
  pub number_of_mutators : ℕ
  pub is_mutator : ℕ → Bool
  pub get_mmtk_mutator : ℕ → ℕ

pub data GcThreadKind : Type 0 where
  worker : GcThreadKind

-- The other upcalls, and the calls of `Mutator::flush`, that are made.
pub data Event : Type 0 where
  suspended resumed blocked : (tls : ℕ) → Event
  flushed : (mutator : ℕ) → Event
  spawned : (tls : ℕ) → GcThreadKind → (ctx : ℕ) → Event
  out_of_memory_thrown : (tls err_kind : ℕ) → Event

-- One closure that is alive.
abbrev pub alive : {S W : Type 0} → ℕ → S → W → World S W
alive p s rest = record { captured = λ q. if q == p then some s else none; rest = rest }

-- The two closures: what they have captured is nothing and the queue.
abbrev pub flush : FnMut ℕ (Unit {0}) (Unit {0}) (List Event)
flush mutator captured events = (tt, captured, events ++ (flushed mutator ∷ []))

abbrev pub push_back : FnMut ℕ (Unit {0}) (List ℕ) (Unit {0})
push_back mutator queue rest = (tt, queue ++ (mutator ∷ []), rest)

module _ (art : Threads) where
  -- The upcall `for_all_mutators`
  abbrev pub for_all_mutators : {S W : Type 0} → MutatorClosure S W → World S W → Run (World S W)
  for_all_mutators closure w = call_all closure art.mutators w >>= λ (units, w'). done w'

  -- `callback` is the address of the closure, on the stack.
  unfoldable pub stop_all_mutators : (callback tls : ℕ) → List Event → Run (List Event)
  stop_all_mutators callback tls trace = do
    w ←
        for_all_mutators (from_rust_closure flush callback)
          (alive callback tt (trace ++ (suspended tls ∷ [])))
    done w.rest

  unfoldable pub out_of_memory : (tls err_kind : ℕ) → List Event → Outcome (List Event)
  out_of_memory tls err_kind trace =
      if art.is_mutator tls then ok (trace ++ (out_of_memory_thrown tls err_kind ∷ [])) else panic

  unfoldable pub number_of_mutators : ℕ
  number_of_mutators = art.number_of_mutators

  unfoldable pub is_mutator : ℕ → Bool
  is_mutator tls = art.is_mutator tls

  unfoldable pub mutator : ℕ → ℕ
  mutator tls = art.get_mmtk_mutator tls

  -- `ArtMutatorIterator::new`; the iterator is the queue of the mutators it has still to give.
  unfoldable pub mutators : (callback : ℕ) → Run (List ℕ)
  mutators callback = do
    w ← for_all_mutators (from_rust_closure push_back callback) (alive callback [] tt)
    elim (w.captured callback) [ none ↦ undefined | some queue ↦ done queue ]

unfoldable pub resume_mutators : (tls : ℕ) → List Event → List Event
resume_mutators tls trace = trace ++ (resumed tls ∷ [])

unfoldable pub block_for_gc : (tls : ℕ) → List Event → List Event
block_for_gc tls trace = trace ++ (blocked tls ∷ [])

-- The context is a worker's, as its address.
unfoldable pub spawn_gc_thread : (tls ctx : ℕ) → List Event → List Event
spawn_gc_thread tls ctx trace = trace ++ (spawned tls worker ctx ∷ [])

-- `ArtMutatorIterator::next`
unfoldable pub next : List ℕ → Option ℕ × List ℕ
next [] = (none, [])
next (mutator ∷ queue) = (some mutator, queue)

-- What a `for` loop over the iterator goes through.
unfoldable pub drain : ℕ → List ℕ → Option (List ℕ)
unfolding next
drain zero queue = none
drain (suc fuel) queue =
    let rest = drain fuel (next queue).1 in
    elim (next queue).0 [
      | none ↦ some []
      | some mutator ↦ Option.map (λ mutators. mutator ∷ mutators) rest
    ]
