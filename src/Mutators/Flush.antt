-- ===== src/Mutators/Flush.antt =====
-- All mutators are flushed, once and after they have stopped.
use mmtk_art.Base.{
  ℕ, suc, ◌≡◌, refl, ap, sym, ◌∙◌, none, some, List, [], ◌∷◌, ◌++◌, map, append_assoc, append-nil,
  length, arith,
}
use mmtk_art.Undefined.{done, undefined}
use mmtk_art.Closures.Calls.{in_rust, call_all-in_rust}
use mmtk_art.Mutators.{
  Threads, Event, suspended, flushed, alive, flush, push_back, stop_all_mutators, mutators, drain,
}

in_rust-flush :
    (ms : List ℕ) (events : List Event) → (in_rust flush ms tt events).2 ≡ events ++ map flushed ms
unfolding in_rust
in_rust-flush [] events = sym (append-nil events)
in_rust-flush (m ∷ ms) events =
    in_rust-flush ms (events ++ (flushed m ∷ []))
    ∙ append_assoc events (flushed m ∷ []) (map flushed ms)

in_rust-push_back : (ms queue : List ℕ) → (in_rust push_back ms queue tt).1 ≡ queue ++ ms
unfolding in_rust
in_rust-push_back [] queue = sym (append-nil queue)
in_rust-push_back (m ∷ ms) queue =
    in_rust-push_back ms (queue ++ (m ∷ [])) ∙ append_assoc queue (m ∷ []) ms

alive_self : {S W : Type 0} (p : ℕ) (s : S) (rest : W) → (alive p s rest).captured p ≡ some s
alive_self p s rest = ground arith

drain_lem : (queue : List ℕ) → drain (suc (length queue)) queue ≡ some queue
unfolding drain
drain_lem [] = refl
drain_lem (m ∷ queue) = rw (drain_lem queue)

stopped :
    (art : Threads) (callback tls : ℕ) (trace : List Event)
    → stop_all_mutators art callback tls trace
      ≡ done (trace ++ (suspended tls ∷ map flushed art.mutators))
unfolding stop_all_mutators
stopped art callback tls trace =
    let before = trace ++ (suspended tls ∷ []) in
    let called =
      call_all-in_rust flush art.mutators callback tt (alive callback tt before)
        (alive_self callback tt before) in
    rw called.is_done (
      ap done (
        called.rest_after
        ∙ in_rust-flush art.mutators before
        ∙ append_assoc trace (suspended tls ∷ []) (map flushed art.mutators)))

gone_through : (art : Threads) (callback : ℕ) → mutators art callback ≡ done art.mutators
unfolding mutators
gone_through art callback =
    let called =
      call_all-in_rust push_back art.mutators callback [] (alive callback [] tt)
        (alive_self callback [] tt) in
    rw called.is_done (
      ap (λ queue. elim queue [ none ↦ undefined | some ms ↦ done ms ])
        (called.captured ∙ ap some (in_rust-push_back art.mutators [])))

-- Stopping the mutators, with a closure that C code calls at whatever address it lies, first
-- suspends them and then flushes each mutator that the active plan's iterator goes through, once,
-- in the same order; the iterator ends, and has all the mutators that ART has.
pub stop_all_mutators_lem :
    (art : Threads) (callback tls : ℕ) (trace : List Event)
    → (ms : List ℕ) × (mutators art callback ≡ done ms)
      × (drain (suc (length art.mutators)) ms ≡ some ms)
      × (ms ≡ art.mutators)
      × (stop_all_mutators art callback tls trace
          ≡ done (trace ++ (suspended tls ∷ map flushed ms)))
stop_all_mutators_lem art callback tls trace = (
  art.mutators,
  gone_through art callback,
  drain_lem art.mutators,
  refl,
  stopped art callback tls trace,
)
