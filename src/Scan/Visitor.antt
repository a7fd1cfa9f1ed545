-- ===== src/Scan/Visitor.antt =====
-- Scans with a slot visitor, of mmtk-core: mmtk/src/object_scanning.rs calls it for some slots
-- itself, and has ART call it for others by the closure of mmtk/src/scanning.rs. The visits are
-- found in the memory as it is before the first of them, which is what a scan reads if the visitor
-- does not write to that memory.
use mmtk_art.Base.{
  ℕ, ◌≡◌, ◌≢◌, refl, ap, sym, ◌∙◌, true, false, some, List, [], ◌∷◌, ◌++◌, ◌+◌, append-nil, subst,
  ok, arith,
}
use mmtk_art.Memory.{Memory, load_u32}
use mmtk_art.Undefined.{Run, done, ◌>>=◌}
use mmtk_art.Runtime.{Runtime}
use mmtk_art.Abi.Offsets
use mmtk_art.Abi.Class.{klass_slot}
use mmtk_art.Closures.{
  World, SlotVisitor, call_rust_closure, from_rust_closure, scan_object_fn, to_scan_object_closure,
  call_all,
}
use mmtk_art.Closures.Calls.{in_rust, call_all-in_rust}
use mmtk_art.Scan.{
  Visit, slot, scan_object_upcall, native_roots, referent, ArtObjectWithNativeRootsType,
  scan_object_with_features,
}
use mmtk_art.Scan.Dispatch.{contents, kind_of, scan_object_lem}

-- The slots that ART calls the closure for in the upcalls `scan_object`, `scan_native_roots` and
-- `process_referent`.
pub record Reports : Type 0 where
  pub scan_object : (object : ℕ) → List ℕ
  pub scan_native_roots : (object : ℕ) → ArtObjectWithNativeRootsType → List ℕ
  pub process_referent : (klass reference : ℕ) → List ℕ

abbrev pub slots : Reports → Visit → List ℕ
slots art (slot s) = s ∷ []
slots art (scan_object_upcall object) = art.scan_object object
slots art (native_roots object kind) = art.scan_native_roots object kind
slots art (referent klass object) = art.process_referent klass object

abbrev pub all_slots : Reports → List Visit → List ℕ
all_slots art [] = []
all_slots art (v ∷ vs) = slots art v ++ all_slots art vs

module _ (art : Reports) {S W : Type 0} (visitor : SlotVisitor S W) (p : ℕ) where
  -- An upcall with the closure for the visitor, whose address is `p`.
  abbrev upcall : List ℕ → World S W → Run (World S W)
  upcall xs w = call_all (to_scan_object_closure visitor p) xs w >>= λ (units, w'). done w'

  abbrev perform : Visit → World S W → Run (World S W)
  perform (slot s) w = scan_object_fn visitor s p w >>= λ (unit, w'). done w'
  perform (scan_object_upcall object) w = upcall (art.scan_object object) w
  perform (native_roots object kind) w = upcall (art.scan_native_roots object kind) w
  perform (referent klass object) w = upcall (art.process_referent klass object) w

  abbrev pub perform_all : List Visit → World S W → Run (World S W)
  perform_all [] w = done w
  perform_all (v ∷ vs) w = perform v w >>= perform_all vs

  -- The visitor has been called for `xs`, and nothing else has changed.
  pub record IsVisited (xs : List ℕ) (s : S) (w : World S W) (result : Run (World S W))
      : Type 0 where
    pub after : World S W
    pub is_done : result ≡ done after
    pub captured : after.captured p ≡ some (in_rust visitor xs s w.rest).1
    pub rest_after : after.rest ≡ (in_rust visitor xs s w.rest).2
    pub others : (q : ℕ) → q ≢ p → after.captured q ≡ w.captured q

  upcall-IsVisited :
      (xs : List ℕ) (s : S) (w : World S W) → w.captured p ≡ some s → IsVisited xs s w (upcall xs w)
  unfolding to_scan_object_closure from_rust_closure scan_object_fn
  upcall-IsVisited xs s w alive =
      let called = call_all-in_rust visitor xs p s w alive in
      record {
        after = called.after;
        is_done = ap (λ m. m >>= λ (units, w'). done w') called.is_done;
        captured = called.captured;
        rest_after = called.rest_after;
        others = called.others;
      }

  perform_slot :
      (x : ℕ) (s : S) (w : World S W)
      → w.captured p ≡ some s
      → perform (slot x) w ≡ upcall (x ∷ []) w
  unfolding to_scan_object_closure scan_object_fn call_rust_closure call_all
  perform_slot x s w alive = ground arith

  perform-IsVisited :
      (v : Visit) (s : S) (w : World S W)
      → w.captured p ≡ some s
      → IsVisited (slots art v) s w (perform v w)
  perform-IsVisited (slot x) s w alive =
      let called = upcall-IsVisited (x ∷ []) s w alive in
      record {
        after = called.after;
        is_done = perform_slot x s w alive ∙ called.is_done;
        captured = called.captured;
        rest_after = called.rest_after;
        others = called.others;
      }
  perform-IsVisited (scan_object_upcall object) s w alive = upcall-IsVisited _ s w alive
  perform-IsVisited (native_roots object kind) s w alive = upcall-IsVisited _ s w alive
  perform-IsVisited (referent klass object) s w alive = upcall-IsVisited _ s w alive

  in_rust_append :
      (xs ys : List ℕ) (s : S) (rest : W)
      → let (units, s1, rest1) = in_rust visitor xs s rest in
        ((in_rust visitor (xs ++ ys) s rest).1 ≡ (in_rust visitor ys s1 rest1).1)
        × ((in_rust visitor (xs ++ ys) s rest).2 ≡ (in_rust visitor ys s1 rest1).2)
  unfolding in_rust
  in_rust_append [] ys s rest = (refl, refl)
  in_rust_append (x ∷ xs) ys s rest =
      let (unit, s1, rest1) = visitor x s rest in in_rust_append xs ys s1 rest1

  perform_all-IsVisited :
      (vs : List Visit) (s : S) (w : World S W)
      → w.captured p ≡ some s
      → IsVisited (all_slots art vs) s w (perform_all vs w)
  unfolding in_rust
  perform_all-IsVisited [] s w alive = record {
    after = w;
    is_done = refl;
    captured = alive;
    rest_after = refl;
    others = λ q ne. refl;
  }
  perform_all-IsVisited (v ∷ vs) s w alive =
      let first = perform-IsVisited v s w alive in
      let s1 = (in_rust visitor (slots art v) s w.rest).1 in
      let rest = perform_all-IsVisited vs s1 first.after first.captured in
      let joined = in_rust_append (slots art v) (all_slots art vs) s w.rest in
      record {
        after = rest.after;
        is_done = ap (λ m. m >>= perform_all vs) first.is_done ∙ rest.is_done;
        captured =
            rest.captured
            ∙ ap (λ z. some (in_rust visitor (all_slots art vs) s1 z).1) first.rest_after
            ∙ ap some (sym joined.0);
        rest_after =
            rest.rest_after
            ∙ ap (λ z. (in_rust visitor (all_slots art vs) s1 z).2) first.rest_after
            ∙ sym joined.1;
        others = λ q ne. rest.others q ne ∙ first.others q ne;
      }

  -- A visitor that does not write to the memory that is scanned, such as one that only queues the
  -- slots. `memory_of` is that memory.
  module _ (memory_of : W → Memory)
      (keeps : (x : ℕ) (s : S) (rest : W) → memory_of (visitor x s rest).2 ≡ memory_of rest) where
    in_rust-memory :
        (xs : List ℕ) (s : S) (rest : W) → memory_of (in_rust visitor xs s rest).2 ≡ memory_of rest
    unfolding in_rust
    in_rust-memory [] s rest = refl
    in_rust-memory (x ∷ xs) s rest =
        let (unit, s1, rest1) = visitor x s rest in in_rust-memory xs s1 rest1 ∙ keeps x s rest

    -- In a release build, an object whose class pointer is not null is scanned with a slot visitor
    -- that is alive at `p` and does not write to the memory that is scanned. After any part of the
    -- visits a scan would still find the same visits, so that what is read between two of them is
    -- what was there before the first. The scan calls the visitor, itself or by ART through C, for
    -- the class slot and then for the slots of the contents of the object's kind, with those that
    -- ART reports for native roots and the referent in their places; with the feature
    -- `simple_scan_object` it calls it for the slots that ART reports for the object. In both cases
    -- the visitor and what it changes are left as by these calls in Rust, and nothing else is
    -- changed.
    pub scan_object-IsVisited :
        (r : Runtime) (release : r.debug_assertions ≡ false) (bits : ℕ → ℕ) (object : ℕ)
        (visits front back : List Visit) (s : S) (w : World S W)
        → w.captured p ≡ some s
        → memory_of w.rest ≡ r.memory
        → front ++ back ≡ slot (klass_slot r object) ∷ visits
        → let klass = load_u32 r.memory (klass_slot r object) in
          klass ≢ 0
          → contents r release
              (kind_of (load_u32 r.memory (klass + Offsets.class_flags)))
              object
              klass
            ≡ ok visits
          → (between : World S W) × (perform_all front w ≡ done between)
            × (scan_object_with_features
                  (record r { memory = memory_of between.rest })
                  false
                  bits
                  object
                ≡ ok (front ++ back))
            × (scan_object_with_features r false bits object ≡ ok (front ++ back))
            × IsVisited
                (klass_slot r object ∷ all_slots art visits)
                s
                w
                (perform_all (front ++ back) w)
            × (asked : List Visit) × (scan_object_with_features r true bits object ≡ ok asked)
            × IsVisited (art.scan_object object) s w (perform_all asked w)
    unfolding scan_object_with_features
    scan_object-IsVisited r release bits object visits front back s w alive read split valid e =
        let scanned : scan_object_with_features r false bits object ≡ ok (front ++ back) =
          ground (arith, scan_object_lem r release object valid) in
        let part = perform_all-IsVisited front s w alive in
        let same : memory_of part.after.rest ≡ r.memory =
          ap memory_of part.rest_after ∙ in_rust-memory (all_slots art front) s w.rest ∙ read in
        (
          part.after,
          part.is_done,
          subst
              (λ m.
                scan_object_with_features (record r { memory = m }) false bits object
                ≡ ok (front ++ back))
              (sym same) scanned,
          scanned,
          subst
              (λ vs. IsVisited (klass_slot r object ∷ all_slots art visits) s w (perform_all vs w))
              (sym split) (perform_all-IsVisited (slot (klass_slot r object) ∷ visits) s w alive),
          scan_object_upcall object ∷ [],
          ground arith,
          subst (λ xs. IsVisited xs s w (perform_all (scan_object_upcall object ∷ []) w))
              (append-nil (art.scan_object object))
              (perform_all-IsVisited (scan_object_upcall object ∷ []) s w alive),
        )
