-- ===== src/Buffers/Reports.antt =====
-- ART reports roots batch by batch: it begins with no buffer, fills the buffer that it gets, hands
-- it back for the next one, and releases the last.
use mmtk_art.Base.{
  ℕ, ◌≤◌, ◌<◌, ◌≡◌, refl, ap, sym, ◌∙◌, false, List, [], ◌∷◌, ◌++◌, map, map-append, append_assoc,
  append-nil, length, take-length, arith,
}
use mmtk_art.Buffers.{
  Block, RustBuffer, Work, roots, pinning_roots, vm_space_nodes, World, Run, done, undefined, ◌>>=◌,
  Allocator, address_bytes, write_items, renew_buffer, from_raw_parts, report_and_renew_buffer,
  Report, to_slots_closure, to_nodes_closure, to_vm_space_nodes_closure, scan_vm_specific_roots,
  scan_vm_space_objects, report_nodes_and_renew_buffer, report_slots_and_renew_buffer,
  report_vm_space_nodes_and_renew_buffer, mmtk_release_rust_buffer,
  mmtk_release_rust_buffer_unchecked,
}
use mmtk_art.Buffers.Blocks.{Table, find, remove, has, modify, remove_of_absent, modify_of_absent}

pub data Kind : Type 0 where
  slots nodes vm_space : Kind

abbrev pub work : Kind → ℕ → List ℕ → Work
work slots = roots
work nodes = pinning_roots
work vm_space = vm_space_nodes

-- What work there is, whatever the addresses of its vectors.
abbrev pub contents : Work → Kind × List ℕ
contents (roots ptr items) = (slots, items)
contents (pinning_roots ptr items) = (nodes, items)
contents (vm_space_nodes ptr items) = (vm_space, items)

abbrev pub Fits : ℕ → List (List ℕ) → Type 0
Fits capacity [] = Unit
Fits capacity (items ∷ batches) = (length items ≤ capacity) × Fits capacity batches

bind_assoc {ℓ κ μ} :
    {A : Type ℓ} {B : Type κ} {C : Type μ} (m : Run A) (f : A → Run B) (g : B → Run C)
    → (m >>= λ x. f x >>= g) ≡ ((m >>= f) >>= g)
bind_assoc (done x) f g = refl
bind_assoc undefined f g = refl

-- How ART releases the last buffer: with `mmtk_release_rust_buffer` in a build without the feature
-- `single_worker`, or with `mmtk_release_rust_buffer_unchecked`.
pub data Release : Type 0 where
  without_single_worker unchecked : Release

abbrev pub release : Release → RustBuffer → World → Run World
unfolding mmtk_release_rust_buffer mmtk_release_rust_buffer_unchecked
release without_single_worker b = mmtk_release_rust_buffer false b.ptr b.len b.capacity
release unchecked b = mmtk_release_rust_buffer_unchecked b.ptr b.len b.capacity

-- What ART does with the buffers of a closure, for the batches of items that it has.
unfoldable pub report_batches : Release → Report → List (List ℕ) → RustBuffer → World → Run World
report_batches how report [] b w = release how b w
report_batches how report (items ∷ batches) b w = do
  w1 ← write_items b.ptr items w
  (b', w2) ← report b.ptr (length items) b.capacity w1
  report_batches how report batches b' w2

unfoldable pub report_session : Release → List (List ℕ) → Report → World → Run World
report_session how batches report w = do
  (b, w') ← report 0 0 0 w
  report_batches how report batches b w'

module _ (a : Allocator) where
  unfoldable pub report : Kind → Report
  report slots = to_slots_closure a
  report nodes = to_nodes_closure a
  report vm_space = to_vm_space_nodes_closure a

  -- The scans that hand a closure to ART; that of nodes which are pinned is not used.
  unfoldable pub scan : Kind → (Report → World → Run World) → World → Run World
  scan slots upcall = scan_vm_specific_roots a upcall
  scan nodes upcall = upcall (to_nodes_closure a)
  scan vm_space upcall = scan_vm_space_objects a upcall

  scan_lem :
      (k : Kind) (upcall : Report → World → Run World) (w : World)
      → scan k upcall w ≡ upcall (report k) w
  unfolding scan report scan_vm_specific_roots scan_vm_space_objects
  scan_lem slots upcall w = refl
  scan_lem nodes upcall w = refl
  scan_lem vm_space upcall w = refl

  pub report_lem :
      (k : Kind) (ptr len capacity : ℕ) (w : World)
      → report k ptr len capacity w ≡ report_and_renew_buffer a (work k) ptr len capacity w
  unfolding report to_nodes_closure to_slots_closure to_vm_space_nodes_closure
      report_nodes_and_renew_buffer report_slots_and_renew_buffer
      report_vm_space_nodes_and_renew_buffer
  report_lem slots ptr len capacity w = refl
  report_lem nodes ptr len capacity w = refl
  report_lem vm_space ptr len capacity w = refl

  contents-work : (k : Kind) (ptr : ℕ) (items : List ℕ) → contents (work k ptr items) ≡ (k, items)
  contents-work slots ptr items = refl
  contents-work nodes ptr items = refl
  contents-work vm_space ptr items = refl

  module _ (others : Table Block) where
    -- The world in which ART has an empty buffer, apart from the others.
    abbrev lending : (ptr capacity : ℕ) → List Work → World
    lending ptr capacity reported = record {
      lent = (ptr, record { items = []; capacity = capacity; item_bytes = address_bytes }) ∷ others;
      reported = reported;
    }

    report_filled :
        (k : Kind) (items : List ℕ) (ptr capacity : ℕ) (reported : List Work)
        → 0 < ptr
        → has ptr others ≡ false
        → 0 < capacity
        → length items ≤ capacity
        → (write_items ptr items (lending ptr capacity reported) >>= λ w.
            report k ptr (length items) capacity w)
          ≡ done (
              renew_buffer a
                (record { lent = others; reported = reported ++ (work k ptr items ∷ []) }))
    unfolding write_items report_and_renew_buffer from_raw_parts find remove modify
    report_filled k items ptr capacity reported pos apart roomy fits = simp (report_lem k) (
        ground (
          arith,
          modify_of_absent ptr (λ (b : Block). record b { items = items }) others apart,
          remove_of_absent ptr others apart,
          take-length items,
        ))

    released :
        (how : Release) (ptr capacity : ℕ) (reported : List Work)
        → has ptr others ≡ false
        → 0 < capacity
        → release how
            (record { ptr = ptr; len = 0; capacity = capacity })
            (lending ptr capacity reported)
          ≡ done (record { lent = others; reported = reported })
    unfolding mmtk_release_rust_buffer mmtk_release_rust_buffer_unchecked from_raw_parts find remove
    released without_single_worker ptr capacity reported apart roomy =
        ground (arith, remove_of_absent ptr others apart)
    released unchecked ptr capacity reported apart roomy =
        ground (arith, remove_of_absent ptr others apart)

    renewed_lends :
        (reported : List Work)
        → let w : World = record { lent = others; reported = reported } in
          renew_buffer a w ≡ (
            record { ptr = a.fresh w; len = 0; capacity = a.granted w },
            lending (a.fresh w) (a.granted w) reported,
          )
    unfolding renew_buffer
    renewed_lends reported =
        let w : World = record { lent = others; reported = reported } in
        ground (arith, a.le-granted w, a.work_packet_capacity_pos)

    abbrev renewed : List Work → World
    renewed reported = record { lent = others; reported = reported }

    fresh_apart : (reported : List Work) → has (a.fresh (renewed reported)) others ≡ false
    fresh_apart reported = a.has-fresh (renewed reported)

    report_batches_lem :
        (how : Release) (k : Kind) (batches : List (List ℕ)) (ptr capacity : ℕ)
        (reported : List Work)
        → 0 < ptr
        → has ptr others ≡ false
        → a.work_packet_capacity ≤ capacity
        → Fits a.work_packet_capacity batches
        → (last : List Work) × (report_batches how
              (report k)
              batches
              (record { ptr = ptr; len = 0; capacity = capacity })
              (lending ptr capacity reported)
            ≡ done (renewed last))
          × (map contents last ≡ map contents reported ++ map (λ items. (k, items)) batches)
    unfolding report_batches
    report_batches_lem how k [] ptr capacity reported pos apart large fit =
        let roomy : 0 < capacity = omega (arith, a.work_packet_capacity_pos) in
        (reported, released how ptr capacity reported apart roomy, sym (append-nil _))
    report_batches_lem how k (items ∷ batches) ptr capacity reported pos apart large (short, fit) =
        let reported' = reported ++ (work k ptr items ∷ []) in
        let w = renewed reported' in
        let roomy : 0 < capacity = omega (arith, a.work_packet_capacity_pos) in
        let (last, rest, same) =
          report_batches_lem how k batches (a.fresh w) (a.granted w) reported' (a.fresh_pos w)
            (fresh_apart reported') (a.le-granted w) fit in
        (
          last,
          bind_assoc (write_items ptr items (lending ptr capacity reported))
                (λ w1. report k ptr (length items) capacity w1)
                (λ (b', w2). report_batches how (report k) batches b' w2)
              ∙ ap (λ x. x >>= λ (b', w2). report_batches how (report k) batches b' w2)
                  (report_filled k items ptr capacity reported pos apart roomy (omega arith)
                    ∙ ap done (renewed_lends reported'))
              ∙ rest,
          same ∙ simp (map-append, contents-work k ptr items, append_assoc),
        )

  -- However many batches of roots ART reports in a scan, each of at most the capacity of a work
  -- packet, it never uses memory that it must not use, if it releases the last buffer as in a build
  -- without the feature `single_worker`, or unchecked: each batch becomes the contents of one piece
  -- of work of the kind that ART reports, in order and behind the work there was, and in the end ART
  -- has the buffers that it had before.
  pub report_session_lem :
      (how : Release) (k : Kind) (batches : List (List ℕ)) (w : World)
      → Fits a.work_packet_capacity batches
      → (w' : World) × (scan k (report_session how batches) w ≡ done w')
        × (map contents w'.reported ≡ map contents w.reported ++ map (λ items. (k, items)) batches)
        × (w'.lent ≡ w.lent)
  unfolding report_session report_and_renew_buffer
  report_session_lem how k batches w fit =
      let (last, ends, same) =
        report_batches_lem w.lent how k batches (a.fresh w) (a.granted w) w.reported (a.fresh_pos w)
          (fresh_apart w.lent w.reported) (a.le-granted w) fit in
      (
        renewed w.lent last,
        rw (scan_lem k (report_session how batches) w, report_lem k)
            (ap (λ (x : RustBuffer × World). report_batches how (report k) batches x.0 x.1)
                (renewed_lends w.lent w.reported)
              ∙ ends),
        same,
        refl,
      )
