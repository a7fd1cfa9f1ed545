-- ===== src/Buffers/Tests.antt =====
-- Sessions with a concrete allocator, whose work packets hold three items.
use mmtk_art.Base.{ℕ, suc, ◌+◌, ◌<◌, ◌≡◌, refl, false, List, [], ◌∷◌, map, arith}
use mmtk_art.Buffers.{
  Block, RustBuffer, roots, World, done, undefined, Allocator, renew_buffer,
  report_and_renew_buffer, report_slots_and_renew_buffer, to_slots_closure, from_raw_parts,
  mmtk_release_rust_buffer, mmtk_release_rust_buffer_unchecked,
}
use mmtk_art.Buffers.Blocks.{Table, find, remove, has}
use mmtk_art.Buffers.Reports.{
  slots, nodes, unchecked, contents, report, report_session, scan, report_session_lem,
}
use mmtk_art.Buffers.Misuse.{report_again}

abbrev last_lent : Table Block → ℕ
last_lent [] = 0
last_lent ((p, b) ∷ blocks) = p + last_lent blocks

has_above : (p : ℕ) (blocks : Table Block) → last_lent blocks < p → has p blocks ≡ false
unfolding has
has_above p [] above = refl
has_above p ((q, b) ∷ blocks) above = ground (arith, has_above p blocks)

abbrev next_free : World → ℕ
next_free w = suc (last_lent w.lent)

abbrev allocator : Allocator
allocator = record {
  work_packet_capacity = 3;
  work_packet_capacity_pos = omega arith;
  fresh = next_free;
  granted = λ w. 4;
  fresh_pos = λ w. omega arith;
  has-fresh = λ w. has_above (next_free w) w.lent (omega arith);
  le-granted = λ w. omega arith;
}

-- ART has another vector all along.
abbrev world : World
world = record {
  lent = (7, record { items = []; capacity = 2; item_bytes = 16 }) ∷ [];
  reported = roots 3 (100 ∷ []) ∷ [];
}

abbrev batches : List (List ℕ)
batches = (64 ∷ 72 ∷ 80 ∷ []) ∷ [] ∷ (96 ∷ []) ∷ []

report_session_lem_example :
    (w : World) × (scan allocator slots (report_session unchecked batches) world ≡ done w)
    × (map contents w.reported
        ≡ (slots, 100 ∷ []) ∷ (slots, 64 ∷ 72 ∷ 80 ∷ []) ∷ (slots, []) ∷ (slots, 96 ∷ []) ∷ [])
    × (w.lent ≡ world.lent)
report_session_lem_example =
    report_session_lem allocator unchecked slots batches world (omega arith)

abbrev holding : World
holding = record {
  lent =
      (9, record { items = 64 ∷ []; capacity = 4; item_bytes = 8 })
      ∷ (12, record { items = []; capacity = 2; item_bytes = 16 })
      ∷ [];
  reported = [];
}

abbrev reported : RustBuffer × World
reported = (
  record { ptr = 13; len = 0; capacity = 4 },
  record {
    lent =
        (13, record { items = []; capacity = 4; item_bytes = 8 })
        ∷ (12, record { items = []; capacity = 2; item_bytes = 16 })
        ∷ [];
    reported = roots 9 (64 ∷ []) ∷ [];
  },
)

report_again_example :
    (report allocator nodes 9 1 4 reported.1 ≡ undefined)
    × (mmtk_release_rust_buffer_unchecked 9 1 4 reported.1 ≡ undefined)
    × (mmtk_release_rust_buffer false 9 1 4 reported.1 ≡ undefined)
unfolding report to_slots_closure report_slots_and_renew_buffer report_and_renew_buffer
    from_raw_parts find remove renew_buffer
report_again_example =
    report_again allocator slots nodes false 9 1 4 1 4 holding reported.1 reported.0 (omega arith)
      (omega arith) (omega arith) (λ e. ground arith) refl
