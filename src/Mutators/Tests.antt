-- ===== src/Mutators/Tests.antt =====
-- Three mutators.
use mmtk_art.Base.{ℕ, ◌+◌, ◌≡◌, some, List, [], ◌∷◌, map, leb}
use mmtk_art.Undefined.{done}
use mmtk_art.Mutators.{Threads, suspended, blocked, flushed, stop_all_mutators, mutators, drain}
use mmtk_art.Mutators.Flush.{stop_all_mutators_lem}

abbrev threads : Threads
threads = record {
  mutators = 16 ∷ 8 ∷ 24 ∷ [];
  number_of_mutators = 3;
  is_mutator = λ tls. leb tls 24;
  get_mmtk_mutator = λ tls. tls + 4096;
}

stop_all_mutators_lem_example :
    (ms : List ℕ) × (mutators threads 1000 ≡ done ms)
    × (drain 4 ms ≡ some ms)
    × (ms ≡ 16 ∷ 8 ∷ 24 ∷ [])
    × (stop_all_mutators threads 1000 99 (blocked 8 ∷ [])
        ≡ done (blocked 8 ∷ suspended 99 ∷ map flushed ms))
stop_all_mutators_lem_example = stop_all_mutators_lem threads 1000 99 (blocked 8 ∷ [])
