-- ===== src/Trigger/Threads/Bounds.antt =====
-- The bounds of `Trigger.Limits` under every interleaving of `Trigger.Threads`.
use mmtk_art.Base.{ℕ, ◌≤◌, ◌≡◌, refl, ◌∙◌, arith, ◌==◌, Bool-cases, inl, inr}
use mmtk_art.Trigger.Double.{Double}
use mmtk_art.Trigger.State.{ArtTrigger}
use mmtk_art.Trigger.Policy.{on_pending_allocation}
use mmtk_art.Trigger.Limits.{IsBounded}
use mmtk_art.Trigger.Threads.{
  Pc, idle, exchange, jank_exchange, Move, load_target, between, update, System, Step, Reach,
  thread, here, later,
}

module _ {D : Double} where
  -- What a thread is about to store is within the growth limit.
  abbrev IsSound : ArtTrigger D → Pc → Type 0
  IsSound t (exchange _ new _) = new ≤ t.growth_limit
  IsSound t (jank_exchange _ min_foreground) = min_foreground ≤ t.growth_limit
  IsSound t _ = Unit

  pub record Inv (s : System D) : Type 0 where
    pub bounded : IsBounded s.trigger
    pub sound : (i : ℕ) → IsSound s.trigger (s.pc i)

  record Moved (t t' : ArtTrigger D) (p' : Pc) : Type 0 where
    bounded : IsBounded t'
    sound : IsSound t' p'
    limit : t.growth_limit ≤ t'.growth_limit

  Move-Moved :
      {t t' : ArtTrigger D} {p p' : Pc} → Move t p t' p' → IsBounded t → IsSound t p → Moved t t' p'
  unfolding on_pending_allocation
  Move-Moved load_target b s = ground arith
  Move-Moved (between _ within) b s = ground arith
  Move-Moved mv b s = ground arith

  IsSound-mono :
      (t t' : ArtTrigger D) (p : Pc) → t.growth_limit ≤ t'.growth_limit → IsSound t p → IsSound t' p
  IsSound-mono t t' (exchange _ new _) h s = omega arith
  IsSound-mono t t' (jank_exchange _ m) h s = omega arith
  IsSound-mono t t' _ h s = tt

  Step-Inv : {s u : System D} → Step s u → Inv s → Inv u
  Step-Inv {s} (thread i {t} {p} mv) inv = record { bounded = moved.bounded; sound = sound }
    where
      moved : Moved s.trigger t p
      moved = Move-Moved mv inv.bounded (inv.sound i)

      sound : (j : ℕ) → IsSound t (update s.pc i p j)
      sound j = elim (Bool-cases (i == j)) [
        | inl e ↦ rw e moved.sound
        | inr e ↦ rw e (IsSound-mono s.trigger t (s.pc j) moved.limit (inv.sound j))
      ]

  Reach-Inv : {s u : System D} → Reach s u → Inv s → Inv u
  Reach-Inv here inv = inv
  Reach-Inv (later r st) inv = Step-Inv st (Reach-Inv r inv)

  idle-IsSound : (t : ArtTrigger D) (p : Pc) → p ≡ idle → IsSound t p
  idle-IsSound t p e = rw e tt

  Move-limits :
      {t t' : ArtTrigger D} {p p' : Pc}
      → Move t p t' p'
      → (t'.growth_limit ≡ t.growth_limit) × (t'.capacity ≡ t.capacity)
  unfolding on_pending_allocation
  Move-limits load_target = (refl, refl)
  Move-limits mv = (refl, refl)

  Step-limits :
      {s u : System D}
      → Step s u
      → (u.trigger.growth_limit ≡ s.trigger.growth_limit)
        × (u.trigger.capacity ≡ s.trigger.capacity)
  Step-limits (thread i mv) = Move-limits mv

  Reach-limits :
      {s u : System D}
      → Reach s u
      → (u.trigger.growth_limit ≡ s.trigger.growth_limit)
        × (u.trigger.capacity ≡ s.trigger.capacity)
  Reach-limits here = (refl, refl)
  Reach-limits (later r st) =
      let (limit, capacity) = Reach-limits r in
      let (limit', capacity') = Step-limits st in (limit' ∙ limit, capacity' ∙ capacity)

  -- While no collection and no change of the limits is under way, the single accesses of polls,
  -- allocations and switches to the foreground of any number of threads, interleaved in any order
  -- from a start where no thread is in one of these, keep the target footprint and the footprint
  -- kept for the foreground within the growth limit, and this within the capacity, also where a
  -- thread stores a footprint that it computed from older values; they change neither limit.
  pub Reach-IsBounded :
      {s u : System D}
      → IsBounded s.trigger
      → ((i : ℕ) → s.pc i ≡ idle)
      → Reach s u
      → IsBounded u.trigger
        × (u.trigger.growth_limit ≡ s.trigger.growth_limit)
        × (u.trigger.capacity ≡ s.trigger.capacity)
  Reach-IsBounded {s} b quiet r =
      let (limit, capacity) = Reach-limits r in
      (
        (Reach-Inv r (record {
          bounded = b;
          sound = λ i. idle-IsSound s.trigger (s.pc i) (quiet i);
        })).bounded,
        limit,
        capacity,
      )
