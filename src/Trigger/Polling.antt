-- ===== src/Trigger/Polling.antt =====
-- What a poll answers: `is_gc_required` of mmtk/src/gc_trigger.rs with no other thread at work.
use mmtk_art.Base.{
  ℕ, zero, suc, ◌+◌, ◌<◌, ◌^◌, ◌≡◌, ◌↔◌, max, Bool, true, false, some, List, [], ◌∷◌, arith, ltb,
  leb, ◌&&◌, if◌then◌else◌,
}
use mmtk_art.Trigger.Double.{Double}
use mmtk_art.Trigger.State.{ArtTrigger}
use mmtk_art.Trigger.Policy.{Round, is_gc_required}

-- `n` exchanges fail for no reason and the next goes through, with `reserved` pages throughout.
abbrev pub after_failures : ℕ → ℕ → List Round
after_failures zero reserved = record { reserved_pages = reserved; exchanged = true } ∷ []
after_failures (suc n) reserved =
    record { reserved_pages = reserved; exchanged = false } ∷ after_failures n reserved

module _ {D : Double} where
  -- `required` and `t'` are what a poll of `t` with `wanted` pages answers and leaves.
  pub record IsPolled (collection : Bool) (wanted : ℕ) (t : ArtTrigger D) (required : Bool)
      (t' : ArtTrigger D) : Type 0 where
    pub over_limit :
        collection ≡ false
        → (required ≡ true) ↔ ((t.target_footprint < wanted) × (t.growth_limit < wanted))
    pub plan_decides : collection ≡ true → required ≡ true
    pub footprint :
        t'.target_footprint
        ≡ (if ltb t.growth_limit wanted then t.target_footprint else max t.target_footprint wanted)
    pub pending : t'.pending_allocation ≡ (
        if ltb t.target_footprint wanted && leb wanted t.growth_limit
        then 0
        else t.pending_allocation)
    pub limit_kept : (t'.growth_limit ≡ t.growth_limit) × (t'.capacity ≡ t.capacity)

  abbrev answer : Bool → ℕ → ArtTrigger D → Bool × ArtTrigger D
  answer collection wanted t =
      if leb wanted t.target_footprint
      then (collection, t)
      else if ltb t.growth_limit wanted
      then (true, t)
      else (collection, record t { target_footprint = wanted; pending_allocation = 0 })

  answer-IsPolled :
      (collection : Bool) (wanted : ℕ) (t : ArtTrigger D)
      → let (required, t') = answer collection wanted t in IsPolled collection wanted t required t'
  answer-IsPolled collection wanted t = record {
    over_limit = λ e. (ground arith, ground arith);
    plan_decides = λ e. ground arith;
    footprint = ground arith;
    pending = ground arith;
    limit_kept = ground arith;
  }

  is_gc_required-answer :
      (collection : Bool) (n reserved : ℕ) (t : ArtTrigger D)
      → reserved + t.pending_allocation < 2 ^ 64
      → is_gc_required collection (after_failures n reserved) t
        ≡ some (answer collection (reserved + t.pending_allocation) t)
  unfolding is_gc_required
  is_gc_required-answer collection zero reserved t fits = ground arith
  is_gc_required-answer collection (suc n) reserved t fits =
      ground (arith, is_gc_required-answer collection n reserved t fits)

  -- If the reserved and pending pages together fit a `usize`, then, however often the exchange fails
  -- for no reason, a poll ends. It asks for a collection exactly if
  -- the reserved and pending pages together exceed both the footprint and the growth limit, or the
  -- plan asks for one; it raises the footprint to these pages if they are within the growth limit,
  -- and only then clears the pending pages; it never lowers the footprint, nor changes the limits.
  pub is_gc_required-IsPolled :
      (collection : Bool) (n reserved : ℕ) (t : ArtTrigger D)
      → reserved + t.pending_allocation < 2 ^ 64
      → (required : Bool) × (t' : ArtTrigger D) × (is_gc_required collection
            (after_failures n reserved)
            t
          ≡ some (required, t'))
        × IsPolled collection (reserved + t.pending_allocation) t required t'
  is_gc_required-IsPolled collection n reserved t fits = (
    _,
    _,
    is_gc_required-answer collection n reserved t fits,
    answer-IsPolled collection (reserved + t.pending_allocation) t,
  )
