-- ===== src/Startup/Once.antt =====
-- MMTk is initialized once, however often ART creates a runtime: mmtk/src/api.rs and the lazy
-- static of mmtk/src/lib.rs.
use mmtk_art.Base.{
  ℕ, ◌≡◌, refl, Bool, true, false, List, [], ◌∷◌, none, some, Outcome, ok, panic, ◌>>=◌, ◌||◌,
  arith, ap, ◌∙◌, Bool-cases, inl, inr,
}
use mmtk_art.Trigger.Double.{Double}
use mmtk_art.Startup.{
  Core, Build, Statics, VmLayout, mmtk_init, mmtk_initialize_collection,
  mmtk_set_runtime_pointer_size, mmtk_set_heap_size, initialize_singleton, set_vm_layout, vm_layout,
  bool_eq,
}

module _ (C : Core) (D : Double) (build : Build) where
  -- The calls with which ART sets MMTk up.
  pub data Call : Type 0 where
    init : (upcalls : ℕ) → C.Plan → (is_zygote_process : Bool) → Call
    initialize_collection : (tls : ℕ) → Call
    set_runtime_pointer_size : ℕ → Call
    set_heap_size : (min max growth_limit : ℕ) → D.F → (min_free max_free : ℕ) → D.F → Call

  unfoldable pub call : Call → Statics C D → Outcome (Statics C D)
  call (init upcalls plan zygote) s = mmtk_init C D build upcalls plan zygote s
  call (initialize_collection tls) s = mmtk_initialize_collection C D build tls s
  call (set_runtime_pointer_size n) s = ok (mmtk_set_runtime_pointer_size C D build n s)
  call (set_heap_size min max growth_limit utilization min_free max_free multiplier) s =
      ok
        (mmtk_set_heap_size C D build min max growth_limit utilization min_free max_free multiplier
          s).1

  unfoldable pub calls : List Call → Statics C D → Outcome (Statics C D)
  calls [] s = ok s
  calls (c ∷ cs) s = do s' ← call c s; calls cs s'

  unfoldable pub is_zygote_init : Call → Bool
  is_zygote_init (init upcalls plan zygote) = zygote
  is_zygote_init (initialize_collection tls) = false
  is_zygote_init (set_runtime_pointer_size n) = false
  is_zygote_init (set_heap_size _ _ _ _ _ _ _) = false

  unfoldable pub any_zygote_init : List Call → Bool
  any_zygote_init [] = false
  any_zygote_init (c ∷ cs) = is_zygote_init c || any_zygote_init cs

  -- The collection threads that are to be set up: those asked for before anyone initializes MMTk
  -- again, the last one first.
  unfoldable pub set_up : List Call → List ℕ → List ℕ
  set_up [] tlss = tlss
  set_up (init upcalls plan zygote ∷ cs) tlss = tlss
  set_up (initialize_collection tls ∷ cs) tlss = set_up cs (tls ∷ tlss)
  set_up (set_runtime_pointer_size n ∷ cs) tlss = set_up cs tlss
  set_up (set_heap_size _ _ _ _ _ _ _ ∷ cs) tlss = set_up cs tlss

  -- MMTk runs as this instance, with these upcalls.
  pub record IsStarted (instance : C.Instance) (upcalls : ℕ) (s : Statics C D) : Type 0 where
    pub made : s.singleton ≡ some instance
    pub with_upcalls : s.upcalls ≡ some upcalls
    pub flagged : s.is_mmtk_initialized ≡ true

  module _ (instance : C.Instance) (upcalls : ℕ) where
    -- What the calls leave of `s`.
    record IsKept (s s' : Statics C D) : Type 0 where
      started : IsStarted instance upcalls s'
      reinitializing : s.is_mmtk_reinitializing ≡ true → s'.is_mmtk_reinitializing ≡ true
      collections : s.is_mmtk_reinitializing ≡ true → s'.collections ≡ s.collections

    call_lem :
        (c : Call) (s : Statics C D)
        → IsStarted instance upcalls s
        → (is_zygote_init c ≡ true → call c s ≡ panic)
          × (is_zygote_init c ≡ false → (s' : Statics C D) × (call c s ≡ ok s') × IsKept s s')
    unfolding call is_zygote_init mmtk_init mmtk_initialize_collection initialize_singleton
        mmtk_set_runtime_pointer_size mmtk_set_heap_size
    call_lem (init u plan true) s h = (λ e. ground arith, λ e. absurd (ground arith))
    call_lem (init u plan false) s h = (
      λ e. ground arith,
      λ e. (
        record s { is_mmtk_reinitializing = true },
        ground arith,
        record {
          started = record { made = h.made; with_upcalls = h.with_upcalls; flagged = h.flagged };
          reinitializing = λ r. refl;
          collections = λ r. refl;
        },
      ),
    )
    call_lem (initialize_collection tls) s h = (
      λ e. absurd (ground arith),
      λ e. elim (Bool-cases s.is_mmtk_reinitializing) [
        | inl again ↦ (
          s,
          ground arith,
          record {
            started = record { made = h.made; with_upcalls = h.with_upcalls; flagged = h.flagged };
            reinitializing = λ r. r;
            collections = λ r. refl;
          },
        )
        | inr first ↦ (
          record s { collections = tls ∷ s.collections },
          ground arith,
          record {
            started = record { made = h.made; with_upcalls = h.with_upcalls; flagged = h.flagged };
            reinitializing = λ r. r;
            collections = λ r. absurd (ground arith);
          },
        )
      ],
    )
    call_lem (set_runtime_pointer_size n) s h = (
      λ e. absurd (ground arith),
      λ e. (
        _,
        refl,
        record {
          started = record { made = h.made; with_upcalls = h.with_upcalls; flagged = h.flagged };
          reinitializing = λ r. r;
          collections = λ r. refl;
        },
      ),
    )
    call_lem (set_heap_size min max growth_limit utilization min_free max_free multiplier) s h = (
      λ e. absurd (ground arith),
      λ e. (
        _,
        refl,
        record {
          started = record { made = h.made; with_upcalls = h.with_upcalls; flagged = h.flagged };
          reinitializing = λ r. r;
          collections = λ r. refl;
        },
      ),
    )

    calls_from :
        (cs : List Call) (s : Statics C D)
        → IsStarted instance upcalls s
        → (any_zygote_init cs ≡ true → calls cs s ≡ panic)
          × (any_zygote_init cs ≡ false → (s' : Statics C D) × (calls cs s ≡ ok s') × IsKept s s')
    unfolding calls any_zygote_init
    calls_from [] s h = (
      λ e. absurd (ground arith),
      λ e. (s, refl, record { started = h; reinitializing = λ r. r; collections = λ r. refl }),
    )
    calls_from (c ∷ cs) s h = elim (Bool-cases (is_zygote_init c)) [
      | inl again ↦ (λ e. ground (arith, (call_lem c s h).0 again), λ e. absurd (ground arith))
      | inr app ↦
          let (s', called, kept) = (call_lem c s h).1 app in
          let rest = calls_from cs s' kept.started in
          (
            λ e. ground (arith, rest),
            λ e.
                let (last, finished, kept_after) = rest.1 (ground arith) in
                (
                  last,
                  ground arith,
                  record {
                    started = kept_after.started;
                    reinitializing = λ r. kept_after.reinitializing (kept.reinitializing r);
                    collections =
                        λ r. kept_after.collections (kept.reinitializing r) ∙ kept.collections r;
                  },
                ),
          )
    ]

    -- The calls do as they should, and set up the threads that they should.
    record IsSetUp (cs : List Call) (s : Statics C D) : Type 0 where
      after : Statics C D
      called : calls cs s ≡ ok after
      started : IsStarted instance upcalls after
      threads : after.collections ≡ set_up cs s.collections

    calls-IsSetUp :
        (cs : List Call) (s : Statics C D)
        → IsStarted instance upcalls s
        → any_zygote_init cs ≡ false
        → s.is_mmtk_reinitializing ≡ false
        → IsSetUp cs s
    unfolding calls call any_zygote_init is_zygote_init set_up mmtk_init mmtk_initialize_collection
        initialize_singleton mmtk_set_runtime_pointer_size mmtk_set_heap_size
    calls-IsSetUp [] s h apps first = record {
      after = s;
      called = refl;
      started = h;
      threads = refl;
    }
    calls-IsSetUp (init u plan true ∷ cs) s h apps first = absurd (ground arith)
    calls-IsSetUp (init u plan false ∷ cs) s h apps first =
        let s1 : Statics C D = record s { is_mmtk_reinitializing = true } in
        let again : call (init u plan false) s ≡ ok s1 = ground arith in
        let (last, finished, kept) =
          (calls_from cs s1
              (record { made = h.made; with_upcalls = h.with_upcalls; flagged = h.flagged })).1
            apps in
        record {
          after = last;
          called = ap (λ m. m >>= calls cs) again ∙ finished;
          started = kept.started;
          threads = kept.collections refl;
        }
    calls-IsSetUp (initialize_collection tls ∷ cs) s h apps first =
        let s1 : Statics C D = record s { collections = tls ∷ s.collections } in
        let forwarded : call (initialize_collection tls) s ≡ ok s1 = ground arith in
        let ih =
          calls-IsSetUp cs s1
            (record { made = h.made; with_upcalls = h.with_upcalls; flagged = h.flagged }) apps
            first in
        record {
          after = ih.after;
          called = ap (λ m. m >>= calls cs) forwarded ∙ ih.called;
          started = ih.started;
          threads = ih.threads;
        }
    calls-IsSetUp (set_runtime_pointer_size n ∷ cs) s h apps first =
        let ih =
          calls-IsSetUp cs (mmtk_set_runtime_pointer_size C D build n s)
            (record { made = h.made; with_upcalls = h.with_upcalls; flagged = h.flagged }) apps
            first in
        record { after = ih.after; called = ih.called; started = ih.started; threads = ih.threads }
    calls-IsSetUp (set_heap_size min max limit utilization min_free max_free multiplier ∷ cs) s h
          apps first =
        let s1 =
          (mmtk_set_heap_size C D build min max limit utilization min_free max_free multiplier
            s).1 in
        let ih =
          calls-IsSetUp cs s1
            (record { made = h.made; with_upcalls = h.with_upcalls; flagged = h.flagged }) apps
            first in
        record { after = ih.after; called = ih.called; started = ih.started; threads = ih.threads }

  bool_eq_self : (z : Bool) → bool_eq z z ≡ true
  bool_eq_self true = refl
  bool_eq_self false = refl

  mmtk_init_first :
      (upcalls : ℕ) (plan : C.Plan) (zygote : Bool) (s : Statics C D) (l : VmLayout)
      → s.singleton ≡ none
      → s.is_mmtk_initialized ≡ false
      → s.is_mmtk_reinitializing ≡ false
      → vm_layout C D build s.trigger_init.capacity ≡ ok l
      → let builder = C.set_layout l (C.set_is_zygote_process zygote (C.set_plan plan s.builder)) in
        (s' : Statics C D) × (mmtk_init C D build upcalls plan zygote s ≡ ok s')
        × (s'.builder ≡ builder)
        × IsStarted (C.init builder) upcalls s'
        × (s'.is_mmtk_reinitializing ≡ false)
        × (s'.collections ≡ s.collections)
  unfolding mmtk_init initialize_singleton set_vm_layout
  mmtk_init_first upcalls plan zygote s l none_yet not_yet once layout = (
    record s {
      upcalls = some upcalls;
      builder = C.set_layout l (C.set_is_zygote_process zygote (C.set_plan plan s.builder));
      singleton =
          some
            (C.init (C.set_layout l (C.set_is_zygote_process zygote (C.set_plan plan s.builder))));
      is_mmtk_initialized = true;
    },
    ground (arith, bool_eq_self zygote, C.is_zygote_process_lem zygote (C.set_plan plan s.builder)),
    refl,
    record { made = refl; with_upcalls = refl; flagged = refl },
    once,
    refl,
  )

  -- The first initialization, if there is a layout for the capacity, sets the plan, whether this is
  -- the Zygote and the layout, makes the instance from these options and keeps the upcalls. From
  -- then on calls of all kinds, in any number and order, panic if with one of them the Zygote asks
  -- for another initialization. Otherwise they keep the instance and the upcalls, and set up
  -- collection threads for exactly those calls that come before an app initializes MMTk again.
  pub calls_lem :
      (upcalls : ℕ) (plan : C.Plan) (zygote : Bool) (cs by_zygote : List Call) (s : Statics C D)
      (l : VmLayout)
      → s.singleton ≡ none
      → s.is_mmtk_initialized ≡ false
      → s.is_mmtk_reinitializing ≡ false
      → vm_layout C D build s.trigger_init.capacity ≡ ok l
      → any_zygote_init cs ≡ false
      → any_zygote_init by_zygote ≡ true
      → let builder = C.set_layout l (C.set_is_zygote_process zygote (C.set_plan plan s.builder)) in
        (s1 : Statics C D) × (mmtk_init C D build upcalls plan zygote s ≡ ok s1)
        × (s1.builder ≡ builder)
        × IsStarted (C.init builder) upcalls s1
        × (calls by_zygote s1 ≡ panic)
        × (s2 : Statics C D) × (calls cs s1 ≡ ok s2)
        × IsStarted (C.init builder) upcalls s2
        × (s2.collections ≡ set_up cs s.collections)
  calls_lem upcalls plan zygote cs by_zygote s l none_yet not_yet once layout apps again =
      let (s1, first, options, started, first_time, threads) =
        mmtk_init_first upcalls plan zygote s l none_yet not_yet once layout in
      let after = calls-IsSetUp _ upcalls cs s1 started apps first_time in
      (
        s1,
        first,
        options,
        started,
        (calls_from _ upcalls by_zygote s1 started).0 again,
        after.after,
        after.called,
        after.started,
        after.threads ∙ ap (set_up cs) threads,
      )
