-- ===== src/Closures/Calls.antt =====
-- Calling through C is calling the closure.
use mmtk_art.Base.{ℕ, ◌≡◌, ◌≢◌, refl, ap, ◌∙◌, Option, none, some, List, [], ◌∷◌, arith}
use mmtk_art.Undefined.{Run, done, undefined, ◌>>=◌}
use mmtk_art.Closures.{World, FnMut, set_captured, call_rust_closure, from_rust_closure, call_all}

-- A run of calls through C that returns, and changes nothing that other closures have captured.
pub record IsCalled {Ret S W : Type 0} (p : ℕ) (w : World S W) (rets : List Ret) (s : S) (rest : W)
    (result : Run (List Ret × World S W)) : Type 0 where
  pub after : World S W
  pub is_done : result ≡ done (rets, after)
  pub captured : after.captured p ≡ some s
  pub others : (q : ℕ) → q ≢ p → after.captured q ≡ w.captured q
  pub rest_after : after.rest ≡ rest

set_captured_self :
    {S : Type 0} (p : ℕ) (s : S) (captured : ℕ → Option S) → set_captured p s captured p ≡ some s
set_captured_self p s captured = ground arith

module _ {Arg Ret S W : Type 0} where
  -- The calls in Rust: what they return, what the closure has captured then, and the other state.
  unfoldable pub in_rust : FnMut Arg Ret S W → List Arg → S → W → List Ret × S × W
  in_rust callback [] s rest = ([], s, rest)
  in_rust callback (x ∷ xs) s rest =
      let (ret, s1, rest1) = callback x s rest in
      let (rets, s2, rest2) = in_rust callback xs s1 rest1 in (ret ∷ rets, s2, rest2)

  call_rust_closure_lem :
      (callback : FnMut Arg Ret S W) (x : Arg) (p : ℕ) (s : S) (w : World S W)
      → w.captured p ≡ some s
      → let (ret, s', rest) = callback x s w.rest in
        call_rust_closure callback x p w
        ≡ done (ret, record { captured = set_captured p s' w.captured; rest = rest })
  unfolding call_rust_closure
  call_rust_closure_lem callback x p s w alive = ground arith

  pub call_all-in_rust :
      (callback : FnMut Arg Ret S W) (xs : List Arg) (p : ℕ) (s : S) (w : World S W)
      → w.captured p ≡ some s
      → let (rets, s', rest) = in_rust callback xs s w.rest in
        IsCalled p w rets s' rest (call_all (from_rust_closure callback p) xs w)
  unfolding call_all in_rust from_rust_closure
  call_all-in_rust callback [] p s w alive = record {
    after = w;
    is_done = refl;
    captured = alive;
    others = λ q ne. refl;
    rest_after = refl;
  }
  call_all-in_rust callback (x ∷ xs) p s w alive =
      let (ret, s1, rest1) = callback x s w.rest in
      let w1 : World S W = record { captured = set_captured p s1 w.captured; rest = rest1 } in
      let ih = call_all-in_rust callback xs p s1 w1 (set_captured_self p s1 w.captured) in
      record {
        after = ih.after;
        is_done =
            rw (call_rust_closure_lem callback x p s w alive)
              (ap (λ m. m >>= λ (rets, w2). done (ret ∷ rets, w2)) ih.is_done);
        captured = ih.captured;
        others = λ q ne. ih.others q ne ∙ (ground arith);
        rest_after = ih.rest_after;
      }

  -- C code that calls a Rust closure by its function pointer and the address it was given, any
  -- number of times, gets what calls in Rust would return and leaves the closure and the other
  -- state as these would; what other closures have captured stays. With an address at which no
  -- such closure is alive, the first call is undefined.
  pub call_all-from_rust_closure :
      (callback : FnMut Arg Ret S W) (x : Arg) (xs : List Arg) (p dangling : ℕ) (s : S)
      (w : World S W)
      → w.captured p ≡ some s
      → w.captured dangling ≡ none
      → let (rets, s', rest) = in_rust callback xs s w.rest in
        IsCalled p w rets s' rest (call_all (from_rust_closure callback p) xs w)
        × (call_all (from_rust_closure callback dangling) (x ∷ xs) w ≡ undefined)
  unfolding call_all from_rust_closure call_rust_closure
  call_all-from_rust_closure callback x xs p dangling s w alive dead =
      (call_all-in_rust callback xs p s w alive, ground arith)
