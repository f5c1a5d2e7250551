-- ===== src/Routing/Chain/Order.antt =====
-- The chain always ends, the index only grows, and nothing is left after a nil.
use wx.Common.{
  ℕ, zero, suc, ◌+◌, ◌≡◌, Option, none, some, List, length, ◌≤◌, ◌<◌, arith, Option-cases, inl, inr,
  get_elem?-none, get_elem?-some,
}
use wx.Routing.Chain.{
  Handler, Context, Outcome, perform, go_on, current, loop, run_next, serve, return, look, update,
  next, abort, stuck, ended, crash, crashed,
}

module _ {S E : Type 0} where
  -- A run from position `p` that ends, no earlier than it began; after a nil of the loop, behind
  -- the last handler.
  abbrev Ends : ℕ → Outcome S E → Type 0
  Ends p stuck = ⊥
  Ends p (crashed f) = Unit
  Ends p (ended e c) = p ≤ c.position

  abbrev pub Finishes : ℕ → ℕ → Outcome S E → Type 0
  Finishes n p stuck = ⊥
  Finishes n p (crashed f) = Unit
  Finishes n p (ended none c) = (p ≤ c.position) × (n < c.position)
  Finishes n p (ended (some e) c) = p ≤ c.position

  Finishes-Ends : (n p : ℕ) (o : Outcome S E) → Finishes n p o → Ends p o
  Finishes-Ends n p stuck h = h
  Finishes-Ends n p (crashed f) h = h
  Finishes-Ends n p (ended none c) h = h.0
  Finishes-Ends n p (ended (some e) c) h = h

  Ends-mono : (p q : ℕ) (o : Outcome S E) → p ≤ q → Ends q o → Ends p o
  Ends-mono p q stuck le h = h
  Ends-mono p q (crashed f) le h = h
  Ends-mono p q (ended e c) le h = omega arith

  Finishes-mono : (n p q : ℕ) (o : Outcome S E) → p ≤ q → Finishes n q o → Finishes n p o
  Finishes-mono n p q stuck le h = h
  Finishes-mono n p q (crashed f) le h = h
  Finishes-mono n p q (ended none c) le h = omega arith
  Finishes-mono n p q (ended (some e) c) le h = omega arith

  perform_lem :
      (call_next : Context S → Outcome S E) (n p : ℕ) (h : Handler S E) (c : Context S)
      → ((d : Context S) → p ≤ d.position → Ends d.position (call_next d))
      → p ≤ c.position
      → p ≤ suc n
      → Ends p (perform call_next n h c)
  unfolding perform
  perform_lem call_next n p (return e) c go le m = le
  perform_lem call_next n p (crash f) c go le m = tt
  perform_lem call_next n p (look k) c go le m = perform_lem call_next n p (k c.state) c go le m
  perform_lem call_next n p (update f k) c go le m =
      perform_lem call_next n p k (record c { state = f c.state }) go le m
  perform_lem call_next n p (next k) c go le m =
      after (call_next c) (go c le) (λ e d h. perform_lem call_next n p (k e) d go h m)
    where
      after :
          (o : Outcome S E)
          → Ends c.position o
          → ((e : Option E) (d : Context S) → p ≤ d.position → Ends p (perform call_next n (k e) d))
          → Ends p (elim o [
            | stuck ↦ stuck
            | crashed f ↦ crashed f
            | ended e c' ↦ perform call_next n (k e) c'
          ])
      after stuck h ih = h
      after (crashed f) h ih = h
      after (ended e d) h ih = ih e d (omega arith)
  perform_lem call_next n p (abort k) c go le m =
      perform_lem call_next n p k (record c { position = n + 1 }) go (omega arith) m

  current-none : (hs : List (Handler S E)) (p : ℕ) → 0 < p → current hs p ≡ none → length hs < p
  current-none hs zero h e = absurd (omega arith)
  current-none hs (suc i) h e = omega (arith, get_elem?-none hs i e)

  pub current-some :
      (hs : List (Handler S E)) (p : ℕ) (h : Handler S E) → current hs p ≡ some h → p ≤ length hs
  current-some hs zero h e = cc
  current-some hs (suc i) h e = omega (arith, get_elem?-some hs i h e)

  go_on_lem :
      (n p : ℕ) (again : Context S → Outcome S E) (o : Outcome S E)
      → Ends p o
      → ((d : Context S) → p ≤ d.position → Finishes n (suc d.position) (again d))
      → Finishes n p (go_on again o)
  unfolding go_on
  go_on_lem n p again stuck h k = h
  go_on_lem n p again (crashed f) h k = h
  go_on_lem n p again (ended (some e) d) h k = h
  go_on_lem n p again (ended none d) h k =
      Finishes-mono n p (suc d.position) (again d) (omega arith) (k d h)

  -- With fuel for the handlers that are left the loop ends.
  pub loop_lem :
      (fuel : ℕ) (hs : List (Handler S E)) (c : Context S)
      → 0 < fuel
      → 0 < c.position
      → length hs + 1 < fuel + c.position
      → Finishes (length hs) c.position (loop fuel hs c)
  unfolding loop
  loop_lem zero hs c fl pos lt = absurd (omega arith)
  loop_lem (suc fuel) hs c fl pos lt =
      let n = length hs in
      let again = λ (d : Context S). loop fuel hs (record d { position = suc d.position }) in
      elim (Option-cases (current hs c.position)) [
        | inl e ↦ rw (e, loop) (omega arith, current-none hs c.position pos e)
        | inr (h, e) ↦
            let some_left = current-some hs c.position h e in
            let keep : (d : Context S)
                → c.position ≤ d.position
                → Finishes n (suc d.position) (again d) =
              λ d le.
                loop_lem fuel hs (record d { position = suc d.position }) (omega arith)
                  (omega arith) (omega arith) in
            rw (e, loop)
              (go_on_lem n c.position again (perform again n h c)
                (perform_lem again n c.position h c
                  (λ d le.
                    Ends-mono d.position (suc d.position) (again d) (omega arith)
                      (Finishes-Ends n (suc d.position) (again d) (keep d le)))
                  (omega arith) (omega arith))
                keep)
      ]

  -- Whatever the handlers do, serving a request ends, by a return or a panic of a handler,
  -- and a request that returns no error has left no handler to run.
  pub serve-Finishes : (hs : List (Handler S E)) (s : S) → Finishes (length hs) 1 (serve hs s)
  unfolding serve run_next
  serve-Finishes hs s =
      loop_lem (suc (length hs)) hs (record { position = 1; state = s }) (omega arith) (omega arith)
        (omega arith)
