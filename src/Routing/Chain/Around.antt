-- ===== src/Routing/Chain/Around.antt =====
-- A handler that calls `Next` once, before handlers that do not call it: what comes of the chain.
use wx.Common.{
  ℕ, suc, ◌≡◌, Option, none, some, List, [], ◌∷◌, map, length, length-map, ◌<◌, arith, refl, ap,
  ◌∙◌,
}
use mathlib.Core.Option.{some-injective}
use wx.Routing.Chain.{
  Handler, Context, Outcome, perform, go_on, loop, return, next, stuck, ended, crashed,
}
use wx.Routing.Chain.Order.{Finishes, loop_lem}
use wx.Routing.Chain.Pipeline.{Verdict, simple, pipeline, result, past_end, pipeline_lem}

module _ {S E : Type 0} where
  -- What `post` makes of a chain that ends with nil; an error is passed on.
  abbrev pub after : (S → S) → S × Option E → S × Option E
  after post (s, none) = (post s, none)
  after post (s, some x) = (s, some x)

  -- What follows the call of `Next` in a handler that passes an error on, and changes the state by
  -- `post` after a nil.
  abbrev pub PassesOn : (S → S) → (Option E → Handler S E) → Type 0
  PassesOn post k =
      (again : Context S → Outcome S E) (n : ℕ) (c : Context S)
      → (perform again n (k none) c ≡ ended none (record c { state = post c.state }))
        × ((x : E) → perform again n (k (some x)) c ≡ ended (some x) c)

  -- The loop again behind the handler at its position.
  abbrev pub again_of : ℕ → List (Handler S E) → Context S → Outcome S E
  again_of fuel hs d = loop fuel hs (record d { position = suc d.position })

  -- The rest of the handler after a run of the others.
  abbrev pub rest_of : ℕ → List (Handler S E) → (Option E → Handler S E) → Outcome S E → Outcome S E
  rest_of fuel hs k o = elim o [
    | stuck ↦ stuck
    | crashed f ↦ crashed f
    | ended e c ↦ perform (again_of fuel hs) (length hs) (k e) c
  ]

  settled :
      (post : S → S) (k : Option E → Handler S E) (fuel p : ℕ) (hs : List (Handler S E))
      (o : Outcome S E) (r : S × Option E)
      → PassesOn post k
      → 0 < fuel
      → result o ≡ some r
      → Finishes (length hs) p o
      → result (go_on (again_of fuel hs) (rest_of fuel hs k o)) ≡ some (after post r)
  unfolding go_on
  settled post k fuel p hs stuck r passes fl e f = cc
  settled post k fuel p hs (crashed x) r passes fl e f = cc
  settled post k fuel p hs (ended (some x) c) r passes fl e f =
      rw ((passes (again_of fuel hs) (length hs) c).1 x, ← some-injective (c.state, some x) r e)
        refl
  settled post k fuel p hs (ended none c) r passes fl e (le, lt) =
      rw
        (
          (passes (again_of fuel hs) (length hs) c).0,
          past_end fuel hs (record { position = suc c.position; state = post c.state }) fl
              (omega (arith, lt)),
          ← some-injective (c.state, none) r e,
        )
        refl

  -- A handler in front of simple ones that has come to its call of `Next` with this state.
  pub around :
      (post : S → S) (k : Option E → Handler S E) (h : Handler S E) (fs : List (S → S × Verdict E))
      (s : S)
      → PassesOn post k
      → result (
          go_on (again_of (length (h ∷ map simple fs)) (h ∷ map simple fs)) (
            perform
              (again_of (length (h ∷ map simple fs)) (h ∷ map simple fs))
              (length (h ∷ map simple fs))
              (next k)
              (record { position = 1; state = s })))
        ≡ some (after post (pipeline fs s))
  unfolding perform
  around post k h fs s passes =
      let hs = h ∷ map simple fs in
      let n : length hs ≡ suc (length fs) = ap suc (length-map fs simple) in
      settled post k (length hs) 2 hs (loop (length hs) hs (record { position = 2; state = s }))
        (pipeline fs s) passes (omega (arith, n))
        (pipeline_lem fs (h ∷ []) hs (length hs) 2 s (omega (arith, n)) refl refl)
        (loop_lem (length hs) hs (record { position = 2; state = s }) (omega (arith, n))
          (omega arith) (omega arith))

  after_same : (r : S × Option E) → after (λ s. s) r ≡ r
  after_same (s, none) = refl
  after_same (s, some x) = refl

  -- The same for a handler that only calls `Next`.
  pub around_nothing :
      (h : Handler S E) (fs : List (S → S × Verdict E)) (s : S)
      → result (
          go_on (again_of (length (h ∷ map simple fs)) (h ∷ map simple fs)) (
            perform
              (again_of (length (h ∷ map simple fs)) (h ∷ map simple fs))
              (length (h ∷ map simple fs))
              (next (λ e. return e))
              (record { position = 1; state = s })))
        ≡ some (pipeline fs s)
  unfolding perform
  around_nothing h fs s =
      around (λ t. t) (λ e. return e) h fs s (λ again n c. (refl, λ x. refl))
      ∙ ap some (after_same (pipeline fs s))
