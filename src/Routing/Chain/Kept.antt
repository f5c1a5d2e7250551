-- ===== src/Routing/Chain/Kept.antt =====
-- What all handlers keep of the state is kept by serving a request, which then ends by a return.
use wx.Common.{
  ℕ, zero, suc, ◌+◌, ◌≡◌, Option, none, some, List, All, All-get_elem?, Option-cases, inl, inr,
  length,
}
use wx.Routing.Chain.{
  Handler, Context, Outcome, perform, go_on, current, loop, run_next, serve, return, look, update,
  next, abort, stuck, ended, crash, crashed,
}
use wx.Routing.Chain.Order.{Finishes, serve-Finishes}

module _ {S E : Type 0} (P : S → Type 0) where
  -- The handler does not panic, and every change that it makes to the state keeps `P`.
  abbrev pub Respects : Handler S E → Type 0
  Respects (return e) = Unit
  Respects (crash f) = ⊥
  Respects (look k) = (s : S) → P s → Respects (k s)
  Respects (update f k) = ((s : S) → P s → P (f s)) × Respects k
  Respects (next k) = (e : Option E) → Respects (k e)
  Respects (abort k) = Respects k

  -- The run returns, with a state that satisfies `P`.
  abbrev pub Holds : Outcome S E → Type 0
  Holds stuck = ⊥
  Holds (crashed f) = ⊥
  Holds (ended e c) = P c.state

  -- The same, or the fuel ends.
  abbrev Keeps : Outcome S E → Type 0
  Keeps stuck = Unit
  Keeps (crashed f) = ⊥
  Keeps (ended e c) = P c.state

  perform-Keeps :
      (call_next : Context S → Outcome S E) (n : ℕ) (h : Handler S E) (c : Context S)
      → ((d : Context S) → P d.state → Keeps (call_next d))
      → Respects h
      → P c.state
      → Keeps (perform call_next n h c)
  unfolding perform
  perform-Keeps call_next n (return e) c go r p = p
  perform-Keeps call_next n (crash f) c go r p = r
  perform-Keeps call_next n (look k) c go r p =
      perform-Keeps call_next n (k c.state) c go (r c.state p) p
  perform-Keeps call_next n (update f k) c go r p =
      perform-Keeps call_next n k (record c { state = f c.state }) go r.1 (r.0 c.state p)
  perform-Keeps call_next n (next k) c go r p =
      after (call_next c) (go c p) (λ e d q. perform-Keeps call_next n (k e) d go (r e) q)
    where
      after :
          (o : Outcome S E)
          → Keeps o
          → ((e : Option E) (d : Context S) → P d.state → Keeps (perform call_next n (k e) d))
          → Keeps (elim o [
            | stuck ↦ stuck
            | crashed f ↦ crashed f
            | ended e d ↦ perform call_next n (k e) d
          ])
      after stuck q ih = tt
      after (crashed f) q ih = q
      after (ended e d) q ih = ih e d q
  perform-Keeps call_next n (abort k) c go r p =
      perform-Keeps call_next n k (record c { position = n + 1 }) go r p

  go_on-Keeps :
      (again : Context S → Outcome S E) (o : Outcome S E)
      → Keeps o
      → ((d : Context S) → P d.state → Keeps (again d))
      → Keeps (go_on again o)
  unfolding go_on
  go_on-Keeps again stuck h k = tt
  go_on-Keeps again (crashed f) h k = h
  go_on-Keeps again (ended (some e) d) h k = h
  go_on-Keeps again (ended none d) h k = k d h

  current-Respects :
      (hs : List (Handler S E)) (p : ℕ) (h : Handler S E)
      → All Respects hs
      → current hs p ≡ some h
      → Respects h
  current-Respects hs zero h a e = cc
  current-Respects hs (suc i) h a e = All-get_elem? Respects hs i h a e

  loop-Keeps :
      (fuel : ℕ) (hs : List (Handler S E)) (c : Context S)
      → All Respects hs
      → P c.state
      → Keeps (loop fuel hs c)
  unfolding loop
  loop-Keeps zero hs c a p = tt
  loop-Keeps (suc fuel) hs c a p =
      let again = λ (d : Context S). loop fuel hs (record d { position = suc d.position }) in
      elim (Option-cases (current hs c.position)) [
        | inl e ↦ rw (e, loop) p
        | inr (h, e) ↦
            let keep : (d : Context S) → P d.state → Keeps (again d) =
              λ d q. loop-Keeps fuel hs (record d { position = suc d.position }) a q in
            rw (e, loop)
              (go_on-Keeps again (perform again (length hs) h c)
                (perform-Keeps again (length hs) h c keep (current-Respects hs c.position h a e) p)
                keep)
      ]

  Keeps-Holds : (n p : ℕ) (o : Outcome S E) → Keeps o → Finishes n p o → Holds o
  Keeps-Holds n p stuck h f = f
  Keeps-Holds n p (crashed e) h f = h
  Keeps-Holds n p (ended e c) h f = h

  pub serve-Holds : (hs : List (Handler S E)) (s : S) → All Respects hs → P s → Holds (serve hs s)
  unfolding serve run_next
  serve-Holds hs s a p =
      Keeps-Holds (length hs) 1 (serve hs s)
        (loop-Keeps (suc (length hs)) hs (record { position = 1; state = s }) a p)
        (serve-Finishes hs s)
