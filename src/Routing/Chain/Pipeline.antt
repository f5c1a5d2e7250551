-- ===== src/Routing/Chain/Pipeline.antt =====
-- Handlers that do not call `Next` themselves run in the order of registration, up to the first that
-- aborts the chain or fails.
use wx.Common.{
  ℕ, zero, suc, ◌+◌, ◌≡◌, Option, none, some, List, [], ◌∷◌, ◌++◌, map, length, get_elem?-append,
  length-append, append_assoc, ◌<◌, arith, refl, ap, sym, ◌∙◌, length-map, Option-cases, inl, inr,
}
use wx.Routing.Chain.{
  Handler, Context, Outcome, perform, go_on, current, loop, run_next, serve, return, look, update,
  abort, stuck, ended, crashed,
}
use wx.Routing.Chain.Order.{current-some}

-- What a handler says at its end: nil, nil after `Abort`, or an error.
pub data Verdict (E : Type 0) : Type 0 where
  continue stop : Verdict E
  fail : E → Verdict E

module _ {S E : Type 0} where
  pub conclude : Verdict E → Handler S E
  conclude continue = return none
  conclude stop = abort (return none)
  conclude (fail e) = return (some e)

  -- The handler that changes the state and gives a verdict, both as functions of the state.
  pub simple : (S → S × Verdict E) → Handler S E
  simple f = look (λ s. update (λ _. (f s).0) (conclude (f s).1))

  -- What such handlers do to the state one after the other.
  abbrev pub pipeline : List (S → S × Verdict E) → S → S × Option E
  pipeline [] s = (s, none)
  pipeline (f ∷ fs) s = elim (f s).1 [
    | continue ↦ pipeline fs (f s).0
    | stop ↦ ((f s).0, none)
    | fail e ↦ ((f s).0, some e)
  ]

  -- The error and the state that a run ends with.
  abbrev pub result : Outcome S E → Option (S × Option E)
  result stuck = none
  result (crashed f) = none
  result (ended e c) = some (c.state, e)

  pub past_end :
      (fuel : ℕ) (hs : List (Handler S E)) (c : Context S)
      → 0 < fuel
      → length hs < c.position
      → loop fuel hs c ≡ ended none c
  unfolding loop
  past_end zero hs c fl lt = absurd (omega arith)
  past_end (suc fuel) hs c fl lt = elim (Option-cases (current hs c.position)) [
    | inl e ↦ rw (e, loop)
    | inr (h, e) ↦ absurd (omega (arith, current-some hs c.position h e))
  ]

  conclude_lem :
      (again : Context S → Outcome S E) (n p : ℕ) (v : Verdict E) (s : S) (x : S × Option E)
      → result (again (record { position = p; state = s })) ≡ some x
      → result (again (record { position = n + 1; state = s })) ≡ some (s, none)
      → result (go_on again (perform again n (conclude v) (record { position = p; state = s })))
        ≡ some (elim v [ continue ↦ x | stop ↦ (s, none) | fail e ↦ (s, some e) ])
  unfolding go_on perform conclude
  conclude_lem again n p continue s x h k = h
  conclude_lem again n p stop s x h k = k
  conclude_lem again n p (fail e) s x h k = refl

  pub pipeline_lem :
      (fs : List (S → S × Verdict E)) (before hs : List (Handler S E)) (fuel p : ℕ) (s : S)
      → length fs < fuel
      → hs ≡ before ++ map simple fs
      → p ≡ suc (length before)
      → result (loop fuel hs (record { position = p; state = s })) ≡ some (pipeline fs s)
  unfolding loop simple perform
  pipeline_lem fs before hs zero p s lt eh ep = absurd (omega arith)
  pipeline_lem [] before hs (suc fuel) p s lt eh ep = ap result (
      past_end (suc fuel) hs (record { position = p; state = s }) (omega arith)
        (omega (arith, ap length eh, length-append before [])))
  pipeline_lem (f ∷ fs) before hs (suc fuel) p s lt eh ep =
      let again = λ (d : Context S). loop fuel hs (record d { position = suc d.position }) in
      let here : current hs p ≡ some (simple f) =
        rw (ep, eh) (get_elem?-append before (map simple fs) (simple f)) in
      rw (here, loop)
        (conclude_lem again (length hs) p (f s).1 (f s).0 (pipeline fs (f s).0)
          (pipeline_lem fs (before ++ simple f ∷ []) hs fuel (suc p) (f s).0 (omega arith)
            (eh ∙ sym (append_assoc before (simple f ∷ []) (map simple fs)))
            (omega (arith, length-append before (simple f ∷ []))))
          (ap result (
            past_end fuel hs (record { position = suc (length hs + 1); state = (f s).0 })
              (omega arith) (omega arith))))

-- Handlers that do not call `Next` are run in order by serving a request: the state and the error are
-- those of the plain composition, which ends at the first handler that aborts the chain or fails.
pub serve-pipeline :
    {S E : Type 0} (fs : List (S → S × Verdict E)) (s : S)
    → result (serve (map simple fs) s) ≡ some (pipeline fs s)
unfolding serve run_next
serve-pipeline fs s =
    pipeline_lem fs [] (map simple fs) (suc (length (map simple fs))) 1 s
      (omega (arith, length-map fs simple)) refl refl
