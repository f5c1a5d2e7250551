-- ===== src/Routing/Store/First.antt =====
-- `node.get` of fasthttp-routing/store.go against its reference: what it returns is the best match.
use wx.Common.{
  ℕ, ◌≤◌, ◌<◌, ◌≡◌, ◌⊎◌, none, List, [], ◌∷◌, ◌++◌, Bytes, inl, inr, done, ◌>>=◌, Ensures,
  Ensures-bind, Returns, Returns-mono, Returns-Ensures, Bool-cases, leb, ◌==◌, All, length, arith,
  refl, ap, sym, ◌∙◌, subst,
}
use wx.Routing.Store.Node.{Regexp, Node, node, info, Kids, no_kids, kid, Nodes, no_nodes, more}
use wx.Routing.Store.Get.{
  Found, nothing, max_int32, takes, advance, consume, descend, spare, given, Loop, settle, get,
  get_kid, get_params,
}
use wx.Routing.Store.Table.{Store, store_get}
use wx.Routing.Store.Capacity.{HasCapacity, store_get-Returns}
use wx.Routing.Store.Picks.{
  Tracks, advance-Tracks, settle-picks, own-picks, descend-picks, node-picks, skip-picks, take_over,
}
use wx.Routing.Store.Least.{
  pick, picks, matches_at, matches, matches_kid, matches_params, Timed, TimedKids, TimedNodes, Late,
  Late-mono, picks-append, IsLeast, Chosen, picks-Chosen, matches-Late,
}

module _ {D : Type 0} (rx : Regexp) (hi : ℕ) (small : hi < max_int32) where
  mutual
    unfolding get matches consume

    get-picks :
        (t : Node D) (key : Bytes) (values : List Bytes)
        → Timed hi t
        → Ensures (λ r. r.0 ≡ picks nothing (matches rx t key)) (get rx t key values)
    get-picks (node i ks ps) key values (t, tk, tp) =
        Ensures-bind (Tracks key (takes rx i key))
          (λ r. r.0 ≡ picks nothing (matches rx (node i ks ps) key))
          (advance i key values (takes rx i key)) _ (advance-Tracks i key values (takes rx i key))
          (λ a tr.
            node-picks (takes rx i key) key values
              (λ s. matches_at (matches_kid rx ks) i s ++ matches_params rx ps s) a
              (λ s v. descend (get_kid rx ks) i s v >>= (λ first.
                get_params rx ps s (record { found = first.0; pvalues = first.1; tvalues = none })
                >>= (λ last. done (last.found, last.pvalues))))
              tr
              (λ s v.
                Ensures-bind
                  (λ (r : Found D × List Bytes).
                    r.0 ≡ picks nothing (matches_at (matches_kid rx ks) i s))
                  (λ (r : Found D × List Bytes).
                    r.0
                    ≡ picks nothing (matches_at (matches_kid rx ks) i s ++ matches_params rx ps s))
                  (descend (get_kid rx ks) i s v) _
                  (descend-picks (get_kid rx ks) (matches_kid rx ks) i s v (own-picks hi i small t)
                    (λ b u. get_kid-picks ks i.min_order b u v tk))
                  (λ first e.
                    Ensures-bind (λ (m : Loop D). m.found ≡ picks first.0 (matches_params rx ps s))
                      (λ (r : Found D × List Bytes).
                        r.0
                        ≡ picks nothing
                            (matches_at (matches_kid rx ks) i s ++ matches_params rx ps s))
                      (get_params rx ps s
                        (record { found = first.0; pvalues = first.1; tvalues = none }))
                      (λ last. done (last.found, last.pvalues))
                      (get_params-picks ps i.min_order s
                        (record { found = first.0; pvalues = first.1; tvalues = none }) tp)
                      (λ m f.
                        f
                        ∙ ap (λ z. picks z (matches_params rx ps s)) e
                        ∙ sym (
                            picks-append nothing (matches_at (matches_kid rx ks) i s)
                              (matches_params rx ps s))))))

    get_kid-picks :
        (ks : Kids D) (lo b : ℕ) (key : Bytes) (values : List Bytes)
        → TimedKids hi lo ks
        → Ensures (λ r. r.0 ≡ picks nothing (matches_kid rx ks b key)) (get_kid rx ks b key values)
    get_kid-picks no_kids lo b key values t = refl
    get_kid-picks (kid a c ks) lo b key values (le, tc, tk) = elim (Bool-cases (a == b)) [
      | inl e ↦ rw e (get-picks c key values tc)
      | inr e ↦ rw e (get_kid-picks ks lo b key values tk)
    ]

    get_params-picks :
        (ps : Nodes D) (lo : ℕ) (key : Bytes) (l : Loop D)
        → TimedNodes hi lo ps
        → Ensures (λ m. m.found ≡ picks l.found (matches_params rx ps key)) (get_params rx ps key l)
    get_params-picks no_nodes lo key l t = refl
    get_params-picks (more c ps) lo key l (le, tc, tp) =
        elim (Bool-cases (leb l.found.order (info c).min_order)) [
          | inl e ↦ rw e (
              subst (λ z. Ensures (λ (m : Loop D). m.found ≡ z) (get_params rx ps key l))
                (sym (
                  skip-picks l.found (info c).min_order (matches rx c key)
                    (matches_params rx ps key) e (matches-Late rx hi small c key tc)))
                (get_params-picks ps lo key l tp))
          | inr e ↦ rw e (
              Ensures-bind (λ (r : Found D × List Bytes). r.0 ≡ picks nothing (matches rx c key))
                (λ (m : Loop D).
                  m.found ≡ picks l.found (matches rx c key ++ matches_params rx ps key))
                (get rx c key (given (spare l) l.pvalues)) _
                (get-picks c key (given (spare l) l.pvalues) tc)
                (λ r f.
                  Ensures-bind (λ (m : Loop D). m.found ≡ pick l.found r.0)
                    (λ (m : Loop D).
                      m.found ≡ picks l.found (matches rx c key ++ matches_params rx ps key))
                    (settle (info c) l (spare l) r) (λ m. get_params rx ps key m)
                    (settle-picks (info c) l (spare l) r)
                    (λ m g.
                      subst (λ z. Ensures (λ (n : Loop D). n.found ≡ z) (get_params rx ps key m))
                        (take_over l.found r.0 m.found (info c).min_order (matches rx c key)
                          (matches_params rx ps key) f g (matches-Late rx hi small c key tc))
                        (get_params-picks ps lo key m tp))))
        ]

-- What is picked from no result.
first_of :
    {D : Type 0} (g : Found D) (gs : List (Found D))
    → g ≡ picks nothing gs
    → All (Late 0) gs
    → ((gs ≡ []) × (g ≡ nothing)) ⊎ IsLeast g gs
first_of g [] e k = inl (refl, e)
first_of {D} g (h ∷ gs) e ((le, lt, v), k) =
    subst (λ z. ((h ∷ gs ≡ []) × (z ≡ nothing)) ⊎ IsLeast z (h ∷ gs)) (sym e)
      (not_nothing (picks-Chosen nothing (h ∷ gs) ((le, lt, v), k)))
  where
    not_nothing :
        Chosen nothing (h ∷ gs) (picks nothing (h ∷ gs))
        → ((h ∷ gs ≡ []) × (picks nothing (h ∷ gs) ≡ nothing))
          ⊎ IsLeast (picks nothing (h ∷ gs)) (h ∷ gs)
    not_nothing (inl (f, (o, al))) = absurd (omega (arith, o, lt))
    not_nothing (inr (x, o)) = inr x

-- Get never panics if the slice has room for every parameter and the tree is timed, as Add leaves it:
-- it returns nothing if no key of the tree matches the path, and else the match that was registered
-- first.
pub store_get_first :
    {D : Type 0} (rx : Regexp) (top hi : ℕ) (s : Store D) (path : Bytes) (values : List Bytes)
    → HasCapacity top s
    → top ≤ length values
    → hi < max_int32
    → Timed hi s.root
    → Returns
        (λ r.
          ((matches rx s.root path ≡ []) × (r.0 ≡ nothing)) ⊎ IsLeast r.0 (matches rx s.root path))
        (store_get rx s path values)
unfolding store_get
store_get_first rx top hi s path values c le small t =
    Returns-mono _ _ (get rx s.root path values)
      (Returns-Ensures _ _ (get rx s.root path values) (store_get-Returns rx top s path values c le)
        (get-picks rx hi small s.root path values t))
      (λ r p. first_of r.0 (matches rx s.root path) p.1 (
        Late-mono 0 (info s.root).min_order _ (omega arith)
          (matches-Late rx hi small s.root path t)))
