-- ===== src/Routing/Store/Timely.antt =====
-- `node.add` of fasthttp-routing/store.go keeps the order of registration: a node is never later than
-- what stands below it.
use wx.Common.{
  ℕ, ◌+◌, ◌≤◌, ◌≡◌, Option, none, some, [], ◌∷◌, Bytes, inl, inr, Panics, panic, bad_pattern,
  Ensures, Ensures-if, Bool-cases, ◌==◌, drop, arith, refl,
}
use wx.Routing.Store.Node.{
  Regexp, Info, Node, node, info, Kids, no_kids, kid, Nodes, no_nodes, more, put, push, slice,
}
use wx.Routing.Store.Add.{param_info, with_value, claim, finish, param_node}
use wx.Routing.Store.Least.{IsTimed, Timed, TimedKids, TimedNodes}

module _ {D : Type 0} where
  IsTimed-mono : (a b : ℕ) (i : Info D) → a ≤ b → IsTimed a i → IsTimed b i
  IsTimed-mono a b i h t = ground arith

  mutual
    pub Timed-mono : (a b : ℕ) (t : Node D) → a ≤ b → Timed a t → Timed b t
    Timed-mono a b (node i ks ps) h (t, k, p) = (
      IsTimed-mono a b i h t,
      TimedKids-mono a b i.min_order ks h k,
      TimedNodes-mono a b i.min_order ps h p,
    )

    TimedKids-mono : (a b lo : ℕ) (ks : Kids D) → a ≤ b → TimedKids a lo ks → TimedKids b lo ks
    TimedKids-mono a b lo no_kids h k = tt
    TimedKids-mono a b lo (kid x c ks) h (le, t, k) =
        (le, Timed-mono a b c h t, TimedKids-mono a b lo ks h k)

    TimedNodes-mono : (a b lo : ℕ) (ps : Nodes D) → a ≤ b → TimedNodes a lo ps → TimedNodes b lo ps
    TimedNodes-mono a b lo no_nodes h k = tt
    TimedNodes-mono a b lo (more c ps) h (le, t, k) =
        (le, Timed-mono a b c h t, TimedNodes-mono a b lo ps h k)

  pub put-Timed :
      (hi lo b : ℕ) (c : Node D) (ks : Kids D)
      → lo ≤ (info c).min_order
      → Timed hi c
      → TimedKids hi lo ks
      → TimedKids hi lo (put b c ks)
  unfolding put
  put-Timed hi lo b c no_kids le t k = (le, t, tt)
  put-Timed hi lo b c (kid a d ks) le t (ld, td, k) = elim (Bool-cases (a == b)) [
    | inl e ↦ rw e (le, t, k)
    | inr e ↦ rw e (ld, td, put-Timed hi lo b c ks le t k)
  ]

  pub push-Timed :
      (hi lo : ℕ) (ps : Nodes D) (c : Node D)
      → lo ≤ (info c).min_order
      → Timed hi c
      → TimedNodes hi lo ps
      → TimedNodes hi lo (push ps c)
  unfolding push
  push-Timed hi lo no_nodes c le t k = (le, t, tt)
  push-Timed hi lo (more p ps) c le t (lp, tp, k) = (lp, tp, push-Timed hi lo ps c le t k)

  -- The changed node is timed, and as early as before.
  abbrev pub Keeps : ℕ → ℕ → Node D → Type 0
  Keeps hi m t = Timed hi t × ((info t).min_order ≡ m)

  pub claim-Timed :
      (hi : ℕ) (i : Info D) (d : D) (o : Option D)
      → IsTimed hi i
      → IsTimed hi (claim i d hi o) × ((claim i d hi o).min_order ≡ i.min_order)
  unfolding claim
  claim-Timed hi i d none t =
      ((record { begun = t.begun; least = inr t.begun; known = inr (omega arith) }), refl)
  claim-Timed hi i d (some e) t = (t, refl)

  -- New information with no data is timed.
  pub fresh-Timed : (hi : ℕ) (i : Info D) → i.min_order ≤ hi → i.value ≡ none → IsTimed hi i
  fresh-Timed hi i h e = record { begun = h; least = inl e; known = inl e }

  pub with_value-Timed :
      (hi : ℕ) (i : Info D) (d : D) → i.min_order ≤ hi → IsTimed hi (with_value i d hi)
  with_value-Timed hi i d h = record { begun = h; least = inr h; known = inr (omega arith) }

  finish-Keeps :
      (hi : ℕ) (below : Node D → Bytes → Panics (Node D × ℕ)) (c : Info D) (key : Bytes) (d : D)
      → c.min_order ≤ hi
      → c.value ≡ none
      → ((m : Node D) (k : Bytes)
          → Timed hi m
          → Ensures (λ r. Keeps hi (info m).min_order r.0) (below m k))
      → Ensures (λ r. Keeps hi c.min_order r.0) (finish below c key d hi)
  unfolding finish
  finish-Keeps hi below c [] d h e rec = ((with_value-Timed hi c d h, tt, tt), refl)
  finish-Keeps hi below c (b ∷ s) d h e rec =
      rec (node c no_kids no_nodes) (b ∷ s) (fresh-Timed hi c h e, tt, tt)

  pub param_node-Keeps :
      (rx : Regexp) (hi : ℕ) (below : Node D → Bytes → Panics (Node D × ℕ)) (i : Info D)
      (key : Bytes) (p0 p1 : ℕ) (d : D)
      → ((m : Node D) (k : Bytes)
          → Timed hi m
          → Ensures (λ r. Keeps hi (info m).min_order r.0) (below m k))
      → Ensures (λ r. Keeps hi hi r.0) (param_node rx below i key p0 p1 d hi)
  unfolding param_node
  param_node-Keeps rx hi below i key p0 p1 d rec =
      Ensures-if (λ (r : Node D × ℕ). Keeps hi hi r.0) _ _ (panic bad_pattern)
        (finish-Keeps hi below (param_info i (slice p0 (p1 + 1) key) (slice (p0 + 1) p1 key) hi)
          (drop (p1 + 1) key) d (omega arith) refl rec)
        tt
