-- ===== src/Routing/Store/Least.antt =====
-- What `node.get` of fasthttp-routing/store.go returns: the first registered of all data whose keys
-- match. The reference collects every match of the tree, with no order to skip by.
use wx.Common.{
  ℕ, suc, ◌≤◌, ◌<◌, ◌≡◌, ◌⊎◌, true, none, some, List, [], ◌∷◌, ◌++◌, Bytes, inl, inr, Bool-cases,
  Option-cases, ltb, ◌==◌, if◌then◌else◌, All, All-append, drop, get_elem?, arith, refl, sym, subst,
}
use wx.Routing.Store.Node.{
  Regexp, Info, Node, node, info, Kids, no_kids, kid, Nodes, no_nodes, more,
}
use wx.Routing.Store.Get.{Found, nothing, max_int32, is_some, better, takes}

module _ {D : Type 0} where
  -- Of two results the later one is taken if it is better.
  abbrev pub pick : Found D → Found D → Found D
  pick l g = if better g l then g else l

  abbrev pub picks : Found D → List (Found D) → Found D
  picks l [] = l
  picks l (g ∷ gs) = picks (pick l g) gs

  -- The node's own data, if it has any.
  abbrev pub own : Info D → List (Found D)
  own i = elim i.value [
    | none ↦ []
    | some d ↦ record { value = some d; pnames = i.pnames; order = i.order } ∷ []
  ]

  abbrev pub matches_at : (ℕ → Bytes → List (Found D)) → Info D → Bytes → List (Found D)
  matches_at kids i [] = own i
  matches_at kids i (b ∷ s) = kids b (b ∷ s)

module _ {D : Type 0} (rx : Regexp) where
  -- Every data item whose key matches, in the order of the tree.
  unfoldable mutual
    pub matches : Node D → Bytes → List (Found D)
    matches (node i ks ps) key = elim (takes rx i key) [
      | none ↦ []
      | some n ↦ matches_at (matches_kid ks) i (drop n key) ++ matches_params ps (drop n key)
    ]

    pub matches_kid : Kids D → ℕ → Bytes → List (Found D)
    matches_kid no_kids b key = []
    matches_kid (kid a c ks) b key =
        let this = matches c key in
        let later = matches_kid ks b key in if a == b then this else later

    pub matches_params : Nodes D → Bytes → List (Found D)
    matches_params no_nodes key = []
    matches_params (more c ps) key = matches c key ++ matches_params ps key

module _ {D : Type 0} where
  -- The node and its data are no later than `hi`, and the data are no earlier than the node.
  pub record IsTimed (hi : ℕ) (i : Info D) : Type 0 where
    pub begun : i.min_order ≤ hi
    pub least : (i.value ≡ none) ⊎ (i.min_order ≤ i.order)
    pub known : (i.value ≡ none) ⊎ (i.order ≤ hi)

  -- No node is earlier than the one above it.
  abbrev mutual
    pub Timed : ℕ → Node D → Type 0
    Timed hi (node i ks ps) =
        IsTimed hi i × TimedKids hi i.min_order ks × TimedNodes hi i.min_order ps

    pub TimedKids : ℕ → ℕ → Kids D → Type 0
    TimedKids hi lo no_kids = Unit
    TimedKids hi lo (kid b c ks) = (lo ≤ (info c).min_order) × Timed hi c × TimedKids hi lo ks

    pub TimedNodes : ℕ → ℕ → Nodes D → Type 0
    TimedNodes hi lo no_nodes = Unit
    TimedNodes hi lo (more c ps) = (lo ≤ (info c).min_order) × Timed hi c × TimedNodes hi lo ps

  -- A match is data, with an order in its range.
  abbrev pub Late : ℕ → Found D → Type 0
  Late lo g = (lo ≤ g.order) × (g.order < max_int32) × (is_some g.value ≡ true)

  pick-pick :
      (l m g : Found D)
      → (m.value ≡ none → m.order ≡ max_int32)
      → g.order < max_int32
      → pick (pick l m) g ≡ pick l (pick m g)
  pick-pick l m g h k = ground arith

  pub Late-mono : (a b : ℕ) (gs : List (Found D)) → a ≤ b → All (Late b) gs → All (Late a) gs
  Late-mono a b [] h k = tt
  Late-mono a b (g ∷ gs) h ((le, lt, v), k) = ((omega (arith, h, le), lt, v), Late-mono a b gs h k)

  pub picks-append :
      (l : Found D) (xs ys : List (Found D)) → picks l (xs ++ ys) ≡ picks (picks l xs) ys
  picks-append l [] ys = refl
  picks-append l (x ∷ xs) ys = picks-append (pick l x) xs ys

  -- Later matches change nothing.
  pub picks-Late :
      (l : Found D) (lo : ℕ) (gs : List (Found D))
      → l.order ≤ lo
      → All (Late lo) gs
      → picks l gs ≡ l
  picks-Late l lo [] h k = refl
  picks-Late l lo (g ∷ gs) h ((le, lt, v), k) =
      let same : pick l g ≡ l = ground arith in rw same (picks-Late l lo gs h k)

  matches_at-Late :
      (kids : ℕ → Bytes → List (Found D)) (i : Info D) (s : Bytes)
      → All (Late i.min_order) (own i)
      → ((b : ℕ) (u : Bytes) → All (Late i.min_order) (kids b u))
      → All (Late i.min_order) (matches_at kids i s)
  matches_at-Late kids i [] h k = h
  matches_at-Late kids i (b ∷ u) h k = k b (b ∷ u)

  pick_cases :
      (l g : Found D)
      → is_some g.value ≡ true
      → ((pick l g ≡ g) × (g.order ≤ l.order)) ⊎ ((pick l g ≡ l) × (l.order ≤ g.order))
  pick_cases l g v = elim (Bool-cases (ltb g.order l.order)) [
    | inl e ↦ inl (rw (v, e) refl, ground arith)
    | inr e ↦ inr (rw (v, e) refl, ground arith)
  ]

  -- One of the matches, and none of them is earlier.
  abbrev pub IsLeast : Found D → List (Found D) → Type 0
  IsLeast g gs = ((i : ℕ) × (get_elem? gs i ≡ some g)) × All (λ h. g.order ≤ h.order) gs

  -- `p` is `l`, which no match is earlier than, or the first of the matches.
  abbrev pub Chosen : Found D → List (Found D) → Found D → Type 0
  Chosen l gs p = ((p ≡ l) × All (λ g. l.order ≤ g.order) gs) ⊎ (IsLeast p gs × (p.order ≤ l.order))

  Chosen-new :
      (l g p : Found D) (gs : List (Found D))
      → g.order ≤ l.order
      → Chosen g gs p
      → Chosen l (g ∷ gs) p
  Chosen-new l g p gs o (inl (f, al)) =
      subst (Chosen l (g ∷ gs)) (sym f) (inr (((0, refl), (omega arith, al)), o))
  Chosen-new l g p gs o (inr (((i, m), al), u)) = inr (((suc i, m), (u, al)), omega (arith, u, o))

  Chosen-old :
      (l g p : Found D) (gs : List (Found D))
      → l.order ≤ g.order
      → Chosen l gs p
      → Chosen l (g ∷ gs) p
  Chosen-old l g p gs o (inl (f, al)) = inl (f, (o, al))
  Chosen-old l g p gs o (inr (((i, m), al), u)) = inr (((suc i, m), (omega (arith, u, o), al)), u)

  pub picks-Chosen :
      (l : Found D) (gs : List (Found D)) → All (Late 0) gs → Chosen l gs (picks l gs)
  picks-Chosen l [] k = inl (refl, tt)
  picks-Chosen l (g ∷ gs) ((le, lt, v), k) = elim (pick_cases l g v) [
    | inl (e, o) ↦
        subst (λ z. Chosen l (g ∷ gs) (picks z gs)) (sym e)
          (Chosen-new l g (picks g gs) gs o (picks-Chosen g gs k))
    | inr (e, o) ↦
        subst (λ z. Chosen l (g ∷ gs) (picks z gs)) (sym e)
          (Chosen-old l g (picks l gs) gs o (picks-Chosen l gs k))
  ]

  -- Picking from what has been found so far is picking from the best of the rest.
  picks-pick :
      (l m : Found D) (gs : List (Found D))
      → (m.value ≡ none → m.order ≡ max_int32)
      → All (Late 0) gs
      → picks (pick l m) gs ≡ pick l (picks m gs)
  picks-pick l m [] h k = refl
  picks-pick l m (g ∷ gs) h ((le, lt, v), k) =
      rw (pick-pick l m g h lt) (picks-pick l (pick m g) gs (λ e. ground (arith, h)) k)

  pub picks_from :
      (l : Found D) (gs : List (Found D)) → All (Late 0) gs → picks l gs ≡ pick l (picks nothing gs)
  picks_from l gs k = picks-pick l nothing gs (λ e. refl) k

  pub own-Late :
      (hi : ℕ) (i : Info D) → hi < max_int32 → IsTimed hi i → All (Late i.min_order) (own i)
  own-Late hi i h t = elim (Option-cases i.value) [
    | inl e ↦ rw (e, own) tt
    | inr (d, e) ↦ rw (e, own) ((ground arith, ground arith, refl), tt)
  ]

module _ {D : Type 0} (rx : Regexp) (hi : ℕ) (small : hi < max_int32) where
  mutual
    unfolding matches

    pub matches-Late :
        (t : Node D) (key : Bytes) → Timed hi t → All (Late (info t).min_order) (matches rx t key)
    matches-Late (node i ks ps) key (t, tk, tp) = elim (Option-cases (takes rx i key)) [
      | inl e ↦ rw (e, All) tt
      | inr (n, e) ↦
          rw (e, All)
            (All-append (Late i.min_order) _ _
              (matches_at-Late _ i (drop n key) (own-Late hi i small t)
                (λ b s. matches_kid-Late i.min_order ks b s tk))
              (matches_params-Late i.min_order ps (drop n key) tp))
    ]

    pub matches_kid-Late :
        (lo : ℕ) (ks : Kids D) (b : ℕ) (key : Bytes)
        → TimedKids hi lo ks
        → All (Late lo) (matches_kid rx ks b key)
    matches_kid-Late lo no_kids b key t = tt
    matches_kid-Late lo (kid a c ks) b key (le, tc, tk) = elim (Bool-cases (a == b)) [
      | inl e ↦ rw e (Late-mono lo (info c).min_order _ le (matches-Late c key tc))
      | inr e ↦ rw e (matches_kid-Late lo ks b key tk)
    ]

    pub matches_params-Late :
        (lo : ℕ) (ps : Nodes D) (key : Bytes)
        → TimedNodes hi lo ps
        → All (Late lo) (matches_params rx ps key)
    matches_params-Late lo no_nodes key t = tt
    matches_params-Late lo (more c ps) key (le, tc, tp) =
        All-append (Late lo) _ _ (Late-mono lo (info c).min_order _ le (matches-Late c key tc))
          (matches_params-Late lo ps key tp)
