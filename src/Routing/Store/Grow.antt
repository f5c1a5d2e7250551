-- ===== src/Routing/Store/Grow.antt =====
-- `add` returns, except at a pattern that does not compile, and the number that it returns bounds
-- the parameters of the new nodes.
use wx.Common.{
  ℕ, zero, suc, ◌+◌, ◌≤◌, ◌<◌, ◌≡◌, false, Option, none, some, [], ◌∷◌, inl, inr, Bytes, Panics,
  Safe, Safe-bind, Safe-mono, Bool-cases, Option-cases, ◌==◌, take, drop, ◌∙◌, length, get_elem?-lt,
  arith, refl, ap, max, length-append, length-drop,
}
use wx.Routing.Store.Node.{
  Regexp, Info, Node, node, info, Kids, no_kids, kid, Nodes, no_nodes, more, put, push, slice,
  find_token,
}
use wx.Routing.Store.Add.{
  static_info, param_info, with_value, compiled, param_node, finish, add_child,
}
use wx.Routing.Store.Bounds.{IsBounded, Bounded, BoundedKids, BoundedNodes}

module _ {D : Type 0} where
  pub IsBounded-mono : {a b : ℕ} {i : Info D} → a ≤ b → IsBounded a i → IsBounded b i
  IsBounded-mono h v = record {
    counted = v.counted;
    bounded = omega (arith, v.bounded);
    indexed = v.indexed;
  }

  mutual
    Bounded-mono_lem : (n : Node D) (a b : ℕ) → a ≤ b → Bounded a n → Bounded b n
    Bounded-mono_lem (node i ks ps) a b h (x, y, z) =
        (IsBounded-mono h x, BoundedKids-mono ks a b h y, BoundedNodes-mono ps a b h z)

    pub BoundedKids-mono : (ks : Kids D) (a b : ℕ) → a ≤ b → BoundedKids a ks → BoundedKids b ks
    BoundedKids-mono no_kids a b h t = tt
    BoundedKids-mono (kid c n ks) a b h (x, y) =
        (Bounded-mono_lem n a b h x, BoundedKids-mono ks a b h y)

    pub BoundedNodes-mono : (ps : Nodes D) (a b : ℕ) → a ≤ b → BoundedNodes a ps → BoundedNodes b ps
    BoundedNodes-mono no_nodes a b h t = tt
    BoundedNodes-mono (more n ps) a b h (s, x, y) =
        (s, Bounded-mono_lem n a b h x, BoundedNodes-mono ps a b h y)

  pub Bounded-mono : {a b : ℕ} (n : Node D) → a ≤ b → Bounded a n → Bounded b n
  Bounded-mono {a} {b} n h k = Bounded-mono_lem n a b h k

  BoundedKids-put :
      (top b : ℕ) (c : Node D) (ks : Kids D)
      → Bounded top c
      → BoundedKids top ks
      → BoundedKids top (put b c ks)
  unfolding put
  BoundedKids-put top b c no_kids h k = (h, tt)
  BoundedKids-put top b c (kid a d ks) h (x, y) = elim (Bool-cases (a == b)) [
    | inl e ↦ rw e (h, y)
    | inr e ↦ rw e (x, BoundedKids-put top b c ks h y)
  ]

  BoundedNodes-push :
      (top : ℕ) (c : Node D) (ps : Nodes D)
      → (info c).static ≡ false
      → Bounded top c
      → BoundedNodes top ps
      → BoundedNodes top (push ps c)
  unfolding push
  BoundedNodes-push top c no_nodes s h k = (s, h, tt)
  BoundedNodes-push top c (more p ps) s h (a, x, y) = (a, x, BoundedNodes-push top c ps s h y)

find_token-lt :
    (s : Bytes) (i : ℕ) (p : Option ℕ) (a b : ℕ) → find_token i p s ≡ some (a, b) → b < i + length s
unfolding find_token
find_token-lt [] i p a b h = cc
find_token-lt (c ∷ s) i none a b h = omega (arith, find_token-lt s (i + 1) _ a b h)
find_token-lt (c ∷ s) i (some p) a b h = elim (Bool-cases (c == b'>')) [
  | inl e ↦ ground arith
  | inr e ↦ ground (arith, find_token-lt s (i + 1) (some p) a b)
]

module _ {D : Type 0} where
  -- The new node keeps the old information, and nothing in it exceeds the returned number.
  abbrev pub Grown : ℕ → Info D → Node D × ℕ → Type 0
  Grown top i r = Bounded (max top r.1) r.0 × (info r.0 ≡ i) × (i.arity ≤ r.1)

  -- A new parameter node below a node with information `i`.
  abbrev GrownParam : ℕ → Info D → Node D × ℕ → Type 0
  GrownParam top i r = Bounded (max top r.1) r.0 × ((info r.0).static ≡ false) × (i.arity ≤ r.1)

  finish_lem :
      (below : Node D → Bytes → Panics (Node D × ℕ)) (top : ℕ) (i c : Info D) (key : Bytes) (d : D)
      (o : ℕ)
      → IsBounded c.arity c
      → c.static ≡ false
      → i.arity ≤ c.arity
      → (0 < length key → Safe (Grown c.arity c) (below (node c no_kids no_nodes) key))
      → Safe (GrownParam top i) (finish below c key d o)
  unfolding finish
  finish_lem below top i c [] d o v s le rec =
      ((record { counted = v.counted; bounded = omega arith; indexed = v.indexed }, tt, tt), s, le)
  finish_lem below top i c (b ∷ k) d o v s le rec =
      Safe-mono (Grown c.arity c) (GrownParam top i) (below (node c no_kids no_nodes) (b ∷ k))
        (rec (omega arith))
        (λ r g. (
          Bounded-mono r.0 (omega (arith, g.2)) g.0,
          ap (λ j. j.static) g.1 ∙ s,
          omega (arith, g.2),
        ))

  -- What `below` must guarantee for keys shorter than `n`.
  abbrev GrowsBelow : ℕ → (Node D → Bytes → Panics (Node D × ℕ)) → Type 0
  GrowsBelow n below =
      (j : Info D) (k : Bytes)
      → IsBounded j.arity j
      → 0 < length k
      → length k < n
      → Safe (Grown j.arity j) (below (node j no_kids no_nodes) k)

  IsBounded-self : (top : ℕ) (i : Info D) → IsBounded top i → IsBounded i.arity i
  IsBounded-self top i v = record {
    counted = v.counted;
    bounded = omega arith;
    indexed = v.indexed;
  }

  -- A new static child is as bounded as its parent.
  static_lem :
      (top : ℕ) (i : Info D) (key : Bytes) (o : ℕ)
      → IsBounded top i
      → IsBounded top (static_info i key o)
  static_lem top i key o b = record { counted = b.counted; bounded = b.bounded; indexed = λ e. cc }

  static_lem_value :
      (top : ℕ) (i : Info D) (key : Bytes) (d : D) (o : ℕ)
      → IsBounded top i
      → IsBounded (max top i.arity) (with_value (static_info i key o) d o)
  static_lem_value top i key d o b = record {
    counted = b.counted;
    bounded = omega arith;
    indexed = λ e. cc;
  }

module _ {D : Type 0} (rx : Regexp) where
  param_node_lem :
      (below : Node D → Bytes → Panics (Node D × ℕ)) (top : ℕ) (i : Info D) (key : Bytes)
      (p0 p1 : ℕ) (d : D) (o : ℕ)
      → IsBounded top i
      → p1 < length key
      → GrowsBelow (length key) below
      → Safe (GrownParam top i) (param_node rx below i key p0 p1 d o)
  unfolding param_node
  param_node_lem below top i key p0 p1 d o b lt rec =
      let c = param_info i (slice p0 (p1 + 1) key) (slice (p0 + 1) p1 key) o in
      let v : IsBounded c.arity c = record {
        counted = refl;
        bounded = omega arith;
        indexed = λ e. omega (arith, length-append i.pnames);
      } in
      elim (Bool-cases (compiled rx c.regex)) [
        | inl e ↦ rw e (
            finish_lem below top i c (drop (p1 + 1) key) d o v refl
              (omega (arith, length-append i.pnames, b.counted))
              (λ h. rec c _ v h (omega (arith, length-drop (p1 + 1) key))))
        | inr e ↦ rw e tt
      ]

  pub add_child_lem :
      (fuel top : ℕ) (n : Node D) (key : Bytes) (d : D) (o : ℕ)
      → Bounded top n
      → 0 < length key
      → length key < fuel
      → Safe (Grown top (info n)) (add_child rx fuel n key d o)
  unfolding add_child
  add_child_lem zero top n key d o b pos lt = absurd (omega arith)
  add_child_lem (suc fuel) top (node i ks ps) key d o (bi, bk, bp) pos lt =
      let (a, ea) = get_elem?-lt key 0 pos in
      let rec : GrowsBelow (length key) (λ m k. add_child rx fuel m k d o) = λ j k v p l.
        add_child_lem fuel j.arity (node j no_kids no_nodes) k d o (v, tt, tt) p (omega arith) in
      elim (Option-cases (find_token 0 none key)) [
        | inl e ↦
            rw (e, ea, add_child)
              (
                (
                  IsBounded-mono (omega arith) bi,
                  BoundedKids-put _ a _ ks (static_lem_value top i key d o bi, tt, tt)
                      (BoundedKids-mono ks top _ (omega arith) bk),
                  BoundedNodes-mono ps top _ (omega arith) bp,
                ),
                refl,
                omega arith,
              )
        | inr ((zero, p1), e) ↦
            rw (e, add_child)
              (Safe-bind (GrownParam top i) (Grown top i) _ _
                (param_node_lem (λ m k. add_child rx fuel m k d o) top i key 0 p1 d o bi
                  (omega (arith, find_token-lt key 0 none 0 p1 e)) rec)
                (λ r g. (
                  (
                    IsBounded-mono (omega arith) bi,
                    BoundedKids-mono ks top _ (omega arith) bk,
                    BoundedNodes-push _ r.0 ps g.1 g.0
                        (BoundedNodes-mono ps top _ (omega arith) bp),
                  ),
                  refl,
                  g.2,
                )))
        | inr ((suc p, p1), e) ↦
            rw (e, ea, add_child)
              (Safe-bind (GrownParam top i) (Grown top i) _ _
                (param_node_lem (λ m k. add_child rx fuel m k d o) top
                  (static_info i (take (suc p) key) o) key (suc p) p1 d o
                  (static_lem top i (take (suc p) key) o bi)
                  (omega (arith, find_token-lt key 0 none (suc p) p1 e)) rec)
                (λ r g. (
                  (
                    IsBounded-mono (omega arith) bi,
                    BoundedKids-put _ a _ ks
                        (
                          IsBounded-mono (omega arith) (static_lem top i (take (suc p) key) o bi),
                          tt,
                          (g.1, g.0, tt),
                        )
                        (BoundedKids-mono ks top _ (omega arith) bk),
                    BoundedNodes-mono ps top _ (omega arith) bp,
                  ),
                  refl,
                  g.2,
                )))
      ]
