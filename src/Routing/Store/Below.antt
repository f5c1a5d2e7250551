-- ===== src/Routing/Store/Below.antt =====
-- `node.add` below a node: the child of the first byte, the parameter children, and a new child.
use wx.Common.{
  ℕ, ◌≤◌, ◌≡◌, false, Option, none, some, inl, inr, Panics, Safe, Safe-bind, Bool-cases, ◌==◌, ◌∙◌,
  arith, ap, max,
}
use wx.Routing.Store.Node.{
  Info, Node, node, info, Kids, no_kids, kid, Nodes, no_nodes, more, height, height_kids,
  height_nodes,
}
use wx.Routing.Store.Add.{add_kid, add_param, keep_trying, after_params, after_kid, add_below}
use wx.Routing.Store.Bounds.{IsBounded, Bounded, BoundedKids, BoundedNodes}
use wx.Routing.Store.Grow.{Bounded-mono, BoundedKids-mono, BoundedNodes-mono, IsBounded-mono, Grown}

-- The bound that holds after a result of `add`: the old one if the node was skipped.
abbrev pub after : ℕ → Option ℕ → ℕ
after top none = top
after top (some k) = max top k

pub after-le : (top : ℕ) (r : Option ℕ) → top ≤ after top r
after-le top none = omega arith
after-le top (some k) = omega arith

module _ {D : Type 0} where
  -- What an `add` to `n` gives: a bounded node, of the same kind if it was a parameter node.
  abbrev pub Added : ℕ → Node D → Node D × Option ℕ → Type 0
  Added top n r =
      Bounded (after top r.1) r.0 × ((info n).static ≡ false → (info r.0).static ≡ false)

  -- What is asked of the recursive call on the nodes of height `h` at most.
  abbrev pub Adds : ℕ → ℕ → (Node D → Panics (Node D × Option ℕ)) → Type 0
  Adds top h rec = (c : Node D) → Bounded top c → height c ≤ h → Safe (Added top c) (rec c)

  add_kid_lem :
      (top h : ℕ) (rec : Node D → Panics (Node D × Option ℕ)) (b : ℕ) (ks : Kids D)
      → Adds top h rec
      → BoundedKids top ks
      → height_kids ks ≤ h
      → Safe (λ r. BoundedKids (after top r.1) r.0) (add_kid rec b ks)
  unfolding add_kid height
  add_kid_lem top h rec b no_kids go v le = tt
  add_kid_lem top h rec b (kid a c ks) go (x, y) le = elim (Bool-cases (a == b)) [
    | inl e ↦ rw e (
        Safe-bind (Added top c) _ (rec c) _ (go c x (omega arith))
          (λ r g. (g.0, BoundedKids-mono ks top _ (after-le top r.1) y)))
    | inr e ↦ rw e (
        Safe-bind (λ r. BoundedKids (after top r.1) r.0) _ (add_kid rec b ks) _
          (add_kid_lem top h rec b ks go y (omega arith))
          (λ r g. (Bounded-mono c (after-le top r.1) x, g)))
  ]

  keep_trying_lem :
      (top : ℕ) (c : Node D) (ps : Nodes D) (rest : Panics (Nodes D × Option ℕ))
      (r : Node D × Option ℕ)
      → (info c).static ≡ false
      → BoundedNodes top ps
      → Safe (λ q. BoundedNodes (after top q.1) q.0) rest
      → Added top c r
      → Safe (λ q. BoundedNodes (after top q.1) q.0) (keep_trying ps rest r)
  unfolding keep_trying
  keep_trying_lem top c ps rest (c', some n) s y h g =
      (g.1 s, g.0, BoundedNodes-mono ps top _ (omega arith) y)
  keep_trying_lem top c ps rest (c', none) s y h g =
      Safe-bind (λ q. BoundedNodes (after top q.1) q.0) _ rest _ h
        (λ q k. (g.1 s, Bounded-mono c' (after-le top q.1) g.0, k))

  add_param_lem :
      (top h : ℕ) (rec : Node D → Panics (Node D × Option ℕ)) (ps : Nodes D)
      → Adds top h rec
      → BoundedNodes top ps
      → height_nodes ps ≤ h
      → Safe (λ r. BoundedNodes (after top r.1) r.0) (add_param rec ps)
  unfolding add_param height
  add_param_lem top h rec no_nodes go v le = tt
  add_param_lem top h rec (more c ps) go (s, x, y) le =
      Safe-bind (Added top c) _ (rec c) _ (go c x (omega arith)) (λ r g.
        keep_trying_lem top c ps (add_param rec ps) r s y
          (add_param_lem top h rec ps go y (omega arith)) g)

  after_params_lem :
      (top : ℕ) (new : Node D → Panics (Node D × ℕ)) (i : Info D) (ks : Kids D)
      (q : Nodes D × Option ℕ)
      → IsBounded top i
      → BoundedKids top ks
      → ((n : Node D) → Bounded top n → Safe (Grown top (info n)) (new n))
      → BoundedNodes (after top q.1) q.0
      → Safe (Added top (node i ks q.0)) (after_params new i ks q)
  unfolding after_params
  after_params_lem top new i ks (ps, some n) v x grow y =
      ((IsBounded-mono (omega arith) v, BoundedKids-mono ks top _ (omega arith) x, y), λ e. e)
  after_params_lem top new i ks (ps, none) v x grow y =
      Safe-bind (Grown top i) _ (new (node i ks ps)) _ (grow (node i ks ps) (v, x, y))
        (λ t g. (g.0, λ e. ap (λ j. j.static) g.1 ∙ e))

  module _ (top h : ℕ) (rec : Node D → Panics (Node D × Option ℕ))
      (new : Node D → Panics (Node D × ℕ)) (i : Info D) (ps : Nodes D) (go : Adds top h rec)
      (grow : (n : Node D) → Bounded top n → Safe (Grown top (info n)) (new n))
      (v : IsBounded top i) (y : BoundedNodes top ps) (le : height_nodes ps ≤ h) where
    pub after_kid_lem :
        (q : Kids D × Option ℕ)
        → BoundedKids (after top q.1) q.0
        → Safe (Added top (node i q.0 ps)) (after_kid rec new i ps q)
    unfolding after_kid
    after_kid_lem (ks, some n) x =
        ((IsBounded-mono (omega arith) v, x, BoundedNodes-mono ps top _ (omega arith) y), λ e. e)
    after_kid_lem (ks, none) x =
        Safe-bind (λ q. BoundedNodes (after top q.1) q.0) _ (add_param rec ps) _
          (add_param_lem top h rec ps go y le) (λ q g. after_params_lem top new i ks q v x grow g)

    pub add_below_lem :
        (ks : Kids D) (b : ℕ)
        → BoundedKids top ks
        → height_kids ks ≤ h
        → Safe (Added top (node i ks ps)) (add_below rec new i ks ps b)
    unfolding add_below
    add_below_lem ks b x hk =
        Safe-bind (λ r. BoundedKids (after top r.1) r.0) _ (add_kid rec b ks) _
          (add_kid_lem top h rec b ks go x hk) (λ q g. after_kid_lem q g)
