-- ===== src/Routing/Store/Added.antt =====
-- `store.Add` of fasthttp-routing/store.go keeps the order of registration.
use wx.Common.{
  ℕ, zero, suc, ◌+◌, ◌≤◌, not, ◌||◌, Option, none, some, [], ◌∷◌, Bytes, inl, inr, Panics, done,
  checked, checked-Ensures, Ensures, Ensures-bind, Ensures-if, Option-cases, ◌==◌, get_elem?, take,
  drop, length, arith, refl, sym, subst,
}
use wx.Routing.Store.Node.{
  Regexp, Info, Node, node, info, Kids, no_kids, kid, Nodes, no_nodes, more, find_token, height,
}
use wx.Routing.Store.Add.{
  common, static_info, param_node, add_child, add_kid, keep_trying, add_param, lower, upper,
  after_params, after_kid, add_below, at_prefix, at_split, add,
}
use wx.Routing.Store.Table.{Store, new_store, store_add}
use wx.Routing.Store.Least.{IsTimed, Timed, TimedKids, TimedNodes}
use wx.Routing.Store.Timely.{
  Timed-mono, put-Timed, push-Timed, Keeps, claim-Timed, with_value-Timed, fresh-Timed,
  param_node-Keeps,
}

module _ {D : Type 0} (rx : Regexp) (hi : ℕ) where
  add_child-Keeps :
      (fuel : ℕ) (n : Node D) (key : Bytes) (d : D)
      → Timed hi n
      → Ensures (λ r. Keeps hi (info n).min_order r.0) (add_child rx fuel n key d hi)
  unfolding add_child
  add_child-Keeps zero n key d t = tt
  add_child-Keeps (suc fuel) (node i ks ps) key d (t, tk, tp) =
      let K = λ (r : Node D × ℕ). Keeps hi i.min_order r.0 in
      let below = λ (m : Node D) (k : Bytes). add_child rx fuel m k d hi in
      let rec = λ (m : Node D) (k : Bytes) (tm : Timed hi m). add_child-Keeps fuel m k d tm in
      elim (Option-cases (find_token 0 none key)) [
        | inl e ↦
            rw (e, add_child)
              (Ensures-bind (λ (b : ℕ). Unit) K (checked (get_elem? key 0)) _
                (checked-Ensures (get_elem? key 0))
                (λ b u. (
                  (
                    t,
                    put-Timed hi i.min_order b _ ks t.begun
                        (with_value-Timed hi (static_info i key hi) d (omega arith), tt, tt) tk,
                    tp,
                  ),
                  refl,
                )))
        | inr ((zero, p1), e) ↦
            rw (e, add_child)
              (Ensures-bind (λ (r : Node D × ℕ). Keeps hi hi r.0) K
                (param_node rx below i key 0 p1 d hi) _
                (param_node-Keeps rx hi below i key 0 p1 d rec)
                (λ r k. (
                  (t, tk, push-Timed hi i.min_order ps r.0 (omega (arith, k.1, t.begun)) k.0 tp),
                  refl,
                )))
        | inr ((suc p, p1), e) ↦
            rw (e, add_child)
              (Ensures-bind (λ (b : ℕ). Unit) K (checked (get_elem? key 0)) _
                (checked-Ensures (get_elem? key 0))
                (λ b u.
                  let s = static_info i (take (suc p) key) hi in
                  Ensures-bind (λ (r : Node D × ℕ). Keeps hi hi r.0) K
                    (param_node rx below s key (suc p) p1 d hi) _
                    (param_node-Keeps rx hi below s key (suc p) p1 d rec)
                    (λ r k. (
                      (
                        t,
                        put-Timed hi i.min_order b (node s no_kids (more r.0 no_nodes)) ks t.begun
                            (fresh-Timed hi s (omega arith) refl, tt, (omega (arith, k.1), k.0, tt))
                            tk,
                        tp,
                      ),
                      refl,
                    ))))
      ]

module _ {D : Type 0} (hi : ℕ) where
  -- What `add` on a child keeps.
  abbrev KeepsEach : (Node D → Panics (Node D × Option ℕ)) → Type 0
  KeepsEach rec = (c : Node D) → Timed hi c → Ensures (λ r. Keeps hi (info c).min_order r.0) (rec c)

  add_kid-Keeps :
      (rec : Node D → Panics (Node D × Option ℕ)) (b lo : ℕ) (ks : Kids D)
      → KeepsEach rec
      → TimedKids hi lo ks
      → Ensures (λ r. TimedKids hi lo r.0) (add_kid rec b ks)
  unfolding add_kid
  add_kid-Keeps rec b lo no_kids k t = tt
  add_kid-Keeps rec b lo (kid a c ks) k (le, tc, tk) =
      let K = λ (r : Kids D × Option ℕ). TimedKids hi lo r.0 in
      Ensures-if K (a == b) _ _
        (Ensures-bind (λ (r : Node D × Option ℕ). Keeps hi (info c).min_order r.0) K (rec c)
          (λ r. done (kid a r.0 ks, r.1)) (k c tc) (λ r q. (omega (arith, q.1, le), q.0, tk)))
        (Ensures-bind K K (add_kid rec b ks) (λ r. done (kid a c r.0, r.1))
          (add_kid-Keeps rec b lo ks k tk) (λ r q. (le, tc, q)))

  keep_trying-Keeps :
      (lo : ℕ) (ps : Nodes D) (rest : Panics (Nodes D × Option ℕ)) (r : Node D × Option ℕ)
      → lo ≤ (info r.0).min_order
      → Timed hi r.0
      → TimedNodes hi lo ps
      → Ensures (λ q. TimedNodes hi lo q.0) rest
      → Ensures (λ q. TimedNodes hi lo q.0) (keep_trying ps rest r)
  unfolding keep_trying
  keep_trying-Keeps lo ps rest (c, some n) le t tp h = (le, t, tp)
  keep_trying-Keeps lo ps rest (c, none) le t tp h =
      Ensures-bind (λ (q : Nodes D × Option ℕ). TimedNodes hi lo q.0)
        (λ (q : Nodes D × Option ℕ). TimedNodes hi lo q.0) rest (λ q. done (more c q.0, q.1)) h
        (λ q u. (le, t, u))

  add_param-Keeps :
      (rec : Node D → Panics (Node D × Option ℕ)) (lo : ℕ) (ps : Nodes D)
      → KeepsEach rec
      → TimedNodes hi lo ps
      → Ensures (λ r. TimedNodes hi lo r.0) (add_param rec ps)
  unfolding add_param
  add_param-Keeps rec lo no_nodes k t = tt
  add_param-Keeps rec lo (more c ps) k (le, tc, tp) =
      Ensures-bind (λ (r : Node D × Option ℕ). Keeps hi (info c).min_order r.0)
        (λ (q : Nodes D × Option ℕ). TimedNodes hi lo q.0) (rec c)
        (keep_trying ps (add_param rec ps)) (k c tc)
        (λ r q.
          keep_trying-Keeps lo ps (add_param rec ps) r (omega (arith, q.1, le)) q.0 tp
            (add_param-Keeps rec lo ps k tp))

  -- What `addChild` keeps.
  abbrev KeepsNew : (Node D → Panics (Node D × ℕ)) → Type 0
  KeepsNew new = (n : Node D) → Timed hi n → Ensures (λ r. Keeps hi (info n).min_order r.0) (new n)

  after_params-Keeps :
      (new : Node D → Panics (Node D × ℕ)) (i : Info D) (ks : Kids D) (r : Nodes D × Option ℕ)
      → KeepsNew new
      → IsTimed hi i
      → TimedKids hi i.min_order ks
      → TimedNodes hi i.min_order r.0
      → Ensures (λ q. Keeps hi i.min_order q.0) (after_params new i ks r)
  unfolding after_params
  after_params-Keeps new i ks (ps, some n) k t tk tp = ((t, tk, tp), refl)
  after_params-Keeps new i ks (ps, none) k t tk tp =
      Ensures-bind (λ (r : Node D × ℕ). Keeps hi i.min_order r.0)
        (λ (q : Node D × Option ℕ). Keeps hi i.min_order q.0) (new (node i ks ps))
        (λ r. done (r.0, some r.1)) (k (node i ks ps) (t, tk, tp)) (λ r u. u)

  after_kid-Keeps :
      (rec : Node D → Panics (Node D × Option ℕ)) (new : Node D → Panics (Node D × ℕ)) (i : Info D)
      (ps : Nodes D) (r : Kids D × Option ℕ)
      → KeepsEach rec
      → KeepsNew new
      → IsTimed hi i
      → TimedNodes hi i.min_order ps
      → TimedKids hi i.min_order r.0
      → Ensures (λ q. Keeps hi i.min_order q.0) (after_kid rec new i ps r)
  unfolding after_kid
  after_kid-Keeps rec new i ps (ks, some n) k kn t tp tk = ((t, tk, tp), refl)
  after_kid-Keeps rec new i ps (ks, none) k kn t tp tk =
      Ensures-bind (λ (r : Nodes D × Option ℕ). TimedNodes hi i.min_order r.0)
        (λ (q : Node D × Option ℕ). Keeps hi i.min_order q.0) (add_param rec ps)
        (after_params new i ks) (add_param-Keeps rec i.min_order ps k tp)
        (λ r u. after_params-Keeps new i ks r kn t tk u)

  at_prefix-Keeps :
      (rec : Node D → Bytes → Panics (Node D × Option ℕ))
      (new : Node D → Bytes → Panics (Node D × ℕ)) (i : Info D) (ks : Kids D) (ps : Nodes D)
      (key : Bytes) (d : D)
      → ((k : Bytes) → KeepsEach (λ c. rec c k))
      → ((k : Bytes) → KeepsNew (λ c. new c k))
      → Timed hi (node i ks ps)
      → Ensures (λ q. Keeps hi i.min_order q.0) (at_prefix rec new i ks ps key d hi)
  unfolding at_prefix add_below
  at_prefix-Keeps rec new i ks ps [] d k kn (t, tk, tp) =
      let c = claim-Timed hi i d i.value t in
      (
        (
          c.0,
          subst (λ m. TimedKids hi m ks) (sym c.1) tk,
          subst (λ m. TimedNodes hi m ps) (sym c.1) tp,
        ),
        c.1,
      )
  at_prefix-Keeps rec new i ks ps (b ∷ s) d k kn (t, tk, tp) =
      Ensures-bind (λ (r : Kids D × Option ℕ). TimedKids hi i.min_order r.0)
        (λ (q : Node D × Option ℕ). Keeps hi i.min_order q.0) (add_kid (λ c. rec c (b ∷ s)) b ks)
        (after_kid (λ c. rec c (b ∷ s)) (λ n. new n (b ∷ s)) i ps)
        (add_kid-Keeps (λ c. rec c (b ∷ s)) b i.min_order ks (k (b ∷ s)) tk)
        (λ r u.
          after_kid-Keeps (λ c. rec c (b ∷ s)) (λ n. new n (b ∷ s)) i ps r (k (b ∷ s)) (kn (b ∷ s))
            t tp u)

  at_split-Keeps :
      (rec : Node D → Bytes → Panics (Node D × Option ℕ)) (i : Info D) (ks : Kids D) (ps : Nodes D)
      (key : Bytes) (m : ℕ)
      → ((k : Bytes) → KeepsEach (λ c. rec c k))
      → Timed hi (node i ks ps)
      → Ensures (λ q. Keeps hi i.min_order q.0) (at_split rec i ks ps key m)
  unfolding at_split
  at_split-Keeps rec i ks ps key m k (t, tk, tp) =
      Ensures-bind (λ (b : ℕ). Unit) (λ (q : Node D × Option ℕ). Keeps hi i.min_order q.0)
        (checked (get_elem? (drop m i.key) 0))
        (λ b. rec (node (upper i m key) (kid b (node (lower i m) ks ps) no_kids) no_nodes) key)
        (checked-Ensures (get_elem? (drop m i.key) 0))
        (λ b u. k key (node (upper i m key) (kid b (node (lower i m) ks ps) no_kids) no_nodes) (
          fresh-Timed hi (upper i m key) t.begun refl,
          (omega arith, (record { begun = t.begun; least = t.least; known = t.known }, tk, tp), tt),
          tt,
        ))

module _ {D : Type 0} (rx : Regexp) (hi : ℕ) where
  add-Keeps :
      (fuel : ℕ) (n : Node D) (key : Bytes) (d : D)
      → Timed hi n
      → Ensures (λ r. Keeps hi (info n).min_order r.0) (add rx fuel n key d hi)
  unfolding add
  add-Keeps zero n key d t = tt
  add-Keeps (suc fuel) (node i ks ps) key d t =
      let K = λ (q : Node D × Option ℕ). Keeps hi i.min_order q.0 in
      let rec = λ (k : Bytes) (c : Node D) (tc : Timed hi c). add-Keeps fuel c k d tc in
      Ensures-if K (common i.key key == length i.key) _ _
        (at_prefix-Keeps hi _ _ i ks ps (drop (common i.key key) key) d rec
          (λ k c tc. add_child-Keeps rx hi (suc (length key)) c k d tc) t)
        (Ensures-if K (common i.key key == 0 || not i.static) _ _ (t, refl)
          (at_split-Keeps hi _ i ks ps key (common i.key key) rec t))

-- No node and no data of the tree is later than the number of keys, and none earlier than what it
-- stands below.
abbrev pub IsOrdered : {D : Type 0} → Store D → Type 0
IsOrdered s = Timed s.count s.root

-- Add keeps a store ordered for every key, whenever it returns: no node and no data of the tree is
-- later than the number of keys, and none earlier than what it stands below.
pub store_add-IsOrdered :
    {D : Type 0} (rx : Regexp) (s : Store D) (key : Bytes) (d : D)
    → IsOrdered s
    → Ensures (λ r. IsOrdered r.0) (store_add rx s key d)
unfolding store_add
store_add-IsOrdered {D} rx s key d t =
    Ensures-bind (λ (r : Node D × Option ℕ). Keeps (s.count + 1) (info s.root).min_order r.0)
      (λ (r : Store D × Option ℕ). IsOrdered r.0) _
      (λ r. done (record { root = r.0; count = s.count + 1 }, r.1))
      (add-Keeps rx (s.count + 1) (suc (suc (height s.root))) s.root key d
        (Timed-mono s.count (s.count + 1) s.root (omega arith) t))
      (λ r k. k.0)

pub new_store-IsOrdered : {D : Type 0} → IsOrdered (new_store {D = D})
new_store-IsOrdered = (record { begun = omega arith; least = inl refl; known = inl refl }, tt, tt)
