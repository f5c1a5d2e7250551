-- ===== src/Routing/Store/Total.antt =====
-- `node.add` on a whole tree: it returns, except at a pattern that does not compile, given fuel for
-- the height of the tree, and the number that it returns bounds the parameters of what is new.
use wx.Common.{
  ℕ, zero, suc, ◌≤◌, ◌<◌, ◌≡◌, true, false, not, ◌||◌, Option, none, some, [], ◌∷◌, inl, inr, Bytes,
  Panics, Safe, Safe-mono, Bool-cases, ◌==◌, take, drop, ◌∙◌, length, get_elem?, get_elem?-lt,
  arith, refl, max, length-drop, length-take,
}
use wx.Routing.Store.Node.{
  Regexp, Info, Node, node, info, Kids, no_kids, kid, Nodes, no_nodes, height, height_kids,
  height_nodes,
}
use wx.Routing.Store.Add.{
  common, claim, add_child, add_kid, at_prefix, at_split, lower, upper, add_below, add,
}
use wx.Routing.Store.Below.{Added, Adds, after_kid_lem, add_below_lem}
use wx.Routing.Store.Bounds.{IsBounded, Bounded}
use wx.Routing.Store.Grow.{
  BoundedKids-mono, BoundedNodes-mono, IsBounded-mono, Grown, add_child_lem,
}

common-le : (k s : Bytes) → (common k s ≤ length k) × (common k s ≤ length s)
unfolding common
common-le [] s = omega arith
common-le (a ∷ k) [] = omega arith
common-le (a ∷ k) (b ∷ s) = ground (arith, common-le k s)

-- Where the common prefix ends, the two keys differ.
common_differ :
    (k s : Bytes) (a b : ℕ)
    → get_elem? (drop (common k s) k) 0 ≡ some a
    → get_elem? (drop (common k s) s) 0 ≡ some b
    → (a == b) ≡ false
unfolding common
common_differ [] s a b p q = cc
common_differ (x ∷ k) [] a b p q = cc
common_differ (x ∷ k) (y ∷ s) a b p q = elim (Bool-cases (x == y)) [
  | inl e ↦ common_differ k s a b (rw (e, common) at p) (rw (e, common) at q)
  | inr e ↦ ground (arith, rw (e, common) at p, rw (e, common) at q)
]

common-take : (k s : Bytes) → common (take (common k s) s) s ≡ common k s
unfolding common
common-take [] s = refl
common-take (x ∷ k) [] = refl
common-take (x ∷ k) (y ∷ s) = ground (arith, common-take k s)

height-pos : {D : Type 0} (n : Node D) → 0 < height n
unfolding height
height-pos (node i ks ps) = omega arith

module _ {D : Type 0} where
  claim_lem :
      (top : ℕ) (i : Info D) (d : D) (o : ℕ) (v : Option D)
      → IsBounded top i
      → IsBounded (max top i.arity) (claim i d o v)
  unfolding claim
  claim_lem top i d o none v = record {
    counted = v.counted;
    bounded = omega arith;
    indexed = v.indexed;
  }
  claim_lem top i d o (some x) v = IsBounded-mono (omega arith) v

  claim_static : (i : Info D) (d : D) (o : ℕ) (v : Option D) → (claim i d o v).static ≡ i.static
  unfolding claim
  claim_static i d o none = refl
  claim_static i d o (some x) = refl

  -- The node is the one that is looked for.
  claimed_lem :
      (top : ℕ) (i : Info D) (ks : Kids D) (ps : Nodes D) (d : D) (o : ℕ)
      → Bounded top (node i ks ps)
      → Added top (node i ks ps) (node (claim i d o i.value) ks ps, some i.arity)
  claimed_lem top i ks ps d o (v, x, y) = (
    (
      claim_lem top i d o i.value v,
      BoundedKids-mono ks top _ (omega arith) x,
      BoundedNodes-mono ps top _ (omega arith) y,
    ),
    λ e. claim_static i d o i.value ∙ e,
  )

module _ {D : Type 0} where
  -- What is asked of the recursive calls on the nodes of height `h` at most, and of `addChild` for
  -- keys shorter than `n`.
  abbrev AddsKey : ℕ → ℕ → (Node D → Bytes → Panics (Node D × Option ℕ)) → Type 0
  AddsKey top h rec = (k : Bytes) → Adds top h (λ c. rec c k)

  abbrev GrowsKey : ℕ → ℕ → (Node D → Bytes → Panics (Node D × ℕ)) → Type 0
  GrowsKey top n new =
      (m : Node D) (k : Bytes)
      → Bounded top m
      → 0 < length k
      → length k < n
      → Safe (Grown top (info m)) (new m k)

  at_prefix_lem :
      (top h n : ℕ) (rec : Node D → Bytes → Panics (Node D × Option ℕ))
      (new : Node D → Bytes → Panics (Node D × ℕ)) (i : Info D) (ks : Kids D) (ps : Nodes D)
      (key : Bytes) (d : D) (o : ℕ)
      → Bounded top (node i ks ps)
      → AddsKey top h rec
      → GrowsKey top n new
      → length key < n
      → height (node i ks ps) ≤ suc h
      → Safe (Added top (node i ks ps)) (at_prefix rec new i ks ps key d o)
  unfolding at_prefix height
  at_prefix_lem top h n rec new i ks ps [] d o v go grow lt le = claimed_lem top i ks ps d o v
  at_prefix_lem top h n rec new i ks ps (b ∷ s) d o (v, x, y) go grow lt le =
      add_below_lem top h (λ c. rec c (b ∷ s)) (λ m. new m (b ∷ s)) i ps (go (b ∷ s))
        (λ m w. grow m (b ∷ s) w (omega arith) lt) v y (omega arith) ks b x (omega arith)

  -- Below a split node no child is tried, since the keys differ behind the common prefix.
  at_prefix_apart :
      (top n a : ℕ) (rec : Node D → Bytes → Panics (Node D × Option ℕ))
      (new : Node D → Bytes → Panics (Node D × ℕ)) (i : Info D) (c : Node D) (key : Bytes) (d : D)
      (o : ℕ)
      → IsBounded top i
      → Bounded top c
      → GrowsKey top n new
      → length key < n
      → ((b : ℕ) → get_elem? key 0 ≡ some b → (a == b) ≡ false)
      → Safe
          (Added top (node i (kid a c no_kids) no_nodes))
          (at_prefix rec new i (kid a c no_kids) no_nodes key d o)
  unfolding at_prefix add_below add_kid height
  at_prefix_apart top n a rec new i c [] d o v w grow lt apart =
      claimed_lem top i (kid a c no_kids) no_nodes d o (v, (w, tt), tt)
  at_prefix_apart top n a rec new i c (b ∷ s) d o v w grow lt apart = rw (apart b refl) (
      after_kid_lem top 0 (λ m. rec m (b ∷ s)) (λ m. new m (b ∷ s)) i no_nodes
        (λ m x le. absurd (omega (arith, height-pos m))) (λ m z. grow m (b ∷ s) z (omega arith) lt)
        v tt (omega arith) (kid a c no_kids, none) (w, tt))

  upper_lem :
      (top m : ℕ) (i : Info D) (key : Bytes) → IsBounded top i → IsBounded top (upper i m key)
  upper_lem top m i key v = record { counted = v.counted; bounded = v.bounded; indexed = v.indexed }

  lower_lem : (top m : ℕ) (i : Info D) → IsBounded top i → IsBounded top (lower i m)
  lower_lem top m i v = record { counted = v.counted; bounded = v.bounded; indexed = λ e. cc }

module _ {D : Type 0} (rx : Regexp) where
  grow_lem : (top n : ℕ) (d : D) (o : ℕ) → GrowsKey top n (λ m k. add_child rx n m k d o)
  grow_lem top n d o m k v pos lt = add_child_lem rx n top m k d o v pos lt

  -- `add` to the upper half of a split node.
  split_lem :
      (fuel top a : ℕ) (i : Info D) (c : Node D) (key : Bytes) (d : D) (o : ℕ)
      → IsBounded top i
      → Bounded top c
      → get_elem? (drop (common i.key key) i.key) 0 ≡ some a
      → Safe (Added top (node (upper i (common i.key key) key) (kid a c no_kids) no_nodes)) (
          add rx
            (suc fuel)
            (node (upper i (common i.key key) key) (kid a c no_kids) no_nodes)
            key
            d
            o)
  unfolding add
  split_lem fuel top a i c key d o v w ea =
      let m = common i.key key in
      let le = (common-le i.key key).1 in
      let same_m : common (take m key) key ≡ m = common-take i.key key in
      let hit : (common (take m key) key == length (take m key)) ≡ true =
        ground (arith, same_m, length-take m key, le) in
      rw (hit, same_m)
        (at_prefix_apart top (suc (length key)) a (λ c' k. add rx fuel c' k d o)
          (λ n k. add_child rx (suc (length key)) n k d o) (upper i m key) c (drop m key) d o
          (upper_lem top m i key v) w (grow_lem top (suc (length key)) d o)
          (omega (arith, length-drop m key)) (λ b eb. common_differ i.key key a b ea eb))

  pub add_lem :
      (fuel top : ℕ) (n : Node D) (key : Bytes) (d : D) (o : ℕ)
      → Bounded top n
      → height n < fuel
      → Safe (Added top n) (add rx fuel n key d o)
  unfolding add at_split height
  add_lem zero top n key d o v lt = absurd (omega arith)
  add_lem (suc zero) top (node i ks ps) key d o v lt = absurd (omega arith)
  add_lem (suc (suc fuel)) top (node i ks ps) key d o (v, x, y) lt =
      let m = common i.key key in
      elim (Bool-cases (m == length i.key)) [
        | inl h ↦ rw h (
            at_prefix_lem top (max (height_kids ks) (height_nodes ps)) (suc (length key)) _ _ i ks
              ps (drop m key) d o (v, x, y)
              (λ k c w le. add_lem (suc fuel) top c k d o w (omega arith))
              (grow_lem top (suc (length key)) d o) (omega (arith, length-drop m key))
              (omega arith))
        | inr h ↦ elim (Bool-cases (m == 0 || not i.static)) [
          | inl h' ↦ rw (h, h') ((v, x, y), λ e. e)
          | inr h' ↦
              let (a, ea) =
                get_elem?-lt (drop m i.key) 0
                  (ground (arith, length-drop m i.key, common-le i.key key)) in
              let st : i.static ≡ true = ground arith in
              rw (h, h', ea)
                (Safe-mono
                  (Added top
                    (node (upper i m key) (kid a (node (lower i m) ks ps) no_kids) no_nodes))
                  (Added top (node i ks ps)) _
                  (split_lem fuel top a i (node (lower i m) ks ps) key d o v
                    (lower_lem top m i v, x, y) ea)
                  (λ r g. g))
        ]
      ]
