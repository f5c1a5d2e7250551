-- ===== src/Routing/Store/Add.antt =====
-- `node.add` and `node.addChild` of fasthttp-routing/store.go. A node is passed in and the changed
-- node is returned; the source's -1 (skip this node) is `none`. The recursion runs on fuel, and a
-- panic is either one of the source's or the end of the fuel; Store/Total shows that neither occurs.
use wx.Common.{
  ℕ, zero, suc, ◌+◌, Bool, true, false, not, ◌||◌, Option, none, some, [], ◌∷◌, ◌++◌, Bytes, Panics,
  panic, bad_pattern, out_of_fuel, done, ◌>>=◌, checked, ◌==◌, if◌then◌else◌, length, get_elem?,
  take, drop,
}
use wx.Routing.Store.Node.{
  Regexp, Info, Node, node, Kids, no_kids, kid, Nodes, no_nodes, more, put, push, find_token,
  name_pattern, slice,
}

-- The length of the common prefix of the node's key and the key that is added.
unfoldable pub common : Bytes → Bytes → ℕ
common [] s = 0
common (a ∷ k) [] = 0
common (a ∷ k) (b ∷ s) = if a == b then suc (common k s) else 0

-- `regexp.MustCompile`
abbrev pub compiled : Regexp → Option Bytes → Bool
compiled rx none = true
compiled rx (some p) = rx.compiles p

module _ {ℓ} {D : Type ℓ} where
  -- A new static node below the node with information `i`.
  abbrev pub static_info : Info D → Bytes → ℕ → Info D
  static_info i key order = record {
    static = true;
    key = key;
    value = none;
    order = 0;
    min_order = order;
    regex = none;
    arity = i.arity;
    pnames = i.pnames;
  }

  -- A new parameter node for the token `<name:pattern>`, given the token and its inside.
  abbrev pub param_info : Info D → Bytes → Bytes → ℕ → Info D
  param_info i token inside order = record {
    static = false;
    key = token;
    value = none;
    order = 0;
    min_order = order;
    regex = elim (name_pattern inside).1 [ [] ↦ none | c ∷ p ↦ some (c ∷ p) ];
    arity = length (i.pnames ++ (name_pattern inside).0 ∷ []);
    pnames = i.pnames ++ (name_pattern inside).0 ∷ [];
  }

  abbrev pub with_value : Info D → D → ℕ → Info D
  with_value i d o = record i { value = some d; order = o }

  -- The node key is the key: only the first data is kept. The last argument is `n.data`.
  unfoldable pub claim : Info D → D → ℕ → Option D → Info D
  claim i d o none = with_value i d o
  claim i d o (some _) = i

  -- The token ends the key (`p1 == len(key)-1`), or the rest of the key goes below it.
  unfoldable pub finish :
      (Node D → Bytes → Panics (Node D × ℕ)) → Info D → Bytes → D → ℕ → Panics (Node D × ℕ)
  finish below c [] d o = done (node (with_value c d o) no_kids no_nodes, c.arity)
  finish below c (b ∷ s) d o = below (node c no_kids no_nodes) (b ∷ s)

  -- The parameter node for the token at `p0` to `p1`, with the rest of the key below it.
  unfoldable pub param_node :
      Regexp
      → (Node D → Bytes → Panics (Node D × ℕ))
      → Info D
      → Bytes
      → ℕ
      → ℕ
      → D
      → ℕ
      → Panics (Node D × ℕ)
  unfolding name_pattern finish
  param_node rx below i key p0 p1 d o =
      let c = param_info i (slice p0 (p1 + 1) key) (slice (p0 + 1) p1 key) o in
      if compiled rx c.regex then finish below c (drop (p1 + 1) key) d o else panic bad_pattern

  unfoldable pub add_child : Regexp → ℕ → Node D → Bytes → D → ℕ → Panics (Node D × ℕ)
  unfolding find_token name_pattern put push param_node
  add_child rx zero n key d o = panic out_of_fuel
  add_child rx (suc fuel) (node i ks ps) key d o = elim (find_token 0 none key) [
    | none ↦ do
      b ← checked (get_elem? key 0)
      let c = with_value (static_info i key o) d o
      done (node i (put b (node c no_kids no_nodes) ks) ps, i.arity)
    | some (zero, p1) ↦ do
      r ← param_node rx (λ m k. add_child rx fuel m k d o) i key 0 p1 d o
      done (node i ks (push ps r.0), r.1)
    | some (suc p, p1) ↦ do
      b ← checked (get_elem? key 0)
      let s = static_info i (take (suc p) key) o
      r ← param_node rx (λ m k. add_child rx fuel m k d o) s key (suc p) p1 d o
      done (node i (put b (node s no_kids (more r.0 no_nodes)) ks) ps, r.1)
  ]

  -- The static child under byte `b`, if there is one, is tried.
  unfoldable pub add_kid :
      (Node D → Panics (Node D × Option ℕ)) → ℕ → Kids D → Panics (Kids D × Option ℕ)
  add_kid rec b no_kids = done (no_kids, none)
  add_kid rec b (kid a c ks) =
      let here = rec c >>= (λ r. done (kid a r.0 ks, r.1)) in
      let there = add_kid rec b ks >>= (λ r. done (kid a c r.0, r.1)) in
      if a == b then here else there

  -- The loop over the parameter children stops at the first that takes the key.
  unfoldable pub keep_trying :
      Nodes D → Panics (Nodes D × Option ℕ) → Node D × Option ℕ → Panics (Nodes D × Option ℕ)
  keep_trying ps rest (c, some n) = done (more c ps, some n)
  keep_trying ps rest (c, none) = rest >>= (λ q. done (more c q.0, q.1))

  unfoldable pub add_param :
      (Node D → Panics (Node D × Option ℕ)) → Nodes D → Panics (Nodes D × Option ℕ)
  unfolding keep_trying
  add_param rec no_nodes = done (no_nodes, none)
  add_param rec (more c ps) = let rest = add_param rec ps in rec c >>= keep_trying ps rest

  -- The lower half of a split node.
  abbrev pub lower : Info D → ℕ → Info D
  lower i m = record {
    static = true;
    key = drop m i.key;
    value = i.value;
    order = i.order;
    min_order = i.min_order;
    regex = none;
    arity = i.arity;
    pnames = i.pnames;
  }

  -- The upper half: `n.key = key[0:matched]`, with the lower half as its only child.
  abbrev pub upper : Info D → ℕ → Bytes → Info D
  upper i m key = record i { key = take m key; value = none }

  -- What follows the loop over the parameter children.
  unfoldable pub after_params :
      (Node D → Panics (Node D × ℕ))
      → Info D
      → Kids D
      → Nodes D × Option ℕ
      → Panics (Node D × Option ℕ)
  after_params new i ks (ps, some n) = done (node i ks ps, some n)
  after_params new i ks (ps, none) = new (node i ks ps) >>= (λ t. done (t.0, some t.1))

  -- What follows the attempt at the static child.
  unfoldable pub after_kid :
      (Node D → Panics (Node D × Option ℕ))
      → (Node D → Panics (Node D × ℕ))
      → Info D
      → Nodes D
      → Kids D × Option ℕ
      → Panics (Node D × Option ℕ)
  unfolding add_param after_params
  after_kid rec new i ps (ks, some n) = done (node i ks ps, some n)
  after_kid rec new i ps (ks, none) = add_param rec ps >>= after_params new i ks

  -- What `add` does below a node whose key is a proper prefix of the key.
  unfoldable pub add_below :
      (Node D → Panics (Node D × Option ℕ))
      → (Node D → Panics (Node D × ℕ))
      → Info D
      → Kids D
      → Nodes D
      → ℕ
      → Panics (Node D × Option ℕ)
  unfolding add_kid after_kid
  add_below rec new i ks ps b = add_kid rec b ks >>= after_kid rec new i ps

  -- The node key is the key, or a proper prefix of it.
  unfoldable pub at_prefix :
      (Node D → Bytes → Panics (Node D × Option ℕ))
      → (Node D → Bytes → Panics (Node D × ℕ))
      → Info D
      → Kids D
      → Nodes D
      → Bytes
      → D
      → ℕ
      → Panics (Node D × Option ℕ)
  unfolding claim add_below
  at_prefix rec new i ks ps [] d o = done (node (claim i d o i.value) ks ps, some i.arity)
  at_prefix rec new i ks ps (b ∷ s) d o =
      add_below (λ c. rec c (b ∷ s)) (λ n. new n (b ∷ s)) i ks ps b

  -- The node is split behind the common prefix of length `m`, and the key is added again.
  unfoldable pub at_split :
      (Node D → Bytes → Panics (Node D × Option ℕ))
      → Info D
      → Kids D
      → Nodes D
      → Bytes
      → ℕ
      → Panics (Node D × Option ℕ)
  at_split rec i ks ps key m =
      checked (get_elem? (drop m i.key) 0)
      >>= (λ b. rec (node (upper i m key) (kid b (node (lower i m) ks ps) no_kids) no_nodes) key)

  unfoldable pub add : Regexp → ℕ → Node D → Bytes → D → ℕ → Panics (Node D × Option ℕ)
  unfolding common add_child at_prefix at_split
  add rx zero n key d o = panic out_of_fuel
  add rx (suc fuel) (node i ks ps) key d o =
      let m = common i.key key in
      let below =
        at_prefix (λ c k. add rx fuel c k d o) (λ n k. add_child rx (suc (length key)) n k d o) i ks
          ps (drop m key) d o in
      let again = at_split (λ c k. add rx fuel c k d o) i ks ps key m in
      if m == length i.key
      then below
      else if m == 0 || not i.static
      then done (node i ks ps, none)
      else again
