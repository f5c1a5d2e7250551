-- ===== src/Routing/Store/Table.antt =====
-- `store`, `newStore`, `store.Add` and `store.Get` of fasthttp-routing/store.go. A level of the tree
-- costs one unit of fuel, and splitting a node one more.
use wx.Common.{ℕ, suc, ◌+◌, true, Option, none, List, [], ◌∷◌, Bytes, Panics, done, ◌>>=◌}
use wx.Routing.Store.Node.{Regexp, Info, Node, node, no_kids, no_nodes, height}
use wx.Routing.Store.Add.{add}
use wx.Routing.Store.Get.{Found, get}

pub record Store {ℓ} (D : Type ℓ) : Type ℓ where
  pub root : Node D
  pub count : ℕ

module _ {ℓ} {D : Type ℓ} where
  abbrev pub root_info : Info D
  root_info = record {
    static = true;
    key = [];
    value = none;
    order = 0;
    min_order = 0;
    regex = none;
    arity = 0;
    pnames = [];
  }

  abbrev pub new_store : Store D
  new_store = record { root = node root_info no_kids no_nodes; count = 0 }

  -- The returned number is the source's; its -1, which the root never gives, is `none`.
  unfoldable pub store_add : Regexp → Store D → Bytes → D → Panics (Store D × Option ℕ)
  unfolding add height
  store_add rx s key d = do
    r ← add rx (suc (suc (height s.root))) s.root key d (s.count + 1)
    done (record { root = r.0; count = s.count + 1 }, r.1)

  unfoldable pub store_get : Regexp → Store D → Bytes → List Bytes → Panics (Found D × List Bytes)
  unfolding get
  store_get rx s path pvalues = get rx s.root path pvalues

  -- All data in the order of registration.
  unfoldable pub store_fill : Regexp → List (Bytes × D) → Store D → Panics (Store D)
  unfolding store_add
  store_fill rx [] s = done s
  store_fill rx ((k, d) ∷ rest) s = store_add rx s k d >>= (λ r. store_fill rx rest r.0)
