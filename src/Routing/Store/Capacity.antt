-- ===== src/Routing/Store/Capacity.antt =====
-- The numbers that `store.Add` returns are enough room for every later `store.Get`.
use wx.Common.{ℕ, suc, ◌+◌, ◌≤◌, ◌≡◌, List, Bytes, Safe, Safe-bind, Returns, length, arith, refl}
use wx.Routing.Store.Node.{Regexp, height}
use wx.Routing.Store.Bounds.{Bounded, get-Returns}
use wx.Routing.Store.Below.{after, Added}
use wx.Routing.Store.Total.{add_lem}
use wx.Routing.Store.Table.{Store, new_store, store_add, store_get}

module _ {D : Type 0} where
  -- Every parameter index of the tree is below `top`.
  abbrev pub HasCapacity : ℕ → Store D → Type 0
  HasCapacity top s = Bounded top s.root

  pub new_store-HasCapacity : HasCapacity 0 new_store
  new_store-HasCapacity =
      (record { counted = refl; bounded = omega arith; indexed = λ e. cc }, tt, tt)

-- `Add` returns for every key, or panics in `regexp.MustCompile`; if every parameter index was below
-- `top` before, it is below the larger of `top` and the returned number afterwards.
pub store_add-HasCapacity :
    {D : Type 0} (rx : Regexp) (top : ℕ) (s : Store D) (key : Bytes) (d : D)
    → HasCapacity top s
    → Safe (λ r. HasCapacity (after top r.1) r.0) (store_add rx s key d)
unfolding store_add
store_add-HasCapacity rx top s key d h =
    Safe-bind (Added top s.root) _ _ _
      (add_lem rx (suc (suc (height s.root))) top s.root key d (s.count + 1) h (omega arith))
      (λ r g. g.0)

-- `Get` never panics if the slice has room for every parameter of the tree: it returns, the slice
-- keeps its length, and no more names are returned than the slice has places for.
pub store_get-Returns :
    {D : Type 0} (rx : Regexp) (top : ℕ) (s : Store D) (path : Bytes) (values : List Bytes)
    → HasCapacity top s
    → top ≤ length values
    → Returns
        (λ r. (length r.0.pnames ≤ top) × (length r.1 ≡ length values))
        (store_get rx s path values)
unfolding store_get
store_get-Returns rx top s path values h le =
    get-Returns rx top (length values) le s.root path values h refl
