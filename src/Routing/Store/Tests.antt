-- ===== src/Routing/Store/Tests.antt =====
-- Concrete runs of the radix tree.
use wx.Common.{
  ◌<◌, ◌⊎◌, panic, Ensures, Ensures-done, Safe-Ensures, arith, Safe, Returns, length, ◌≤◌, ℕ, true,
  Option, none, some, List, [], ◌∷◌, Bytes, Panics, done, ◌>>=◌, length, codes, ◌≡◌, refl, false,
  replicate,
}
use wx.Routing.Store.Node.{Regexp}
use wx.Routing.Store.Least.{matches, IsLeast}
use wx.Routing.Store.First.{store_get_first}
use wx.Routing.Store.Added.{IsOrdered, new_store-IsOrdered, store_add-IsOrdered}
use wx.Routing.Store.Get.{Found, nothing, max_int32}
use wx.Routing.Store.Below.{after}
use wx.Routing.Store.Capacity.{
  HasCapacity, new_store-HasCapacity, store_add-HasCapacity, store_get-Returns,
}
use wx.Routing.Store.Table.{Store, store_add, new_store, store_fill, store_get}

no_match-le : (s : Bytes) (n : ℕ) → ◌≡◌ {A = Option ℕ} none (some n) → n ≤ length s
no_match-le s n h = cc

-- An engine that knows no pattern but accepts all.
abbrev no_engine : Regexp
no_engine = record {
  compiles = λ p. true;
  find_end = λ p s. none;
  matches = λ p s. false;
  find_end-le = λ p. no_match-le;
}

abbrev routes : List (Bytes × ℕ)
routes =
    (codes "/users/<id>", 1)
    ∷ (codes "/users/new", 2)
    ∷ (codes "/user", 3)
    ∷ (codes "/users/<id>/posts/<post>", 4)
    ∷ (codes "/files/<*:.*>", 5)
    ∷ []

abbrev lookup : Bytes → Panics (Found ℕ × List Bytes)
lookup path =
    store_fill no_engine routes new_store >>= (λ s. store_get no_engine s path (replicate 2 []))

find_new :
    lookup (codes "/users/new")
    ≡ done (record { value = some 1; pnames = codes "id" ∷ []; order = 1 }, codes "new" ∷ [] ∷ [])
unfolding store_fill store_get
find_new = refl

find_post :
    lookup (codes "/users/7/posts/x")
    ≡ done (
      record { value = some 4; pnames = codes "id" ∷ codes "post" ∷ []; order = 4 },
      codes "7" ∷ codes "x" ∷ [],
    )
unfolding store_fill store_get
find_post = refl

find_file :
    lookup (codes "/files/a/b")
    ≡ done (record { value = some 5; pnames = codes "*" ∷ []; order = 5 }, codes "a/b" ∷ [] ∷ [])
unfolding store_fill store_get
find_file = refl

abbrev two_values : List Bytes
two_values = [] ∷ [] ∷ []

store_add-HasCapacity_example :
    Safe
      (λ r. HasCapacity {D = ℕ} (after 0 r.1) r.0)
      (store_add {D = ℕ} no_engine new_store (codes "/u/<id>") 7)
store_add-HasCapacity_example =
    store_add-HasCapacity {D = ℕ} no_engine 0 new_store (codes "/u/<id>") 7 new_store-HasCapacity

store_get-Returns_example :
    Returns
      (λ r. (length r.0.pnames ≤ 0) × (length r.1 ≡ 2))
      (store_get {D = ℕ} no_engine new_store (codes "/u/7") two_values)
store_get-Returns_example =
    store_get-Returns no_engine 0 new_store (codes "/u/7") two_values new_store-HasCapacity
      (omega arith)

-- Two keys that both match `/u/new`.
abbrev store_of : Panics (Store ℕ × Option ℕ) → Store ℕ
store_of (panic e) = new_store
store_of (done r) = r.0

abbrev one_key : Store ℕ
one_key = store_of (store_add no_engine new_store (codes "/u/<id>") 7)

abbrev two_keys : Store ℕ
two_keys = store_of (store_add no_engine one_key (codes "/u/new") 8)

one_key-made : store_add no_engine new_store (codes "/u/<id>") 7 ≡ done (one_key, some 1)
unfolding store_add
one_key-made = refl

two_keys-made : store_add no_engine one_key (codes "/u/new") 8 ≡ done (two_keys, some 0)
unfolding store_add
two_keys-made = refl

one_key-IsOrdered : IsOrdered one_key
one_key-IsOrdered =
    Ensures-done (λ (r : Store ℕ × Option ℕ). IsOrdered r.0) _ (one_key, some 1)
      (store_add-IsOrdered no_engine new_store (codes "/u/<id>") 7 new_store-IsOrdered) one_key-made

two_keys-IsOrdered : IsOrdered two_keys
two_keys-IsOrdered =
    Ensures-done (λ (r : Store ℕ × Option ℕ). IsOrdered r.0) _ (two_keys, some 0)
      (store_add-IsOrdered no_engine one_key (codes "/u/new") 8 one_key-IsOrdered) two_keys-made

one_key-HasCapacity : HasCapacity 1 one_key
one_key-HasCapacity =
    Ensures-done (λ (r : Store ℕ × Option ℕ). HasCapacity (after 0 r.1) r.0) _ (one_key, some 1)
      (Safe-Ensures (λ (r : Store ℕ × Option ℕ). HasCapacity (after 0 r.1) r.0) _
        (store_add-HasCapacity {D = ℕ} no_engine 0 new_store (codes "/u/<id>") 7
          new_store-HasCapacity))
      one_key-made

two_keys-HasCapacity : HasCapacity 1 two_keys
two_keys-HasCapacity =
    Ensures-done (λ (r : Store ℕ × Option ℕ). HasCapacity (after 1 r.1) r.0) _ (two_keys, some 0)
      (Safe-Ensures (λ (r : Store ℕ × Option ℕ). HasCapacity (after 1 r.1) r.0) _
        (store_add-HasCapacity {D = ℕ} no_engine 1 one_key (codes "/u/new") 8 one_key-HasCapacity))
      two_keys-made

two_keys-small : two_keys.count < max_int32
unfolding store_add
two_keys-small = omega arith

store_get_first_example :
    Returns
      (λ r.
        ((matches no_engine two_keys.root (codes "/u/new") ≡ []) × (r.0 ≡ nothing))
        ⊎ IsLeast r.0 (matches no_engine two_keys.root (codes "/u/new")))
      (store_get no_engine two_keys (codes "/u/new") ([] ∷ []))
store_get_first_example =
    store_get_first no_engine 1 two_keys.count two_keys (codes "/u/new") ([] ∷ [])
      two_keys-HasCapacity (omega arith) two_keys-small two_keys-IsOrdered

store_add-IsOrdered_example :
    Ensures (λ r. IsOrdered r.0) (store_add no_engine one_key (codes "/u/new") 8)
store_add-IsOrdered_example =
    store_add-IsOrdered no_engine one_key (codes "/u/new") 8 one_key-IsOrdered
