-- ===== src/Routing/Store/Picks.antt =====
-- The parts of `node.get` against the reference: what the key, the node's own data and a child add to
-- the best match so far.
use wx.Common.{
  ℕ, ◌-◌, ◌<◌, ◌≡◌, true, Option, none, some, List, [], ◌∷◌, ◌++◌, Bytes, inl, inr, Panics, panic,
  done, ◌>>=◌, checked, checked-Ensures, Ensures, Ensures-bind, Bool-cases, Option-cases, leb,
  leb→le, All, take, drop, length, arith, refl, ap, sym, ◌∙◌,
}
use wx.Routing.Store.Node.{Info, write}
use wx.Routing.Store.Get.{
  Found, nothing, max_int32, better, here, slot, advance, descend, copy_back, Loop, settle,
}
use wx.Routing.Store.Least.{
  pick, picks, own, matches_at, IsTimed, Late, Late-mono, picks-append, picks-Late, picks_from,
}

pub Ensures-any {ℓ} : {A : Type ℓ} (m : Panics A) → Ensures (λ a. Unit {0}) m
Ensures-any (panic e) = tt
Ensures-any (done a) = tt

-- What is left of the key behind `o` bytes.
abbrev pub Tracks : Bytes → Option ℕ → Option (Bytes × List Bytes) → Type 0
Tracks key none r = r ≡ none
Tracks key (some n) r = (v : List Bytes) × (r ≡ some (drop n key, v))

module _ {D : Type 0} where
  pub advance-Tracks :
      (i : Info D) (key : Bytes) (values : List Bytes) (o : Option ℕ)
      → Ensures (Tracks key o) (advance i key values o)
  unfolding advance
  advance-Tracks i key values none = refl
  advance-Tracks i key values (some n) = elim (Bool-cases i.static) [
    | inl e ↦ rw (e, advance) (values, refl)
    | inr e ↦
        rw (e, advance)
          (Ensures-bind (λ (p : ℕ). Unit) (Tracks key (some n)) (checked (slot i))
            (λ p. write values p (take n key) >>= (λ v. done (some (drop n key, v))))
            (checked-Ensures (slot i))
            (λ p u.
              Ensures-bind (λ (v : List Bytes). Unit) (Tracks key (some n))
                (write values p (take n key)) (λ v. done (some (drop n key, v)))
                (Ensures-any (write values p (take n key))) (λ v w. (v, refl))))
  ]

  -- A result of a child is taken over exactly if it is better.
  pub settle-picks :
      (i : Info D) (l : Loop D) (t : Option (List Bytes)) (r : Found D × List Bytes)
      → Ensures (λ m. m.found ≡ pick l.found r.0) (settle i l t r)
  unfolding settle
  settle-picks i l none r = refl
  settle-picks i l (some t) r = elim (Bool-cases (better r.0 l.found)) [
    | inl e ↦
        rw (e, settle)
          (Ensures-bind (λ (p : ℕ). Unit) (λ (m : Loop D). m.found ≡ r.0) (checked (slot i))
            (λ p.
              copy_back (length r.0.pnames - p) p r.1 l.pvalues
              >>= (λ v. done (record { found = r.0; pvalues = v; tvalues = some r.1 })))
            (checked-Ensures (slot i))
            (λ p u.
              Ensures-bind (λ (v : List Bytes). Unit) (λ (m : Loop D). m.found ≡ r.0)
                (copy_back (length r.0.pnames - p) p r.1 l.pvalues)
                (λ v. done (record { found = r.0; pvalues = v; tvalues = some r.1 }))
                (Ensures-any (copy_back (length r.0.pnames - p) p r.1 l.pvalues)) (λ v w. refl)))
    | inr e ↦ rw (e, settle) refl
  ]

  pub own-picks :
      (hi : ℕ) (i : Info D) → hi < max_int32 → IsTimed hi i → here i ≡ picks nothing (own i)
  own-picks hi i small t = elim (Option-cases i.value) [
    | inl e ↦ rw (e, own) refl
    | inr (d, e) ↦ rw (e, own) (ground arith)
  ]

  pub descend-picks :
      (kids : ℕ → Bytes → List Bytes → Panics (Found D × List Bytes))
      (listed : ℕ → Bytes → List (Found D)) (i : Info D) (key : Bytes) (values : List Bytes)
      → here i ≡ picks nothing (own i)
      → ((b : ℕ) (s : Bytes) → Ensures (λ r. r.0 ≡ picks nothing (listed b s)) (kids b s values))
      → Ensures (λ r. r.0 ≡ picks nothing (matches_at listed i key)) (descend kids i key values)
  unfolding descend
  descend-picks kids listed i [] values t k = t
  descend-picks kids listed i (b ∷ s) values t k = k b (b ∷ s)

  -- The first part of `get` and its rest, against the matches behind the bytes that the node takes.
  pub node-picks :
      (o : Option ℕ) (key : Bytes) (values : List Bytes) (listed : Bytes → List (Found D))
      (a : Option (Bytes × List Bytes)) (k : Bytes → List Bytes → Panics (Found D × List Bytes))
      → Tracks key o a
      → ((rest : Bytes) (v : List Bytes)
          → Ensures (λ (r : Found D × List Bytes). r.0 ≡ picks nothing (listed rest)) (k rest v))
      → Ensures
          (λ (r : Found D × List Bytes).
            r.0 ≡ picks nothing (elim o [ none ↦ [] | some n ↦ listed (drop n key) ]))
          (elim a [ none ↦ done (nothing, values) | some x ↦ k x.0 x.1 ])
  node-picks none key values listed a k t h = rw t refl
  node-picks (some n) key values listed a k (v, e) h = rw e (h (drop n key) v)

  -- A child that is skipped has no match that is better.
  pub skip-picks :
      (l : Found D) (lo : ℕ) (xs ys : List (Found D))
      → leb l.order lo ≡ true
      → All (Late lo) xs
      → picks l (xs ++ ys) ≡ picks l ys
  skip-picks l lo xs ys e k =
      picks-append l xs ys ∙ ap (λ z. picks z ys) (picks-Late l lo xs (leb→le l.order lo e) k)

  -- A child that is tried adds its matches.
  pub take_over :
      (l r m : Found D) (lo : ℕ) (xs ys : List (Found D))
      → r ≡ picks nothing xs
      → m ≡ pick l r
      → All (Late lo) xs
      → picks m ys ≡ picks l (xs ++ ys)
  take_over l r m lo xs ys f g k =
      ap (λ z. picks z ys)
        (g ∙ ap (pick l) f ∙ sym (picks_from l xs (Late-mono 0 lo xs (omega arith) k)))
      ∙ sym (picks-append l xs ys)
