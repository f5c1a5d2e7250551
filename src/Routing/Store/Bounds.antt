-- ===== src/Routing/Store/Bounds.antt =====
-- Parameter indices stay inside of the slice of parameter values, so that `get` does not panic.
use wx.Common.{
  ℕ, zero, suc, ◌+◌, ◌-◌, ◌≤◌, ◌<◌, ◌≡◌, false, Option, none, some, List, [], ◌∷◌, inl, inr, Bytes,
  Panics, ◌>>=◌, checked, Returns, Returns-bind, Bool-cases, Option-cases, ltb, leb, ◌==◌,
  if◌then◌else◌, take, ◌∙◌, length, length-set, length-replicate, get_elem?-lt, arith, refl, subst,
  ap, sym,
}
use wx.Routing.Store.Node.{
  Regexp, Info, Node, node, info, Kids, no_kids, kid, Nodes, no_nodes, more, write,
}
use wx.Routing.Store.Get.{
  descend, Found, is_some, takes, slot, advance, spare, consume, here, better, copy_back, Loop,
  scratch, settle, given, get, get_kid, get_params,
}

module _ {ℓ} {D : Type ℓ} where
  -- A node with at most `top` parameters from the root, whose names are counted by `arity`.
  pub record IsBounded (top : ℕ) (i : Info D) : Type 0 where
    pub counted : length i.pnames ≡ i.arity
    pub bounded : i.arity ≤ top
    pub indexed : i.static ≡ false → 0 < i.arity

  abbrev mutual
    pub Bounded : ℕ → Node D → Type 0
    Bounded top (node i ks ps) = IsBounded top i × BoundedKids top ks × BoundedNodes top ps

    pub BoundedKids : ℕ → Kids D → Type 0
    BoundedKids top no_kids = Unit
    BoundedKids top (kid b c ks) = Bounded top c × BoundedKids top ks

    pub BoundedNodes : ℕ → Nodes D → Type 0
    BoundedNodes top no_nodes = Unit
    BoundedNodes top (more c ps) = ((info c).static ≡ false) × Bounded top c × BoundedNodes top ps

  slot_lem : (i : Info D) → 0 < i.arity → (p : ℕ) × (slot i ≡ some p) × (suc p ≡ i.arity)
  slot_lem i h = go i.arity h
    where
      go :
          (n : ℕ)
          → 0 < n
          → (p : ℕ) × (elim n [ zero ↦ none | suc q ↦ some q ] ≡ some p) × (suc p ≡ n)
      go zero h = elim h [ ]
      go (suc q) h = (q, refl, refl)

write_lem :
    (values : List Bytes) (i : ℕ) (v : Bytes)
    → i < length values
    → Returns (λ w. length w ≡ length values) (write values i v)
unfolding write
write_lem values i v h = elim (Bool-cases (ltb i (length values))) [
  | inl e ↦ rw e (length-set values i v)
  | inr e ↦ absurd (ground arith)
]

copy_back_lem :
    (n from : ℕ) (tvalues values : List Bytes)
    → from + n ≤ length tvalues
    → from + n ≤ length values
    → Returns (λ w. length w ≡ length values) (copy_back n from tvalues values)
unfolding copy_back
copy_back_lem zero from tvalues values h k = refl
copy_back_lem (suc n) from tvalues values h k =
    let (v, e) = get_elem?-lt tvalues from (omega arith) in
    rw e (
      Returns-bind (λ w. length w ≡ length values) (λ w. length w ≡ length values)
        (write values from v) _ (write_lem values from v (omega arith))
        (λ w hw.
          rw (← hw) (copy_back_lem n (from + 1) tvalues w (omega arith) (omega (arith, hw)))))

abbrev Keeps : ℕ → Option (Bytes × List Bytes) → Type 0
Keeps n none = Unit
Keeps n (some r) = length r.1 ≡ n

abbrev FitsScratch : ℕ → Option (List Bytes) → Type 0
FitsScratch n none = Unit
FitsScratch n (some t) = length t ≡ n

given_lem :
    (n : ℕ) (t : Option (List Bytes)) (values : List Bytes)
    → FitsScratch n t
    → length values ≡ n
    → length (given t values) ≡ n
given_lem n none values h k = k
given_lem n (some t) values h k = h

module _ {ℓ} {D : Type ℓ} where
  write-slot :
      (top : ℕ) (i : Info D) (v : Bytes) (values : List Bytes)
      → IsBounded top i
      → i.static ≡ false
      → top ≤ length values
      → Returns (λ w. length w ≡ length values) (checked (slot i) >>= λ p. write values p v)
  write-slot top i v values b s h =
      let (p, e, q) = slot_lem i (b.indexed s) in
      rw e (write_lem values p v (omega (arith, b.bounded)))

  advance_lem :
      (top : ℕ) (i : Info D) (key : Bytes) (values : List Bytes) (t : Option ℕ)
      → IsBounded top i
      → top ≤ length values
      → Returns (Keeps (length values)) (advance i key values t)
  unfolding advance
  advance_lem top i key values none b h = tt
  advance_lem top i key values (some n) b h = elim (Bool-cases i.static) [
    | inl s ↦ rw s refl
    | inr s ↦
        let (p, e, q) = slot_lem i (b.indexed s) in
        rw (s, e)
          (Returns-bind (λ w. length w ≡ length values) _ (write values p (take n key)) _
            (write_lem values p (take n key) (omega (arith, b.bounded))) (λ w hw. hw))
  ]

  -- What holds of the result of `get`: the slice keeps its length, and the names fit in it.
  abbrev pub Fits : ℕ → ℕ → Found D × List Bytes → Type 0
  Fits top n r = (length r.0.pnames ≤ top) × (length r.1 ≡ n)

  abbrev pub FitsLoop : ℕ → ℕ → Loop D → Type 0
  FitsLoop top n l =
      (length l.found.pnames ≤ top) × (length l.pvalues ≡ n) × FitsScratch n l.tvalues

  scratch_lem :
      (f : Found D) (n : ℕ) (t : Option (List Bytes))
      → FitsScratch n t
      → FitsScratch n (scratch f n t)
  scratch_lem f n (some t) h = h
  scratch_lem f n none h = elim (Bool-cases (is_some f.value)) [
    | inl e ↦ rw e (length-replicate n [])
    | inr e ↦ rw e tt
  ]

  better_lem :
      (top : ℕ) (g f : Found D)
      → length g.pnames ≤ top
      → length f.pnames ≤ top
      → length (if better g f then g else f).pnames ≤ top
  better_lem top g f h k = elim (Bool-cases (better g f)) [ inl e ↦ rw e h | inr e ↦ rw e k ]

  settle_lem :
      (top n : ℕ) (i : Info D) (l : Loop D) (t : Option (List Bytes)) (r : Found D × List Bytes)
      → IsBounded top i
      → i.static ≡ false
      → top ≤ n
      → FitsLoop top n l
      → FitsScratch n t
      → Fits top n r
      → Returns (FitsLoop top n) (settle i l t r)
  unfolding settle
  settle_lem top n i l none r b s h fl ft fr = (better_lem top r.0 l.found fr.0 fl.0, fr.1, tt)
  settle_lem top n i l (some t) r b s h fl ft fr = elim (Bool-cases (better r.0 l.found)) [
    | inl e ↦
        let (p, q, z) = slot_lem i (b.indexed s) in
        rw (e, q)
          (Returns-bind (λ w. length w ≡ length l.pvalues) (FitsLoop top n)
            (copy_back (length r.0.pnames - p) p r.1 l.pvalues) _
            (copy_back_lem (length r.0.pnames - p) p r.1 l.pvalues
              (omega (arith, b.bounded, fr.0, fr.1)) (omega (arith, b.bounded, fr.0, fl.1)))
            (λ w hw. (fr.0, hw ∙ fl.1, fr.1)))
    | inr e ↦ rw e (fl.0, fl.1, fr.1)
  ]

module _ {D : Type 0} (rx : Regexp) (top n : ℕ) (room : top ≤ n) where
  info_lem : (c : Node D) → Bounded top c → IsBounded top (info c)
  info_lem (node i ks ps) h = h.0

  here_lem : (i : Info D) → IsBounded top i → length (here i).pnames ≤ top
  here_lem i b = elim (Option-cases i.value) [
    | inl e ↦ rw e (omega arith)
    | inr (d, e) ↦ rw e (omega (arith, b.counted, b.bounded))
  ]

  spare_lem : (l : Loop D) → FitsLoop top n l → FitsScratch n (spare l)
  spare_lem l (f, e, t) =
      subst (FitsScratch n) (ap (λ k. scratch l.found k l.tvalues) (sym e))
        (scratch_lem l.found n l.tvalues t)

  descend_lem :
      (kids : ℕ → Bytes → List Bytes → Panics (Found D × List Bytes)) (i : Info D) (key : Bytes)
      (values : List Bytes)
      → IsBounded top i
      → length values ≡ n
      → ((b : ℕ) → Returns (Fits top n) (kids b key values))
      → Returns (Fits top n) (descend kids i key values)
  unfolding descend
  descend_lem kids i [] values b h k = (here_lem i b, h)
  descend_lem kids i (c ∷ s) values b h k = k c

  mutual
    unfolding get

    get_lem :
        (t : Node D) (key : Bytes) (values : List Bytes)
        → Bounded top t
        → length values ≡ n
        → Returns (Fits top n) (get rx t key values)
    get_lem (node i ks ps) key values (b, bk, bp) h =
        Returns-bind (Keeps n) (Fits top n) (consume rx i key values) _
          (rw (← h) (advance_lem top i key values (takes rx i key) b (omega (arith, h, room))))
          (elim [
            | none ↦ λ hr. (omega arith, h)
            | some (rest, vals) ↦ λ hr.
                Returns-bind (Fits top n) (Fits top n) _ _
                  (descend_lem (get_kid rx ks) i rest vals b hr
                    (λ c. get_kid_lem ks c rest vals bk hr))
                  (λ r hr'.
                    Returns-bind (FitsLoop top n) (Fits top n) _ _
                      (get_params_lem ps rest _ bp (hr'.0, hr'.1, tt)) (λ m hm. (hm.0, hm.1)))
          ])

    get_kid_lem :
        (ks : Kids D) (b : ℕ) (key : Bytes) (values : List Bytes)
        → BoundedKids top ks
        → length values ≡ n
        → Returns (Fits top n) (get_kid rx ks b key values)
    get_kid_lem no_kids b key values bk h = (omega arith, h)
    get_kid_lem (kid a c ks) b key values bk h = elim (Bool-cases (a == b)) [
      | inl e ↦ rw e (get_lem c key values bk.0 h)
      | inr e ↦ rw e (get_kid_lem ks b key values bk.1 h)
    ]

    get_params_lem :
        (ps : Nodes D) (key : Bytes) (l : Loop D)
        → BoundedNodes top ps
        → FitsLoop top n l
        → Returns (FitsLoop top n) (get_params rx ps key l)
    get_params_lem no_nodes key l bp fl = fl
    get_params_lem (more c ps) key l bp fl =
        elim (Bool-cases (leb l.found.order (info c).min_order)) [
          | inl e ↦ rw e (get_params_lem ps key l bp.2 fl)
          | inr e ↦ rw e (
              Returns-bind (Fits top n) (FitsLoop top n) _ _
                (get_lem c key (given (spare l) l.pvalues) bp.1
                  (given_lem n (spare l) l.pvalues (spare_lem l fl) fl.1))
                (λ r fr.
                  Returns-bind (FitsLoop top n) (FitsLoop top n) _ _
                    (settle_lem top n (info c) l (spare l) r (info_lem c bp.1) bp.0 room fl
                      (spare_lem l fl) fr)
                    (λ m fm. get_params_lem ps key m bp.2 fm)))
        ]

  -- A lookup does not panic, and keeps the length of the slice, if all parameter counts of the tree
  -- are at most `top` and the slice has room for `top` values.
  pub get-Returns :
      (t : Node D) (key : Bytes) (values : List Bytes)
      → Bounded top t
      → length values ≡ n
      → Returns (Fits top n) (get rx t key values)
  get-Returns t key values b h = get_lem t key values b h
