-- ===== src/Routing/Store/Get.antt =====
-- `node.get` of fasthttp-routing/store.go. The slice `pvalues` is passed in and returned as it is
-- left; an index out of its range panics. `goto repeat` is the call on the static child.
use wx.Common.{
  ℕ, zero, suc, ◌+◌, ◌-◌, ◌^◌, Bool, true, false, ◌&&◌, Option, none, some, List, [], ◌∷◌, Bytes,
  codes, Panics, done, ◌>>=◌, checked, ltb, leb, ◌==◌, same, if◌then◌else◌, length, get_elem?, take,
  drop, replicate,
}
use wx.Routing.Store.Node.{
  Regexp, Info, Node, node, info, Kids, no_kids, kid, Nodes, no_nodes, more, write,
}

abbrev pub max_int32 : ℕ
max_int32 = 2 ^ 31 - 1

-- The three results of `get`.
pub record Found {ℓ} (D : Type ℓ) : Type ℓ where
  pub value : Option D
  pub pnames : List Bytes
  pub order : ℕ

abbrev pub nothing {ℓ} : {D : Type ℓ} → Found D
nothing = record { value = none; pnames = []; order = max_int32 }

-- The rest of `key` behind the prefix `k`, if it is one.
unfoldable pub strip : Bytes → Bytes → Option Bytes
strip [] key = some key
strip (a ∷ k) [] = none
strip (a ∷ k) (b ∷ key) = if a == b then strip k key else none

-- The length of the longest prefix with no '/'.
unfoldable pub to_slash : Bytes → ℕ
to_slash [] = 0
to_slash (c ∷ s) = if c == b'/' then 0 else suc (to_slash s)

abbrev pub is_some {ℓ} : {A : Type ℓ} → Option A → Bool
is_some none = false
is_some (some _) = true

-- The state of the loop over the parameter children: `tvalues` is `none` while it is `pvalues`.
pub record Loop {ℓ} (D : Type ℓ) : Type ℓ where
  pub found : Found D
  pub pvalues : List Bytes
  pub tvalues : Option (List Bytes)

-- The slice that a child is given.
abbrev pub given : Option (List Bytes) → List Bytes → List Bytes
given none pvalues = pvalues
given (some t) pvalues = t

-- `for i := from; i < from + n; i++ { pvalues[i] = tvalues[i] }`
unfoldable pub copy_back : ℕ → ℕ → List Bytes → List Bytes → Panics (List Bytes)
unfolding write
copy_back zero from tvalues pvalues = done pvalues
copy_back (suc n) from tvalues pvalues = do
  v ← checked (get_elem? tvalues from)
  pvalues' ← write pvalues from v
  copy_back n (from + 1) tvalues pvalues'

module _ {ℓ} {D : Type ℓ} where
  -- How many bytes of `key` the node takes; `none` is the return without a match.
  unfoldable pub takes : Regexp → Info D → Bytes → Option ℕ
  unfolding strip to_slash same
  takes rx i key =
      if i.static
      then elim (strip i.key key) [ none ↦ none | some _ ↦ some (length i.key) ]
      else elim i.regex [
        | none ↦ some (to_slash key)
        | some p ↦ if same p (codes ".*") then some (length key) else rx.find_end p key
      ]

  -- `n.pindex` as an index; -1 is out of every range.
  abbrev pub slot : Info D → Option ℕ
  slot i = elim i.arity [ zero ↦ none | suc p ↦ some p ]

  -- A parameter node writes the value that it takes.
  unfoldable pub advance :
      Info D → Bytes → List Bytes → Option ℕ → Panics (Option (Bytes × List Bytes))
  unfolding write
  advance i key pvalues none = done none
  advance i key pvalues (some n) =
      if i.static
      then done (some (drop n key, pvalues))
      else checked (slot i)
        >>= (λ p. write pvalues p (take n key) >>= (λ v. done (some (drop n key, v))))

  -- The first part of `get`.
  unfoldable pub consume :
      Regexp → Info D → Bytes → List Bytes → Panics (Option (Bytes × List Bytes))
  unfolding takes advance
  consume rx i key pvalues = advance i key pvalues (takes rx i key)

  -- `data, pnames, order = n.data, n.pnames, n.order` at a data node.
  abbrev pub here : Info D → Found D
  here i = elim i.value [
    | none ↦ nothing
    | some d ↦ record { value = some d; pnames = i.pnames; order = i.order }
  ]

  -- `d != nil && s < order`
  abbrev pub better : Found D → Found D → Bool
  better g f = is_some g.value && ltb g.order f.order

  -- `if data != nil && !allocated { tvalues = make([]string, len(pvalues)) }`
  abbrev pub scratch : Found D → ℕ → Option (List Bytes) → Option (List Bytes)
  scratch f n (some t) = some t
  scratch f n none = if is_some f.value then some (replicate n []) else none

  -- A child's result is taken over if it is better, its values copied back if they were apart.
  unfoldable pub settle :
      Info D → Loop D → Option (List Bytes) → Found D × List Bytes → Panics (Loop D)
  unfolding copy_back
  settle i l none r = done (record {
    found = if better r.0 l.found then r.0 else l.found;
    pvalues = r.1;
    tvalues = none;
  })
  settle i l (some t) r =
      let keep = done (record { found = l.found; pvalues = l.pvalues; tvalues = some r.1 }) in
      let adopt = checked (slot i) >>= (λ p.
        copy_back (length r.0.pnames - p) p r.1 l.pvalues
        >>= (λ v. done (record { found = r.0; pvalues = v; tvalues = some r.1 }))) in
      if better r.0 l.found then adopt else keep

  -- At the end of the key the node's own data, else the static child under its first byte.
  unfoldable pub descend :
      (ℕ → Bytes → List Bytes → Panics (Found D × List Bytes))
      → Info D
      → Bytes
      → List Bytes
      → Panics (Found D × List Bytes)
  descend kids i [] pvalues = done (here i, pvalues)
  descend kids i (b ∷ s) pvalues = kids b (b ∷ s) pvalues

  -- What a round of the loop hands to the child.
  abbrev pub spare : Loop D → Option (List Bytes)
  spare l = scratch l.found (length l.pvalues) l.tvalues

module _ {ℓ} {D : Type ℓ} (rx : Regexp) where
  unfoldable mutual
    unfolding consume settle descend

    pub get : Node D → Bytes → List Bytes → Panics (Found D × List Bytes)
    get (node i ks ps) key pvalues = do
      taken ← consume rx i key pvalues
      elim taken [
        | none ↦ done (nothing, pvalues)
        | some (rest, values) ↦ do
          first ← descend (get_kid ks) i rest values
          last ← get_params ps rest (record { found = first.0; pvalues = first.1; tvalues = none })
          done (last.found, last.pvalues)
      ]

    pub get_kid : Kids D → ℕ → Bytes → List Bytes → Panics (Found D × List Bytes)
    get_kid no_kids b key pvalues = done (nothing, pvalues)
    get_kid (kid a c ks) b key pvalues =
        let this = get c key pvalues in
        let later = get_kid ks b key pvalues in if a == b then this else later

    pub get_params : Nodes D → Bytes → Loop D → Panics (Loop D)
    get_params no_nodes key l = done l
    get_params (more c ps) key l =
        let skip = get_params ps key l in
        let go =
          get c key (given (spare l) l.pvalues)
          >>= (λ r. settle (info c) l (spare l) r >>= (λ m. get_params ps key m)) in
        if leb l.found.order (info c).min_order then skip else go
