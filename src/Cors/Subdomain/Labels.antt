-- ===== src/Cors/Subdomain/Labels.antt =====
-- The labels of a host: what stands between its dots.
use wx.Common.{
  false, ◌≡◌, ◌==◌, ==_iff, List, [], ◌∷◌, ◌++◌, append_assoc, append-nil, Bytes, All, All-append,
  Bool-cases, inl, inr, refl, sym, ap, ◌∙◌, arith,
}
use wx.Cors.Subdomain.{labels}

abbrev pub NoDot : Bytes → Type 0
NoDot = All (λ c. (c == b'.') ≡ false)

-- Each with a dot in front of it.
abbrev pub after_dots : List Bytes → Bytes
after_dots [] = []
after_dots (x ∷ xs) = b'.' ∷ (x ++ after_dots xs)

-- Each with a dot behind it.
abbrev pub before_dots : List Bytes → Bytes
before_dots [] = []
before_dots (x ∷ xs) = x ++ b'.' ∷ before_dots xs

abbrev joined : List Bytes → Bytes
joined [] = []
joined (x ∷ xs) = x ++ after_dots xs

labels-append : (part s t : Bytes) → labels part (s ++ b'.' ∷ t) ≡ labels part s ++ labels [] t
unfolding labels
labels-append part [] t = refl
labels-append part (c ∷ s) t =
    rw (labels-append [] s t, labels-append (part ++ c ∷ []) s t) (ground arith)

-- A host whose labels are written out.
pub labels_plain :
    (part x : Bytes) (xs : List Bytes)
    → NoDot x
    → All NoDot xs
    → labels part (x ++ after_dots xs) ≡ (part ++ x) ∷ xs
unfolding labels
labels_plain part [] [] h k = rw (append-nil part) refl
labels_plain part [] (y ∷ xs) h (hy, k) = rw (append-nil part, labels_plain [] y xs hy k) refl
labels_plain part (c ∷ x) xs (e, h) k =
    rw (e, labels_plain (part ++ c ∷ []) x xs h k, append_assoc part (c ∷ []) x) refl

-- Whatever stands in front of a dot, the labels behind it are the last ones.
pub labels_behind :
    (xs : List Bytes) (t : Bytes)
    → (ys : List Bytes) × (labels [] (before_dots xs ++ t) ≡ ys ++ labels [] t)
labels_behind [] t = ([], refl)
labels_behind (x ∷ xs) t =
    let r = labels_behind xs t in
    (
      labels [] x ++ r.0,
      ap (labels []) (append_assoc x (b'.' ∷ before_dots xs) t)
          ∙ labels-append [] x (before_dots xs ++ t)
          ∙ ap (λ l. labels [] x ++ l) r.1
          ∙ sym (append_assoc (labels [] x) r.0 (labels [] t)),
    )

labels_some : (part s : Bytes) → (y : Bytes) × (ys : List Bytes) × (labels part s ≡ y ∷ ys)
unfolding labels
labels_some part [] = (part, [], refl)
labels_some part (c ∷ s) = elim (Bool-cases (c == b'.')) [
  | inl e ↦ (part, labels [] s, rw e refl)
  | inr e ↦ let r = labels_some (part ++ c ∷ []) s in (r.0, r.1, rw e r.2)
]

after_some :
    (l : List Bytes) (y : Bytes) (ys : List Bytes) → l ≡ y ∷ ys → after_dots l ≡ b'.' ∷ joined l
after_some l y ys e = rw e refl

-- The labels with dots between them are the host.
joined-labels : (part s : Bytes) → joined (labels part s) ≡ part ++ s
unfolding labels
joined-labels part [] = refl
joined-labels part (c ∷ s) = elim (Bool-cases (c == b'.')) [
  | inl e ↦
      let more = labels_some [] s in
      let dot : c ≡ b'.' = (==_iff c b'.').0 e in
      rw e (
        ap (λ l. part ++ l)
          (after_some (labels [] s) more.0 more.1 more.2
            ∙ ap (λ l. b'.' ∷ l) (joined-labels [] s)
            ∙ ap (λ d. d ∷ s) (sym dot)))
  | inr e ↦ rw e (joined-labels (part ++ c ∷ []) s ∙ append_assoc part (c ∷ []) s)
]

after_split :
    (xs ys : List Bytes) (y : Bytes) → after_dots (xs ++ y ∷ ys) ≡ b'.' ∷ joined (xs ++ y ∷ ys)
after_split [] ys y = refl
after_split (x ∷ xs) ys y = refl

joined-split :
    (xs ys : List Bytes) (y : Bytes)
    → joined (xs ++ y ∷ ys) ≡ before_dots xs ++ (y ++ after_dots ys)
joined-split [] ys y = refl
joined-split (x ∷ xs) ys y =
    ap (λ l. x ++ l) (after_split xs ys y ∙ ap (λ l. b'.' ∷ l) (joined-split xs ys y))
    ∙ sym (append_assoc x (b'.' ∷ before_dots xs) (y ++ after_dots ys))

-- A host, seen from one of its labels.
pub labels_split :
    (d : Bytes) (xs ys : List Bytes) (y : Bytes)
    → labels [] d ≡ xs ++ y ∷ ys
    → d ≡ before_dots xs ++ (y ++ after_dots ys)
labels_split d xs ys y e = sym (joined-labels [] d) ∙ ap joined e ∙ joined-split xs ys y

pub labels-NoDot : (part s : Bytes) → NoDot part → All NoDot (labels part s)
unfolding labels
labels-NoDot part [] h = (h, tt)
labels-NoDot part (c ∷ s) h = elim (Bool-cases (c == b'.')) [
  | inl e ↦ rw e (h, labels-NoDot [] s tt)
  | inr e ↦ rw e (
      labels-NoDot (part ++ c ∷ []) s
        (All-append (λ b. (b == b'.') ≡ false) part (c ∷ []) h (e, tt)))
]
