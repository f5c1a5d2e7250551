-- ===== src/Cors/Subdomain/Wildcard.antt =====
-- Which domains a pattern with a wildcard matches.
use wx.Common.{
  ℕ, ◌≤◌, Bool, true, false, List, [], ◌∷◌, ◌++◌, Bytes, codes, length, same, same_refl, same→eq,
  same_iff, ltb, ◌≢◌, append_assoc, subst, done, Returns, All, Bool-cases, ◌≡◌, ◌↔◌, inl, inr,
  if◌then◌else◌, refl, sym, ap, arith, ◌∙◌,
}
use wx.Cors.Subdomain.{match_labels, match_subdomain, labels}
use wx.Cors.Subdomain.Schemes.{NoColon, index_slashes, drop_scheme, match_scheme_lem}
use wx.Cors.Subdomain.Turned.{reversed, reversed-append, reversed_twice, All-reversed, turned_lem}
use wx.Cors.Subdomain.Labels.{
  NoDot, after_dots, before_dots, labels_plain, labels_behind, labels_split, labels-NoDot,
}

abbrev pub NotStar : Bytes → Type 0
NotStar p = p ≢ codes "*"

-- A host below a pattern: both end in the same labels, none of them a star, in front of which the
-- pattern has the label `*` and the host some label. What stands in front of these ends with a dot, if
-- there is anything.
pub record IsBelow (d p : Bytes) : Type 0 where
  pub common : List Bytes
  pub label : Bytes
  pub others : List Bytes
  pub left : List Bytes
  pub domain_eq : d ≡ before_dots others ++ (label ++ after_dots common)
  pub pattern_eq : p ≡ before_dots left ++ (codes "*" ++ after_dots common)
  pub label_whole : NoDot label
  pub common_whole : All NoDot common
  pub none_star : All NotStar common

-- The labels from the end.
record Agree (ds ps : List Bytes) : Type 0 where
  common : List Bytes
  label : Bytes
  others : List Bytes
  left : List Bytes
  domain_eq : ds ≡ common ++ label ∷ others
  pattern_eq : ps ≡ common ++ codes "*" ∷ left
  none_star : All NotStar common

not_star : (p : Bytes) → same p (codes "*") ≡ false → NotStar p
not_star p e h = let no : false ≡ true = sym e ∙ (same_iff p (codes "*")).1 h in cc

star_not : (p : Bytes) → NotStar p → same p (codes "*") ≡ false
star_not p n = elim (Bool-cases (same p (codes "*"))) [
  | inl e ↦ absurd (n (same→eq p (codes "*") e))
  | inr e ↦ e
]

agree : (ds ps : List Bytes) → match_labels ds ps ≡ true → Agree ds ps
unfolding match_labels
agree [] ps h = cc
agree (v ∷ vs) [] h = cc
agree (v ∷ vs) (p ∷ ps) h = elim (Bool-cases (same p (codes "*"))) [
  | inl e ↦ record {
    common = [];
    label = v;
    others = vs;
    left = ps;
    domain_eq = refl;
    pattern_eq = ap (λ q. q ∷ ps) (same→eq p (codes "*") e);
    none_star = tt;
  }
  | inr e ↦ elim (Bool-cases (same p v)) [
    | inl f ↦
        let r = agree vs ps (rw (match_labels, e, f) at h) in
        record {
          common = p ∷ r.common;
          label = r.label;
          others = r.others;
          left = r.left;
          domain_eq =
              ap (λ l. v ∷ l) r.domain_eq
              ∙ ap (λ x. x ∷ (r.common ++ r.label ∷ r.others)) (sym (same→eq p v f));
          pattern_eq = ap (λ l. p ∷ l) r.pattern_eq;
          none_star = (not_star p e, r.none_star);
        }
    | inr f ↦ let g : false ≡ true = rw (match_labels, e, f) at h in cc
  ]
]

matched :
    (common others left : List Bytes) (label : Bytes)
    → All NotStar common
    → match_labels (common ++ label ∷ others) (common ++ codes "*" ∷ left) ≡ true
unfolding match_labels same
matched [] others left label h = refl
matched (c ∷ common) others left label (e, h) =
    rw (star_not c e, same_refl c, matched common others left label h) refl

-- The outcome for domains that are written out.
matches_written :
    (s t d p : Bytes)
    → NoColon s
    → NoColon t
    → match_subdomain (s ++ codes "://" ++ d) (t ++ codes "://" ++ p)
      ≡ done (
          if same s t
          then (if ltb 253 (length d)
              then false
              else match_labels (reversed (labels [] d)) (reversed (labels [] p)))
          else false)
unfolding match_subdomain
matches_written s t d p hs ht =
    rw
      (
        match_subdomain,
        match_scheme_lem s t d p hs ht,
        index_slashes s d hs,
        index_slashes t p ht,
        drop_scheme s d,
        drop_scheme t p,
        turned_lem (labels [] d),
        turned_lem (labels [] p),
      )
      (outcome (same s t) (ltb 253 (length d)) _)
  where
    outcome :
        (a b c : Bool)
        → (if a then (if b then done false else done c) else done false)
          ≡ done (if a then (if b then false else c) else false)
    outcome true true c = refl
    outcome true false c = refl
    outcome false b c = refl

and_then :
    (s t : Bytes) (n : ℕ) (b : Bool)
    → ((if same s t then (if ltb 253 n then false else b) else false) ≡ true)
      ↔ ((s ≡ t) × (n ≤ 253) × (b ≡ true))
and_then s t n b = (forth, back)
  where
    forth :
        (if same s t then (if ltb 253 n then false else b) else false) ≡ true
        → (s ≡ t) × (n ≤ 253) × (b ≡ true)
    forth h = elim (Bool-cases (same s t)) [
      | inl e ↦ elim (Bool-cases (ltb 253 n)) [
        | inl f ↦ let no : false ≡ true = rw (e, f) at h in cc
        | inr f ↦ (same→eq s t e, ground (arith, f), rw (e, f) at h)
      ]
      | inr e ↦ let no : false ≡ true = rw e at h in cc
    ]

    back :
        (s ≡ t) × (n ≤ 253) × (b ≡ true)
        → (if same s t then (if ltb 253 n then false else b) else false) ≡ true
    back (e, le, h) =
        let f : ltb 253 n ≡ false = ground (arith, le) in
        let g : same s t ≡ true = rw e (same_refl t) in rw (g, f, h) refl

below :
    (d p : Bytes)
    → match_labels (reversed (labels [] d)) (reversed (labels [] p)) ≡ true
    → IsBelow d p
below d p h =
    let r = agree (reversed (labels [] d)) (reversed (labels [] p)) h in
    let whole = labels-NoDot [] d tt in
    let parts = All-split (reversed r.others) (reversed r.common) r.label in
    let ld : labels [] d ≡ reversed r.others ++ r.label ∷ reversed r.common =
      unturned (labels [] d) r.common r.others r.label r.domain_eq in
    let lp : labels [] p ≡ reversed r.left ++ codes "*" ∷ reversed r.common =
      unturned (labels [] p) r.common r.left (codes "*") r.pattern_eq in
    let kept = parts (subst (All NoDot) ld whole) in
    record {
      common = reversed r.common;
      label = r.label;
      others = reversed r.others;
      left = reversed r.left;
      domain_eq = labels_split d (reversed r.others) (reversed r.common) r.label ld;
      pattern_eq = labels_split p (reversed r.left) (reversed r.common) (codes "*") lp;
      label_whole = kept.0;
      common_whole = kept.1;
      none_star = All-reversed NotStar r.common r.none_star;
    }
  where
    unturned :
        (ls common others : List Bytes) (label : Bytes)
        → reversed ls ≡ common ++ label ∷ others
        → ls ≡ reversed others ++ label ∷ reversed common
    unturned ls common others label e =
        sym (reversed_twice ls)
        ∙ ap reversed e
        ∙ reversed-append common (label ∷ others)
        ∙ append_assoc (reversed others) (label ∷ []) (reversed common)

    All-split : (xs ys : List Bytes) (y : Bytes) → All NoDot (xs ++ y ∷ ys) → NoDot y × All NoDot ys
    All-split [] ys y h = h
    All-split (x ∷ xs) ys y (hx, h) = All-split xs ys y h

-- The labels of a host, from the end.
from_end :
    (d label : Bytes) (common others : List Bytes)
    → d ≡ before_dots others ++ (label ++ after_dots common)
    → NoDot label
    → All NoDot common
    → (rest : List Bytes) × (reversed (labels [] d) ≡ reversed common ++ label ∷ rest)
from_end d label common others e hl hc =
    let r = labels_behind others (label ++ after_dots common) in
    (
      reversed r.0,
      ap (λ x. reversed (labels [] x)) e
          ∙ ap reversed (r.1 ∙ ap (λ l. r.0 ++ l) (labels_plain [] label common hl hc))
          ∙ reversed-append r.0 (label ∷ common)
          ∙ append_assoc (reversed common) (label ∷ []) (reversed r.0),
    )

found :
    (d p : Bytes)
    → IsBelow d p
    → match_labels (reversed (labels [] d)) (reversed (labels [] p)) ≡ true
found d p r =
    let ds = from_end d r.label r.common r.others r.domain_eq r.label_whole r.common_whole in
    let ps = from_end p (codes "*") r.common r.left r.pattern_eq (refl, tt) r.common_whole in
    rw (ds.1, ps.1)
      (matched (reversed r.common) ds.0 ps.0 r.label (All-reversed NotStar r.common r.none_star))

-- For schemes that hold no colon: the comparison of a domain with a pattern returns, and they match
-- exactly if their schemes are the same, the host of the domain has no more than 253 bytes, and both
-- hosts end in the same labels, none of them a star, behind the label `*` of the pattern and some label
-- of the domain; the labels are what stands between the dots.
pub match_subdomain_lem :
    (s t d p : Bytes)
    → NoColon s
    → NoColon t
    → Returns
        (λ b. (b ≡ true) ↔ ((s ≡ t) × (length d ≤ 253) × IsBelow d p))
        (match_subdomain (s ++ codes "://" ++ d) (t ++ codes "://" ++ p))
match_subdomain_lem s t d p hs ht =
    let both =
      and_then s t (length d) (match_labels (reversed (labels [] d)) (reversed (labels [] p))) in
    rw (matches_written s t d p hs ht) (
      λ h. let (e, le, m) = both.0 h in (e, le, below d p m),
      λ (e, le, r). both.1 (e, le, found d p r),
    )
