-- ===== src/Csrf/Contained.antt =====
-- What the tests of fasthttp-routing/middleware/csrf/verifyCsrfToken.go find: a method in the text of the
-- reading methods, an excepted path, and the token of the request.
use wx.Common.{
  arith, ℕ, zero, suc, ◌≡◌, ◌≢◌, ◌⊎◌, ◌↔◌, ◌==◌, ==_iff, Bool, true, false, not, ◌&&◌, ◌||◌, some,
  List, [], ◌∷◌, ◌++◌, Bytes, Bool-cases, get_elem?, length, same, same_iff, inl, inr, refl, sym,
  ap, subst, ◌∙◌,
}
use mathlib.Core.Option.{some-injective}
use wx.Cors.{has_prefix, any_prefix}
use wx.Csrf.{
  Config, Request, in_except_array, has_substring, tokens_match, get_token_from_request,
  first_filled,
}

abbrev pub StartsWith : Bytes → Bytes → Type 0
StartsWith s p = (rest : Bytes) × (s ≡ p ++ rest)

-- `p` stands somewhere in `s`.
abbrev pub Within : Bytes → Bytes → Type 0
Within p s = (before : Bytes) × (after : Bytes) × (s ≡ before ++ (p ++ after))

-- The path begins as one of the excepted ones.
abbrev pub Excepted : Config → Request → Type 0
Excepted cfg q = (i : ℕ) × (p : Bytes) × (get_elem? cfg.except i ≡ some p) × StartsWith q.path p

-- The token of the form, or else that of the first header, or else that of the second.
abbrev pub Sends : Request → Bytes → Type 0
Sends q t =
    ((q.form_token ≢ []) × (q.form_token ≡ t))
    ⊎ ((q.form_token ≡ []) × (q.meta_token ≢ []) × (q.meta_token ≡ t))
    ⊎ ((q.form_token ≡ []) × (q.meta_token ≡ []) × (q.cookie_token ≡ t))

starts : (s p : Bytes) → has_prefix s p ≡ true → StartsWith s p
unfolding has_prefix
starts s [] h = (s, refl)
starts [] (c ∷ p) h = cc
starts (b ∷ s) (c ∷ p) h = elim (Bool-cases (b == c)) [
  | inl e ↦
      let r = starts s p (rw e at h) in
      (r.0, ap (λ x. x ∷ s) ((==_iff b c).0 e) ∙ ap (λ x. c ∷ x) r.1)
  | inr e ↦ let no : false ≡ true = rw e at h in cc
]

has_prefix-append : (p rest : Bytes) → has_prefix (p ++ rest) p ≡ true
unfolding has_prefix
has_prefix-append [] rest = refl
has_prefix-append (c ∷ p) rest = rw ((==_iff c c).1 refl) (has_prefix-append p rest)

has_prefix_iff : (s p : Bytes) → (has_prefix s p ≡ true) ↔ StartsWith s p
has_prefix_iff s p = (starts s p, λ (rest, e). rw e (has_prefix-append p rest))

or_true : (b : Bool) → (b || true) ≡ true
or_true true = refl
or_true false = refl

within : (s p : Bytes) → has_substring s p ≡ true → Within p s
unfolding has_substring
within [] p h = let r = starts [] p h in ([], r.0, r.1)
within (b ∷ s) p h = elim (Bool-cases (has_prefix (b ∷ s) p)) [
  | inl e ↦ let r = starts (b ∷ s) p e in ([], r.0, r.1)
  | inr e ↦ let r = within s p (rw e at h) in (b ∷ r.0, r.1, ap (λ x. b ∷ x) r.2)
]

has_substring-append : (before p after : Bytes) → has_substring (before ++ (p ++ after)) p ≡ true
unfolding has_substring
has_substring-append [] p after = at_start (p ++ after) (has_prefix-append p after)
  where
    at_start : (s : Bytes) → has_prefix s p ≡ true → has_substring s p ≡ true
    at_start [] e = e
    at_start (b ∷ s) e = rw e refl
has_substring-append (b ∷ before) p after =
    rw (has_substring-append before p after, or_true (has_prefix (b ∷ (before ++ (p ++ after))) p))
      refl

pub has_substring_iff : (s p : Bytes) → (has_substring s p ≡ true) ↔ Within p s
has_substring_iff s p =
    (within s p, λ (before, after, e). rw e (has_substring-append before p after))

excepted :
    (s : Bytes) (ps : List Bytes)
    → any_prefix s ps ≡ true
    → (i : ℕ) × (p : Bytes) × (get_elem? ps i ≡ some p) × StartsWith s p
unfolding any_prefix
excepted s [] h = cc
excepted s (p ∷ ps) h = elim (Bool-cases (has_prefix s p)) [
  | inl e ↦ (0, p, refl, starts s p e)
  | inr e ↦ let r = excepted s ps (rw e at h) in (suc r.0, r.1, r.2, r.3)
]

any_prefix_at :
    (s : Bytes) (ps : List Bytes) (i : ℕ) (p : Bytes)
    → get_elem? ps i ≡ some p
    → has_prefix s p ≡ true
    → any_prefix s ps ≡ true
unfolding any_prefix
any_prefix_at s [] i p e h = cc
any_prefix_at s (q ∷ ps) zero p e h =
    let f : has_prefix s q ≡ true =
      subst (λ z. has_prefix s z ≡ true) (sym (some-injective q p e)) h in
    rw f refl
any_prefix_at s (q ∷ ps) (suc i) p e h =
    rw (any_prefix_at s ps i p e h, or_true (has_prefix s q)) refl

pub in_except_array_iff :
    (cfg : Config) (q : Request) → (in_except_array cfg q ≡ true) ↔ Excepted cfg q
unfolding in_except_array
in_except_array_iff cfg q = (
  excepted q.path cfg.except,
  λ (i, p, e, s). any_prefix_at q.path cfg.except i p e ((has_prefix_iff q.path p).1 s),
)

first_sent :
    (f m c t : Bytes)
    → first_filled f (first_filled m c) ≡ t
    → ((f ≢ []) × (f ≡ t)) ⊎ ((f ≡ []) × (m ≢ []) × (m ≡ t)) ⊎ ((f ≡ []) × (m ≡ []) × (c ≡ t))
first_sent (x ∷ f) m c t e = inl (λ n. cc, e)
first_sent [] (x ∷ m) c t e = inr (inl (refl, λ n. cc, e))
first_sent [] [] c t e = inr (inr (refl, refl, e))

sent_first :
    (f m c t : Bytes)
    → ((f ≢ []) × (f ≡ t)) ⊎ ((f ≡ []) × (m ≢ []) × (m ≡ t)) ⊎ ((f ≡ []) × (m ≡ []) × (c ≡ t))
    → first_filled f (first_filled m c) ≡ t
sent_first [] m c t (inl (n, e)) = absurd (n refl)
sent_first (x ∷ f) m c t (inl (n, e)) = e
sent_first f [] c t (inr (inl (h, n, e))) = absurd (n refl)
sent_first f (x ∷ m) c t (inr (inl (h, n, e))) = rw h e
sent_first f m c t (inr (inr (h, k, e))) = rw (h, k) e

pub get_token_iff : (q : Request) (t : Bytes) → (get_token_from_request q ≡ t) ↔ Sends q t
unfolding get_token_from_request
get_token_iff q t = (
  first_sent q.form_token q.meta_token q.cookie_token t,
  sent_first q.form_token q.meta_token q.cookie_token t,
)

false-ne-true : ◌≡◌ {A = Bool} false true → ⊥
false-ne-true h = cc

nonempty : (x : ℕ) (t : Bytes) → (suc (length t) == 0) ≡ false
nonempty x t = ground arith

both_filled :
    (t u : Bytes)
    → (((not (length t == 0) && not (length u == 0)) && same t u) ≡ true) ↔ ((u ≢ []) × (t ≡ u))
both_filled [] u = (λ h. cc, λ (n, e). absurd (n (sym e)))
both_filled (x ∷ t) [] =
    (λ h. absurd (false-ne-true (rw (nonempty x t) at h)), λ (n, e). absurd (n refl))
both_filled (x ∷ t) (y ∷ u) = (
  λ h. (λ e. cc, (same_iff (x ∷ t) (y ∷ u)).0 (rw (nonempty x t, nonempty y u) at h)),
  λ (n, e). rw (nonempty x t, nonempty y u) ((same_iff (x ∷ t) (y ∷ u)).1 e),
)

pub tokens_match_iff :
    (q : Request) (token2 : Bytes)
    → (tokens_match q token2 ≡ true) ↔ ((token2 ≢ []) × Sends q token2)
unfolding tokens_match
tokens_match_iff q token2 =
    let both = both_filled (get_token_from_request q) token2 in
    (
      λ h. let r = both.0 h in (r.0, (get_token_iff q token2).0 r.1),
      λ (n, s). both.1 (n, (get_token_iff q token2).1 s),
    )
