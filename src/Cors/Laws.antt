-- ===== src/Cors/Laws.antt =====
-- Which origins a response allows.
use wx.Common.{
  ℕ, Bool, true, false, ◌&&◌, Option, none, some, [], ◌∷◌, Bytes, ◌≡◌, ◌≢◌, ◌⊎◌, inl, inr,
  if◌then◌else◌, arith, refl, ap, sym, ◌∙◌,
}
use wx.Cors.{
  Headers, Request, Config, allow_origin, vary, origin_name, header, bytes_of, filled, is_true,
  is_any, elements, set_origin, is_origin_allowed, contains, any_match, configure_allowed_origin,
  cors, has_matching_path, is_preflight_request,
}

names_apart : allow_origin ≢ vary
names_apart e = differ (ap (λ s. elim s [ [] ↦ 0 | c ∷ t ↦ c ]) e)
  where
    differ : ◌≡◌ {A = ℕ} 65 86 → ⊥
    differ k = omega (arith, k)

and_false : (b : Bool) → (b && false) ≡ false
and_false true = refl
and_false false = refl

module _ {R : Type 0} (h : Headers R) where
  set_origin_lem :
      (o : Option Bytes) (r : R)
      → (h.peek allow_origin (set_origin h o r) ≡ h.peek allow_origin r)
        ⊎ (o ≡ some (h.peek allow_origin (set_origin h o r)))
  set_origin_lem none r = inl refl
  set_origin_lem (some o) r = inr (ap some (sym (h.peek-set allow_origin o r)))

  -- What is kept is kept by a later entry of Vary.
  vary_lem :
      (o : Option Bytes) (r s : R) (v : Bytes)
      → (h.peek allow_origin s ≡ h.peek allow_origin r) ⊎ (o ≡ some (h.peek allow_origin s))
      → (h.peek allow_origin (h.add vary v s) ≡ h.peek allow_origin r)
        ⊎ (o ≡ some (h.peek allow_origin (h.add vary v s)))
  vary_lem o r s v (inl e) = inl (h.peek-add_other allow_origin vary v s names_apart ∙ e)
  vary_lem o r s v (inr e) =
      inr (e ∙ ap some (sym (h.peek-add_other allow_origin vary v s names_apart)))

  -- With credentials, the allowed origin is left as it was or is the origin of the request, and never a
  -- wildcard that the request has not sent itself.
  pub credentials_origin :
      (cfg : Config) (q : Request) (r : R)
      → cfg.supports_credentials ≡ true
      → (h.peek allow_origin (configure_allowed_origin h cfg q r) ≡ h.peek allow_origin r)
        ⊎ (header q origin_name ≡ some (h.peek allow_origin (configure_allowed_origin h cfg q r)))
  unfolding configure_allowed_origin
  credentials_origin cfg q r c =
      let o = header q origin_name in
      let any = is_any (elements cfg.allowed_origins) cfg.allowed_origins_patterns in
      let given = filled (bytes_of o) && is_origin_allowed cfg q in
      rw (c, and_false)
        (either any (set_origin h o r) _ (set_origin_lem o r) (
          vary_lem o r (if given then set_origin h o r else r) origin_name
            (either given (set_origin h o r) r (set_origin_lem o r) (inl refl))))
    where
      Kept : R → Type 0
      Kept s =
          (h.peek allow_origin s ≡ h.peek allow_origin r)
          ⊎ (header q origin_name ≡ some (h.peek allow_origin s))

      either : (b : Bool) (s t : R) → Kept s → Kept t → Kept (if b then s else t)
      either true s t x y = x
      either false s t x y = y

  -- A request whose origin is neither in the list nor matched by a pattern leaves the allowed origin as
  -- it was, where the list is not empty, and is not one asterisk with no patterns.
  pub denied_origin :
      (cfg : Config) (q : Request) (r : R)
      → is_true cfg.allowed_origins ≡ false
      → is_any (elements cfg.allowed_origins) cfg.allowed_origins_patterns ≡ false
      → contains (elements cfg.allowed_origins) (bytes_of (header q origin_name)) ≡ false
      → any_match cfg.allowed_origins_patterns (bytes_of (header q origin_name)) ≡ false
      → h.peek allow_origin (configure_allowed_origin h cfg q r) ≡ h.peek allow_origin r
  unfolding configure_allowed_origin is_origin_allowed
  denied_origin cfg q r t a l m =
      rw (t, a, l, m, and_false) (h.peek-add_other allow_origin vary origin_name r names_apart)

module _ {R E : Type 0} (h : Headers R) where
  -- A preflight request on a path of the middleware that is not skipped never reaches the next handlers:
  -- the response is the same for all of them, and there is no error.
  pub preflight_stops :
      (cfg : Config) (no_content : R → R) (q : Request) (next other : R → Option E × R) (r : R)
      → has_matching_path cfg q ≡ true
      → is_preflight_request q ≡ true
      → (cors h cfg false no_content q next r ≡ cors h cfg false no_content q other r)
        × ((cors h cfg false no_content q next r).0 ≡ none)
  unfolding cors
  preflight_stops cfg no_content q next other r p f = rw (p, f) (refl, refl)
