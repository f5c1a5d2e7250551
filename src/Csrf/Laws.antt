-- ===== src/Csrf/Laws.antt =====
-- Which requests the check of the csrf token lets through.
use wx.Common.{
  ◌∷◌, ◌++◌, none, some, ap, length, ◌==◌, arith, if◌then◌else◌, ◌≡◌, ◌≢◌, ◌⊎◌, ◌↔◌, Bool, true,
  false, ◌||◌, Option, [], Bytes, codes, Bool-cases, inl, inr, refl, sym, ◌∙◌, List,
}
use wx.Session.Hash.{validate_hash}
use wx.Csrf.{
  domain, path, key, value, max_age, secure, same_site, when_filled, new_cookie, cookie_for, Config,
  Request, Outcome, Setting, mismatch, passed, handle, is_reading, in_except_array, tokens_match,
}
use wx.Csrf.Contained.{
  Within, Excepted, Sends, has_substring_iff, in_except_array_iff, tokens_match_iff,
}
use wx.Csrf.Sums.{HasSum, validate_hash_iff}

abbrev pub LetThrough : Config → Request → Bytes → Type 0
LetThrough cfg q token2 =
    Within q.method (codes "HEADGETOPTIONS")
    ⊎ Excepted cfg q
    ⊎ ((token2 ≢ []) × Sends q token2)
    ⊎ HasSum token2

abbrev given : Bytes → Setting → List Setting
given [] x = []
given (b ∷ s) x = x ∷ []

-- What the csrf cookie is made of: a domain and a path if they are configured, the name, the token, and
-- the three other values.
abbrev pub settings_of : Config → Bytes → List Setting
settings_of cfg token =
    given cfg.cok_domain (domain cfg.cok_domain)
    ++ (given cfg.cok_path (path cfg.cok_path)
        ++ (key (codes "XSRF-TOKEN")
            ∷ value token
            ∷ max_age cfg.cok_lifetime
            ∷ secure cfg.cok_secure
            ∷ same_site cfg.cok_same_site
            ∷ []))

-- The cookie of a response: none for an empty token, or if the cookies are switched off.
abbrev pub cookie_of : Config → Bytes → Option (List Setting)
cookie_of cfg [] = none
cookie_of cfg (x ∷ token) = if cfg.no_cookie then none else some (settings_of cfg (x ∷ token))

when_filled-given :
    (s : Bytes) (x : Setting) (rest : List Setting) → when_filled s x rest ≡ given s x ++ rest
when_filled-given [] x rest = refl
when_filled-given (b ∷ s) x rest = refl

new_cookie-settings_of :
    (cfg : Config) (token : Bytes) → new_cookie cfg token ≡ settings_of cfg token
unfolding new_cookie
new_cookie-settings_of cfg token =
    when_filled-given cfg.cok_domain (domain cfg.cok_domain) _
    ∙ ap (λ l. given cfg.cok_domain (domain cfg.cok_domain) ++ l)
        (when_filled-given cfg.cok_path (path cfg.cok_path) _)

cookie_for-cookie_of : (cfg : Config) (token : Bytes) → cookie_for cfg token ≡ cookie_of cfg token
unfolding cookie_for
cookie_for-cookie_of cfg [] = elim (Bool-cases cfg.no_cookie) [
  | inl e ↦ rw e refl
  | inr e ↦ rw e refl
]
cookie_for-cookie_of cfg (x ∷ token) = elim (Bool-cases cfg.no_cookie) [
  | inl e ↦ rw e refl
  | inr e ↦
      let filled_token : (length (x ∷ token) == 0) ≡ false = ground arith in
      rw (e, filled_token) (ap (λ l. some l) (new_cookie-settings_of cfg (x ∷ token)))
]

either : (a b : Bool) → ((a || b) ≡ true) ↔ ((a ≡ true) ⊎ (b ≡ true))
either true b = (λ h. inl refl, λ h. refl)
either false b = (λ h. inr h, other)
  where
    other : (false ≡ true) ⊎ (b ≡ true) → b ≡ true
    other (inl h) = cc
    other (inr h) = h

false-ne-true : ◌≡◌ {A = Bool} false true → ⊥
false-ne-true h = cc

is_reading_iff : (q : Request) → (is_reading q ≡ true) ↔ Within q.method (codes "HEADGETOPTIONS")
unfolding is_reading
is_reading_iff q = has_substring_iff (codes "HEADGETOPTIONS") q.method

-- The condition of `handle`.
abbrev tested : Config → Request → Bytes → Bool
tested cfg q token2 =
    is_reading q || (in_except_array cfg q || (tokens_match q token2 || validate_hash token2))

let_through :
    (cfg : Config) (q : Request) (token2 : Bytes)
    → tested cfg q token2 ≡ true
    → LetThrough cfg q token2
let_through cfg q token2 h = elim ((either (is_reading q) _).0 h) [
  | inl a ↦ inl ((is_reading_iff q).0 a)
  | inr k ↦ elim ((either (in_except_array cfg q) _).0 k) [
    | inl b ↦ inr (inl ((in_except_array_iff cfg q).0 b))
    | inr l ↦ elim ((either (tokens_match q token2) (validate_hash token2)).0 l) [
      | inl c ↦ inr (inr (inl ((tokens_match_iff q token2).0 c)))
      | inr d ↦ inr (inr (inr ((validate_hash_iff token2).0 d)))
    ]
  ]
]

tested-true :
    (cfg : Config) (q : Request) (token2 : Bytes)
    → LetThrough cfg q token2
    → tested cfg q token2 ≡ true
tested-true cfg q token2 (inl a) = (either (is_reading q) _).1 (inl ((is_reading_iff q).1 a))
tested-true cfg q token2 (inr (inl b)) =
    (either (is_reading q) _).1
      (inr ((either (in_except_array cfg q) _).1 (inl ((in_except_array_iff cfg q).1 b))))
tested-true cfg q token2 (inr (inr (inl c))) = (either (is_reading q) _).1 (
    inr (
      (either (in_except_array cfg q) _).1
        (inr ((either (tokens_match q token2) _).1 (inl ((tokens_match_iff q token2).1 c))))))
tested-true cfg q token2 (inr (inr (inr d))) = (either (is_reading q) _).1 (
    inr (
      (either (in_except_array cfg q) _).1
        (inr ((either (tokens_match q token2) _).1 (inr ((validate_hash_iff token2).1 d))))))

module _ {R E : Type 0} where
  -- The check stops a request with the mismatch, before the next handlers, exactly if none of
  -- these holds: its method stands somewhere in the text HEADGETOPTIONS; its path begins with an
  -- excepted one; the session has a token that is not empty, and the request sends the same, as
  -- the first that is not empty of the form value and the two headers; the last two bytes of the
  -- session's token are the sum of its first three. Exactly if one of them holds, the next
  -- handlers run, and the response has a cookie with the session's token and the configured
  -- values, if that token is not empty and the cookies are not switched off.
  pub handle_iff :
      (cfg : Config) (q : Request) (token2 : Bytes) (next : R → Option E × R) (r : R)
      → ((handle cfg q token2 next r ≡ mismatch) ↔ (¬ LetThrough cfg q token2))
        × ((handle cfg q token2 next r ≡ passed (next r).0 (next r).1 (cookie_of cfg token2))
            ↔ LetThrough cfg q token2)
  unfolding handle
  handle_iff cfg q token2 next r = elim (Bool-cases (tested cfg q token2)) [
    | inl e ↦ (
      (λ h l. not_mismatch (rw e at h), λ n. absurd (n (let_through cfg q token2 e))),
      (λ h. let_through cfg q token2 e, λ l. rw (e, cookie_for-cookie_of cfg token2) refl),
    )
    | inr e ↦ (
      (λ h l. false-ne-true (sym e ∙ tested-true cfg q token2 l), λ n. rw e refl),
      (
        λ h. absurd (not_mismatch (sym (rw e at h))),
        λ l. absurd (false-ne-true (sym e ∙ tested-true cfg q token2 l)),
      ),
    )
  ]
    where
      not_mismatch :
          {o : Option E} {s : R} {k : Option (List Setting)}
          → ◌≡◌ {A = Outcome R E} (passed o s k) mismatch
          → ⊥
      not_mismatch h = cc
