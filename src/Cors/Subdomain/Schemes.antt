-- ===== src/Cors/Subdomain/Schemes.antt =====
-- The scheme of a domain that is written out, and the host behind it.
use wx.Common.{
  suc, ◌+◌, false, some, [], ◌∷◌, ◌++◌, Bytes, codes, length, take, drop, same, All, ◌==◌, ◌≡◌,
  refl, ap, arith,
}
use wx.Cors.Subdomain.{match_scheme, index}

abbrev pub NoColon : Bytes → Type 0
NoColon = All (λ c. (c == b':') ≡ false)

index_colon :
    (s d : Bytes) → NoColon s → index (codes ":") (s ++ codes "://" ++ d) ≡ some (length s)
unfolding index same
index_colon [] d h = refl
index_colon (c ∷ s) d (e, h) = rw (e, index_colon s d h) refl

pub index_slashes :
    (s d : Bytes) → NoColon s → index (codes "://") (s ++ codes "://" ++ d) ≡ some (length s)
unfolding index same
index_slashes [] d h = refl
index_slashes (c ∷ s) d (e, h) = rw (e, index_slashes s d h) refl

take_scheme : (s d : Bytes) → take (length s) (s ++ codes "://" ++ d) ≡ s
take_scheme [] d = refl
take_scheme (c ∷ s) d = ap (λ t. c ∷ t) (take_scheme s d)

pub drop_scheme : (s d : Bytes) → drop (length s + 3) (s ++ codes "://" ++ d) ≡ d
drop_scheme [] d = refl
drop_scheme (c ∷ s) d =
    let n : length (c ∷ s) + 3 ≡ suc (length s + 3) = omega arith in rw n (drop_scheme s d)

pub match_scheme_lem :
    (s t d p : Bytes)
    → NoColon s
    → NoColon t
    → match_scheme (s ++ codes "://" ++ d) (t ++ codes "://" ++ p) ≡ same s t
unfolding match_scheme
match_scheme_lem s t d p hs ht =
    rw (match_scheme, index_colon s d hs, index_colon t p ht, take_scheme s d, take_scheme t p) refl
