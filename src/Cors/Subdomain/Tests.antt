-- ===== src/Cors/Subdomain/Tests.antt =====
-- A domain below a wildcard.
use wx.Common.{codes, ◌≡◌, ◌≤◌, ◌↔◌, true, length, refl, [], ◌∷◌, ◌++◌, Returns, done, false}
use wx.Cors.Subdomain.{match_subdomain, turned}
use wx.Cors.Subdomain.Wildcard.{IsBelow, match_subdomain_lem}

match_subdomain_example :
    Returns
      (λ b. (b ≡ true) ↔ (
        (codes "http" ≡ codes "http")
        × (length (codes "a.b.c") ≤ 253)
        × IsBelow (codes "a.b.c") (codes "*.c")))
      (match_subdomain
        (codes "http" ++ codes "://" ++ codes "a.b.c")
        (codes "http" ++ codes "://" ++ codes "*.c"))
match_subdomain_example =
    match_subdomain_lem (codes "http") (codes "http") (codes "a.b.c") (codes "*.c")
      (refl, (refl, (refl, (refl, tt)))) (refl, (refl, (refl, (refl, tt))))

-- An even number of labels.
turns_four :
    turned (codes "a" ∷ codes "b" ∷ codes "c" ∷ codes "d" ∷ [])
    ≡ done (codes "d" ∷ codes "c" ∷ codes "b" ∷ codes "a" ∷ [])
unfolding turned
turns_four = refl

other_end : match_subdomain (codes "http://a.b.c") (codes "http://*.b") ≡ done false
unfolding match_subdomain
other_end = refl
