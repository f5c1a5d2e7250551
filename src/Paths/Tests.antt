-- ===== src/Paths/Tests.antt =====
-- Paths in their canonical form.
use wx.Paths.Total.{clean_url_path-Returns}
use wx.Common.{Returns, length, suc, ◌<◌, ◌≤◌, codes, done, [], ◌≡◌, refl}
use wx.Paths.{clean_url_path}

empty_path : clean_url_path [] ≡ done (codes "/")
unfolding clean_url_path
empty_path = refl

unchanged : clean_url_path (codes "/a/b/") ≡ done (codes "/a/b/")
unfolding clean_url_path
unchanged = refl

made_absolute : clean_url_path (codes "a//b") ≡ done (codes "/a/b")
unfolding clean_url_path
made_absolute = refl

parents : clean_url_path (codes "/a/b/../../../c/.") ≡ done (codes "/c/")
unfolding clean_url_path
parents = refl

clean_url_path-Returns_example :
    Returns
      (λ u. (0 < length u) × (length u ≤ suc (length (codes "a/../b"))))
      (clean_url_path (codes "a/../b"))
clean_url_path-Returns_example = clean_url_path-Returns (codes "a/../b")
