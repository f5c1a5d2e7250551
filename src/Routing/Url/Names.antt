-- ===== src/Routing/Url/Names.antt =====
-- What `URLByNames` does with a value that does not match.
use wx.Common.{◌≡◌, true, false, some, List, [], ◌∷◌, Bytes, panic, index_range, same, same_refl}
use wx.Routing.Store.Node.{Regexp}
use wx.Routing.Template.{Segments}
use wx.Routing.Url.{url_by_names}

-- A route with two parameters, each with a pattern.
abbrev pub two_patterns : List Bytes → Bytes → Bytes → Bytes → Bytes → Segments
two_patterns segments n m p q = record {
  segments = segments;
  names = n ∷ m ∷ [];
  patterns = some p ∷ some q ∷ [];
}

-- For a route of two parameters with patterns, `URLByNames` panics when the second value does not
-- match: the error message reads the regular expression at the index of the name, not of the
-- parameter.
pub url_by_names_panics :
    (rx : Regexp) (segments : List Bytes) (n m p q v w : Bytes)
    → same m n ≡ false
    → rx.matches p v ≡ true
    → rx.matches q w ≡ false
    → url_by_names rx (two_patterns segments n m p q) (n ∷ v ∷ m ∷ w ∷ []) ≡ panic index_range
unfolding url_by_names
url_by_names_panics rx segments n m p q v w d hv hw = rw (same_refl n, d, same_refl m, hv, hw)
