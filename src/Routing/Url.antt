-- ===== src/Routing/Url.antt =====
-- `Route.URLByIndex` and `Route.URLByNames` of fasthttp-routing/route.go. An error is a value that
-- says what the source's message says; an index out of range and a nil regular expression panic.
pub mod Index
pub mod Names
pub mod Pairs
use wx.Common.{
  ℕ, zero, suc, ◌+◌, ◌-◌, ◌/◌, ◌%◌, Bool, true, false, not, ◌||◌, Option, none, some, List, [], ◌∷◌,
  ◌++◌, Bytes, Panics, panic, nil_pointer, done, ◌>>=◌, checked, ◌==◌, same, if◌then◌else◌, length,
  get_elem?, take, drop,
}
use wx.Routing.Store.Node.{Regexp}
use wx.Routing.Template.{Segments}

pub data UrlError : Type 0 where
  bad_count : ℕ → ℕ → UrlError
  has_slash : Bytes → UrlError
  no_match : Bytes → Bytes → UrlError
  unknown_name : Bytes → UrlError

pub data Url : Type 0 where
  url : Bytes → Url
  failed : UrlError → Url

-- `strings.Contains(s, "/")`
unfoldable pub contains_slash : Bytes → Bool
contains_slash [] = false
contains_slash (c ∷ s) = c == b'/' || contains_slash s

-- The end of both functions: an error of the checks, or the text that is built.
abbrev pub finish : Option UrlError → Panics Bytes → Panics Url
finish (some e) built = done (failed e)
finish none built = built >>= (λ u. done (url u))

-- An error ends a loop of checks.
abbrev pub or_else : Panics (Option UrlError) → Option UrlError → Panics (Option UrlError)
or_else rest (some e) = done (some e)
or_else rest none = rest

-- One value against the pattern of its parameter.
unfoldable pub check_value : Regexp → Option Bytes → Bytes → Option UrlError
unfolding contains_slash
check_value rx none v = if contains_slash v then some (has_slash v) else none
check_value rx (some p) v = if rx.matches p v then none else some (no_match v p)

-- The second loop of `URLByIndex`: `url` so far, and the index `j` of the next parameter.
unfoldable pub fill_index : List Bytes → List Bytes → ℕ → Bytes → Panics Bytes
fill_index params [] j out = done out
fill_index params (s ∷ ss) j out = do
  b ← checked (get_elem? s 0)
  let param = checked (get_elem? params j) >>= (λ v. fill_index params ss (j + 1) (out ++ v))
  let text = fill_index params ss j (out ++ s)
  if b == b'<' then param else text

-- The index of the first parameter with the name `n`, in the loop of `URLByNames` over the names.
unfoldable pub index_of : List Bytes → Bytes → Option ℕ
unfolding same
index_of [] n = none
index_of (m ∷ ms) n =
    if same n m then some 0 else elim (index_of ms n) [ none ↦ none | some i ↦ some (suc i) ]

-- The value for a segment: what follows the first of `names` that is the segment's name.
unfoldable pub value_for : Bytes → List Bytes → Panics Bytes
unfolding same
value_for n [] = done []
value_for n (m ∷ ms) = if same n m then checked (get_elem? ms 0) else value_for n ms

unfoldable pub fill_names : List Bytes → List Bytes → Bytes → Panics Bytes
unfolding value_for
fill_names names [] out = done out
fill_names names (s ∷ ss) out = do
  b ← checked (get_elem? s 0)
  let param =
      value_for (take (length s - 2) (drop 1 s)) names >>= (λ v. fill_names names ss (out ++ v))
  let text = fill_names names ss (out ++ s)
  if b == b'<' then param else text

module _ (rx : Regexp) (r : Segments) where
  -- The first loop of `URLByIndex`, from index `i`.
  unfoldable pub check_index : ℕ → List Bytes → Panics (Option UrlError)
  unfolding check_value
  check_index i [] = done none
  check_index i (v ∷ vs) = do
    p ← checked (get_elem? r.patterns i)
    or_else (check_index (i + 1) vs) (check_value rx p v)

  unfoldable pub url_by_index : List Bytes → Panics Url
  unfolding check_index fill_index
  url_by_index params =
      if length params == length r.names
      then (check_index 0 params >>= (λ e. finish e (fill_index params r.segments 0 [])))
      else done (failed (bad_count (length r.names) (length params)))

  -- `r.regexps[i].String()` in the error of `URLByNames`, at the index `i` of the name in `names`.
  unfoldable pub regexp_text : ℕ → Panics Bytes
  regexp_text i = do
    p ← checked (get_elem? r.patterns i)
    elim p [ none ↦ panic nil_pointer | some q ↦ done (b'^' ∷ q) ]

  -- The check of the value at `names[i+1]` for the parameter at `i1`.
  unfoldable pub check_named : List Bytes → ℕ → ℕ → Panics (Option UrlError)
  unfolding contains_slash regexp_text
  check_named names i i1 = do
    p ← checked (get_elem? r.patterns i1)
    v ← checked (get_elem? names (i + 1))
    elim p [
      | none ↦ done (if contains_slash v then some (has_slash v) else none)
      | some q ↦
          let bad = regexp_text i >>= (λ t. done (some (no_match v t))) in
          if rx.matches q v then done none else bad
    ]

  -- The first loop of `URLByNames`: the names left, and the index of the first of them.
  unfoldable pub check_names : List Bytes → List Bytes → ℕ → Panics (Option UrlError)
  unfolding index_of check_named
  check_names names [] i = done none
  check_names names (n ∷ ns) i =
      let rest = check_names names ns (i + 1) in
      let named : Panics (Option UrlError) = elim (index_of r.names n) [
        | none ↦ done (some (unknown_name n))
        | some i1 ↦ check_named names i i1 >>= or_else rest
      ] in
      if i % 2 == 0 then named else rest

  unfoldable pub url_by_names : List Bytes → Panics Url
  unfolding check_names fill_names
  url_by_names names =
      if length names / 2 == length r.names
      then (check_names names names 0 >>= (λ e. finish e (fill_names names r.segments [])))
      else done (failed (bad_count (length r.names) (length names / 2)))
