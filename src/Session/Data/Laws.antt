-- ===== src/Session/Data/Laws.antt =====
-- The values of a session: what is put in is found, and what is taken out is gone.
use wx.Common.{
  ◌≤◌, ◌≡◌, false, Option, none, some, List, [], ◌++◌, Bytes, Returns, Option-cases, inl, inr,
  lookup, lookup-assign, lookup-erase, if◌then◌else◌, length, refl, ap,
}
use wx.Session.Token.{session_prefix, url_encoded_token_len, url_encoded_csrf_token_len}
use wx.Session.Data.{
  modified, unmodified, Value, Data, entries, cleared, deleted, reset, put, get, pop, exists,
}

module _ {T : Type 0} where
  -- The data as the pool makes them, in use: the token stands behind the prefix of its key in an array
  -- of its full length, the csrf token has its room, and the map is not nil.
  pub record IsSound (d : Data T) : Type 0 where
    pub prefixed : d.token.front ≡ session_prefix
    pub sized : length (d.token.text ++ d.token.spare) ≡ url_encoded_token_len
    pub csrf_sized : url_encoded_csrf_token_len ≤ length (d.csrf_token.text ++ d.csrf_token.spare)
    pub made : (m : List (Bytes × Value T)) × (d.values ≡ some m)

  -- Put never panics for sound data: the value is found again, the status is modified, and the data
  -- stay sound.
  pub put-get :
      (k : Bytes) (v : Value T) (d : Data T)
      → IsSound d
      → Returns (λ e. (get k e ≡ v) × (e.status ≡ modified) × IsSound e) (put k v d)
  unfolding put get
  put-get k v d s = rw (s.made.1) (
    rw (get, lookup-assign k v s.made.0) refl,
    refl,
    record { prefixed = s.prefixed; sized = s.sized; csrf_sized = s.csrf_sized; made = (_, refl) },
  )

  lookup-deleted :
      (k : Bytes) (m : Option (List (Bytes × Value T))) → lookup k (entries (deleted k m)) ≡ none
  unfolding lookup
  lookup-deleted k none = refl
  lookup-deleted k (some m) = lookup-erase k m

  -- Pop returns what Get finds; afterwards the key does not exist, and the status is modified if
  -- the key did exist, and what it was if it did not.
  pub pop-get :
      (k : Bytes) (d : Data T)
      → ((pop k d).1 ≡ get k d)
        × (exists k (pop k d).0 ≡ false)
        × ((pop k d).0.status ≡ (if exists k d then modified else d.status))
  unfolding pop get exists
  pop-get k d = elim (Option-cases (lookup k (entries d.values))) [
    | inl q ↦ rw (q, pop, get, exists, q) (refl, refl, refl)
    | inr (v, q) ↦
        rw (q, pop, get, exists) (refl, rw (lookup-deleted k d.values, exists) refl, refl)
  ]

  -- What the pool takes back is sound, unmodified, and has no token, no csrf token and no values.
  pub reset-IsSound :
      (d : Data T)
      → IsSound d
      → IsSound (reset d)
        × ((reset d).status ≡ unmodified)
        × ((reset d).token.text ≡ [])
        × ((reset d).csrf_token.text ≡ [])
        × ((reset d).values ≡ some [])
  unfolding reset
  reset-IsSound d s = (
    record {
      prefixed = s.prefixed;
      sized = s.sized;
      csrf_sized = s.csrf_sized;
      made = ([], ap cleared s.made.1);
    },
    refl,
    refl,
    refl,
    ap cleared s.made.1,
  )
