-- ===== src/Session/Manager/Destroyed.antt =====
-- What a request does to a session that one of its handlers destroys.
use wx.Common.{
  ℕ, ◌≡◌, lookup, same, zero, suc, Bool, true, false, Option, none, some, List, [], ◌∷◌, ◌++◌,
  Bytes, done, panic, index_range, length, length-append, take, refl, ap, arith, inl,
}
use wx.Session.Token.{
  Slice, emptied, token_with_prefix, session_prefix, url_encoded_token_len, nil_slice,
}
use wx.Session.Data.{Data, get_as, get, reset}
use wx.Session.Data.Laws.{IsSound}
use wx.Session.Renew.{started_with}
use wx.Session.Manager.{
  Manager, Failure, start, commit, destroy, do_store_delete, do_store_commit, do_store_find,
  load_session, loaded, dropped, decoded, present,
}
use wx.Session.Manager.Handle.{
  Config, set_cookie, cookie_settings, finished, answered, handle_stateful_request,
}

take_all : {A : Type 0} (n : ℕ) (s : List A) → length s ≡ n → take n s ≡ s
take_all zero [] h = refl
take_all zero (x ∷ s) h = absurd (omega (arith, h))
take_all (suc n) [] h = refl
take_all (suc n) (x ∷ s) h = ap (λ t. x ∷ t) (take_all n s (omega (arith, h)))

-- The key of a token behind the prefix in an array of its full length.
pub whole_key :
    (b : Slice)
    → b.front ≡ session_prefix
    → length (b.text ++ b.spare) ≡ url_encoded_token_len
    → token_with_prefix b ≡ done (session_prefix ++ (b.text ++ b.spare))
unfolding token_with_prefix
whole_key b f l =
    let n : length (b.front ++ (b.text ++ b.spare)) ≡ 55 =
      omega (arith, length-append b.front (b.text ++ b.spare), ap length f, l) in
    rw (take_all 55 (b.front ++ (b.text ++ b.spare)) n, n, f) refl

abbrev pub key_of : {T : Type 0} → Data T → Bytes
key_of d = session_prefix ++ (d.token.text ++ d.token.spare)

module _ {S T : Type 0} where
  -- A handler destroys the session: Manager.Destroy deletes its entry, but the request then commits an
  -- entry with no values under the same key, and sends a cookie with an empty value; the condition is
  -- that Start, the store and the codec report no error.
  pub destroy_undone :
      (cfg : Config) (s : Manager S T) (random : Option Bytes) (new : Bool) (d e : Data T)
      (st st1 st2 st3 : S) (bytes : Bytes)
      → start s random new false d st ≡ done (none, e, st1)
      → IsSound e
      → s.store.delete (key_of e) st1 ≡ (none, st2)
      → s.codec.marshal (some []) [] ≡ (true, bytes)
      → s.store.commit (key_of e) bytes s.expiry false st2 ≡ (none, st3)
      → handle_stateful_request {E = Failure} cfg s random new d st (destroy s false)
        ≡ done ((none, set_cookie (cookie_settings cfg [] false)), reset e, st3)
  unfolding handle_stateful_request destroy commit do_store_delete do_store_commit reset finished
      get_as get lookup same answered
  destroy_undone cfg s random new d e st st1 st2 st3 bytes begun v gone mar kept =
      let k = whole_key e.token v.prefixed v.sized in
      let k' = whole_key (emptied e.token) v.prefixed v.sized in
      rw (begun, k, gone, v.made.1, mar, k', kept) refl

  -- Start for a session whose stored bytes the codec does not decode panics: the entry is deleted, but
  -- then the slice of the csrf token is nil, and has no room for a new one.
  pub start_corrupt :
      (s : Manager S T) (random : Option Bytes) (d : Data T) (st st1 : S) (bytes text : Bytes)
      → IsSound d
      → s.store.find (key_of d) st ≡ (present bytes, st1)
      → s.codec.unmarshal bytes ≡ inl text
      → start s random false false d st ≡ panic index_range
  unfolding start load_session do_store_find loaded dropped started_with
  start_corrupt s random d st st1 bytes text v found bad =
      let r : decoded s.codec bytes d.csrf_token ≡ (some text, nil_slice, none) =
        rw (bad, decoded) refl in
      rw
        (
          whole_key d.token v.prefixed v.sized,
          found,
          loaded,
          r,
          dropped,
          whole_key d.token v.prefixed v.sized,
          r,
        )
        refl
