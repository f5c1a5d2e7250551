-- ===== src/Session/Manager/Resumed.antt =====
-- From one request to the next: what Commit writes, LoadSession reads. A store is known by what it
-- holds under a key.
use wx.Common.{
  Bool, true, false, ◌⊎◌, inl, inr, Option, none, some, List, ◌++◌, Bytes, codes, Panics, panic,
  done, Returns, Bool-cases, length, leb, ◌≡◌, refl, ap, subst, ◌∙◌,
}
use wx.Session.Token.{Slice, refilled, token_with_prefix}
use wx.Session.Data.{Value, Data}
use wx.Session.Data.Laws.{IsSound}
use wx.Session.Manager.{
  Backend, Lookup, failed, missing, present, Manager, Failure, wrapped, is_modified, commit,
  do_store_commit, do_store_find, load_session, loaded, decoded,
}
use wx.Session.Manager.Destroyed.{whole_key, key_of}

-- An answer to a question for what is held, which may also be an error.
abbrev pub Answers : Option Bytes → Lookup → Type 0
Answers o (failed e) = Unit
Answers none missing = Unit
Answers none (present b) = ⊥
Answers (some v) missing = ⊥
Answers (some v) (present b) = b ≡ v

-- What a commit leaves: the new bytes, or those that were there if the data are not modified.
abbrev pub committed : Bool → Option Bytes → Bytes → Bytes
committed true before bytes = bytes
committed false none bytes = bytes
committed false (some v) bytes = v

-- The contract of a store. `in_time` says that an expiry is not over.
module _ {S T : Type 0} (b : Backend S T) where
  pub record IsStore : Type 0 where
    pub held : S → Bytes → Option Bytes
    pub in_time : S → T → Bool
    pub find-Answers : (k : Bytes) (s : S) → Answers (held s k) (b.find k s).0
    pub commit-held :
        (k v : Bytes) (t : T) (changed : Bool) (s : S)
        → in_time s t ≡ true
        → (b.commit k v t changed s).0 ≡ none
        → held (b.commit k v t changed s).1 k ≡ some (committed changed (held s k) v)

pub refilled_text : (b : Slice) (s : Bytes) → (refilled b s).text ≡ s
refilled_text b s = elim (Bool-cases (leb (length s) (length (b.text ++ b.spare)))) [
  | inl e ↦ rw (refilled, e) refl
  | inr e ↦ rw (refilled, e) refl
]

committed_new :
    (changed : Bool) (before : Option Bytes) (bytes : Bytes)
    → (changed ≡ true) ⊎ (before ≡ none)
    → committed changed before bytes ≡ bytes
committed_new true before bytes h = refl
committed_new false none bytes h = refl
committed_new false (some v) bytes (inl h) = cc
committed_new false (some v) bytes (inr h) = cc

done_pair :
    {A B : Type 0} (a b : A) (x y : B)
    → ◌≡◌ {A = Panics (A × B)} (done (a, x)) (done (b, y))
    → (a ≡ b) × (x ≡ y)
done_pair a b x y e = (
  ap (λ m. elim m [ panic f ↦ a | done p ↦ p.0 ]) e,
  ap (λ m. elim m [ panic f ↦ x | done p ↦ p.1 ]) e,
)

unwrapped : (what : Bytes) (o : Option Bytes) → wrapped what o ≡ none → o ≡ none
unwrapped what none h = refl
unwrapped what (some e) h = cc

module _ {S T : Type 0} (s : Manager S T) (store : IsStore s.store) where
  -- LoadSession has an error, or has loaded these values and this csrf token.
  abbrev pub Resumes :
      Option (List (Bytes × Value T)) → Bytes → Option Failure × Data T × S → Type 0
  Resumes values csrf (some f, e, st) = Unit
  Resumes values csrf (none, e, st) = (e.values ≡ values) × (e.csrf_token.text ≡ csrf)

  loaded-Resumes :
      (values : Option (List (Bytes × Value T))) (csrf bytes : Bytes) (e : Data T) (found : Lookup)
      (st : S)
      → Answers (some bytes) found
      → s.codec.unmarshal bytes ≡ inr (values, csrf)
      → Returns (Resumes values csrf) (loaded s e (found, st))
  unfolding loaded
  loaded-Resumes values csrf bytes e (failed x) st a u = tt
  loaded-Resumes values csrf bytes e missing st a u = absurd a
  loaded-Resumes values csrf bytes e (present b) st a u =
      let r : decoded s.codec b e.csrf_token ≡ (none, refilled e.csrf_token csrf, values) =
        rw (a, u, decoded) refl in
      rw (loaded, r, r) (refl, refilled_text e.csrf_token csrf)

  -- What the store has under the key of the data that a commit without an error has written.
  commit-held :
      (d : Data T) (st st1 : S) (bytes : Bytes)
      → IsSound d
      → s.codec.marshal d.values d.csrf_token.text ≡ (true, bytes)
      → store.in_time st s.expiry ≡ true
      → commit s false d st ≡ done (none, st1)
      → store.held st1 (key_of d)
        ≡ some (committed (is_modified d.status) (store.held st (key_of d)) bytes)
  unfolding commit do_store_commit
  commit-held d st st1 bytes v mar l c =
      let r : Option Bytes × S =
        s.store.commit (key_of d) bytes s.expiry (is_modified d.status) st in
      let what = codes "commit session data:" in
      let h : ◌≡◌ {A = Panics (Option Failure × S)} (done (wrapped what r.0, r.1))
          (done (none, st1)) =
        rw (mar, whole_key d.token v.prefixed v.sized) at c in
      let (none_failed, left) = done_pair (wrapped what r.0) none r.1 st1 h in
      subst
        (λ x.
          store.held x (key_of d)
          ≡ some (committed (is_modified d.status) (store.held st (key_of d)) bytes))
        left
        (store.commit-held (key_of d) bytes s.expiry (is_modified d.status) st l
          (unwrapped what r.0 none_failed))

  -- Commit returns no error for sound data that are modified, or that the store does not have yet, with
  -- an expiry that is not over; what the codec makes of them it decodes again; and a later request has
  -- the same token: LoadSession then loads the same values and the same csrf token, or has an error.
  pub commit-load_session :
      (d e : Data T) (st st1 : S) (bytes : Bytes)
      → IsSound d
      → e.token ≡ d.token
      → s.codec.marshal d.values d.csrf_token.text ≡ (true, bytes)
      → s.codec.unmarshal bytes ≡ inr (d.values, d.csrf_token.text)
      → (is_modified d.status ≡ true) ⊎ (store.held st (key_of d) ≡ none)
      → store.in_time st s.expiry ≡ true
      → commit s false d st ≡ done (none, st1)
      → Returns (Resumes d.values d.csrf_token.text) (load_session s false e st1)
  unfolding load_session do_store_find
  commit-load_session d e st st1 bytes v t mar un new l c =
      let h : store.held st1 (key_of d) ≡ some bytes =
        commit-held d st st1 bytes v mar l c
        ∙ ap some (committed_new (is_modified d.status) (store.held st (key_of d)) bytes new) in
      let key : token_with_prefix e.token ≡ done (key_of d) =
        ap token_with_prefix t ∙ whole_key d.token v.prefixed v.sized in
      let found : Lookup × S = s.store.find (key_of d) st1 in
      let a : Answers (some bytes) found.0 =
        subst (λ o. Answers o found.0) h (store.find-Answers (key_of d) st1) in
      rw key (loaded-Resumes d.values d.csrf_token.text bytes e found.0 found.1 a un)
