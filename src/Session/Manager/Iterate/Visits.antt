-- ===== src/Session/Manager/Iterate/Visits.antt =====
-- What `Iterate` does, told by the sessions alone.
use wx.Common.{
  Bool, Option, none, some, ◌⊎◌, inl, inr, List, [], ◌∷◌, Bytes, Panics, panic, done, nil_pointer,
  index_range, Returns, Returns-bind, Bool-cases, Sum-cases, Option-cases, length, leb, ◌≡◌, refl,
  subst,
}
use wx.Session.Token.{Slice, nil_slice, refilled}
use wx.Session.Data.{Value, Data, put, reset}
use wx.Session.Renew.{started_with}
use wx.Session.Manager.{Manager, Failure, codec_error, decoded}
use wx.Session.Manager.Resumed.{refilled_text}
use wx.Session.Manager.Iterate.{Iterable, appended, do_store_all, iterate_from, iterate}

appended_text : (b : Slice) (s : Bytes) → b.text ≡ [] → (appended b s).text ≡ s
appended_text b s e = elim (Bool-cases (leb (length s) (length b.spare))) [
  | inl h ↦ rw (appended, h, e) refl
  | inr h ↦ rw (appended, h, e) refl
]

module _ {S T E : Type 0} (s : Manager S T)
    (visit : Bytes → Bytes → Option (List (Bytes × Value T)) → S → Option E × S) where
  -- Each session in turn, up to the first error: its token, its csrf token and its values.
  abbrev pub visits : List (Bytes × Bytes) → S → Option (E ⊎ Failure) × S
  visits [] st = (none, st)
  visits ((token, bytes) ∷ sessions) st = elim (s.codec.unmarshal bytes) [
    | inl e ↦ (some (inr (codec_error e)), st)
    | inr r ↦
        let v = visit token r.1 r.0 st in
        elim v.0 [ some e ↦ (some (inl e), v.1) | none ↦ visits sessions v.1 ]
  ]

  -- A function that looks at nothing else of the data, and may do to them what it likes.
  abbrev pub Visits : (Data T → S → Panics (Option E × Data T × S)) → Type 0
  Visits fn =
      (d : Data T) (st : S)
      → (e : Data T) × (fn d st
          ≡ done (
            (visit d.token.text d.csrf_token.text d.values st).0,
            e,
            (visit d.token.text d.csrf_token.text d.values st).1,
          ))

  called :
      (fn : Data T → S → Panics (Option E × Data T × S)) (d : Data T) (st : S)
      → Visits fn
      → (token csrf : Bytes) → d.token.text ≡ token
      → d.csrf_token.text ≡ csrf
      → (e : Data T) × (fn d st
          ≡ done ((visit token csrf d.values st).0, e, (visit token csrf d.values st).1))
  called fn d st v token csrf t c =
      let (e, q) = v d st in
      (
        e,
        subst
            (λ y. fn d st ≡ done ((visit token y d.values st).0, e, (visit token y d.values st).1))
            c
            (subst
              (λ x.
                fn d st
                ≡ done (
                  (visit x d.csrf_token.text d.values st).0,
                  e,
                  (visit x d.csrf_token.text d.values st).1,
                ))
              t q),
      )

  iterate_from-visits :
      (fn : Data T → S → Panics (Option E × Data T × S)) (sessions : List (Bytes × Bytes))
      (d : Data T) (st : S)
      → Visits fn
      → d.token.text ≡ []
      → Returns {A = Option (E ⊎ Failure) × Data T × S}
          (λ r. (r.0, r.2) ≡ visits sessions st)
          (iterate_from s fn sessions d st)
  unfolding iterate_from reset
  iterate_from-visits fn [] d st v t = refl
  iterate_from-visits fn ((token, bytes) ∷ sessions) d st v t =
      elim (Sum-cases (s.codec.unmarshal bytes)) [
        | inl (e, h) ↦
            let r : decoded s.codec bytes d.csrf_token ≡ (some e, nil_slice, none) =
              rw (h, decoded) refl in
            rw (iterate_from, r, visits, h) refl
        | inr (x, h) ↦
            let r : decoded s.codec bytes d.csrf_token ≡ (none, refilled d.csrf_token x.1, x.0) =
              rw (h, decoded) refl in
            let d' : Data T = record d {
              token = appended d.token token;
              csrf_token = refilled d.csrf_token x.1;
              values = x.0;
            } in
            let (e, q) =
              called fn d' st v token x.1 (appended_text d.token token t)
                (refilled_text d.csrf_token x.1) in
            elim (Option-cases (visit token x.1 x.0 st).0) [
              | inl g ↦
                  rw (iterate_from, r, r, q, visits, h, g)
                    (iterate_from-visits fn sessions (reset e) (visit token x.1 x.0 st).1 v refl)
              | inr (f, g) ↦ rw (iterate_from, r, r, q, visits, h, g) refl
            ]
      ]

  -- The store lists all sessions without an error, the data from the pool have no token, and the
  -- function looks at no more of the data than the token, the csrf token and the values, and does not
  -- panic: Iterate returns what comes of calling it for each session in turn, up to the first error of
  -- the function or of the codec, with what is in them, and the data go back without a token.
  pub iterate-visits :
      (fn : Data T → S → Panics (Option E × Data T × S)) (store : Iterable S) (ctx : Bool)
      (sessions : List (Bytes × Bytes)) (d : Data T) (st st1 : S)
      → Visits fn
      → d.token.text ≡ []
      → do_store_all store ctx st ≡ done (inr sessions, st1)
      → Returns {A = Option (E ⊎ Failure) × Data T × S}
          (λ r. ((r.0, r.2) ≡ visits sessions st1) × (r.1.token.text ≡ []))
          (iterate s fn store ctx d st)
  unfolding iterate reset
  iterate-visits fn store ctx sessions d st st1 v t a = rw a (
      Returns-bind {A = Option (E ⊎ Failure) × Data T × S} {B = Option (E ⊎ Failure) × Data T × S}
        (λ r. (r.0, r.2) ≡ visits sessions st1)
        (λ r. ((r.0, r.2) ≡ visits sessions st1) × (r.1.token.text ≡ []))
        (iterate_from s fn sessions d st1) (λ r. done (r.0, reset r.1, r.2))
        (iterate_from-visits fn sessions d st1 v t) (λ r h. (h, refl)))

module _ {S T E : Type 0} (s : Manager S T) (fn : Data T → S → Panics (Option E × Data T × S)) where
  -- The first session that the store lists does not decode: Iterate returns the error of the codec, and
  -- the data that go back into the pool have a nil map and a nil csrf token: with them Put panics, and
  -- so does the start of a session.
  pub iterate_corrupt :
      (store : Iterable S) (ctx : Bool) (token bytes text k : Bytes)
      (sessions : List (Bytes × Bytes)) (d : Data T) (st st1 : S) (value : Value T)
      (random : Option Bytes)
      → do_store_all store ctx st ≡ done (inr ((token, bytes) ∷ sessions), st1)
      → s.codec.unmarshal bytes ≡ inl text
      → Returns {A = Option (E ⊎ Failure) × Data T × S}
          (λ r.
            (r.0 ≡ some (inr (codec_error text)))
            × (put k value r.1 ≡ panic nil_pointer)
            × (started_with random r.1 ≡ panic index_range))
          (iterate s fn store ctx d st)
  unfolding iterate iterate_from reset put started_with
  iterate_corrupt store ctx token bytes text k sessions d st st1 value random a h =
      let r : decoded s.codec bytes d.csrf_token ≡ (some text, nil_slice, none) =
        rw (h, decoded) refl in
      let from : iterate_from s fn ((token, bytes) ∷ sessions) d st1
          ≡ done (
            some (inr (codec_error text)),
            record d { token = appended d.token token; csrf_token = nil_slice; values = none },
            st1,
          ) =
        rw (iterate_from, r, r) refl in
      rw (a, iterate, from) (refl, refl, refl)
