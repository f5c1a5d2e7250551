-- ===== src/Session/Manager/Facade.antt =====
-- fasthttp-routing/middleware/session/manager.go: the methods of the manager that pass on to the data of
-- the session. The user value of a context under `ContextKey` is the data, or nothing; the data are
-- shared by their pointer, and so what a method leaves of them is the new user value.
use wx.Common.{
  ℕ, Bool, true, Option, none, some, List, ◌≡◌, Bytes, Panics, panic, done, explicit, ◌>>=◌,
  Returns, refl, sym, subst, ◌≢◌, lookup-assign, lookup-assign_other,
}
use wx.Session.Token.{Slice}
use wx.Session.Data
use wx.Session.Data.{
  Status, modified, Value, Data, as_string, as_bool, as_int, as_int64, as_int32, as_float, as_bytes,
  as_time, get_as, pop_as,
}
use wx.Session.Data.Laws.{IsSound}
use wx.Session.Manager.{Manager, Failure, merge_session, migrate}

module _ {T : Type 0} where
  -- `addSessionDataToContext` and `sessionDataFromCxt`
  abbrev pub add_session_data_to_context : Data T → Option (Data T) → Option (Data T)
  add_session_data_to_context d c = some d

  abbrev pub session_data_from_cxt : Option (Data T) → Panics (Data T)
  session_data_from_cxt none = panic explicit
  session_data_from_cxt (some d) = done d

  unfoldable pub put : Option (Data T) → Bytes → Value T → Panics (Option (Data T))
  unfolding Data.put
  put c key val = session_data_from_cxt c >>= (λ sd. Data.put key val sd >>= (λ d. done (some d)))

  unfoldable pub get : Option (Data T) → Bytes → Panics (Value T)
  unfolding Data.get
  get c key = session_data_from_cxt c >>= (λ sd. done (Data.get key sd))

  unfoldable pub pop : Option (Data T) → Bytes → Panics (Option (Data T) × Value T)
  unfolding Data.pop
  pop c key = session_data_from_cxt c >>= (λ sd. let r = Data.pop key sd in done (some r.0, r.1))

  unfoldable pub remove : Option (Data T) → Bytes → Panics (Option (Data T))
  unfolding Data.remove
  remove c key = session_data_from_cxt c >>= (λ sd. done (some (Data.remove key sd)))

  unfoldable pub clear : Option (Data T) → Panics (Option (Data T))
  unfolding Data.clear
  clear c = session_data_from_cxt c >>= (λ sd. done (some (Data.clear sd)))

  unfoldable pub exists : Option (Data T) → Bytes → Panics Bool
  unfolding Data.exists
  exists c key = session_data_from_cxt c >>= (λ sd. done (Data.exists key sd))

  unfoldable pub keys : Option (Data T) → Panics (List Bytes)
  unfolding Data.keys
  keys c = session_data_from_cxt c >>= (λ sd. done (Data.keys sd))

  unfoldable pub status : Option (Data T) → Panics Status
  status c = session_data_from_cxt c >>= (λ sd. done sd.status)

  -- The getters, for their assertion.
  unfoldable pub assert_get : {A : Type 0} → (Value T → A) → Option (Data T) → Bytes → Panics A
  unfolding get_as
  assert_get assert c key = session_data_from_cxt c >>= (λ sd. done (get_as assert key sd))

  unfoldable pub assert_pop :
      {A : Type 0} → (Value T → A) → Option (Data T) → Bytes → Panics (Option (Data T) × A)
  unfolding pop_as
  assert_pop assert c key =
      session_data_from_cxt c >>= (λ sd. let r = pop_as assert key sd in done (some r.0, r.1))

  unfoldable pub get_string : Option (Data T) → Bytes → Panics Bytes
  unfolding assert_get
  get_string = assert_get as_string

  unfoldable pub get_bool : Option (Data T) → Bytes → Panics Bool
  unfolding assert_get
  get_bool = assert_get as_bool

  unfoldable pub get_int : Option (Data T) → Bytes → Panics ℕ
  unfolding assert_get
  get_int = assert_get as_int

  unfoldable pub get_int64 : Option (Data T) → Bytes → Panics ℕ
  unfolding assert_get
  get_int64 = assert_get as_int64

  unfoldable pub get_int32 : Option (Data T) → Bytes → Panics ℕ
  unfolding assert_get
  get_int32 = assert_get as_int32

  unfoldable pub get_float : Option (Data T) → Bytes → Panics ℕ
  unfolding assert_get
  get_float = assert_get as_float

  unfoldable pub get_time : T → Option (Data T) → Bytes → Panics T
  unfolding assert_get
  get_time zero_time = assert_get (as_time zero_time)

  unfoldable pub pop_string : Option (Data T) → Bytes → Panics (Option (Data T) × Bytes)
  unfolding assert_pop
  pop_string = assert_pop as_string

  unfoldable pub pop_bool : Option (Data T) → Bytes → Panics (Option (Data T) × Bool)
  unfolding assert_pop
  pop_bool = assert_pop as_bool

  unfoldable pub pop_int : Option (Data T) → Bytes → Panics (Option (Data T) × ℕ)
  unfolding assert_pop
  pop_int = assert_pop as_int

  unfoldable pub pop_float : Option (Data T) → Bytes → Panics (Option (Data T) × ℕ)
  unfolding assert_pop
  pop_float = assert_pop as_float

  unfoldable pub pop_bytes : Option (Data T) → Bytes → Panics (Option (Data T) × Bytes)
  unfolding assert_pop
  pop_bytes = assert_pop as_bytes

  unfoldable pub pop_time : T → Option (Data T) → Bytes → Panics (Option (Data T) × T)
  unfolding assert_pop
  pop_time zero_time = assert_pop (as_time zero_time)

  unfoldable pub remember_me : Option (Data T) → Bool → Panics (Option (Data T))
  unfolding Data.remember_me
  remember_me c val =
      session_data_from_cxt c >>= (λ sd. Data.remember_me val sd >>= (λ d. done (some d)))

module _ {S T : Type 0} (s : Manager S T) where
  -- `RenewToken`, whose error is always nil.
  unfoldable pub renew_token : Option Bytes → Option (Data T) → S → Panics (Option (Data T) × S)
  unfolding migrate
  renew_token random c st =
      session_data_from_cxt c
      >>= (λ sd. migrate s random true sd st >>= (λ r. done (some r.0, r.1)))

  unfoldable pub merge :
      Bool → Slice → Option (Data T) → S → Panics (Option Failure × Option (Data T) × S)
  unfolding merge_session
  merge ctx token c st =
      session_data_from_cxt c
      >>= (λ sd. merge_session s ctx token sd st >>= (λ r. done (r.0, some r.1, r.2)))

module _ {T : Type 0} where
  -- What `put-get_both` says of data.
  abbrev pub KeepsOthers : Bytes → Bytes → Value T → Data T → Type 0
  KeepsOthers k j v d =
      Returns (λ c. (get c k ≡ done v) × (get c j ≡ get (some d) j) × (status c ≡ done modified))
        (put (some d) k v)

  with_map :
      (d : Data T) (m : List (Bytes × Value T)) (k j : Bytes) (v : Value T)
      → j ≢ k
      → KeepsOthers k j v (record d { values = some m })
  unfolding get status put Data.get Data.put
  with_map d m k j v n = (
    rw (get, Data.get, lookup-assign k v m) refl,
    rw (get, Data.get, lookup-assign_other j k v m n) refl,
    refl,
  )

  -- With sound data in the context Put never panics: Get then finds the value, the status is modified,
  -- and under another key Get finds what it found before.
  pub put-get_both :
      (d : Data T) (k j : Bytes) (v : Value T) → IsSound d → j ≢ k → KeepsOthers k j v d
  put-get_both d k j v s n =
      subst (λ o. KeepsOthers k j v (record d { values = o })) (sym s.made.1)
        (with_map d s.made.0 k j v n)
