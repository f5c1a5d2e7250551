-- ===== src/Session/Data.antt =====
-- fasthttp-routing/middleware/session/data.go: the values of a session. A map that may be nil is an
-- option; a number is its bit pattern. `T` is the type of instants, with its zero.
pub mod Laws
use wx.Common.{
  ℕ, Bool, true, false, Option, none, some, List, [], ◌∷◌, map, Bytes, codes, Panics, panic, done,
  ◌>>=◌, nil_pointer, lookup, assign, erase,
}
use wx.Session.Token.{Slice, emptied}

-- `Status`
pub data Status : Type 0 where
  unmodified modified destroyed : Status

-- The values that the getters tell apart.
pub data Value (T : Type 0) : Type 0 where
  nil : Value T
  text_value byte_slice : Bytes → Value T
  flag : Bool → Value T
  int int64 int32 float : ℕ → Value T
  time : T → Value T

pub record Data (T : Type 0) : Type 0 where
  pub status : Status
  pub token : Slice
  pub csrf_token : Slice
  pub values : Option (List (Bytes × Value T))
  pub started : Bool

module _ {T : Type 0} where
  -- The entries of a map; a nil map has none.
  abbrev pub entries : Option (List (Bytes × Value T)) → List (Bytes × Value T)
  entries none = []
  entries (some m) = m

  -- `clear` of a map; a nil map stays nil.
  abbrev pub cleared : Option (List (Bytes × Value T)) → Option (List (Bytes × Value T))
  cleared none = none
  cleared (some m) = some []

  -- Assignment to an entry, which panics for a nil map.
  abbrev pub assigned :
      Bytes → Value T → Option (List (Bytes × Value T)) → Panics (Option (List (Bytes × Value T)))
  assigned k v none = panic nil_pointer
  assigned k v (some m) = done (some (assign k v m))

  -- `delete` of an entry.
  abbrev pub deleted : Bytes → Option (List (Bytes × Value T)) → Option (List (Bytes × Value T))
  deleted k none = none
  deleted k (some m) = some (erase k m)

  -- `Data.reset`
  unfoldable pub reset : Data T → Data T
  reset d = record d {
    token = emptied d.token;
    csrf_token = emptied d.csrf_token;
    values = cleared d.values;
    status = unmodified;
    started = false;
  }

  unfoldable pub put : Bytes → Value T → Data T → Panics (Data T)
  unfolding assign
  put k v d = do m ← assigned k v d.values; done (record d { values = m; status = modified })

  unfoldable pub get : Bytes → Data T → Value T
  unfolding lookup
  get k d = elim (lookup k (entries d.values)) [ none ↦ nil | some v ↦ v ]

  unfoldable pub pop : Bytes → Data T → Data T × Value T
  unfolding lookup erase
  pop k d = elim (lookup k (entries d.values)) [
    | none ↦ (d, nil)
    | some v ↦ (record d { values = deleted k d.values; status = modified }, v)
  ]

  unfoldable pub remove : Bytes → Data T → Data T
  unfolding lookup erase
  remove k d = elim (lookup k (entries d.values)) [
    | none ↦ d
    | some v ↦ record d { values = deleted k d.values; status = modified }
  ]

  unfoldable pub clear : Data T → Data T
  clear d = elim (entries d.values) [
    | [] ↦ d
    | e ∷ m ↦ record d { values = cleared d.values; status = modified }
  ]

  unfoldable pub exists : Bytes → Data T → Bool
  unfolding lookup
  exists k d = elim (lookup k (entries d.values)) [ none ↦ false | some v ↦ true ]

  unfoldable pub keys : Data T → List Bytes
  keys d = map (λ e. e.0) (entries d.values)

  unfoldable pub flush : Data T → Data T
  flush d = record d { values = cleared d.values }

  -- The type assertions of the getters, with the zero of the type for any other value.
  abbrev pub as_string : Value T → Bytes
  as_string (text_value s) = s
  as_string _ = []

  abbrev pub as_bytes : Value T → Bytes
  as_bytes (byte_slice s) = s
  as_bytes _ = []

  abbrev pub as_bool : Value T → Bool
  as_bool (flag b) = b
  as_bool _ = false

  abbrev pub as_int : Value T → ℕ
  as_int (int n) = n
  as_int _ = 0

  abbrev pub as_int64 : Value T → ℕ
  as_int64 (int64 n) = n
  as_int64 _ = 0

  abbrev pub as_int32 : Value T → ℕ
  as_int32 (int32 n) = n
  as_int32 _ = 0

  abbrev pub as_float : Value T → ℕ
  as_float (float n) = n
  as_float _ = 0

  abbrev pub as_time : T → Value T → T
  as_time zero_time (time t) = t
  as_time zero_time _ = zero_time

  -- `GetString` and the others, and `PopString` and the others, for their assertion.
  unfoldable pub get_as : {A : Type 0} → (Value T → A) → Bytes → Data T → A
  unfolding get
  get_as assert k d = assert (get k d)

  unfoldable pub pop_as : {A : Type 0} → (Value T → A) → Bytes → Data T → Data T × A
  unfolding pop
  pop_as assert k d = let r = pop k d in (r.0, assert r.1)

  unfoldable pub remember_me : Bool → Data T → Panics (Data T)
  unfolding put
  remember_me b d = put (codes "__rememberMe") (flag b) d
