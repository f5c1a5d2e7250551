-- ===== src/Session/Manager/Iterate.antt =====
-- fasthttp-routing/middleware/session/manager.go: `Iterate` and `doStoreAll`, and the pool of the data.
-- The sessions are a Go map, which is gone through in any order: the list is in that order.
pub mod Visits
mod Tests
use wx.Common.{
  Bool, true, false, Option, none, some, ◌⊎◌, inl, inr, List, [], ◌∷◌, ◌++◌, Bytes, codes, Panics,
  panic, done, explicit, ◌>>=◌, length, drop, leb, if◌then◌else◌,
}
use wx.Session.Token.{Slice}
use wx.Session.Data.{Data, reset}
use wx.Session.Manager.{Manager, Failure, store_error, codec_error, decoded}

-- What a listing of all sessions gives: an error, or a map, which may be nil.
abbrev pub Listing : Type 0 → Type 0
Listing S = S → Panics ((Bytes ⊎ Option (List (Bytes × Bytes))) × S)

-- The interfaces `IterableCtxStore` and `IterableStore`, if the store implements them.
module _ (S : Type 0) where
  pub record Iterable : Type 0 where
    pub all_ctx : Option (Listing S)
    pub all : Option (Listing S)

-- `append(b, s...)`; of a new array nothing is known but that it holds the bytes.
abbrev pub appended : Slice → Bytes → Slice
appended b s =
    if leb (length s) (length b.spare)
    then record b { text = b.text ++ s; spare = drop (length s) b.spare }
    else record { front = []; text = b.text ++ s; spare = [] }

module _ {S : Type 0} where
  -- The entries of a listing, or its error with what was being done.
  abbrev pub listing :
      Bytes
      → (Bytes ⊎ Option (List (Bytes × Bytes))) × S
      → Panics ((Failure ⊎ List (Bytes × Bytes)) × S)
  listing what (inl e, st) = done (inl (store_error (what ++ e)), st)
  listing what (inr none, st) = done (inr [], st)
  listing what (inr (some m), st) = done (inr m, st)

  -- `Manager.doStoreAll`
  unfoldable pub do_store_all :
      Iterable S → Bool → S → Panics ((Failure ⊎ List (Bytes × Bytes)) × S)
  do_store_all store ctx st =
      let plain : Panics ((Failure ⊎ List (Bytes × Bytes)) × S) = elim store.all [
        | none ↦ panic explicit
        | some f ↦ f st >>= listing (codes "Delete:")
      ] in
      if ctx
      then elim store.all_ctx [
        | none ↦ plain
        | some f ↦ f st >>= listing (codes "iterate sessions:")
      ]
      else plain

module _ {S T E : Type 0} (s : Manager S T) (fn : Data T → S → Panics (Option E × Data T × S)) where
  -- The loop of `Iterate`.
  unfoldable pub iterate_from :
      List (Bytes × Bytes) → Data T → S → Panics (Option (E ⊎ Failure) × Data T × S)
  unfolding reset
  iterate_from [] d st = done (none, d, st)
  iterate_from ((token, bytes) ∷ sessions) d st =
      let r = decoded s.codec bytes d.csrf_token in
      let d' : Data T = record d {
        token = appended d.token token;
        csrf_token = r.1;
        values = r.2;
      } in
      elim r.0 [
        | some e ↦ done (some (inr (codec_error e)), d', st)
        | none ↦ fn d' st >>= (λ n. elim n.0 [
          | some e ↦ done (some (inl e), reset n.1, n.2)
          | none ↦ iterate_from sessions (reset n.1) n.2
        ])
      ]

  -- `Manager.Iterate`, with the data that the pool gives and that go back to it.
  unfoldable pub iterate :
      Iterable S → Bool → Data T → S → Panics (Option (E ⊎ Failure) × Data T × S)
  unfolding do_store_all iterate_from reset
  iterate store ctx d st = do_store_all store ctx st >>= (λ a. elim a.0 [
    | inl f ↦ done (some (inr f), d, a.1)
    | inr sessions ↦ iterate_from sessions d a.1 >>= (λ r. done (r.0, reset r.1, r.2))
  ])
