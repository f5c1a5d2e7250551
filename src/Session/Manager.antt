-- ===== src/Session/Manager.antt =====
-- fasthttp-routing/middleware/session: manager.go and those methods of Data that use the store.
-- The store is code of others: its operations on a state `S` are parameters, with the text of an
-- error; so are sonic's two functions. What the random reader writes is an argument of every method
-- that makes a token, `none` for an error of the reader. A context is only tested for nil; the store
-- may have a second set of operations, for a context.
pub mod Handle
pub mod Destroyed
pub mod Resumed
pub mod Iterate
pub mod Facade
use wx.Common.{
  ℕ, Bool, true, false, not, ◌⊎◌, inl, inr, ◌&&◌, Option, none, some, List, [], ◌∷◌, ◌++◌, Bytes,
  codes, Panics, panic, done, ◌>>=◌, explicit, nil_pointer, lookup, assign, same, ◌==◌,
  if◌then◌else◌, length,
}
use wx.Session.Token.{
  Slice, emptied, resliced, refilled, nil_slice, token_with_prefix, generate_token2, is_valid_token,
  url_encoded_token_len, url_encoded_csrf_token_len,
}
use wx.Session.Renew.{started_with, merged, regenerate_csrf_token}
use wx.Session.Data.{
  Status, unmodified, modified, destroyed, Value, Data, entries, cleared, reset, flush,
}

-- `EncodingError`, `StoreError`, and an error of the codec.
pub data Failure : Type 0 where
  encoding_error store_error codec_error : Bytes → Failure

-- The `Error` methods of the errors.
abbrev pub error_text : Failure → Bytes
error_text (encoding_error s) = codes "*session.EncodingError" ++ s
error_text (store_error s) = codes "*session.StoreError" ++ s
error_text (codec_error s) = s

-- What a look-up in the store gives.
pub data Lookup : Type 0 where
  failed : Bytes → Lookup
  missing : Lookup
  present : Bytes → Lookup

module _ (S T : Type 0) where
  -- The interfaces `Store` and `CtxStore`.
  pub record Backend : Type 0 where
    pub find : Bytes → S → Lookup × S
    pub commit : Bytes → Bytes → T → Bool → S → Option Bytes × S
    pub delete : Bytes → S → Option Bytes × S

  -- `sonic.Marshal` and `sonic.Unmarshal` of the values and the csrf token: the text of an error, or
  -- the result. A map in the result may be nil.
  pub record Sonic : Type 0 where
    pub marshal : Option (List (Bytes × Value T)) → Bytes → Bool × Bytes
    pub unmarshal : Bytes → Bytes ⊎ (Option (List (Bytes × Value T)) × Bytes)

-- The fields of `Manager` that its methods read; `expiry` is the current time plus the lifetime.
module _ (S T : Type 0) where
  pub record Manager : Type 0 where
    pub store : Backend S T
    pub ctx_store : Option (Backend S T)
    pub codec : Sonic S T
    pub expiry : T

-- An error of the store, with what was being done.
abbrev pub wrapped : Bytes → Option Bytes → Option Failure
wrapped what none = none
wrapped what (some e) = some (store_error (what ++ e))

abbrev pub is_modified : Status → Bool
is_modified modified = true
is_modified _ = false

module _ {S T : Type 0} where
  -- The operations for a call with or without a context.
  abbrev pub backend : Manager S T → Bool → Backend S T
  backend s false = s.store
  backend s true = elim s.ctx_store [ none ↦ s.store | some b ↦ b ]

  -- `Manager.doStoreFind`
  unfoldable pub do_store_find : Manager S T → Bool → Slice → S → Panics (Lookup × S)
  unfolding token_with_prefix
  do_store_find s ctx token st = do
    key ← token_with_prefix token
    done ((backend s ctx).find key st)

  -- `Manager.doStoreCommit`
  unfoldable pub do_store_commit :
      Manager S T → Bool → Slice → Bytes → Bool → S → Panics (Option Failure × S)
  unfolding token_with_prefix
  do_store_commit s ctx token bytes changed st = do
    key ← token_with_prefix token
    let r = (backend s ctx).commit key bytes s.expiry changed st
    done (wrapped (codes "commit session data:") r.0, r.1)

  -- `Manager.doStoreDelete`
  unfoldable pub do_store_delete : Manager S T → Bool → Slice → S → Panics (Option Failure × S)
  unfolding token_with_prefix
  do_store_delete s ctx token st = do
    key ← token_with_prefix token
    let r = (backend s ctx).delete key st
    done (wrapped (codes "Delete:") r.0, r.1)

  -- The entry of a token is deleted, whatever the store says.
  unfoldable pub dropped : Manager S T → Slice → S → Panics S
  unfolding token_with_prefix
  dropped s token st = do key ← token_with_prefix token; done ((s.store.delete key st).1)

  -- `Manager.Commit`
  unfoldable pub commit : Manager S T → Bool → Data T → S → Panics (Option Failure × S)
  unfolding do_store_commit
  commit s ctx d st =
      let r = s.codec.marshal d.values d.csrf_token.text in
      if r.0
      then do_store_commit s ctx d.token r.1 (is_modified d.status) st
      else done (some (encoding_error r.1), st)

  -- `JSONCodec.Decode` into the slice of the csrf token: after an error both results are nil.
  abbrev pub decoded :
      Sonic S T → Bytes → Slice → Option Bytes × Slice × Option (List (Bytes × Value T))
  decoded codec bytes dst = elim (codec.unmarshal bytes) [
    | inl e ↦ (some e, nil_slice, none)
    | inr r ↦ (none, refilled dst r.1, r.0)
  ]

  -- What `Data.LoadSession` does with the result of the store.
  unfoldable pub loaded : Manager S T → Data T → Lookup × S → Panics (Option Failure × Data T × S)
  unfolding dropped
  loaded s d (failed e, st) =
      let inner = error_text (store_error (codes "find session data:" ++ e)) in
      done (some (store_error (codes "find session data from session store: " ++ inner)), d, st)
  loaded s d (missing, st) = done (none, d, st)
  loaded s d (present bytes, st) =
      let r = decoded s.codec bytes d.csrf_token in
      let d' : Data T = record d { csrf_token = r.1; values = r.2 } in
      elim r.0 [
        | none ↦ done (none, d', st)
        | some e ↦ dropped s d.token st >>= (λ u. done (none, d', u))
      ]

  -- `Data.LoadSession`
  unfoldable pub load_session :
      Manager S T → Bool → Data T → S → Panics (Option Failure × Data T × S)
  unfolding do_store_find loaded
  load_session s ctx d st = do_store_find s ctx d.token st >>= loaded s d

  -- `Data.Start`
  unfoldable pub start :
      Manager S T → Option Bytes → Bool → Bool → Data T → S → Panics (Option Failure × Data T × S)
  unfolding load_session started_with
  start s random true ctx d st = started_with random d >>= (λ e. done (none, e, st))
  start s random false ctx d st = load_session s ctx d st >>= (λ r. elim r.0 [
    | some e ↦ done (some e, r.1, r.2)
    | none ↦ started_with random r.1 >>= (λ e. done (none, e, r.2))
  ])

  -- What `Data.MergeSession` does with the result of the store.
  unfoldable pub merged_with :
      Manager S T → Bool → Slice → Data T → Lookup × S → Panics (Option Failure × Data T × S)
  unfolding merged do_store_delete
  merged_with s ctx token d (failed e, st) = done (none, d, st)
  merged_with s ctx token d (missing, st) = done (none, d, st)
  merged_with s ctx token d (present bytes, st) =
      let r = decoded s.codec bytes nil_slice in
      elim r.0 [
        | none ↦ merged (entries r.2) d.values >>= (λ m.
            do_store_delete s ctx token st
            >>= (λ e. done (e.0, record d { values = m; status = modified }, e.1)))
        | some e ↦ done (some (codec_error e), d, st)
      ]

  -- `Data.MergeSession`
  unfoldable pub merge_session :
      Manager S T → Bool → Slice → Data T → S → Panics (Option Failure × Data T × S)
  unfolding same do_store_find merged_with
  merge_session s ctx token d st =
      if same d.token.text token.text
      then done (none, d, st)
      else (do_store_find s ctx token st >>= merged_with s ctx token d)

  -- `Data.Migrate`: the errors of the store are only logged.
  unfoldable pub migrate : Manager S T → Option Bytes → Bool → Data T → S → Panics (Data T × S)
  unfolding dropped generate_token2
  migrate s random destroy d st =
      let st' : Panics S =
        if destroy && not (length d.token.text == 0) then dropped s d.token st else done st in
      st' >>= (λ u.
        resliced url_encoded_token_len d.token
        >>= generate_token2 random
        >>= (λ t. done (record d { token = t; status = modified }, u)))

  -- `Data.Regenerate`
  unfoldable pub regenerate :
      Manager S T → Option Bytes → Option Bytes → Bool → Data T → S → Panics (Data T × S)
  unfolding migrate regenerate_csrf_token
  regenerate s random csrf_random destroy d st =
      migrate s random destroy d st
      >>= (λ r. regenerate_csrf_token csrf_random r.0 >>= (λ e. done (e, r.1)))

  -- `Data.Invalidate`
  unfoldable pub invalidate : Manager S T → Option Bytes → Data T → S → Panics (Data T × S)
  unfolding flush migrate
  invalidate s random d st = migrate s random true (flush d) st

  -- `Manager.Destroy`: the status is set, and then reset with the rest.
  unfoldable pub destroy : Manager S T → Bool → Data T → S → Panics (Option Failure × Data T × S)
  unfolding do_store_delete reset
  destroy s ctx d st = do_store_delete s ctx d.token st >>= (λ r. elim r.0 [
    | some e ↦ done (some e, d, r.1)
    | none ↦ done (none, reset (record d { status = destroyed }), r.1)
  ])
