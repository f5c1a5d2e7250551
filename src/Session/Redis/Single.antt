-- ===== src/Session/Redis/Single.antt =====
-- What RedisStore does to one session. `held` is what the server has under a key, while its clock
-- stands still.
use wx.Common.{
  ℤ, is_zero, Bool, true, false, Option, none, some, inl, inr, [], ◌∷◌, ◌++◌, ◌+◌, Bytes, length,
  length-append, ◌≡◌, ◌≢◌, refl, sym, ap, subst, arith, ◌∙◌, Bool-cases, Sum-cases, Option-cases,
}
use wx.Session.Manager.Resumed.{Answers, committed, IsStore}
use wx.Session.Redis.{Rueidis, lookup_of, redis_store, find, find_ctx, commit, delete, delete_ctx}

module _ {S T : Type 0} (cli : Rueidis S T) where
  -- What Redis documents of its commands. EXPIREAT counts the keys that it finds; SET and EXPIREAT at
  -- a time that is over would delete the key.
  pub record IsRedis : Type 0 where
    pub held : S → Bytes → Option Bytes
    pub is_later : S → ℤ → Bool
    pub get-Answers : (k : Bytes) (s : S) → Answers (held s k) (lookup_of (cli.get k s).0)
    pub set-held :
        (k v : Bytes) (t : T) (s : S)
        → is_later s (cli.unix t) ≡ true
        → (cli.set k v t s).0 ≡ none
        → held (cli.set k v t s).1 k ≡ some v
    pub set-others : (k v j : Bytes) (t : T) (s : S) → j ≢ k → held (cli.set k v t s).1 j ≡ held s j
    pub expire_at-count :
        (k : Bytes) (u n : ℤ) (s : S)
        → (cli.expire_at k u s).0 ≡ inr n
        → is_zero n ≡ true
        → held s k ≡ none
    pub expire_at-found :
        (k : Bytes) (u n : ℤ) (s : S)
        → (cli.expire_at k u s).0 ≡ inr n
        → is_zero n ≡ false
        → (v : Bytes) × (held s k ≡ some v)
    pub expire_at-held :
        (k j : Bytes) (u : ℤ) (s : S)
        → is_later s u ≡ true
        → held (cli.expire_at k u s).1 j ≡ held s j
    pub expire_at-is_later :
        (k : Bytes) (u : ℤ) (s : S) → is_later (cli.expire_at k u s).1 u ≡ is_later s u
    pub expire_at-others :
        (k j : Bytes) (u : ℤ) (s : S) → j ≢ k → held (cli.expire_at k u s).1 j ≡ held s j
    pub unlink-others : (k j : Bytes) (s : S) → j ≢ k → held (cli.unlink k s).1 j ≡ held s j
    pub del-others : (k j : Bytes) (s : S) → j ≢ k → held (cli.del k s).1 j ≡ held s j
    pub del-held : (k : Bytes) (s : S) → (cli.del k s).0 ≡ none → held (cli.del k s).1 k ≡ none

prefix_moves : (prefix key : Bytes) → prefix ≢ [] → key ≢ prefix ++ key
prefix_moves [] key n e = n refl
prefix_moves (c ∷ prefix) key n e =
    let m : length key ≡ length (c ∷ prefix) + length key =
      ap length e ∙ length-append (c ∷ prefix) key in
    omega (arith, m)

module _ {S T : Type 0} (cli : Rueidis S T) (prefix : Bytes) (redis : IsRedis cli) where
  -- The three ways of a commit that only sets the expiry.
  data Unmodified (key bytes : Bytes) (t : T) (s : S) : Type 0 where
    refused :
        (e : Bytes)
        → commit cli prefix key bytes t false s ≡ (some e, (cli.expire_at key (cli.unix t) s).1)
        → Unmodified key bytes t s
    absent :
        redis.held s key ≡ none
        → commit cli prefix key bytes t false s
          ≡ cli.set key bytes t (cli.expire_at key (cli.unix t) s).1
        → Unmodified key bytes t s
    kept :
        (v : Bytes)
        → redis.held s key ≡ some v
        → commit cli prefix key bytes t false s ≡ (none, (cli.expire_at key (cli.unix t) s).1)
        → Unmodified key bytes t s

  unmodified : (key bytes : Bytes) (t : T) (s : S) → Unmodified key bytes t s
  unfolding commit
  unmodified key bytes t s = elim (Sum-cases (cli.expire_at key (cli.unix t) s).0) [
    | inl (e, h) ↦ refused e (rw (commit, h) refl)
    | inr (n, h) ↦ elim (Bool-cases (is_zero n)) [
      | inl z ↦ absent (redis.expire_at-count key (cli.unix t) n s h z) (rw (commit, h, z) refl)
      | inr z ↦
          let (v, g) = redis.expire_at-found key (cli.unix t) n s h z in
          kept v g (rw (commit, h, z) refl)
    ]
  ]

  pub commit_held :
      (key bytes : Bytes) (t : T) (modified : Bool) (s : S)
      → redis.is_later s (cli.unix t) ≡ true
      → (commit cli prefix key bytes t modified s).0 ≡ none
      → redis.held (commit cli prefix key bytes t modified s).1 key
        ≡ some (committed modified (redis.held s key) bytes)
  unfolding commit
  commit_held key bytes t true s l e = redis.set-held key bytes t s l e
  commit_held key bytes t false s l e = elim (unmodified key bytes t s) [
    | refused x h ↦ cc
    | absent g h ↦
        rw (h, g)
          (redis.set-held key bytes t _ (redis.expire_at-is_later key (cli.unix t) s ∙ l)
            (ap (λ r. r.0) (sym h) ∙ e))
    | kept v g h ↦ rw (h, g) (redis.expire_at-held key key (cli.unix t) s l ∙ g)
  ]

  commit_others :
      (key bytes j : Bytes) (t : T) (modified : Bool) (s : S)
      → j ≢ key
      → redis.held (commit cli prefix key bytes t modified s).1 j ≡ redis.held s j
  unfolding commit
  commit_others key bytes j t true s n = redis.set-others key bytes j t s n
  commit_others key bytes j t false s n = elim (unmodified key bytes t s) [
    | refused x h ↦ rw h (redis.expire_at-others key j (cli.unix t) s n)
    | absent g h ↦
        rw h (redis.set-others key bytes j t _ n ∙ redis.expire_at-others key j (cli.unix t) s n)
    | kept v g h ↦ rw h (redis.expire_at-others key j (cli.unix t) s n)
  ]

  get-held :
      (o : Option Bytes) (k : Bytes) (s : S)
      → redis.held s k ≡ o
      → Answers o (lookup_of (cli.get k s).0)
  get-held o k s e = subst (λ p. Answers p (lookup_of (cli.get k s).0)) e (redis.get-Answers k s)

  -- Under the laws of the commands, a commit that returns no error, with an expiry that is not over, is
  -- what Find then answers, unless it returns an error: the new bytes, or, if the data are said not to
  -- be modified and the server has the session, those that it has. What is held under another key
  -- stays, whatever Commit returns.
  pub commit-find :
      (key bytes j : Bytes) (t : T) (modified : Bool) (s : S)
      → redis.is_later s (cli.unix t) ≡ true
      → (commit cli prefix key bytes t modified s).0 ≡ none
      → j ≢ key
      → Answers
          (some (committed modified (redis.held s key) bytes))
          (find cli prefix key (commit cli prefix key bytes t modified s).1).0
        × (redis.held (commit cli prefix key bytes t modified s).1 j ≡ redis.held s j)
  unfolding find
  commit-find key bytes j t modified s l e n = (
    get-held _ key _ (commit_held key bytes t modified s l e),
    commit_others key bytes j t modified s n,
  )

  -- Under the laws of the commands, DeleteCtx deletes: if it returns no error, Find answers that the
  -- session is missing, or returns an error.
  delete_ctx-find :
      (key : Bytes) (s : S)
      → (delete_ctx cli prefix key s).0 ≡ none
      → Answers none (find cli prefix key (delete_ctx cli prefix key s).1).0
  unfolding delete_ctx find
  delete_ctx-find key s e = get-held none key _ (redis.del-held key s e)

  -- Under the laws of the commands and with a prefix, neither Delete reaches the session that Commit
  -- has stored and Find answers, nor does FindCtx: after Delete of a key the server has under it what
  -- it had before, and after a commit, through a context too, FindCtx of its key answers what the
  -- server had under the longer one before, or an error.
  pub prefix_added_twice :
      (key bytes : Bytes) (t : T) (modified : Bool) (s : S)
      → prefix ≢ []
      → (redis.held (delete cli prefix key s).1 key ≡ redis.held s key)
        × Answers
            (redis.held s (prefix ++ key))
            (find_ctx cli prefix key (commit cli prefix key bytes t modified s).1).0
  unfolding delete find_ctx
  prefix_added_twice key bytes t modified s n =
      let moves : key ≢ prefix ++ key = prefix_moves prefix key n in
      let unlinked : redis.held (cli.unlink (prefix ++ key) s).1 key ≡ redis.held s key =
        redis.unlink-others (prefix ++ key) key s moves in
      (
        elim (Option-cases (cli.unlink (prefix ++ key) s).0) [
          | inl h ↦ rw (delete, h) unlinked
          | inr (x, h) ↦ rw (delete, h) (redis.del-others (prefix ++ key) key _ moves ∙ unlinked)
        ],
        get-held _ (prefix ++ key) _
            (commit_others key bytes (prefix ++ key) t modified s (λ e. moves (sym e))),
      )

  -- The store of the manager keeps its contract, under the laws of the commands.
  unfoldable pub kept_contract : IsStore (redis_store cli prefix)
  unfolding find
  kept_contract = record {
    held = redis.held;
    in_time = λ s t. redis.is_later s (cli.unix t);
    find-Answers = λ k s. redis.get-Answers k s;
    commit-held = λ k v t changed s l e. commit_held k v t changed s l e;
  }
