-- ===== src/Session/Redis.antt =====
-- fasthttp-routing/middleware/session/redisstore/redisstore.go. The client is rueidis, which is code of
-- others: its commands on a state `S` are parameters. Go's `append` of a nil and an empty slice are one.
pub mod Single
pub mod Scan
mod Tests
use wx.Common.{
  ℕ, zero, suc, ℤ, is_zero, Bool, true, false, Option, none, some, ◌⊎◌, inl, inr, List, [], ◌∷◌,
  ◌++◌, Bytes, codes, Panics, panic, out_of_fuel, index_range, done, ◌>>=◌, checked, length, drop,
  get_elem?, leb, assign, ◌==◌, if◌then◌else◌,
}
use wx.Session.Manager.{Lookup, failed, missing, present, Backend}

-- What a command answers: `rueidis.Nil`, another error, a string, or what `AsBytes` refuses.
pub data Reply : Type 0 where
  nil_reply : Reply
  error_reply string_reply other_reply : Bytes → Reply

-- The commands; the left side of a sum is the text of an error. `scan` has the cursor and the pattern,
-- and gives the next cursor and the elements.
module _ (S T : Type 0) where
  pub record Rueidis : Type 0 where
    pub get : Bytes → S → Reply × S
    pub expire_at : Bytes → ℤ → S → (Bytes ⊎ ℤ) × S
    pub set : Bytes → Bytes → T → S → Option Bytes × S
    pub unlink : Bytes → S → Option Bytes × S
    pub del : Bytes → S → Option Bytes × S
    pub scan : ℕ → Bytes → S → (Bytes ⊎ (ℕ × List Bytes)) × S
    pub mget : List Bytes → S → (Bytes ⊎ List Bytes) × S
    pub unix : T → ℤ

-- `New`
abbrev pub default_prefix : Bytes
default_prefix = codes "scs:session:"

abbrev pub lookup_of : Reply → Lookup
lookup_of nil_reply = missing
lookup_of (error_reply e) = failed e
lookup_of (string_reply b) = present b
lookup_of (other_reply e) = failed e

-- The strings of one batch by their names; an element shorter than the prefix, or one too few, panics.
unfoldable pub gather :
    ℕ → List Bytes → List Bytes → List (Bytes × Bytes) → Panics (List (Bytes × Bytes))
unfolding assign
gather n elements [] found = done found
gather n [] ([] ∷ strings) found = gather n [] strings found
gather n (e ∷ elements) ([] ∷ strings) found = gather n elements strings found
gather n [] ((c ∷ s) ∷ strings) found = panic index_range
gather n (e ∷ elements) ((c ∷ s) ∷ strings) found =
    let rest = gather n elements strings (assign (drop n e) (c ∷ s) found) in
    if leb n (length e) then rest else panic index_range

-- The end of `All` and `AllCtx`: an empty map is nil.
abbrev pub nil_if_empty : List (Bytes × Bytes) → Option (List (Bytes × Bytes))
nil_if_empty [] = none
nil_if_empty (e ∷ found) = some (e ∷ found)

module _ {S T : Type 0} (cli : Rueidis S T) (prefix : Bytes) where
  -- `Find`
  unfoldable pub find : Bytes → S → Lookup × S
  find key st = let r = cli.get key st in (lookup_of r.0, r.1)

  -- `FindCtx`
  unfoldable pub find_ctx : Bytes → S → Lookup × S
  find_ctx key st = let r = cli.get (prefix ++ key) st in (lookup_of r.0, r.1)

  -- `Commit` and `CommitCtx`
  unfoldable pub commit : Bytes → Bytes → T → Bool → S → Option Bytes × S
  commit key bytes expiry true st = cli.set key bytes expiry st
  commit key bytes expiry false st =
      let r = cli.expire_at key (cli.unix expiry) st in
      elim r.0 [
        | inl e ↦ (some e, r.1)
        | inr n ↦ if is_zero n then cli.set key bytes expiry r.1 else (none, r.1)
      ]

  -- `Delete`
  unfoldable pub delete : Bytes → S → Option Bytes × S
  delete key st =
      let r = cli.unlink (prefix ++ key) st in
      elim r.0 [ none ↦ (none, r.1) | some e ↦ cli.del (prefix ++ key) r.1 ]

  -- `DeleteCtx`
  unfoldable pub delete_ctx : Bytes → S → Option Bytes × S
  delete_ctx key st = cli.del key st

  -- The two sets of operations.
  abbrev pub redis_store : Backend S T
  redis_store = record { find = find; commit = commit; delete = delete }

  abbrev pub redis_ctx_store : Backend S T
  redis_ctx_store = record { find = find_ctx; commit = commit; delete = delete_ctx }

  -- What both loops do with the elements of a batch, given the rest of the loop.
  abbrev pub read_batch :
      List Bytes
      → List (Bytes × Bytes)
      → S
      → (List (Bytes × Bytes) → S → Panics ((Bytes ⊎ Option (List (Bytes × Bytes))) × S))
      → Panics ((Bytes ⊎ Option (List (Bytes × Bytes))) × S)
  read_batch elements found st rest =
      let r = cli.mget elements st in
      elim r.0 [
        | inl e ↦ done (inl e, r.1)
        | inr strings ↦ gather (length prefix) elements strings found >>= (λ m. rest m r.1)
      ]

  -- The loop of `All`; the cursor is that of the scan before.
  unfoldable pub all_from :
      ℕ → ℕ → List (Bytes × Bytes) → S → Panics ((Bytes ⊎ Option (List (Bytes × Bytes))) × S)
  unfolding gather
  all_from zero cursor found st = panic out_of_fuel
  all_from (suc fuel) cursor found st =
      let r = cli.scan cursor (prefix ++ codes "*") st in
      elim r.0 [
        | inl e ↦ done (inl e, r.1)
        | inr (next, elements) ↦
            if next == 0 then done (inr (nil_if_empty found), r.1) else elim elements [
              | [] ↦ all_from fuel next found r.1
              | e ∷ es ↦ read_batch (e ∷ es) found r.1 (λ m s. all_from fuel next m s)
            ]
      ]

  unfoldable pub all : ℕ → S → Panics ((Bytes ⊎ Option (List (Bytes × Bytes))) × S)
  unfolding all_from
  all fuel st = all_from fuel 0 [] st

  -- The loop of `AllCtx`.
  unfoldable pub all_ctx_from :
      ℕ → ℕ → List (Bytes × Bytes) → S → Panics ((Bytes ⊎ Option (List (Bytes × Bytes))) × S)
  unfolding gather
  all_ctx_from zero cursor found st = panic out_of_fuel
  all_ctx_from (suc fuel) cursor found st =
      let r = cli.scan cursor (prefix ++ codes "*") st in
      elim r.0 [
        | inl e ↦ done (inl e, r.1)
        | inr (next, []) ↦ all_ctx_from fuel cursor found r.1
        | inr (next, e ∷ es) ↦ read_batch (e ∷ es) found r.1 (λ m s.
            if next == 0 then done (inr (nil_if_empty m), s) else all_ctx_from fuel next m s)
      ]

  unfoldable pub all_ctx : ℕ → S → Panics ((Bytes ⊎ Option (List (Bytes × Bytes))) × S)
  unfolding all_ctx_from
  all_ctx fuel st = all_ctx_from fuel 0 [] st
