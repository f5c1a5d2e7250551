-- ===== src/Session/Redis/Scan.antt =====
-- What the loops of RedisStore that list the sessions give, and when they do not end. The server's
-- clock stands still: reading leaves the state as it is.
use wx.Common.{
  ℕ, zero, suc, ◌≤◌, ◌<◌, ◌≡◌, false, Option, ◌⊎◌, inr, List, [], ◌∷◌, ◌++◌, map, Bytes, codes,
  Panics, panic, out_of_fuel, done, length, drop, leb, le→leb, true, assign, All, refl, ap, sym,
  if◌then◌else◌, ◌==◌, ◌≢◌, arith, ◌∙◌,
}
use wx.Negotiation.Offer.{or_else}
use wx.Session.Redis.{
  Rueidis, gather, nil_if_empty, read_batch, all_from, all, all_ctx_from, all_ctx,
}

-- A session that is found, unless it is empty.
abbrev pub with_session : Bytes → Bytes → List (Bytes × Bytes) → List (Bytes × Bytes)
with_session name [] found = found
with_session name (c ∷ v) found = assign name (c ∷ v) found

-- The sessions under the keys, one after the other.
abbrev pub sessions :
    (Bytes → Option Bytes) → ℕ → List Bytes → List (Bytes × Bytes) → List (Bytes × Bytes)
sessions held n [] found = found
sessions held n (k ∷ ks) found =
    sessions held n ks (with_session (drop n k) (or_else (held k) []) found)

-- All elements of the batches.
abbrev pub elements_of : List (List Bytes) → List Bytes
elements_of [] = []
elements_of (b ∷ bs) = b ++ elements_of bs

nonzero : (n : ℕ) → (suc n == 0) ≡ false
nonzero n = ground arith

gather_step :
    (n : ℕ) (k v : Bytes) (ks vs : List Bytes) (found : List (Bytes × Bytes))
    → n ≤ length k
    → gather n (k ∷ ks) (v ∷ vs) found ≡ gather n ks vs (with_session (drop n k) v found)
unfolding gather
gather_step n k [] ks vs found le = refl
gather_step n k (c ∷ v) ks vs found le =
    let e : leb n (length k) ≡ true = le→leb n (length k) le in rw e refl

gather_lem :
    (held : Bytes → Option Bytes) (n : ℕ) (ks : List Bytes) (found : List (Bytes × Bytes))
    → All (λ k. n ≤ length k) ks
    → gather n ks (map (λ k. or_else (held k) []) ks) found ≡ done (sessions held n ks found)
unfolding gather
gather_lem held n [] found h = refl
gather_lem held n (k ∷ ks) found (le, h) =
    gather_step n k (or_else (held k) []) ks _ found le ∙ gather_lem held n ks _ h

sessions-append :
    (held : Bytes → Option Bytes) (n : ℕ) (ks js : List Bytes) (found : List (Bytes × Bytes))
    → sessions held n (ks ++ js) found ≡ sessions held n js (sessions held n ks found)
sessions-append held n [] js found = refl
sessions-append held n (k ∷ ks) js found = sessions-append held n ks js _

module _ {S T : Type 0} (cli : Rueidis S T) (prefix : Bytes) (held : Bytes → Option Bytes)
    (s : S) where
  -- The scan from a cursor gives these batches, the last of them with the cursor 0.
  abbrev pub Scans : ℕ → List (List Bytes) → List Bytes → Type 0
  Scans cursor [] last = cli.scan cursor (prefix ++ codes "*") s ≡ (inr (0, last), s)
  Scans cursor (b ∷ bs) last =
      (next : ℕ) × (cli.scan cursor (prefix ++ codes "*") s ≡ (inr (suc next, b), s))
      × Scans (suc next) bs last

  -- MGET gives a string for every key, an empty one if there is none.
  abbrev pub Gets : Type 0
  Gets = (ks : List Bytes) → cli.mget ks s ≡ (inr (map (λ k. or_else (held k) []) ks), s)

  abbrev pub HasPrefix : Bytes → Type 0
  HasPrefix k = length prefix ≤ length k

  -- The two sides of an answer, to rewrite by.
  left : {A : Type 0} (r : A × S) (a : A) (t : S) → r ≡ (a, t) → r.0 ≡ a
  left r a t e = ap (λ x. x.0) e

  right : {A : Type 0} (r : A × S) (a : A) (t : S) → r ≡ (a, t) → r.1 ≡ t
  right r a t e = ap (λ x. x.1) e

  read_batch_lem :
      (ks : List Bytes) (found : List (Bytes × Bytes))
      (rest : List (Bytes × Bytes) → S → Panics ((Bytes ⊎ Option (List (Bytes × Bytes))) × S))
      → Gets
      → All HasPrefix ks
      → read_batch cli prefix ks found s rest ≡ rest (sessions held (length prefix) ks found) s
  unfolding gather
  read_batch_lem ks found rest g h =
      rw
        (
          read_batch,
          left _ _ _ (g ks),
          right _ _ _ (g ks),
          gather_lem held (length prefix) ks found h,
        )
        refl

  all_from_lem :
      (bs : List (List Bytes)) (last : List Bytes) (fuel cursor : ℕ) (found : List (Bytes × Bytes))
      → Gets
      → Scans cursor bs last
      → All (All HasPrefix) bs
      → length bs < fuel
      → all_from cli prefix fuel cursor found s
        ≡ done (inr (nil_if_empty (sessions held (length prefix) (elements_of bs) found)), s)
  unfolding all_from
  all_from_lem [] last zero cursor found g e h le = elim le [ ]
  all_from_lem [] last (suc fuel) cursor found g e h le =
      rw (all_from, left _ _ _ e, right _ _ _ e) refl
  all_from_lem (b ∷ bs) last zero cursor found g e h le = elim le [ ]
  all_from_lem ([] ∷ bs) last (suc fuel) cursor found g (next, e, more) (hb, h) le =
      rw (all_from, left _ _ _ e, right _ _ _ e, nonzero next)
        (all_from_lem bs last fuel (suc next) found g more h (omega (arith, le)))
  all_from_lem ((k ∷ ks) ∷ bs) last (suc fuel) cursor found g (next, e, more) (hb, h) le =
      rw
        (
          all_from,
          left _ _ _ e,
          right _ _ _ e,
          nonzero next,
          read_batch_lem (k ∷ ks) found (λ m t. all_from cli prefix fuel (suc next) m t) g hb,
          all_from_lem bs last fuel (suc next) (sessions held (length prefix) (k ∷ ks) found) g more
              h (omega (arith, le)),
          sessions-append held (length prefix) (k ∷ ks) (elements_of bs) found,
        )
        refl

  -- If the server's clock stands still, MGET answers for every key, and the scan of the prefix is of so
  -- many batches, whose elements have it in front: All returns, with enough fuel, the sessions under
  -- the elements of all batches but the last, each without the prefix of its key.
  pub all_lem :
      (bs : List (List Bytes)) (last : List Bytes) (fuel : ℕ)
      → Gets
      → Scans 0 bs last
      → All (All HasPrefix) bs
      → length bs < fuel
      → all cli prefix fuel s
        ≡ done (inr (nil_if_empty (sessions held (length prefix) (elements_of bs) [])), s)
  unfolding all
  all_lem bs last fuel g e h le = all_from_lem bs last fuel 0 [] g e h le

  abbrev pub IsFull : List Bytes → Type 0
  IsFull b = b ≢ []

  all_ctx_from_lem :
      (bs : List (List Bytes)) (last : List Bytes) (fuel cursor : ℕ) (found : List (Bytes × Bytes))
      → Gets
      → Scans cursor bs last
      → All (λ b. IsFull b × All HasPrefix b) bs
      → IsFull last
      → All HasPrefix last
      → length bs < fuel
      → all_ctx_from cli prefix fuel cursor found s
        ≡ done (
          inr (
              nil_if_empty (
                sessions held
                  (length prefix)
                  last
                  (sessions held (length prefix) (elements_of bs) found))),
          s,
        )
  unfolding all_ctx_from
  all_ctx_from_lem [] last zero cursor found g e h full hl le = elim le [ ]
  all_ctx_from_lem [] [] (suc fuel) cursor found g e h full hl le = elim (full refl) [ ]
  all_ctx_from_lem [] (k ∷ ks) (suc fuel) cursor found g e h full hl le =
      rw
        (
          all_ctx_from,
          left _ _ _ e,
          right _ _ _ e,
          read_batch_lem (k ∷ ks) found
              (λ m t.
                if 0 == 0
                then done (inr (nil_if_empty m), t)
                else all_ctx_from cli prefix fuel 0 m t)
              g hl,
        )
        refl
  all_ctx_from_lem (b ∷ bs) last zero cursor found g e h full hl le = elim le [ ]
  all_ctx_from_lem ([] ∷ bs) last (suc fuel) cursor found g e ((fb, hb), h) full hl le =
      elim (fb refl) [ ]
  all_ctx_from_lem ((k ∷ ks) ∷ bs) last (suc fuel) cursor found g (next, e, more) ((fb, hb), h) full
        hl le =
      rw
        (
          all_ctx_from,
          left _ _ _ e,
          right _ _ _ e,
          read_batch_lem (k ∷ ks) found
              (λ m t.
                if suc next == 0
                then done (inr (nil_if_empty m), t)
                else all_ctx_from cli prefix fuel (suc next) m t)
              g hb,
          nonzero next,
          all_ctx_from_lem bs last fuel (suc next) (sessions held (length prefix) (k ∷ ks) found) g
              more h full hl (omega (arith, le)),
          sessions-append held (length prefix) (k ∷ ks) (elements_of bs) found,
        )
        refl

  -- Under the same conditions, and if no batch is empty, AllCtx returns the sessions under the elements
  -- of all batches.
  pub all_ctx_lem :
      (bs : List (List Bytes)) (last : List Bytes) (fuel : ℕ)
      → Gets
      → Scans 0 bs last
      → All (λ b. IsFull b × All HasPrefix b) bs
      → IsFull last
      → All HasPrefix last
      → length bs < fuel
      → all_ctx cli prefix fuel s
        ≡ done (inr (nil_if_empty (sessions held (length prefix) (elements_of bs ++ last) [])), s)
  unfolding all_ctx
  all_ctx_lem bs last fuel g e h full hl le =
      all_ctx_from_lem bs last fuel 0 [] g e h full hl le
      ∙ ap (λ m. done (inr (nil_if_empty m), s))
          (sym (sessions-append held (length prefix) (elements_of bs) last []))

  stays :
      (next fuel : ℕ)
      → cli.scan 0 (prefix ++ codes "*") s ≡ (inr (next, []), s)
      → all_ctx_from cli prefix fuel 0 [] s ≡ panic out_of_fuel
  unfolding all_ctx_from
  stays next zero e = refl
  stays next (suc fuel) e = rw (all_ctx_from, left _ _ _ e, right _ _ _ e) (stays next fuel e)

  -- If the server's clock stands still and the first batch of the scan is empty, as it is of a server
  -- with no session: AllCtx uses up any fuel, that is, it does not return.
  pub all_ctx-empty :
      (next fuel : ℕ)
      → cli.scan 0 (prefix ++ codes "*") s ≡ (inr (next, []), s)
      → all_ctx cli prefix fuel s ≡ panic out_of_fuel
  unfolding all_ctx
  all_ctx-empty next fuel e = stays next fuel e
