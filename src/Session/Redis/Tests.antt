-- ===== src/Session/Redis/Tests.antt =====
-- A server that is a map, whose clock stands still, and which gives a key at a time.
use wx.Common.{
  ℕ, zero, suc, ℤ, pos, is_zero, Bool, true, false, Option, none, some, ◌⊎◌, inl, inr, List, [],
  ◌∷◌, ◌++◌, map, replicate, Returns, Bytes, codes, panic, out_of_fuel, done, ap, ◌∙◌, same, lookup,
  assign, erase, lookup-assign, lookup-erase, refl, lookup-assign_other, lookup-erase_other, ◌≡◌,
  ◌≢◌, arith,
}
use wx.Negotiation.Offer.{or_else}
use wx.Session.Redis.{
  Rueidis, Reply, nil_reply, string_reply, redis_store, lookup_of, nil_if_empty, find, find_ctx,
  commit, delete, all, all_ctx,
}
use wx.Session.Token.{session_prefix, token_with_prefix}
use wx.Session.Data.{Data, unmodified}
use wx.Session.Data.Laws.{IsSound}
use wx.Session.Manager
use wx.Session.Manager.{Manager, load_session, do_store_commit}
use wx.Session.Manager.Destroyed.{key_of}
use wx.Session.Manager.Resumed.{Answers, committed, Resumes, commit-load_session}
use wx.Session.Redis
use wx.Session.Redis.Single.{kept_contract, IsRedis, commit-find, prefix_added_twice}
use wx.Session.Redis.Scan.{sessions, elements_of, all_lem, all_ctx-empty}

abbrev Server : Type 0
Server = List (Bytes × Bytes)

abbrev reply : Option Bytes → Reply
reply none = nil_reply
reply (some v) = string_reply v

abbrev counted : Option Bytes → ℤ
counted none = pos 0
counted (some v) = pos 1

-- The scan gives one key, and then another.
abbrev batch : ℕ → ℕ × List Bytes
batch zero = (1, codes "p:a" ∷ [])
batch (suc n) = (0, codes "p:b" ∷ [])

abbrev client : Rueidis Server ℕ
client = record {
  get = λ k s. (reply (lookup k s), s);
  expire_at = λ k u s. (inr (counted (lookup k s)), s);
  set = λ k v t s. (none, assign k v s);
  unlink = λ k s. (none, erase k s);
  del = λ k s. (none, erase k s);
  scan = λ c p s. (inr (batch c), s);
  mget = λ ks s. (inr (map (λ k. or_else (lookup k s) []) ks), s);
  unix = λ t. pos t;
}

reply-Answers : (o : Option Bytes) → Answers o (lookup_of (reply o))
reply-Answers none = tt
reply-Answers (some v) = refl

count_zero :
    (o : Option Bytes) (n : ℤ)
    → ◌≡◌ {A = Bytes ⊎ ℤ} (inr (counted o)) (inr n)
    → is_zero n ≡ true
    → o ≡ none
count_zero none n e z = refl
count_zero (some v) n e z =
    let h : false ≡ is_zero n = ap (λ x. elim x [ inl a ↦ false | inr m ↦ is_zero m ]) e in cc

count_one :
    (o : Option Bytes) (n : ℤ)
    → ◌≡◌ {A = Bytes ⊎ ℤ} (inr (counted o)) (inr n)
    → is_zero n ≡ false
    → (v : Bytes) × (o ≡ some v)
count_one (some v) n e z = (v, refl)
count_one none n e z =
    let h : true ≡ is_zero n = ap (λ x. elim x [ inl a ↦ true | inr m ↦ is_zero m ]) e in
    let no : true ≡ false = h ∙ z in cc

abbrev laws : IsRedis client
laws = record {
  held = λ s k. lookup k s;
  is_later = λ s u. true;
  get-Answers = λ k s. reply-Answers (lookup k s);
  set-held = λ k v t s l e. lookup-assign k v s;
  set-others = λ k v j t s n. lookup-assign_other j k v s n;
  expire_at-count = λ k u n s e z. count_zero (lookup k s) n e z;
  expire_at-found = λ k u n s e z. count_one (lookup k s) n e z;
  expire_at-held = λ k j u s l. refl;
  expire_at-is_later = λ k u s. refl;
  expire_at-others = λ k j u s n. refl;
  unlink-others = λ k j s n. lookup-erase_other j k s n;
  del-others = λ k j s n. lookup-erase_other j k s n;
  del-held = λ k s e. lookup-erase k s;
}

abbrev before : Server
before = (codes "p:a", codes "1") ∷ []

apart : codes "p:b" ≢ codes "p:a"
apart e = ground arith

returned : (commit client (codes "p:") (codes "p:a") (codes "2") 7 false before).0 ≡ none
unfolding commit lookup same
returned = refl

commit-find_example :
    Answers
      (some (committed false (lookup (codes "p:a") before) (codes "2")))
      (find client
        (codes "p:")
        (codes "p:a")
        (commit client (codes "p:") (codes "p:a") (codes "2") 7 false before).1).0
    × (lookup (codes "p:b") (commit client (codes "p:") (codes "p:a") (codes "2") 7 false before).1
        ≡ lookup (codes "p:b") before)
commit-find_example =
    commit-find client (codes "p:") laws (codes "p:a") (codes "2") (codes "p:b") 7 false before refl
      returned apart

prefix_added_twice_example :
    (lookup (codes "p:a") (delete client (codes "p:") (codes "p:a") before).1
      ≡ lookup (codes "p:a") before)
    × Answers
        (lookup (codes "p:" ++ codes "p:a") before)
        (find_ctx client
          (codes "p:")
          (codes "p:a")
          (commit client (codes "p:") (codes "p:a") (codes "2") 7 true before).1).0
prefix_added_twice_example =
    prefix_added_twice client (codes "p:") laws (codes "p:a") (codes "2") 7 true before (λ e. cc)

all_lem_example :
    all client (codes "p:") 5 before
    ≡ done (
      inr (
          nil_if_empty
            (sessions (λ k. lookup k before) 2 (elements_of ((codes "p:a" ∷ []) ∷ [])) [])),
      before,
    )
all_lem_example =
    all_lem client (codes "p:") (λ k. lookup k before) before ((codes "p:a" ∷ []) ∷ [])
      (codes "p:b" ∷ []) 5 (λ ks. refl) (0, refl, refl) ((omega arith, tt), tt) (omega arith)

all_ctx-empty_example :
    all_ctx (record client { scan = λ c p s. (inr (0, []), s) }) (codes "p:") 1000 []
    ≡ panic out_of_fuel
all_ctx-empty_example =
    all_ctx-empty (record client { scan = λ c p s. (inr (0, []), s) }) (codes "p:") (λ k. none) [] 0
      1000 refl

-- A manager with this server as its store, and a codec that knows one session.
abbrev manager : Manager Server ℕ
manager = record {
  store = redis_store client (codes "p:");
  ctx_store = none;
  codec = record { marshal = λ m c. (true, codes "{}"); unmarshal = λ b. inr (some [], codes "t") };
  expiry = 9;
}

-- A session in use, with nothing in it.
abbrev session : Bool → Data ℕ
session started = record {
  status = unmodified;
  token = record { front = session_prefix; text = replicate 43 b'A'; spare = [] };
  csrf_token = record { front = []; text = codes "t"; spare = replicate 29 0 };
  values = some [];
  started = started;
}

session-IsSound : IsSound (session true)
session-IsSound = record {
  prefixed = refl;
  sized = refl;
  csrf_sized = omega arith;
  made = ([], refl);
}

stored :
    Manager.commit manager false (session true) []
    ≡ done (none, (key_of (session true), codes "{}") ∷ [])
unfolding Manager.commit do_store_commit token_with_prefix Redis.commit lookup assign same
stored = refl

commit-load_session_example :
    Returns
      (Resumes manager (kept_contract client (codes "p:") laws) (some []) (codes "t"))
      (load_session manager false (session false) ((key_of (session true), codes "{}") ∷ []))
unfolding kept_contract lookup
commit-load_session_example =
    commit-load_session manager (kept_contract client (codes "p:") laws) (session true)
      (session false) [] ((key_of (session true), codes "{}") ∷ []) (codes "{}") session-IsSound
      refl refl refl (inr refl) refl stored
