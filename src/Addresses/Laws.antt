-- ===== src/Addresses/Laws.antt =====
-- An address that has been put together from a host and a port is taken apart again.
use wx.Common.{ℕ, ◌≡◌, true, false, none, some, [], ◌∷◌, ◌++◌, Bytes, All, done, ◌==◌, refl, arith}
use wx.Addresses.{split, split_first, split_last, count, split_ip_and_port}

-- No byte is `c`.
abbrev pub Without : ℕ → Bytes → Type 0
Without c = All (λ b. (b == c) ≡ false)

self : (c : ℕ) → (c == c) ≡ true
self c = ground arith

split_first_at : (c : ℕ) (s t : Bytes) → Without c s → split_first c (s ++ c ∷ t) ≡ some (s, t)
unfolding split_first
split_first_at c [] t h = rw (self c) refl
split_first_at c (b ∷ s) t (hb, h) = rw (hb, split_first_at c s t h) refl

split_last-none : (c : ℕ) (t : Bytes) → Without c t → split_last c t ≡ none
unfolding split_last
split_last-none c [] h = refl
split_last-none c (b ∷ t) (hb, h) = rw (split_last-none c t h, hb) refl

split_last_at : (c : ℕ) (s t : Bytes) → Without c t → split_last c (s ++ c ∷ t) ≡ some (s, t)
unfolding split_last
split_last_at c [] t h = rw (split_last-none c t h, self c) refl
split_last_at c (b ∷ s) t h = rw (split_last_at c s t h) refl

count_none : (c : ℕ) (s : Bytes) → Without c s → count c s ≡ 0
unfolding count
count_none c [] h = refl
count_none c (b ∷ s) (hb, h) = rw (hb, count_none c s h) refl

count_one : (c : ℕ) (s t : Bytes) → Without c s → Without c t → count c (s ++ c ∷ t) ≡ 1
unfolding count
count_one c [] t h k = rw (self c, count_none c t k) refl
count_one c (b ∷ s) t (hb, h) k = rw (hb, count_one c s t h k) refl

-- A host in brackets, without a closing bracket of its own, and a port that is not empty are taken
-- apart again.
pub bracketed_roundtrip :
    (ip port : Bytes) (d : ℕ)
    → Without b']' ip
    → split_ip_and_port (b'[' ∷ (ip ++ b']' ∷ b':' ∷ d ∷ port)) ≡ done (split ip (d ∷ port))
unfolding split_ip_and_port
bracketed_roundtrip ip port d h = rw (split_first_at b']' ip (b':' ∷ d ∷ port) h) refl

-- A host and a port without colons, the host not empty and with no bracket in front, are taken apart
-- again.
pub plain_roundtrip :
    (a : ℕ) (ip port : Bytes)
    → (a == b'[') ≡ false
    → Without b':' (a ∷ ip)
    → Without b':' port
    → split_ip_and_port ((a ∷ ip) ++ b':' ∷ port) ≡ done (split (a ∷ ip) port)
unfolding split_ip_and_port
plain_roundtrip a ip port n h k =
    rw (n, count_one b':' (a ∷ ip) port h k, split_last_at b':' (a ∷ ip) port k) refl
