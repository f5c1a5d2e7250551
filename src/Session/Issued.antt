-- ===== src/Session/Issued.antt =====
-- Tokens that `GenerateToken2` makes are those that `isValidToken` accepts.
use wx.Common.{
  ℕ, ◌+◌, ◌*◌, ◌/◌, ◌≤◌, ◌≡◌, true, some, List, [], ◌∷◌, ◌++◌, Bytes, All-append, done, length,
  length-append, drop, refl, arith, Returns, append-nil, le→leb,
}
use wx.Session.Hash.{append_hash, validate_hash, validate-append}
use wx.Session.Base64.{encode, decode-encode, length-encode, AllBytes}
use wx.Session.Token.{Slice, generate_token2, is_valid_token}

drop_all : {A : Type 0} (s : List A) → drop (length s) s ≡ []
drop_all [] = refl
drop_all (x ∷ s) = drop_all s

pub drop_exact : {A : Type 0} (n : ℕ) (s : List A) → n ≡ length s → drop n s ≡ []
drop_exact n s h = rw h (drop_all s)

-- A hash on a slice of five bytes at least, whatever bytes they are.
pub hashed :
    (raw : Bytes)
    → 5 ≤ length raw
    → AllBytes raw
    → (t : Bytes) × (append_hash raw ≡ done t)
      × (validate_hash t ≡ true)
      × (length t ≡ length raw)
      × AllBytes t
hashed (a ∷ b ∷ c ∷ d ∷ e ∷ s) h k =
    let v = validate-append a b c d e s k in (v.0, v.1, v.2, omega (arith, v.3), v.4)
hashed [] h k = absurd (omega (arith, h))
hashed (a ∷ []) h k = absurd (omega (arith, h))
hashed (a ∷ b ∷ []) h k = absurd (omega (arith, h))
hashed (a ∷ b ∷ c ∷ []) h k = absurd (omega (arith, h))
hashed (a ∷ b ∷ c ∷ d ∷ []) h k = absurd (omega (arith, h))

valid-encode : (t : Bytes) → AllBytes t → validate_hash t ≡ true → is_valid_token (encode t) ≡ true
unfolding is_valid_token
valid-encode t k v = rw (decode-encode t k, is_valid_token) v

-- Three random bytes at least, and a slice of just the length of the encoded token: the token is
-- made, fills the slice, and is one that the check of tokens accepts.
pub generate-IsValid :
    (random : Bytes) (dst : Slice)
    → 3 ≤ length random
    → AllBytes random
    → length dst.text ≡ (8 * (length random + 2) + 5) / 6
    → Returns
        (λ b.
          (is_valid_token b.text ≡ true)
          × (length b.text ≡ length dst.text)
          × (b.front ≡ dst.front)
          × (b.spare ≡ dst.spare))
        (generate_token2 (some random) dst)
unfolding generate_token2
generate-IsValid random dst h k len =
    let raw = random ++ 0 ∷ 0 ∷ [] in
    let lr : length raw ≡ length random + 2 = length-append random (0 ∷ 0 ∷ []) in
    let r =
      hashed raw (omega (arith, lr, h))
        (All-append _ random (0 ∷ 0 ∷ []) k (omega arith, (omega arith, tt))) in
    let lt : length (encode r.0) ≡ length dst.text =
      omega (arith, length-encode r.0, r.3, lr, len) in
    rw
      (
        r.1,
        le→leb (length (encode r.0)) (length dst.text) (omega (arith, lt)),
        drop_exact (length (encode r.0)) dst.text lt,
        append-nil,
      )
      (valid-encode r.0 r.4 r.2, lt, refl, refl)
