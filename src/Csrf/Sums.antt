-- ===== src/Csrf/Sums.antt =====
-- The check sum of a token, `SimpleHash.ValidateHash` of helpers/utilcrypt/utils.go.
use wx.Common.{
  ℕ, zero, suc, ◌+◌, ◌*◌, ◌≡◌, ◌↔◌, ==_iff, true, [], ◌∷◌, ◌++◌, Bytes, length, length-append, drop,
  refl, sym, ap, arith, ◌∙◌,
}
use wx.Session.Hash.{validate_hash, sum16, uint16_is}

-- The last two bytes are the sum of the first three, the low one first.
abbrev pub HasSum : Bytes → Type 0
HasSum t =
    (a : ℕ) × (b : ℕ) × (c : ℕ) × (l : ℕ) × (h : ℕ) × (front : Bytes) × (rest : Bytes) × (t
      ≡ a ∷ b ∷ c ∷ rest)
    × (t ≡ front ++ l ∷ h ∷ [])
    × (sum16 a b c ≡ l + 256 * h)

-- All but the first `n` of two bytes more.
last_two :
    (n : ℕ) (s : Bytes)
    → length s ≡ n + 2
    → (l : ℕ) × (h : ℕ) × (front : Bytes) × (drop n s ≡ l ∷ h ∷ []) × (s ≡ front ++ l ∷ h ∷ [])
last_two zero [] e = absurd (omega (arith, e))
last_two zero (l ∷ []) e = absurd (omega (arith, e))
last_two zero (l ∷ h ∷ []) e = (l, h, [], refl, refl)
last_two zero (l ∷ h ∷ x ∷ s) e = absurd (omega (arith, e))
last_two (suc n) [] e = absurd (omega (arith, e))
last_two (suc n) (x ∷ s) e =
    let r = last_two n s (omega (arith, e)) in (r.0, r.1, x ∷ r.2, r.3, ap (λ t. x ∷ t) r.4)

drop-front : (front : Bytes) (l h : ℕ) → drop (length front) (front ++ l ∷ h ∷ []) ≡ l ∷ h ∷ []
drop-front [] l h = refl
drop-front (x ∷ front) l h = drop-front front l h

drop_two :
    (n : ℕ) (s front : Bytes) (l h : ℕ)
    → length s ≡ n + 2
    → s ≡ front ++ l ∷ h ∷ []
    → drop n s ≡ l ∷ h ∷ []
drop_two n s front l h len e =
    let m : n ≡ length front = omega (arith, len, ap length e, length-append front (l ∷ h ∷ [])) in
    rw (e, m) (drop-front front l h)

summed : (t : Bytes) → validate_hash t ≡ true → HasSum t
unfolding validate_hash
summed [] e = cc
summed (a ∷ []) e = cc
summed (a ∷ b ∷ []) e = cc
summed (a ∷ b ∷ c ∷ s) e =
    let r = last_two (suc (length s)) (a ∷ b ∷ c ∷ s) (omega arith) in
    let both : uint16_is (sum16 a b c) (r.0 ∷ r.1 ∷ []) ≡ true = rw r.3 at e in
    (a, b, c, r.0, r.1, r.2, s, refl, r.4, (==_iff (sum16 a b c) (r.0 + 256 * r.1)).0 both)

valid : (t : Bytes) → HasSum t → validate_hash t ≡ true
unfolding validate_hash
valid t (a, b, c, l, h, front, rest, e, f, sum) =
    rw (e, drop_two (suc (length rest)) (a ∷ b ∷ c ∷ rest) front l h (omega arith) (sym e ∙ f))
      ((==_iff (sum16 a b c) (l + 256 * h)).1 sum)

pub validate_hash_iff : (t : Bytes) → (validate_hash t ≡ true) ↔ HasSum t
validate_hash_iff t = (summed t, valid t)
