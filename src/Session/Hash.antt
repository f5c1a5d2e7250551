-- ===== src/Session/Hash.antt =====
-- helpers/utilcrypt/utils.go: the two bytes of a check sum at the end of a token. Bytes are below 256.
use wx.Common.{
  ℕ, zero, suc, ◌+◌, ◌-◌, ◌*◌, ◌/◌, ◌%◌, ◌≤◌, ◌<◌, ◌≡◌, Bool, true, false, List, [], ◌∷◌, ◌++◌,
  Bytes, Panics, panic, done, explicit, ◌==◌, length, take, drop, All, refl, arith,
}

-- A 16-bit product and sum: `(uint16(bs[0])*uint16(bs[1]) + 99) * uint16(bs[2])`.
abbrev pub sum16 : ℕ → ℕ → ℕ → ℕ
sum16 a b c = (((a * b) % 65536 + 99) % 65536 * c) % 65536

-- `binary.LittleEndian.AppendUint16` and `Uint16`
abbrev pub low_high : ℕ → Bytes
low_high n = n % 256 ∷ n / 256 ∷ []

-- `SimpleHash.AppendHash`: the sum is written over the last two bytes, if the slice has five at least.
unfoldable pub append_hash : Bytes → Panics Bytes
append_hash (a ∷ b ∷ c ∷ d ∷ e ∷ s) =
    done (take (suc (suc (suc (length s)))) (a ∷ b ∷ c ∷ d ∷ e ∷ s) ++ low_high (sum16 a b c))
append_hash [] = panic explicit
append_hash (a ∷ []) = panic explicit
append_hash (a ∷ b ∷ []) = panic explicit
append_hash (a ∷ b ∷ c ∷ []) = panic explicit
append_hash (a ∷ b ∷ c ∷ d ∷ []) = panic explicit

-- The 16-bit number at the start of a slice of two bytes.
abbrev pub uint16_is : ℕ → Bytes → Bool
uint16_is n (l ∷ h ∷ []) = n == l + 256 * h
uint16_is n [] = false
uint16_is n (l ∷ []) = false
uint16_is n (l ∷ h ∷ x ∷ s) = false

-- `SimpleHash.ValidateHash`
unfoldable pub validate_hash : Bytes → Bool
validate_hash [] = false
validate_hash (a ∷ []) = false
validate_hash (a ∷ b ∷ []) = false
validate_hash (a ∷ b ∷ c ∷ s) = uint16_is (sum16 a b c) (drop (suc (length s)) (a ∷ b ∷ c ∷ s))

-- `SimpleHash.EncodedLen` and `DecodedLen`, the latter of a length of two at least.
abbrev pub encoded_len : ℕ → ℕ
encoded_len n = n + 2

abbrev pub decoded_len : ℕ → ℕ
decoded_len n = n - 2

uint16-low_high : (n : ℕ) → uint16_is n (low_high n) ≡ true
uint16-low_high n = ground arith

drop-take : {A : Type 0} (n : ℕ) (s t : List A) → n ≤ length s → drop n (take n s ++ t) ≡ t
drop-take zero s t h = refl
drop-take (suc n) [] t h = absurd (omega (arith, h))
drop-take (suc n) (x ∷ s) t h = drop-take n s t (omega (arith, h))

All-hashed :
    (n : ℕ) (s t : Bytes)
    → All (λ x. x < 256) s
    → All (λ x. x < 256) t
    → All (λ x. x < 256) (take n s ++ t)
All-hashed zero s t h k = k
All-hashed (suc n) [] t h k = k
All-hashed (suc n) (x ∷ s) t (hx, h) k = (hx, All-hashed n s t h k)

low_high_small : (a b c : ℕ) → All (λ x. x < 256) (low_high (sum16 a b c))
low_high_small a b c = (omega arith, (omega arith, tt))

length-hashed : (n : ℕ) (s t : Bytes) → n ≤ length s → length (take n s ++ t) ≡ n + length t
length-hashed zero s t h = omega arith
length-hashed (suc n) [] t h = omega (arith, h)
length-hashed (suc n) (x ∷ s) t h = omega (arith, length-hashed n s t (omega (arith, h)))

-- A slice of five bytes at least has a sum that is right once it has been written.
pub validate-append :
    (a b c d e : ℕ) (s : Bytes)
    → All (λ x. x < 256) (a ∷ b ∷ c ∷ d ∷ e ∷ s)
    → (t : Bytes) × (append_hash (a ∷ b ∷ c ∷ d ∷ e ∷ s) ≡ done t)
      × (validate_hash t ≡ true)
      × (length t ≡ 5 + length s)
      × All (λ x. x < 256) t
unfolding append_hash validate_hash
validate-append a b c d e s (ha, (hb, (hc, h))) =
    let len : length (take (length s) (d ∷ e ∷ s) ++ low_high (sum16 a b c))
        ≡ suc (suc (length s)) =
      omega (arith, length-hashed (length s) (d ∷ e ∷ s) (low_high (sum16 a b c)) (omega arith)) in
    let tail : drop (length s) (take (length s) (d ∷ e ∷ s) ++ low_high (sum16 a b c))
        ≡ low_high (sum16 a b c) =
      drop-take (length s) (d ∷ e ∷ s) _ (omega arith) in
    (
      _,
      refl,
      rw (len, tail) (uint16-low_high (sum16 a b c)),
      omega (arith, len),
      (ha, (hb, (hc, All-hashed (length s) (d ∷ e ∷ s) _ h (low_high_small a b c)))),
    )
