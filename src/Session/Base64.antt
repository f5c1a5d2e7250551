-- ===== src/Session/Base64.antt =====
-- `base64.RawURLEncoding` of Go's standard library: groups of three bytes, with no padding.
use wx.Common.{
  ℕ, ◌+◌, ◌-◌, ◌*◌, ◌/◌, ◌%◌, ◌<◌, ◌≡◌, false, ◌&&◌, Option, none, some, List, [], ◌∷◌, Bytes, All,
  ltb, leb, ◌==◌, if◌then◌else◌, length, refl, arith,
}

-- The letter of a number below 64, and the number of a letter.
abbrev pub letter : ℕ → ℕ
letter n =
    if ltb n 26
    then n + 65
    else (if ltb n 52 then n + 71 else (if ltb n 62 then n - 4 else (if n == 62 then 45 else 95)))

abbrev pub digit : ℕ → Option ℕ
digit c =
    if leb 65 c && leb c 90
    then some (c - 65)
    else (if leb 97 c && leb c 122
        then some (c - 71)
        else (if leb 48 c && leb c 57
            then some (c + 4)
            else (if c == 45 then some 62 else (if c == 95 then some 63 else none))))

unfoldable pub encode : Bytes → Bytes
encode [] = []
encode (a ∷ []) = letter (a / 4) ∷ letter ((a % 4) * 16) ∷ []
encode (a ∷ b ∷ []) = letter (a / 4) ∷ letter ((a % 4) * 16 + b / 16) ∷ letter ((b % 16) * 4) ∷ []
encode (a ∷ b ∷ c ∷ s) =
    letter (a / 4)
    ∷ letter ((a % 4) * 16 + b / 16)
    ∷ letter ((b % 16) * 4 + c / 64)
    ∷ letter (c % 64)
    ∷ encode s

-- Line breaks are skipped.
unfoldable pub digits : Bytes → Option (List ℕ)
digits [] = some []
digits (c ∷ s) =
    let rest = digits s in
    if c == 10
    then rest
    else (if c == 13 then rest else elim (digit c) [
      | none ↦ none
      | some d ↦ elim rest [ none ↦ none | some ds ↦ some (d ∷ ds) ]
    ])

-- The bytes of the numbers, without those bits at the end that fill no byte; a single number at the
-- end is an error.
unfoldable pub join : List ℕ → Option Bytes
join [] = some []
join (p ∷ []) = none
join (p ∷ q ∷ []) = some ((p * 4 + q / 16) ∷ [])
join (p ∷ q ∷ r ∷ []) = some ((p * 4 + q / 16) ∷ ((q % 16) * 16 + r / 4) ∷ [])
join (p ∷ q ∷ r ∷ t ∷ s) = elim (join s) [
  | none ↦ none
  | some bs ↦ some ((p * 4 + q / 16) ∷ ((q % 16) * 16 + r / 4) ∷ ((r % 4) * 64 + t) ∷ bs)
]

unfoldable pub decode : Bytes → Option Bytes
unfolding digits join
decode s = elim (digits s) [ none ↦ none | some ds ↦ join ds ]

digit-letter : (n : ℕ) → n < 64 → digit (letter n) ≡ some n
digit-letter n h = ground arith

letter-break : (n : ℕ) → n < 64 → (letter n == 10) ≡ false
letter-break n h = ground arith

letter-return : (n : ℕ) → n < 64 → (letter n == 13) ≡ false
letter-return n h = ground arith

digits-letter :
    (n : ℕ) (s : Bytes) (ds : List ℕ)
    → n < 64
    → digits s ≡ some ds
    → digits (letter n ∷ s) ≡ some (n ∷ ds)
unfolding digits
digits-letter n s ds h e = rw (letter-break n h, letter-return n h, digit-letter n h, e) refl

-- The numbers below 64 that stand for bytes.
abbrev sextets : Bytes → List ℕ
sextets [] = []
sextets (a ∷ []) = (a / 4) ∷ ((a % 4) * 16) ∷ []
sextets (a ∷ b ∷ []) = (a / 4) ∷ ((a % 4) * 16 + b / 16) ∷ ((b % 16) * 4) ∷ []
sextets (a ∷ b ∷ c ∷ s) =
    (a / 4) ∷ ((a % 4) * 16 + b / 16) ∷ ((b % 16) * 4 + c / 64) ∷ (c % 64) ∷ sextets s

-- Every element is a byte.
abbrev pub AllBytes : Bytes → Type 0
AllBytes = All (λ b. b < 256)

digits-encode : (s : Bytes) → AllBytes s → digits (encode s) ≡ some (sextets s)
unfolding digits encode
digits-encode [] h = refl
digits-encode (a ∷ []) (ha, h) =
    digits-letter _ (letter ((a % 4) * 16) ∷ []) _ (omega (arith, ha))
      (digits-letter _ [] _ (omega (arith, ha)) refl)
digits-encode (a ∷ b ∷ []) (ha, (hb, h)) =
    let t = letter ((b % 16) * 4) ∷ [] in
    digits-letter _ (letter ((a % 4) * 16 + b / 16) ∷ t) _ (omega (arith, ha))
      (digits-letter _ t _ (omega (arith, ha, hb)) (digits-letter _ [] _ (omega (arith, hb)) refl))
digits-encode (a ∷ b ∷ c ∷ s) (ha, (hb, (hc, h))) =
    let t = letter (c % 64) ∷ encode s in
    let u = letter ((b % 16) * 4 + c / 64) ∷ t in
    digits-letter _ (letter ((a % 4) * 16 + b / 16) ∷ u) _ (omega (arith, ha)) (
      digits-letter _ u _ (omega (arith, ha, hb)) (
        digits-letter _ t _ (omega (arith, hb, hc))
          (digits-letter _ (encode s) _ (omega (arith, hc)) (digits-encode s h))))

first_byte : (a b : ℕ) → a < 256 → b < 256 → (a / 4) * 4 + ((a % 4) * 16 + b / 16) / 16 ≡ a
first_byte a b ha hb = omega (arith, ha, hb)

second_byte :
    (a b c : ℕ)
    → a < 256
    → b < 256
    → c < 256
    → ((((a % 4) * 16 + b / 16) % 16) * 16 + ((b % 16) * 4 + c / 64) / 4) ≡ b
second_byte a b c ha hb hc = omega (arith, ha, hb, hc)

third_byte : (b c : ℕ) → b < 256 → c < 256 → (((b % 16) * 4 + c / 64) % 4) * 64 + c % 64 ≡ c
third_byte b c hb hc = omega (arith, hb, hc)

last_first : (a : ℕ) → a < 256 → (a / 4) * 4 + ((a % 4) * 16) / 16 ≡ a
last_first a h = omega (arith, h)

last_second :
    (a b : ℕ) → a < 256 → b < 256 → ((((a % 4) * 16 + b / 16) % 16) * 16 + ((b % 16) * 4) / 4) ≡ b
last_second a b ha hb = omega (arith, ha, hb)

join-sextets : (s : Bytes) → AllBytes s → join (sextets s) ≡ some s
unfolding join
join-sextets [] h = refl
join-sextets (a ∷ []) (ha, h) = rw (last_first a ha) refl
join-sextets (a ∷ b ∷ []) (ha, (hb, h)) = rw (first_byte a b ha hb, last_second a b ha hb) refl
join-sextets (a ∷ b ∷ c ∷ s) (ha, (hb, (hc, h))) =
    rw (join-sextets s h, first_byte a b ha hb, second_byte a b c ha hb hc, third_byte b c hb hc)
      refl

-- Decoding what bytes have been encoded to gives the bytes.
pub decode-encode : (s : Bytes) → AllBytes s → decode (encode s) ≡ some s
unfolding decode
decode-encode s h = rw (digits-encode s h, decode) (join-sextets s h)

pub length-encode : (s : Bytes) → length (encode s) ≡ (8 * length s + 5) / 6
unfolding encode
length-encode [] = refl
length-encode (a ∷ []) = refl
length-encode (a ∷ b ∷ []) = refl
length-encode (a ∷ b ∷ c ∷ s) = omega (arith, length-encode s)
