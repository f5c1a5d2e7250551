-- ===== src/Negotiation/Ranges.antt =====
-- `forEachMediaRange` on a header that is put together from its ranges.
use wx.Common.{
  ℕ, zero, suc, ◌+◌, ◌≤◌, ◌≡◌, true, false, List, [], ◌∷◌, ◌++◌, Bytes, leb, ◌==◌, length, drop,
  take, All, All-append, refl, ap, arith, length-append,
}
use wx.Negotiation.Header.{trim_left, index_byte, has_byte, range_end, ranges_from, media_ranges}

-- A byte of a range that holds neither commas nor quotes.
abbrev IsPlain : ℕ → Type 0
IsPlain c = ((c == b',') ≡ false) × ((c == b'"') ≡ false)

-- A range of such bytes, at least one, with no space in front.
abbrev pub IsRange : Bytes → Type 0
IsRange [] = ⊥
IsRange (c ∷ s) = ((c == b' ') ≡ false) × All IsPlain (c ∷ s)

-- The ranges with a comma and a space between them.
abbrev pub after_comma : List Bytes → Bytes
after_comma [] = []
after_comma (p ∷ ps) = b',' ∷ b' ' ∷ p ++ after_comma ps

comma_end : (p s : Bytes) → All IsPlain p → index_byte b',' (p ++ b',' ∷ s) ≡ length p
unfolding index_byte
comma_end [] s h = refl
comma_end (c ∷ p) s ((e, f), h) = rw (e, comma_end p s h) refl

no_comma : (p : Bytes) → All IsPlain p → index_byte b',' (p ++ []) ≡ length p
unfolding index_byte
no_comma [] h = refl
no_comma (c ∷ p) ((e, f), h) = rw (e, no_comma p h) refl

take-whole : (p s : Bytes) → take (length p) (p ++ s) ≡ p
take-whole [] s = refl
take-whole (c ∷ p) s = ap (λ l. c ∷ l) (take-whole p s)

drop-whole : (p s : Bytes) (c : ℕ) → drop (length p + 1) (p ++ c ∷ s) ≡ s
drop-whole [] s c = refl
drop-whole (d ∷ p) s c =
    let next : suc (length p) + 1 ≡ suc (length p + 1) = omega arith in rw next (drop-whole p s c)

IsRange-IsPlain : (p : Bytes) → IsRange p → All IsPlain p
IsRange-IsPlain [] h = absurd h
IsRange-IsPlain (c ∷ p) h = h.1

trim_left-IsRange : (p s : Bytes) → IsRange p → trim_left (p ++ s) ≡ p ++ s
unfolding trim_left
trim_left-IsRange [] s h = absurd h
trim_left-IsRange (c ∷ p) s (e, h) = rw e refl

ranges_from_lem :
    (f c : ℕ) (s p : Bytes) (ps : List Bytes)
    → trim_left (c ∷ s) ≡ p ++ after_comma ps
    → length (p ++ after_comma ps) ≤ suc f
    → IsRange p
    → All IsRange ps
    → ranges_from (suc f) false (c ∷ s) ≡ p ∷ ps
unfolding ranges_from
ranges_from_lem f c s p [] e le h hs =
    let ends = no_comma p (IsRange-IsPlain p h) in
    let last : leb (length (p ++ [])) (length p) ≡ true = ground (arith, length-append p []) in
    rw (e, range_end, ends, last, take-whole p []) refl
ranges_from_lem zero c s p (q ∷ ps) e le h hs =
    absurd (omega (arith, le, length-append p (after_comma (q ∷ ps))))
ranges_from_lem (suc f) c s p (q ∷ ps) e le h (hq, hs) =
    let rest = b' ' ∷ q ++ after_comma ps in
    let ends = comma_end p rest (IsRange-IsPlain p h) in
    let whole : length (p ++ b',' ∷ rest) ≡ length p + (2 + length (q ++ after_comma ps)) =
      omega (arith, length-append p (b',' ∷ rest)) in
    let more : leb (length (p ++ b',' ∷ rest)) (length p) ≡ false = ground arith in
    let later =
      ranges_from_lem f b' ' (q ++ after_comma ps) q ps (trim_left-IsRange q (after_comma ps) hq)
        (omega (arith, le, whole)) hq hs in
    rw (e, range_end, ends, more, take-whole p (b',' ∷ rest), drop-whole p rest b',', later) refl

-- A byte that is not a quote.
abbrev IsOther : ℕ → Type 0
IsOther c = (c == b'"') ≡ false

IsPlain-IsOther : (p : Bytes) → All IsPlain p → All IsOther p
IsPlain-IsOther [] h = tt
IsPlain-IsOther (c ∷ p) ((e, f), h) = (f, IsPlain-IsOther p h)

after_comma-IsOther : (ps : List Bytes) → All IsRange ps → All IsOther (after_comma ps)
after_comma-IsOther [] h = tt
after_comma-IsOther (p ∷ ps) (h, hs) = (
  refl,
  (
    refl,
    All-append IsOther p (after_comma ps) (IsPlain-IsOther p (IsRange-IsPlain p h))
        (after_comma-IsOther ps hs),
  ),
)

no_quote : (s : Bytes) → All IsOther s → index_byte b'"' s ≡ length s
unfolding index_byte
no_quote [] h = refl
no_quote (c ∷ s) (e, h) = rw (e, no_quote s h) refl

-- A header of ranges with no commas, no quotes and no space in front, each with a byte at least, and
-- with a comma and a space between them: forEachMediaRange calls its function with these ranges.
pub media_ranges_lem :
    (p : Bytes) (ps : List Bytes)
    → All IsRange (p ∷ ps)
    → media_ranges (p ++ after_comma ps) ≡ p ∷ ps
unfolding media_ranges
media_ranges_lem [] ps (h, hs) = absurd h
media_ranges_lem (c ∷ p) ps (h, hs) =
    let header = (c ∷ p) ++ after_comma ps in
    let others =
      All-append IsOther (c ∷ p) (after_comma ps)
        (IsPlain-IsOther (c ∷ p) (IsRange-IsPlain (c ∷ p) h)) (after_comma-IsOther ps hs) in
    let unquoted : has_byte b'"' header ≡ false = ground (arith, no_quote header others) in
    rw unquoted (
      ranges_from_lem (length (p ++ after_comma ps)) c (p ++ after_comma ps) (c ∷ p) ps
        (trim_left-IsRange (c ∷ p) (after_comma ps) h) (omega arith) h hs)
