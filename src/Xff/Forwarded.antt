-- ===== src/Xff/Forwarded.antt =====
-- The loops of xff.go over a `Forwarded` header, and helpers/utilconvert/ascii.go. The loops write to
-- the bytes that they look at: the result holds the header as it is left.
use wx.Common.{
  ℕ, zero, suc, ◌+◌, ◌-◌, Bool, ◌&&◌, ◌||◌, Option, none, some, List, [], ◌∷◌, ◌++◌, map, Bytes,
  length, take, drop, same, leb, ltb, ◌==◌, if◌then◌else◌,
}

-- `ToLower`
abbrev pub lower_byte : ℕ → ℕ
lower_byte c = if leb b'A' c && leb c b'Z' then c + 32 else c

abbrev pub to_lower : Bytes → Bytes
to_lower = map lower_byte

-- The first `n` bytes in lower case.
abbrev pub lowered : ℕ → Bytes → Bytes
lowered n s = to_lower (take n s) ++ drop n s

-- Up to a comma or a semicolon.
unfoldable pub value_of : Bytes → Bytes
value_of [] = []
value_of (c ∷ s) = let rest = value_of s in if c == b',' || c == b';' then [] else c ∷ rest

-- `c` is the small letter `l` or its capital.
abbrev pub is_letter : ℕ → ℕ → Bool
is_letter l c = c == l || c == l - 32

-- The value of the first parameter with the key `l ∷ ks`.
unfoldable pub scan_first : ℕ → ℕ → Bytes → Bytes → Bytes × Option Bytes
unfolding value_of same
scan_first zero l ks s = (s, none)
scan_first (suc fuel) l ks [] = ([], none)
scan_first (suc fuel) l ks (c ∷ s) =
    let n = suc (length ks) in
    let part = lowered n (c ∷ s) in
    let left = if is_letter l c then part else c ∷ s in
    let later = scan_first fuel l ks (drop 1 left) in
    if is_letter l c && ltb (length (c ∷ s)) n
    then (c ∷ s, none)
    else if is_letter l c && same (take n part) (l ∷ ks)
    then (part, some (value_of (drop n part)))
    else (take 1 left ++ later.0, later.1)

-- Where the values of all such parameters stand, and their lengths; `i` is the index of the first byte.
unfoldable pub scan_all : ℕ → ℕ → ℕ → Bytes → Bytes → Bytes × List (ℕ × ℕ)
unfolding value_of same
scan_all zero i l ks s = (s, [])
scan_all (suc fuel) i l ks [] = ([], [])
scan_all (suc fuel) i l ks (c ∷ s) =
    let n = suc (length ks) in
    let part = lowered n (c ∷ s) in
    let left = if is_letter l c then part else c ∷ s in
    let later = scan_all fuel (i + 1) l ks (drop 1 left) in
    let found : ℕ × ℕ = (i + n, length (value_of (drop n part))) in
    if is_letter l c && ltb (length (c ∷ s)) n
    then (c ∷ s, [])
    else if is_letter l c && same (take n part) (l ∷ ks)
    then (take 1 left ++ later.0, found ∷ later.1)
    else (take 1 left ++ later.0, later.1)
