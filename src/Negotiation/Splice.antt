-- ===== src/Negotiation/Splice.antt =====
-- `getSplicedStrList` of fasthttp-routing/helpers.go: the elements of a header between its commas. The
-- start of an element is a uint8. Only bytes can be commas, so that runes do not matter. The slice that
-- is given is overwritten, and does not show in the result.
use wx.Common.{
  ℕ, ◌+◌, ◌-◌, ◌%◌, ◌≤◌, ◌≡◌, true, ◌&&◌, List, [], ◌∷◌, ◌++◌, Bytes, Panics, panic, index_range,
  done, ◌>>=◌, map, leb, ◌==◌, if◌then◌else◌, length, take, drop, Bool-cases, inl, inr, refl, ap,
  sym, arith, ◌∙◌, append_assoc, length-append,
}
use wx.Routing.Router.Register.{split_comma}
use wx.Negotiation.Header.{trim_left}

-- `s[i:j]`
abbrev pub substring : Bytes → ℕ → ℕ → Panics Bytes
substring s i j =
    if leb i j && leb j (length s) then done (take (j - i) (drop i s)) else panic index_range

-- The loop over the header, with `lastElementEndsAt`; the end of the header is the byte `$` behind it.
unfoldable pub splice_from : Bytes → ℕ → ℕ → Bytes → Panics (List Bytes)
unfolding trim_left
splice_from header index last [] = do
  element ← substring header last index
  done (trim_left element ∷ [])
splice_from header index last (c ∷ s) =
    let last' = if c == b',' then (index + 1) % 256 else last in
    let later = splice_from header (index + 1) last' s in
    let cut =
      substring header last index
      >>= (λ element. later >>= (λ elements. done (trim_left element ∷ elements))) in
    if c == b',' then cut else later

-- The nil slice of an empty header is the empty list.
unfoldable pub get_spliced_str_list : Bytes → Panics (List Bytes)
unfolding splice_from
get_spliced_str_list [] = done []
get_spliced_str_list (c ∷ s) = splice_from (c ∷ s) 0 0 (c ∷ s)

drop-append : (a b : Bytes) → drop (length a) (a ++ b) ≡ b
drop-append [] b = refl
drop-append (x ∷ a) b = drop-append a b

take-append : (a b : Bytes) → take (length a) (a ++ b) ≡ a
take-append [] b = refl
take-append (x ∷ a) b = ap (λ l. x ∷ l) (take-append a b)

substring_lem :
    (header before part rest : Bytes) (i j : ℕ)
    → header ≡ before ++ (part ++ rest)
    → i ≡ length before
    → j ≡ length before + length part
    → substring header i j ≡ done part
substring_lem header before part rest i j e p q =
    let whole : length header ≡ length before + (length part + length rest) =
      omega (arith, ap length e, length-append before (part ++ rest), length-append part rest) in
    let low : leb i j ≡ true = ground arith in
    let high : leb j (length header) ≡ true = ground arith in
    let size : j - i ≡ length part = omega arith in
    let cut : take (j - i) (drop i header) ≡ part =
      rw (size, p, e, drop-append before (part ++ rest)) (take-append part rest) in
    rw (low, high, cut) refl

one_more :
    (before part rest : Bytes) (c : ℕ)
    → before ++ (part ++ c ∷ rest) ≡ (before ++ (part ++ c ∷ [])) ++ rest
one_more before part rest c =
    ap (λ l. before ++ l) (sym (append_assoc part (c ∷ []) rest))
    ∙ sym (append_assoc before (part ++ c ∷ []) rest)

splice_from_lem :
    (header before part rest : Bytes) (index last : ℕ)
    → header ≡ before ++ (part ++ rest)
    → length header ≤ 255
    → last ≡ length before
    → index ≡ length before + length part
    → splice_from header index last rest ≡ done (map trim_left (split_comma part rest))
unfolding splice_from split_comma
splice_from_lem header before part [] index last h le p q =
    rw (substring_lem header before part [] last index h p q) refl
splice_from_lem header before part (c ∷ s) index last h le p q = elim (Bool-cases (c == b',')) [
  | inl e ↦
      let cut = substring_lem header before part (c ∷ s) last index h p q in
      let longer : length (before ++ (part ++ c ∷ [])) ≡ index + 1 =
        omega (arith, length-append before (part ++ c ∷ []), length-append part (c ∷ [])) in
      let whole = h ∙ one_more before part s c in
      let inside : length header ≡ index + 1 + length s =
        omega (arith, ap length whole, length-append (before ++ (part ++ c ∷ [])) s) in
      let later =
        splice_from_lem header (before ++ (part ++ c ∷ [])) [] s (index + 1) ((index + 1) % 256)
          whole le (omega arith) (omega arith) in
      rw (e, cut, later) refl
  | inr e ↦
      let later =
        splice_from_lem header before (part ++ c ∷ []) s (index + 1) last
          (h ∙ ap (λ l. before ++ l) (sym (append_assoc part (c ∷ []) s))) le p
          (omega (arith, length-append part (c ∷ []))) in
      rw (e, later) refl
]

-- For a header that is not empty and has no more than 255 bytes, getSplicedStrList returns what stands
-- between the commas, each without the spaces in front of it.
pub get_spliced_str_list_lem :
    (c : ℕ) (header : Bytes)
    → length (c ∷ header) ≤ 255
    → get_spliced_str_list (c ∷ header) ≡ done (map trim_left (split_comma [] (c ∷ header)))
unfolding get_spliced_str_list
get_spliced_str_list_lem c header le =
    splice_from_lem (c ∷ header) [] [] (c ∷ header) 0 0 refl le refl refl
