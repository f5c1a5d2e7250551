-- ===== src/Session/Token.antt =====
-- fasthttp-routing/middleware/session: the tokens of a session and the slices they stand in
-- (`GenerateToken2`, `isValidToken`, and the keys of the store that are read in front of a slice).
use wx.Common.{
  ℕ, ◌+◌, ◌*◌, ◌/◌, Bool, false, ◌&&◌, Option, none, some, [], ◌∷◌, ◌++◌, Bytes, codes, Panics,
  panic, done, ◌>>=◌, log_panic, index_range, bad_address, leb, ◌==◌, if◌then◌else◌, length, take,
  drop,
}
use wx.Session.Hash.{append_hash, validate_hash}
use wx.Session.Base64.{encode, decode}

-- A slice and its array: what stands in front of the slice, its bytes, and the room behind it.
pub record Slice : Type 0 where
  pub front : Bytes
  pub text : Bytes
  pub spare : Bytes

-- `b[:0]`
abbrev pub emptied : Slice → Slice
emptied b = record b { text = []; spare = b.text ++ b.spare }

-- `b[:n]`
abbrev pub resliced : ℕ → Slice → Panics Slice
resliced n b =
    let all : Bytes = b.text ++ b.spare in
    if leb n (length all)
    then done (record b { text = take n all; spare = drop n all })
    else panic index_range

-- `append(b[:0], s...)`: an array that is too short is left for a new one, of which nothing is known
-- but that it holds `s`.
abbrev pub refilled : Slice → Bytes → Slice
refilled b s =
    let all : Bytes = b.text ++ b.spare in
    if leb (length s) (length all)
    then record b { text = s; spare = drop (length s) all }
    else record { front = []; text = s; spare = [] }

-- A nil slice.
abbrev pub nil_slice : Slice
nil_slice = record { front = []; text = []; spare = [] }

-- `sessionPrefix`
abbrev pub session_prefix : Bytes
session_prefix = codes "scs:session:"

-- `TokenLen`, `AppendHashTokenLen`, `UrlEncodedTokenLen`, `UrlEncodedTokenWithPrefixLen`, and those of
-- the csrf token.
abbrev pub token_len : ℕ
token_len = 30

abbrev pub append_hash_token_len : ℕ
append_hash_token_len = token_len + 2

abbrev pub url_encoded_token_len : ℕ
url_encoded_token_len = (append_hash_token_len * 8 + 5) / 6

abbrev pub url_encoded_token_with_prefix_len : ℕ
url_encoded_token_with_prefix_len = url_encoded_token_len + length session_prefix

abbrev pub csrf_token_len : ℕ
csrf_token_len = 20

abbrev pub append_hash_csrf_token_len : ℕ
append_hash_csrf_token_len = csrf_token_len + 2

abbrev pub url_encoded_csrf_token_len : ℕ
url_encoded_csrf_token_len = (append_hash_csrf_token_len * 8 + 5) / 6

-- The 55 bytes that start 12 bytes in front of a slice, whatever the length of the slice.
unfoldable pub token_with_prefix : Slice → Panics Bytes
token_with_prefix b =
    let all : Bytes = b.front ++ (b.text ++ b.spare) in
    if (length b.front == 12) && leb url_encoded_token_with_prefix_len (length all)
    then done (take url_encoded_token_with_prefix_len all)
    else panic bad_address

-- `base64.RawURLEncoding.Encode(dst, raw)`
abbrev pub encode_into : Slice → Bytes → Panics Slice
encode_into dst raw =
    let out = encode raw in
    if leb (length out) (length dst.text)
    then done (record dst { text = out ++ drop (length out) dst.text })
    else panic index_range

-- `GenerateToken2`, given what the random reader writes to all but two bytes of the raw token.
unfoldable pub generate_token2 : Option Bytes → Slice → Panics Slice
generate_token2 none dst = panic log_panic
generate_token2 (some random) dst = do raw ← append_hash (random ++ 0 ∷ 0 ∷ []); encode_into dst raw

-- `isValidToken`
unfoldable pub is_valid_token : Bytes → Bool
unfolding decode validate_hash
is_valid_token token = elim (decode token) [ none ↦ false | some raw ↦ validate_hash raw ]
