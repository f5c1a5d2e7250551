-- ===== src/Paths.antt =====
-- helpers/http.go: `CleanUrlPath` and `bufApp`. The bytes of the path from the index `r` on stand for the
-- index. An empty buffer is one that has not been made yet.
mod Room
mod Switch
pub mod Total
mod Tests
use wx.Common.{
  ℕ, zero, suc, ◌+◌, ◌-◌, ◌<◌, Bool, true, false, not, ◌&&◌, ◌||◌, Option, none, some, List, [],
  ◌∷◌, ◌++◌, Bytes, Panics, panic, done, index_range, out_of_fuel, ◌>>=◌, checked, get_elem?,
  length, take, drop, replicate, ltb, leb, ◌==◌, if◌then◌else◌,
}

-- `b[w] = c`
unfoldable pub write : ℕ → ℕ → Bytes → Panics Bytes
write w c [] = panic index_range
write zero c (b ∷ bs) = done (c ∷ bs)
write (suc w) c (b ∷ bs) = write w c bs >>= (λ cs. done (b ∷ cs))

-- `bufApp`, with the buffer that it leaves
unfoldable pub buf_app : Bytes → Bytes → ℕ → ℕ → Panics Bytes
unfolding write
buf_app [] s w c =
    checked (get_elem? s w)
    >>= (λ d. if d == c then done [] else write w c (take w s ++ replicate (length s - w) 0))
buf_app (b ∷ bs) s w c = write w c (b ∷ bs)

-- What the loop keeps: the buffer, the index to write at, and whether there is a trailing slash.
pub record Cleaning : Type 0 where
  pub buf : Bytes
  pub w : ℕ
  pub trailing : Bool

-- Back to the last slash.
unfoldable pub back : Bytes → ℕ → Panics ℕ
back s zero = done 0
back s (suc w) =
    let further = back s w in
    if ltb 1 (suc w)
    then checked (get_elem? s (suc w)) >>= (λ c. if c == b'/' then done (suc w) else further)
    else done (suc w)

-- The buffer, or the path if there is none.
abbrev pub written_to : Bytes → Bytes → Bytes
written_to p [] = p
written_to p (b ∷ bs) = b ∷ bs

-- Without the last element.
unfoldable pub backtracked : Bytes → Cleaning → Panics Cleaning
unfolding back
backtracked p k =
    if ltb 1 k.w
    then back (written_to p k.buf) (k.w - 1) >>= (λ w. done (record k { w = w }))
    else done k

abbrev pub app : Bytes → ℕ → Cleaning → Panics Cleaning
unfolding buf_app
app p c k = buf_app k.buf p k.w c >>= (λ b. done (record k { buf = b; w = k.w + 1 }))

-- The loop that copies an element, and what is left of the path.
unfoldable pub copied : Bytes → Bytes → Cleaning → Panics (Bytes × Cleaning)
unfolding app
copied p [] k = done ([], k)
copied p (c ∷ s) k =
    let more = app p c k >>= (λ j. copied p s j) in if c == b'/' then done (c ∷ s, k) else more

-- `p[r] == '/'` for what is left of the path
abbrev pub begins_slash : Bytes → Bool
begins_slash [] = false
begins_slash (c ∷ s) = c == b'/'

abbrev pub is_dot_dot : Bytes → Bool
is_dot_dot [] = false
is_dot_dot (c ∷ s) = c == b'.' && (length s == 0 || begins_slash s)

-- The `switch` for a byte and the bytes behind it.
unfoldable pub cleaned_by : Bytes → ℕ → Bytes → Cleaning → Panics (Bytes × Cleaning)
unfolding backtracked copied
cleaned_by p c s k =
    let slashed : Panics Cleaning = if ltb 1 k.w then app p b'/' k else done k in
    if c == b'/'
    then done (s, k)
    else if c == b'.' && length s == 0
    then done (s, record k { trailing = true })
    else if c == b'.' && begins_slash s
    then done (drop 1 s, k)
    else if c == b'.' && is_dot_dot s
    then backtracked p k >>= (λ j. done (drop 2 s, j))
    else slashed >>= (λ j. copied p (c ∷ s) j)

unfoldable pub clean_from : ℕ → Bytes → Bytes → Cleaning → Panics Cleaning
unfolding cleaned_by
clean_from fuel p [] k = done k
clean_from zero p (c ∷ s) k = panic out_of_fuel
clean_from (suc fuel) p (c ∷ s) k = cleaned_by p c s k >>= (λ r. clean_from fuel p r.0 r.1)

abbrev pub ends_slash : Bytes → Bool
ends_slash [] = false
ends_slash (c ∷ []) = c == b'/'
ends_slash (c ∷ d ∷ s) = ends_slash (d ∷ s)

-- The end, from the trailing slash on.
unfoldable pub cleaned : Bytes → Cleaning → Panics Bytes
cleaned p k =
    let slashed : Panics Cleaning = if k.trailing && ltb 1 k.w then app p b'/' k else done k in
    slashed >>= (λ j.
      let out = written_to p j.buf in
      if leb j.w (length out) then done (take j.w out) else panic index_range)

-- `CleanUrlPath`
unfoldable pub clean_url_path : Bytes → Panics Bytes
unfolding clean_from cleaned
clean_url_path [] = done (b'/' ∷ [])
clean_url_path (c ∷ s) =
    let trailing = ltb 1 (length (c ∷ s)) && ends_slash (c ∷ s) in
    let plain : Cleaning = record { buf = []; w = 1; trailing = trailing } in
    let made : Cleaning = record {
      buf = b'/' ∷ replicate (length (c ∷ s)) 0;
      w = 1;
      trailing = trailing;
    } in
    let end : Panics Cleaning =
      if c == b'/'
      then clean_from (length s) (c ∷ s) s plain
      else clean_from (length (c ∷ s)) (c ∷ s) (c ∷ s) made in
    end >>= (λ k. cleaned (c ∷ s) k)
