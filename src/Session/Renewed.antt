-- ===== src/Session/Renewed.antt =====
-- The tokens that sessions are given.
use wx.Common.{
  ℕ, ◌+◌, ◌-◌, ◌*◌, ◌/◌, ◌≤◌, ◌≡◌, Bool, true, false, ◌&&◌, Bool-cases, Option, some, [], ◌∷◌, ◌++◌,
  Bytes, panic, done, ◌>>=◌, index_range, Returns, Returns-bind, All-append, Returns-mono, le→leb,
  leb, ◌==◌, length, length-take, length-append, take-append-drop, append-nil, refl, ap, arith, ◌∙◌,
  inl, inr,
}
use wx.Session.Base64.{AllBytes, encode, length-encode}
use wx.Session.Token.{
  Slice, resliced, refilled, generate_token2, is_valid_token, token_len, csrf_token_len,
  url_encoded_token_len, url_encoded_csrf_token_len,
}
use wx.Session.Issued.{drop_exact, generate-IsValid, hashed}
use wx.Session.Data.{Data}
use wx.Session.Data.Laws.{IsSound}
use wx.Session.Renew.{set_token, started_with, regenerate_csrf_token}

resliced-Returns :
    (n : ℕ) (b : Slice)
    → n ≤ length (b.text ++ b.spare)
    → Returns
        (λ c.
          (length c.text ≡ n)
          × (c.front ≡ b.front)
          × (length (c.text ++ c.spare) ≡ length (b.text ++ b.spare)))
        (resliced n b)
resliced-Returns n b h = rw (le→leb n (length (b.text ++ b.spare)) h) (
  omega (arith, h, length-take n (b.text ++ b.spare)),
  refl,
  ap length (take-append-drop n (b.text ++ b.spare)),
)

-- A token of `n` bytes that is accepted, in the array of the slice `b`.
abbrev IsNew : ℕ → Slice → Slice → Type 0
IsNew n b c =
    (is_valid_token c.text ≡ true)
    × (length c.text ≡ n)
    × (c.front ≡ b.front)
    × (length (c.text ++ c.spare) ≡ length (b.text ++ b.spare))

same_room :
    (b c e : Slice)
    → length e.text ≡ length c.text
    → e.spare ≡ c.spare
    → length (c.text ++ c.spare) ≡ length (b.text ++ b.spare)
    → length (e.text ++ e.spare) ≡ length (b.text ++ b.spare)
same_room b c e h k r =
    omega (arith, h, ap length k, r, length-append e.text e.spare, length-append c.text c.spare)

-- A new token in a slice with room for it.
renewed-Returns :
    (n : ℕ) (random : Bytes) (b : Slice)
    → 3 ≤ length random
    → AllBytes random
    → n ≡ (8 * (length random + 2) + 5) / 6
    → n ≤ length (b.text ++ b.spare)
    → Returns (IsNew n b) (resliced n b >>= generate_token2 (some random))
renewed-Returns n random b h k e room =
    Returns-bind
      (λ c.
        (length c.text ≡ n)
        × (c.front ≡ b.front)
        × (length (c.text ++ c.spare) ≡ length (b.text ++ b.spare)))
      (IsNew n b) (resliced n b) (generate_token2 (some random)) (resliced-Returns n b room)
      (λ c q.
        Returns-mono
          (λ t.
            (is_valid_token t.text ≡ true)
            × (length t.text ≡ length c.text)
            × (t.front ≡ c.front)
            × (t.spare ≡ c.spare))
          (IsNew n b) (generate_token2 (some random) c)
          (generate-IsValid random c h k (omega (arith, q.0, e)))
          (λ t g. (g.0, omega (arith, g.1, q.0), g.2 ∙ q.1, same_room b c t g.1 g.3 q.2)))

not_zero : (n : ℕ) → 1 ≤ n → (n == 0) ≡ false
not_zero n h = ground arith

not_empty : (n : ℕ) → (n == 0) ≡ false → 1 ≤ n
not_empty n h = ground arith

not_le : (n : ℕ) → 1 ≤ n → leb n 0 ≡ false
not_le n h = ground arith

and_false : (b : Bool) → (b && false) ≡ false
and_false true = refl
and_false false = refl

-- An array that is refilled to its length has no room left, and keeps what stands in front.
refilled-exact :
    (b : Slice) (s : Bytes)
    → length s ≡ length (b.text ++ b.spare)
    → refilled b s ≡ record { front = b.front; text = s; spare = [] }
refilled-exact b s h =
    rw
      (
        le→leb (length s) (length (b.text ++ b.spare)) (omega (arith, h)),
        drop_exact (length s) (b.text ++ b.spare) h,
      )
      refl

module _ {T : Type 0} where
  accepts :
      (token : Bytes) (e : Data T) (random : Option Bytes)
      → IsSound e
      → is_valid_token token ≡ true
      → length token ≡ url_encoded_token_len
      → Returns
          (λ l. (l.1 ≡ false) × (l.0.token.text ≡ token) × IsSound l.0)
          (set_token random token e)
  unfolding set_token
  accepts token e random t v len =
      rw
        (
          not_zero (length token) (omega (arith, len)),
          v,
          refilled-exact e.token token (omega (arith, len, t.sized)),
        )
        (
          refl,
          refl,
          record {
            prefixed = t.prefixed;
            sized = rw (append-nil) len;
            csrf_sized = t.csrf_sized;
            made = t.made;
          },
        )

  -- SetToken for a cookie that is not accepted, with 30 random bytes: it returns, says that the token
  -- is new, keeps the data sound, and SetToken accepts the new token of any later request, which has it
  -- as its own.
  pub set_token_roundtrip :
      (random cookie : Bytes) (d e : Data T) (later : Option Bytes)
      → IsSound d
      → IsSound e
      → length random ≡ token_len
      → AllBytes random
      → is_valid_token cookie ≡ false
      → Returns
          (λ r.
            (r.1 ≡ true)
            × IsSound r.0
            × Returns
                (λ l. (l.1 ≡ false) × (l.0.token.text ≡ r.0.token.text) × IsSound l.0)
                (set_token later r.0.token.text e))
          (set_token (some random) cookie d)
  unfolding set_token
  set_token_roundtrip random cookie d e later s t len k invalid =
      rw (invalid, and_false)
        (Returns-bind (IsNew url_encoded_token_len d.token) _ _ _
          (renewed-Returns url_encoded_token_len random d.token (omega (arith, len)) k
            (omega (arith, len)) (omega (arith, s.sized)))
          (λ b g. (
            refl,
            record {
              prefixed = g.2 ∙ s.prefixed;
              sized = g.3 ∙ s.sized;
              csrf_sized = s.csrf_sized;
              made = s.made;
            },
            accepts b.text e later t g.0 g.1,
          )))

  -- The end of Start, with 20 random bytes: it returns, there is a csrf token and the data stay sound.
  pub started_with-Returns :
      (random : Bytes) (d : Data T)
      → IsSound d
      → length random ≡ csrf_token_len
      → AllBytes random
      → Returns
          (λ e.
            (1 ≤ length e.csrf_token.text) × (e.started ≡ true) × (e.token ≡ d.token) × IsSound e)
          (started_with (some random) d)
  unfolding started_with
  started_with-Returns random d s len k = elim (Bool-cases (length d.csrf_token.text == 0)) [
    | inl q ↦
        rw (q, started_with)
          (Returns-bind (IsNew url_encoded_csrf_token_len d.csrf_token)
            (λ e.
              (1 ≤ length e.csrf_token.text) × (e.started ≡ true) × (e.token ≡ d.token) × IsSound e)
            (resliced url_encoded_csrf_token_len d.csrf_token >>= generate_token2 (some random))
            (λ t. done (record d { csrf_token = t; started = true }))
            (renewed-Returns url_encoded_csrf_token_len random d.csrf_token (omega (arith, len)) k
              (omega (arith, len)) s.csrf_sized)
            (λ b g. (
              omega (arith, g.1),
              refl,
              refl,
              record {
                prefixed = s.prefixed;
                sized = s.sized;
                csrf_sized = omega (arith, g.3, s.csrf_sized);
                made = s.made;
              },
            )))
    | inr q ↦
        rw (q, started_with)
          (
            not_empty (length d.csrf_token.text) q,
            refl,
            refl,
            record {
              prefixed = s.prefixed;
              sized = s.sized;
              csrf_sized = s.csrf_sized;
              made = s.made;
            },
          )
  ]

  -- RegenerateCsrfToken panics for all data and all random bytes that its reader can give: the
  -- destination has no bytes.
  pub regenerate_csrf_token_panics :
      (random : Bytes) (d : Data T)
      → length random ≡ csrf_token_len - 2
      → AllBytes random
      → regenerate_csrf_token (some random) d ≡ panic index_range
  unfolding regenerate_csrf_token generate_token2
  regenerate_csrf_token_panics random d len k =
      let raw = random ++ 0 ∷ 0 ∷ [] in
      let lr : length raw ≡ length random + 2 = length-append random (0 ∷ 0 ∷ []) in
      let r =
        hashed raw (omega (arith, lr, len))
          (All-append _ random (0 ∷ 0 ∷ []) k (omega arith, (omega arith, tt))) in
      rw (r.1, not_le (length (encode r.0)) (omega (arith, length-encode r.0, r.3, lr, len))) refl
