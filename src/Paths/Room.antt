-- ===== src/Paths/Room.antt =====
-- The buffer of `CleanUrlPath` has room for what is written to it, so that the function returns.
use wx.Common.{
  ℕ, zero, suc, ◌+◌, ◌-◌, ◌<◌, ◌≤◌, Bool, true, false, [], ◌∷◌, ◌++◌, Bytes, done, get_elem?-lt,
  length, length-append, length-take, length-replicate, take, replicate, ltb, Bool-cases, ◌==◌, ◌≡◌,
  ◌⊎◌, inl, inr, refl, ap, arith, ◌∙◌,
}
use wx.Paths.{Cleaning, write, buf_app, app, back, written_to, copied, ends_slash}

write_lem :
    (w c : ℕ) (b : Bytes)
    → w < length b
    → (d : Bytes) × (write w c b ≡ done d) × (length d ≡ length b)
unfolding write
write_lem w c [] h = elim h [ ]
write_lem zero c (b ∷ bs) h = (c ∷ bs, refl, refl)
write_lem (suc w) c (b ∷ bs) h =
    let (d, e, l) = write_lem w c bs (omega (arith, h)) in (b ∷ d, rw e refl, ap suc l)

fresh_length :
    (s : Bytes) (w : ℕ) → w ≤ length s → length (take w s ++ replicate (length s - w) 0) ≡ length s
fresh_length s w h =
    length-append (take w s) (replicate (length s - w) 0)
    ∙ omega (arith, length-take w s, length-replicate {A = ℕ} (length s - w) 0, h)

module _ (p : Bytes) (n : ℕ) where
  abbrev pub Fits : Bytes → Type 0
  Fits b = length (written_to p b) ≡ n

  Fits-made : (d : Bytes) → length d ≡ n → 0 < n → Fits d
  Fits-made [] e h = absurd (omega (arith, e, h))
  Fits-made (x ∷ d) e h = e

  -- The byte is in place already, or the buffer is made, or it is there.
  buf_app_lem :
      (c : ℕ) (b : Bytes) (w : ℕ)
      → Fits b
      → w < n
      → (d : Bytes) × (buf_app b p w c ≡ done d) × Fits d
  unfolding buf_app
  buf_app_lem c [] w f h =
      let (x, e) = get_elem?-lt p w (omega (arith, f, h)) in
      let (d, g, l) =
        write_lem w c (take w p ++ replicate (length p - w) 0)
          (omega (arith, f, h, fresh_length p w (omega (arith, f, h)))) in
      elim (Bool-cases (x == c)) [
        | inl q ↦ ([], rw (e, q) refl, f)
        | inr q ↦ (
          d,
          rw (e, q) g,
          Fits-made d (l ∙ fresh_length p w (omega (arith, f, h)) ∙ f) (omega (arith, h)),
        )
      ]
  buf_app_lem c (x ∷ b) w f h =
      let (d, g, l) = write_lem w c (x ∷ b) (omega (arith, f, h)) in
      (d, g, Fits-made d (l ∙ f) (omega (arith, h)))

  pub app_lem :
      (c : ℕ) (k : Cleaning)
      → Fits k.buf
      → k.w < n
      → (b : Bytes) × (app p c k ≡ done (record k { buf = b; w = k.w + 1 })) × Fits b
  unfolding app
  app_lem c k f h = let (d, e, g) = buf_app_lem c k.buf k.w f h in (d, rw e refl, g)

pub back_lem :
    (s : Bytes) (w : ℕ) → 0 < w → w < length s → (v : ℕ) × (back s w ≡ done v) × (0 < v) × (v ≤ w)
unfolding back
back_lem s zero h l = elim h [ ]
back_lem s (suc zero) h l = (1, refl, omega arith, omega arith)
back_lem s (suc (suc w)) h l =
    let (x, e) = get_elem?-lt s (suc (suc w)) l in
    let big : ltb 1 (suc (suc w)) ≡ true = ground arith in
    let (v, g, pos, le) = back_lem s (suc w) (omega arith) (omega (arith, l)) in
    elim (Bool-cases (x == b'/')) [
      | inl q ↦ (suc (suc w), rw (back, big, e, q) refl, omega arith, omega arith)
      | inr q ↦ (v, rw (back, big, e, q) g, pos, omega (arith, le))
    ]

abbrev pub AtSlash : Bytes → Type 0
AtSlash [] = Unit
AtSlash (c ∷ s) = (c == b'/') ≡ true

-- If the one ends with a slash, so does the other.
abbrev pub KeepsEnd : Bytes → Bytes → Type 0
KeepsEnd s t = (ends_slash s ≡ false) ⊎ (ends_slash t ≡ true)

pub KeepsEnd-cons : (c : ℕ) (s t : Bytes) → (c == b'/') ≡ false → KeepsEnd s t → KeepsEnd (c ∷ s) t
KeepsEnd-cons c [] t e h = inl e
KeepsEnd-cons c (d ∷ s) t e h = h

module _ (p : Bytes) (n : ℕ) where
  pub record IsCopied (s : Bytes) (k : Cleaning) (rest : Bytes) (j : Cleaning) : Type 0 where
    pub fits : Fits p n j.buf
    pub positive : 0 < j.w
    pub room : j.w + length rest ≤ n
    pub shorter : length rest ≤ length s
    pub at_slash : AtSlash rest
    pub trailing_eq : j.trailing ≡ k.trailing
    pub keeps_end : KeepsEnd s rest

  pub copied_lem :
      (s : Bytes) (k : Cleaning)
      → Fits p n k.buf
      → 0 < k.w
      → k.w + length s ≤ n
      → (rest : Bytes) × (j : Cleaning) × (copied p s k ≡ done (rest, j)) × IsCopied s k rest j
  unfolding copied
  copied_lem [] k f pos le = (
    [],
    k,
    refl,
    record {
      fits = f;
      positive = pos;
      room = le;
      shorter = omega arith;
      at_slash = tt;
      trailing_eq = refl;
      keeps_end = inl refl;
    },
  )
  copied_lem (c ∷ s) k f pos le = elim (Bool-cases (c == b'/')) [
    | inl q ↦ (
      c ∷ s,
      k,
      rw (copied, q) refl,
      record {
        fits = f;
        positive = pos;
        room = le;
        shorter = omega arith;
        at_slash = q;
        trailing_eq = refl;
        keeps_end = same_end (ends_slash (c ∷ s));
      },
    )
    | inr q ↦
        let (b, e, g) = app_lem p n c k f (omega (arith, le)) in
        let (rest, j, h, i) =
          copied_lem s (record k { buf = b; w = k.w + 1 }) g (omega arith) (omega (arith, le)) in
        (
          rest,
          j,
          rw (copied, q, e) h,
          record {
            fits = i.fits;
            positive = i.positive;
            room = i.room;
            shorter = omega (arith, i.shorter);
            at_slash = i.at_slash;
            trailing_eq = i.trailing_eq;
            keeps_end = KeepsEnd-cons c s rest q i.keeps_end;
          },
        )
  ]
    where
      same_end : (b : Bool) → (b ≡ false) ⊎ (b ≡ true)
      same_end true = inr refl
      same_end false = inl refl
