-- ===== src/Paths/Switch.antt =====
-- The `switch` of `CleanUrlPath` keeps the room of the buffer.
use wx.Common.{
  ℕ, suc, ◌+◌, ◌-◌, ◌<◌, ◌≤◌, Bool, true, false, ◌&&◌, [], ◌∷◌, Bytes, done, ◌>>=◌, length, drop,
  ltb, Bool-cases, ◌==◌, ◌≡◌, ◌⊎◌, inl, inr, refl, sym, ap, arith, ◌∙◌, if◌then◌else◌,
}
use wx.Paths.{Cleaning, app, written_to, backtracked, copied, is_dot_dot, ends_slash, cleaned_by}
use wx.Paths.Room.{Fits, app_lem, back_lem, AtSlash, KeepsEnd, KeepsEnd-cons, copied_lem}

pub if_true : {A : Type 0} (b : Bool) (x y : A) → b ≡ true → (if b then x else y) ≡ x
if_true b x y h = rw h refl

pub if_false : {A : Type 0} (b : Bool) (x y : A) → b ≡ false → (if b then x else y) ≡ y
if_false b x y h = rw h refl

module _ (p : Bytes) (n : ℕ) where
  -- A trailing slash will have room.
  abbrev pub Closed : Bytes → Cleaning → Type 0
  Closed [] k = (k.trailing ≡ false) ⊎ (k.w < n)
  Closed (c ∷ s) k = (k.trailing ≡ false) ⊎ (ends_slash (c ∷ s) ≡ true)

  pub record IsRoomy (s : Bytes) (k : Cleaning) : Type 0 where
    pub fits : Fits p n k.buf
    pub positive : 0 < k.w
    pub room : k.w + length s ≤ n
    pub apart : (k.w ≤ 1) ⊎ (k.w + length s < n) ⊎ AtSlash s
    pub closed : Closed s k

  Closed-drop :
      (c : ℕ) (s : Bytes) (k : Cleaning) → Closed (c ∷ s) k → k.w + length s < n → Closed s k
  Closed-drop c [] k h l = inr (omega (arith, l))
  Closed-drop c (d ∷ s) k h l = h

  of-Closed : (s : Bytes) (k : Cleaning) → (k.trailing ≡ false) ⊎ (ends_slash s ≡ true) → Closed s k
  of-Closed [] k (inl h) = inl h
  of-Closed [] k (inr h) = cc
  of-Closed (c ∷ s) k h = h

  -- One byte is dropped.
  drop_one : (c : ℕ) (s : Bytes) (k : Cleaning) → IsRoomy (c ∷ s) k → IsRoomy s k
  drop_one c s k r = record {
    fits = r.fits;
    positive = r.positive;
    room = omega (arith, r.room);
    apart = inr (inl (omega (arith, r.room)));
    closed = Closed-drop c s k r.closed (omega (arith, r.room));
  }

  -- The write index goes back.
  moved_back :
      (s : Bytes) (k : Cleaning) (w : ℕ)
      → IsRoomy s k
      → 0 < w
      → w ≤ k.w
      → (w < k.w) ⊎ (w ≤ 1)
      → IsRoomy s (record k { w = w })
  moved_back s k w r pos le less = record {
    fits = r.fits;
    positive = pos;
    room = omega (arith, r.room, le);
    apart = elim less [ inl l ↦ inr (inl (omega (arith, r.room, l))) | inr l ↦ inl l ];
    closed = back-Closed s r.closed;
  }
    where
      back-Closed : (t : Bytes) → Closed t k → Closed t (record k { w = w })
      back-Closed [] (inl h) = inl h
      back-Closed [] (inr h) = inr (omega (arith, le, h))
      back-Closed (c ∷ t) h = h

  backtracked_lem :
      (s : Bytes) (k : Cleaning)
      → IsRoomy s k
      → (w : ℕ) × (backtracked p k ≡ done (record k { w = w })) × IsRoomy s (record k { w = w })
  unfolding backtracked
  backtracked_lem s k r = elim (Bool-cases (ltb 1 k.w)) [
    | inl q ↦
        let wide : 1 < k.w = ground (arith, q) in
        let (v, e, pos, le) =
          back_lem (written_to p k.buf) (k.w - 1) (omega (arith, wide))
            (omega (arith, wide, r.fits, r.room)) in
        (
          v,
          rw (backtracked, q, e) refl,
          moved_back s k v r pos (omega (arith, le)) (inl (omega (arith, le, wide))),
        )
    | inr q ↦ (k.w, rw (backtracked, q) refl, r)
  ]

  slashed_lem :
      (c : ℕ) (s : Bytes) (k : Cleaning)
      → IsRoomy (c ∷ s) k
      → (c == b'/') ≡ false
      → (b : Bytes) × (w : ℕ) × ((if ltb 1 k.w then app p b'/' k else done k)
          ≡ done (record k { buf = b; w = w }))
        × Fits p n b
        × (0 < w)
        × (w + length (c ∷ s) ≤ n)
  slashed_lem c s k r q = elim (Bool-cases (ltb 1 k.w)) [
    | inl g ↦
        let wide : 1 < k.w = ground (arith, g) in
        let (b, e, f) = app_lem p n b'/' k r.fits (omega (arith, r.room)) in
        (
          b,
          k.w + 1,
          rw (g, e) refl,
          f,
          omega arith,
          elim r.apart [
            | inl h ↦ absurd (omega (arith, h, wide))
            | inr (inl h) ↦ omega (arith, h)
            | inr (inr h) ↦ absurd (clash (c == b'/') q h)
          ],
        )
    | inr g ↦ (k.buf, k.w, rw g refl, r.fits, r.positive, r.room)
  ]
    where
      clash : (b : Bool) → b ≡ false → b ≡ true → ⊥
      clash true h g = let no : true ≡ false = h in cc
      clash false h g = let no : false ≡ true = g in cc

  -- What the `switch` gives.
  abbrev pub Cleans : ℕ → Bytes → Cleaning → Type 0
  Cleans c s k =
      (rest : Bytes) × (j : Cleaning) × (cleaned_by p c s k ≡ done (rest, j))
      × IsRoomy rest j
      × (length rest ≤ length s)

  ends :
      (s t : Bytes) (k i : Cleaning)
      → i.trailing ≡ k.trailing
      → KeepsEnd s t
      → (k.trailing ≡ false) ⊎ (ends_slash s ≡ true)
      → (i.trailing ≡ false) ⊎ (ends_slash t ≡ true)
  ends s t k i e h (inl g) = inl (e ∙ g)
  ends s t k i e (inr h) g = inr h
  ends s t k i e (inl h) (inr g) = let no : false ≡ true = sym h ∙ g in cc

  copied_step :
      (c : ℕ) (s : Bytes) (i j : Cleaning)
      → (c == b'/') ≡ false
      → app p c i ≡ done j
      → copied p (c ∷ s) i ≡ copied p s j
  unfolding copied
  copied_step c s i j q e = if_false (c == b'/') _ _ q ∙ ap (λ m. m >>= (λ x. copied p s x)) e

  -- An element that is copied.
  copies :
      (c : ℕ) (s : Bytes) (k : Cleaning)
      → IsRoomy (c ∷ s) k
      → (c == b'/') ≡ false
      → cleaned_by p c s k
        ≡ ((if ltb 1 k.w then app p b'/' k else done k) >>= (λ i. copied p (c ∷ s) i))
      → Cleans c s k
  copies c s k r q eq =
      let (b, w, e, f, pos, le) = slashed_lem c s k r q in
      let (d, g, h) = app_lem p n c (record k { buf = b; w = w }) f (omega (arith, le)) in
      let (rest, j, u, i) =
        copied_lem p n s (record k { buf = d; w = w + 1 }) h (omega arith) (omega (arith, le)) in
      (
        rest,
        j,
        eq
            ∙ ap (λ m. m >>= (λ x. copied p (c ∷ s) x)) e
            ∙ copied_step c s (record k { buf = b; w = w }) (record k { buf = d; w = w + 1 }) q g
            ∙ u,
        record {
          fits = i.fits;
          positive = i.positive;
          room = i.room;
          apart = inr (inr i.at_slash);
          closed =
              of-Closed rest j (
                ends (c ∷ s) rest k j i.trailing_eq (KeepsEnd-cons c s rest q i.keeps_end)
                  r.closed);
        },
        i.shorter,
      )

  drop-IsRoomy : (s : Bytes) (k : Cleaning) → IsRoomy s k → IsRoomy (drop 1 s) k
  drop-IsRoomy [] k r = r
  drop-IsRoomy (c ∷ s) k r = drop_one c s k r

  drop_shorter : (s : Bytes) → length (drop 1 s) ≤ suc (length s)
  drop_shorter [] = omega arith
  drop_shorter (c ∷ s) = omega arith

  and_left : (a b : Bool) → a ≡ false → (a && b) ≡ false
  and_left a b h = rw h refl

  and_right : (a b : Bool) → b ≡ false → (a && b) ≡ false
  and_right true b h = h
  and_right false b h = refl

  and_both : (a b : Bool) → a ≡ true → b ≡ true → (a && b) ≡ true
  and_both a b h g = rw (h, g) refl

  dotted :
      (c : ℕ) (s : Bytes) (k : Cleaning)
      → IsRoomy (c ∷ s) k
      → (c == b'/') ≡ false
      → (c == b'.') ≡ true
      → Cleans c s k
  unfolding cleaned_by
  dotted c [] k r q d = (
    [],
    record k { trailing = true },
    if_false _ _ _ q ∙ if_true _ _ _ (and_both _ _ d refl),
    record {
      fits = r.fits;
      positive = r.positive;
      room = omega (arith, r.room);
      apart = inr (inr tt);
      closed = inr (omega (arith, r.room));
    },
    omega arith,
  )
  dotted c (e ∷ s) k r q d =
      let not_last : (c == b'.' && length (e ∷ s) == 0) ≡ false =
        and_right (c == b'.') (length (e ∷ s) == 0) (ground arith) in
      elim (Bool-cases (e == b'/')) [
        | inl f ↦ (
          s,
          k,
          if_false _ _ _ q ∙ if_false _ _ _ not_last ∙ if_true _ _ _ (and_both _ _ d f),
          drop_one e s k (drop_one c (e ∷ s) k r),
          omega arith,
        )
        | inr f ↦ elim (Bool-cases (is_dot_dot (e ∷ s))) [
          | inl g ↦
              let (w, h, i) =
                backtracked_lem (drop 1 s) k
                  (drop-IsRoomy s k (drop_one e s k (drop_one c (e ∷ s) k r))) in
              (
                drop 1 s,
                record k { w = w },
                if_false _ _ _ q
                    ∙ if_false _ _ _ not_last
                    ∙ if_false _ _ _ (and_right _ _ f)
                    ∙ if_true _ _ _ (and_both _ _ d g)
                    ∙ ap (λ m. m >>= (λ j. done (drop 1 s, j))) h,
                i,
                drop_shorter s,
              )
          | inr g ↦ copies c (e ∷ s) k r q (
              if_false _ _ _ q
              ∙ if_false _ _ _ not_last
              ∙ if_false _ _ _ (and_right _ _ f)
              ∙ if_false _ _ _ (and_right _ _ g))
        ]
      ]

  pub cleaned_by_lem : (c : ℕ) (s : Bytes) (k : Cleaning) → IsRoomy (c ∷ s) k → Cleans c s k
  unfolding cleaned_by
  cleaned_by_lem c s k r = elim (Bool-cases (c == b'/')) [
    | inl q ↦ (s, k, if_true _ _ _ q, drop_one c s k r, omega arith)
    | inr q ↦ elim (Bool-cases (c == b'.')) [
      | inl d ↦ dotted c s k r q d
      | inr d ↦ copies c s k r q (
          if_false _ _ _ q
          ∙ if_false _ _ _ (and_left _ _ d)
          ∙ if_false _ _ _ (and_left _ _ d)
          ∙ if_false _ _ _ (and_left _ _ d))
    ]
  ]
