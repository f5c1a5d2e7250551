-- ===== src/Paths/Total.antt =====
-- `CleanUrlPath` returns, for any path.
use wx.Common.{
  ℕ, zero, suc, ◌+◌, ◌<◌, ◌≤◌, Bool, true, false, ◌&&◌, [], ◌∷◌, Bytes, panic, done, ◌>>=◌, Returns,
  Returns-mono, subst, length, take, replicate, length-replicate, length-take, index_range, ltb,
  leb, le→leb, Bool-cases, ◌==◌, ◌≡◌, ◌⊎◌, inl, inr, refl, sym, ap, arith, ◌∙◌, if◌then◌else◌,
}
use wx.Paths.{Cleaning, written_to, ends_slash, clean_from, cleaned, clean_url_path}
use wx.Paths.Room.{Fits, app_lem}
use wx.Paths.Switch.{IsRoomy, Closed, cleaned_by_lem, if_true, if_false}

module _ (p : Bytes) (n : ℕ) where
  clean_from_lem :
      (fuel : ℕ) (s : Bytes) (k : Cleaning)
      → IsRoomy p n s k
      → length s ≤ fuel
      → (j : Cleaning) × (clean_from fuel p s k ≡ done j) × IsRoomy p n [] j
  unfolding clean_from
  clean_from_lem fuel [] k r le = (k, refl, r)
  clean_from_lem zero (c ∷ s) k r le = absurd (omega (arith, le))
  clean_from_lem (suc fuel) (c ∷ s) k r le =
      let (rest, j, e, i, l) = cleaned_by_lem p n c s k r in
      let (u, g, h) = clean_from_lem fuel rest j i (omega (arith, l, le)) in
      (u, ap (λ m. m >>= (λ x. clean_from fuel p x.0 x.1)) e ∙ g, h)

  -- The result has a byte at least.
  abbrev pub IsPath : Bytes → Type 0
  IsPath u = (0 < length u) × (length u ≤ n)

  cut_lem :
      (b : Bytes) (w : ℕ)
      → Fits p n b
      → 0 < w
      → w ≤ n
      → Returns IsPath (
          if leb w (length (written_to p b))
          then done (take w (written_to p b))
          else panic index_range)
  cut_lem b w f pos le =
      let enough : leb w (length (written_to p b)) ≡ true = le→leb w _ (omega (arith, f, le)) in
      rw enough (
        omega (arith, length-take w (written_to p b), f, pos, le),
        omega (arith, length-take w (written_to p b), f, pos, le),
      )

  no_and : (a b : Bool) → a ≡ false → (a && b) ≡ true → ⊥
  no_and true b h g = let no : true ≡ false = h in cc
  no_and false b h g = let no : false ≡ true = g in cc

  cleaned-Returns : (k : Cleaning) → IsRoomy p n [] k → Returns IsPath (cleaned p k)
  unfolding cleaned
  cleaned-Returns k r = elim (Bool-cases (k.trailing && ltb 1 k.w)) [
    | inr q ↦ rw q (cut_lem k.buf k.w r.fits r.positive (omega (arith, r.room)))
    | inl q ↦
        let (b, e, f) = app_lem p n b'/' k r.fits (has_room q) in
        rw (q, e) (cut_lem b (k.w + 1) f (omega arith) (omega (arith, has_room q)))
  ]
    where
      has_room : (k.trailing && ltb 1 k.w) ≡ true → k.w < n
      has_room q = elim r.closed [ inl h ↦ absurd (no_and k.trailing (ltb 1 k.w) h q) | inr h ↦ h ]

ends_or_open : (a b : Bool) → ((a && b) ≡ false) ⊎ (b ≡ true)
ends_or_open a true = inr refl
ends_or_open true false = inl refl
ends_or_open false false = inl refl

abbrev at_start : Bytes → Bytes → Cleaning
at_start buf p = record { buf = buf; w = 1; trailing = ltb 1 (length p) && ends_slash p }

finishes :
    (p : Bytes) (n fuel : ℕ) (s : Bytes) (k : Cleaning)
    → IsRoomy p n s k
    → length s ≤ fuel
    → n ≤ suc (length p)
    → Returns
        (λ u. (0 < length u) × (length u ≤ suc (length p)))
        (clean_from fuel p s k >>= (λ j. cleaned p j))
finishes p n fuel s k r le m =
    let (j, e, i) = clean_from_lem p n fuel s k r le in
    rw e (
      Returns-mono (IsPath p n) _ (cleaned p j) (cleaned-Returns p n j i)
        (λ u (h, g). (h, omega (arith, g, m))))

rooted-Closed : (c : ℕ) (s : Bytes) → Closed (c ∷ s) (length (c ∷ s)) s (at_start [] (c ∷ s))
rooted-Closed c [] = inl refl
rooted-Closed c (d ∷ s) = ends_or_open (ltb 1 (length (c ∷ d ∷ s))) (ends_slash (c ∷ d ∷ s))

-- CleanUrlPath returns for any path, without a panic, and within its fuel: a path with a byte at least,
-- and with no more than one byte more than it had.
pub clean_url_path-Returns :
    (p : Bytes) → Returns (λ u. (0 < length u) × (length u ≤ suc (length p))) (clean_url_path p)
unfolding clean_url_path
clean_url_path-Returns [] = (omega arith, omega arith)
clean_url_path-Returns (c ∷ s) =
    let made : Bytes = b'/' ∷ replicate (length (c ∷ s)) 0 in
    elim (Bool-cases (c == b'/')) [
      | inl q ↦
          subst (Returns (λ u. (0 < length u) × (length u ≤ suc (length (c ∷ s)))))
            (sym (ap (λ m. m >>= (λ k. cleaned (c ∷ s) k)) (if_true (c == b'/') _ _ q)))
            (finishes (c ∷ s) (length (c ∷ s)) (length s) s (at_start [] (c ∷ s))
              (record {
                fits = refl;
                positive = omega arith;
                room = omega arith;
                apart = inl (omega arith);
                closed = rooted-Closed c s;
              })
              (omega arith) (omega arith))
      | inr q ↦
          subst (Returns (λ u. (0 < length u) × (length u ≤ suc (length (c ∷ s)))))
            (sym (ap (λ m. m >>= (λ k. cleaned (c ∷ s) k)) (if_false (c == b'/') _ _ q)))
            (finishes (c ∷ s) (suc (length (c ∷ s))) (length (c ∷ s)) (c ∷ s)
              (at_start made (c ∷ s))
              (record {
                fits = ap suc (length-replicate {A = ℕ} (length (c ∷ s)) 0);
                positive = omega arith;
                room = omega arith;
                apart = inl (omega arith);
                closed = ends_or_open (ltb 1 (length (c ∷ s))) (ends_slash (c ∷ s));
              })
              (omega arith) (omega arith))
    ]
