-- ===== src/Negotiation/Sort/Ordered.antt =====
-- `sortAcceptedTypes` sorts, for any order that the condition of its search follows on the elements
-- with a property `Q`.
use mathlib.Core.List.{Permᴰ}
use mathlib.Core.List.Permᴰ
use mathlib.Core.Option.{some-injective}
use wx.Common.{
  ℕ, zero, suc, ◌+◌, ◌-◌, ◌/◌, ◌≤◌, ◌<◌, ◌≡◌, true, false, some, List, [], ◌∷◌, ◌++◌, done, ltb,
  Bool-cases, inl, inr, All, All-get_elem?, get_elem?, get_elem?-lt, get_elem?-append, length, take,
  drop, Returns, Returns-bind, Returns-mono, sym, subst, arith, append-nil, take-append-drop,
  length-take, length-drop,
}
use wx.Negotiation.Sort.{AcceptedType, goes_behind, search, sift, sort_from, sort_accepted_types}
use wx.Negotiation.Sort.Laws.{get_elem?-append_left, sift_lem, insert-Perm}

add_one : (n : ℕ) → suc n ≡ n + 1
add_one n = omega arith

module _ (Above : AcceptedType → AcceptedType → Type 0) where
  -- Every element is above all later ones.
  abbrev pub IsRanked : List AcceptedType → Type 0
  IsRanked [] = Unit
  IsRanked (x ∷ xs) = All (Above x) xs × IsRanked xs

module _ (Q : AcceptedType → Type 0) (Above : AcceptedType → AcceptedType → Type 0)
    (above_trans : (a b c : AcceptedType) → Above a b → Above b c → Above a c)
    (behind : (x y : AcceptedType) → Q x → Q y → goes_behind x y ≡ true → Above y x)
    (ahead : (x y : AcceptedType) → Q x → Q y → goes_behind x y ≡ false → Above x y) where
  above_take :
      (pre : List AcceptedType) (m : ℕ) (x y : AcceptedType)
      → IsRanked Above pre
      → get_elem? pre m ≡ some y
      → Above y x
      → All (λ z. Above z x) (take (suc m) pre)
  above_take [] m x y h e a = cc
  above_take (p ∷ pre) zero x y h e a = (subst (λ z. Above z x) (sym (some-injective p y e)) a, tt)
  above_take (p ∷ pre) (suc m) x y (h, hs) e a =
      (above_trans p y x (All-get_elem? (Above p) pre m y h e) a, above_take pre m x y hs e a)

  All-trans :
      (x p : AcceptedType) (l : List AcceptedType) → Above x p → All (Above p) l → All (Above x) l
  All-trans x p [] a h = tt
  All-trans x p (z ∷ l) a (h, hs) = (above_trans x p z a h, All-trans x p l a hs)

  below_drop :
      (pre : List AcceptedType) (m : ℕ) (x y : AcceptedType)
      → IsRanked Above pre
      → get_elem? pre m ≡ some y
      → Above x y
      → All (Above x) (drop m pre)
  below_drop [] m x y h e a = cc
  below_drop (p ∷ pre) zero x y (h, hs) e a =
      let b = subst (λ z. Above x z) (sym (some-injective p y e)) a in (b, All-trans x p pre b h)
  below_drop (p ∷ pre) (suc m) x y (h, hs) e a = below_drop pre m x y hs e a

  -- The place is behind what is above the element, and in front of what it is above.
  abbrev IsPlace : List AcceptedType → AcceptedType → ℕ → Type 0
  IsPlace pre x k =
      (k ≤ length pre) × All (λ z. Above z x) (take k pre) × All (Above x) (drop k pre)

  search-IsPlace :
      (fuel : ℕ) (pre rest : List AcceptedType) (x : AcceptedType) (lo hi : ℕ)
      → IsRanked Above pre
      → All Q pre
      → Q x
      → lo ≤ hi
      → hi ≤ length pre
      → hi < fuel + lo
      → All (λ z. Above z x) (take lo pre)
      → All (Above x) (drop hi pre)
      → Returns (IsPlace pre x) (search fuel x (pre ++ rest) lo hi)
  unfolding search
  search-IsPlace zero pre rest x lo hi s q qx a b c t d = absurd (omega arith)
  search-IsPlace (suc fuel) pre rest x lo hi s q qx a b c t d = elim (Bool-cases (ltb lo hi)) [
    | inr e ↦
        let met : lo ≡ hi = ground arith in
        rw (e, search) (omega arith, t, subst (λ z. All (Above x) (drop z pre)) (sym met) d)
    | inl e ↦
        let (y, f) = get_elem?-lt pre ((lo + hi - 1) / 2) (ground arith) in
        let g = get_elem?-append_left pre rest ((lo + hi - 1) / 2) y f in
        let qy = All-get_elem? Q pre ((lo + hi - 1) / 2) y q f in
        elim (Bool-cases (goes_behind x y)) [
          | inl w ↦
              rw (e, search, g, w)
                (search-IsPlace fuel pre rest x ((lo + hi - 1) / 2 + 1) hi s q qx (ground arith) b
                  (ground arith)
                  (subst (λ k. All (λ z. Above z x) (take k pre)) (add_one ((lo + hi - 1) / 2))
                    (above_take pre ((lo + hi - 1) / 2) x y s f (behind x y qx qy w)))
                  d)
          | inr w ↦
              rw (e, search, g, w)
                (search-IsPlace fuel pre rest x lo ((lo + hi - 1) / 2) s q qx (ground arith)
                  (ground arith) (ground arith) t
                  (below_drop pre ((lo + hi - 1) / 2) x y s f (ahead x y qx qy w)))
        ]
  ]

  All-insert :
      (P : AcceptedType → Type 0) (pre : List AcceptedType) (k : ℕ) (x : AcceptedType)
      → All P pre
      → P x
      → All P (take k pre ++ x ∷ drop k pre)
  All-insert P pre zero x h p = (p, h)
  All-insert P [] (suc k) x h p = (p, tt)
  All-insert P (z ∷ pre) (suc k) x (h, hs) p = (h, All-insert P pre k x hs p)

  insert-IsRanked :
      (pre : List AcceptedType) (k : ℕ) (x : AcceptedType)
      → IsRanked Above pre
      → All (λ z. Above z x) (take k pre)
      → All (Above x) (drop k pre)
      → IsRanked Above (take k pre ++ x ∷ drop k pre)
  insert-IsRanked pre zero x h t d = (d, h)
  insert-IsRanked [] (suc k) x h t d = (tt, tt)
  insert-IsRanked (z ∷ pre) (suc k) x (h, hs) (t, ts) d =
      (All-insert (Above z) pre k x h t, insert-IsRanked pre k x hs ts d)

  All-none : (P : AcceptedType → Type 0) (l : List AcceptedType) → All P (drop (length l) l)
  All-none P [] = tt
  All-none P (z ∷ l) = All-none P l

  length-insert :
      (pre : List AcceptedType) (k : ℕ) (x : AcceptedType)
      → length (take k pre ++ x ∷ drop k pre) ≡ length pre + 1
  length-insert pre zero x = omega arith
  length-insert [] (suc k) x = omega arith
  length-insert (z ∷ pre) (suc k) x = omega (arith, length-insert pre k x)

  -- The element at `length pre` comes to its place.
  sift-insert :
      (pre rest : List AcceptedType) (x : AcceptedType) (k : ℕ)
      → k ≤ length pre
      → sift (length pre - k) k (pre ++ x ∷ rest) ≡ done ((take k pre ++ x ∷ drop k pre) ++ rest)
  sift-insert pre rest x k le =
      let front : length (take k pre) ≡ k = omega (arith, length-take k pre) in
      let back : length (drop k pre) ≡ length pre - k = length-drop k pre in
      let moved = sift_lem (take k pre) (drop k pre) rest x in
      rw (front, back, take-append-drop k pre) at moved

  sort_from-IsRanked :
      (rest pre : List AcceptedType)
      → IsRanked Above pre
      → All Q pre
      → All Q rest
      → Returns
          (λ s. IsRanked Above s × Permᴰ s (pre ++ rest))
          (sort_from (length rest) (length pre) (pre ++ rest))
  unfolding sort_from
  sort_from-IsRanked [] pre s q qr = rw append-nil (s, Permᴰ.refl pre)
  sort_from-IsRanked (x ∷ rest) pre s q (qx, qr) = rw (get_elem?-append pre rest x) (
      Returns-bind (IsPlace pre x) (λ l. IsRanked Above l × Permᴰ l (pre ++ x ∷ rest))
        (search (suc (length pre)) x (pre ++ x ∷ rest) 0 (length pre)) _
        (search-IsPlace (suc (length pre)) pre (x ∷ rest) x 0 (length pre) s q qx (omega arith)
          (omega arith) (omega arith) tt (All-none (Above x) pre))
        (λ k (le, t, d).
          let pre' = take k pre ++ x ∷ drop k pre in
          rw (sift-insert pre rest x k le) (
            Returns-mono (λ l. IsRanked Above l × Permᴰ l (pre' ++ rest))
              (λ l. IsRanked Above l × Permᴰ l (pre ++ x ∷ rest)) _
              (subst
                (λ n.
                  Returns (λ l. IsRanked Above l × Permᴰ l (pre' ++ rest))
                    (sort_from (length rest) n (pre' ++ rest)))
                (length-insert pre k x)
                (sort_from-IsRanked rest pre' (insert-IsRanked pre k x s t d)
                  (All-insert Q pre k x q qx) qr))
              (λ l (o, p). (o, Permᴰ.trans p (insert-Perm k pre rest x))))))

  pub sort_accepted_types-IsRanked :
      (at : List AcceptedType)
      → All Q at
      → Returns (λ s. IsRanked Above s × Permᴰ s at) (sort_accepted_types at)
  unfolding sort_accepted_types
  sort_accepted_types-IsRanked [] q = (tt, Permᴰ.refl [])
  sort_accepted_types-IsRanked (x ∷ []) q = ((tt, tt), Permᴰ.refl (x ∷ []))
  sort_accepted_types-IsRanked (x ∷ y ∷ at) (qx, q) =
      let long : ltb (suc (suc (length at))) 2 ≡ false = ground arith in
      let rounds : suc (suc (length at)) - 1 ≡ suc (length at) = omega arith in
      rw (long, rounds) (sort_from-IsRanked (y ∷ at) (x ∷ []) (tt, tt) (qx, tt) q)
