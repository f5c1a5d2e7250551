-- ===== src/Cors/Subdomain/Turned.antt =====
-- The loops of `matchSubdomain` that swap the labels of one half with those of the other.
use wx.Common.{
  ℕ, zero, suc, ◌+◌, ◌-◌, ◌*◌, ◌/◌, ◌≡◌, ◌≤◌, List, [], ◌∷◌, ◌++◌, append_assoc, append-nil, Bytes,
  some, done, get_elem?, get_elem?-append, set, length, length-append, take, drop, length-take,
  length-drop, take-append-drop, All, All-append, refl, sym, ap, arith, ◌∙◌,
}
use wx.Cors.Subdomain.{swapped, turned_from, turned}

abbrev pub reversed : List Bytes → List Bytes
reversed [] = []
reversed (x ∷ xs) = reversed xs ++ x ∷ []

pub reversed-append : (xs ys : List Bytes) → reversed (xs ++ ys) ≡ reversed ys ++ reversed xs
reversed-append [] ys = sym (append-nil (reversed ys))
reversed-append (x ∷ xs) ys =
    rw (reversed-append xs ys) (append_assoc (reversed ys) (reversed xs) (x ∷ []))

pub reversed_twice : (xs : List Bytes) → reversed (reversed xs) ≡ xs
reversed_twice [] = refl
reversed_twice (x ∷ xs) = rw (reversed-append (reversed xs) (x ∷ []), reversed_twice xs) refl

pub All-reversed : (P : Bytes → Type 0) (xs : List Bytes) → All P xs → All P (reversed xs)
All-reversed P [] h = tt
All-reversed P (x ∷ xs) (p, h) = All-append P (reversed xs) (x ∷ []) (All-reversed P xs h) (p, tt)

length-reversed : (xs : List Bytes) → length (reversed xs) ≡ length xs
length-reversed [] = refl
length-reversed (x ∷ xs) = omega (arith, length-append (reversed xs) (x ∷ []), length-reversed xs)

set-append : (q r : List Bytes) (x v : Bytes) → set (q ++ x ∷ r) (length q) v ≡ q ++ v ∷ r
set-append [] r x v = refl
set-append (y ∷ q) r x v = ap (λ l. y ∷ l) (set-append q r x v)

-- The list, seen from its second element.
regrouped : (q m s : List Bytes) (a b : Bytes) → q ++ a ∷ (m ++ b ∷ s) ≡ (q ++ a ∷ m) ++ b ∷ s
regrouped q m s a b = sym (append_assoc q (a ∷ m) (b ∷ s))

swapped_lem :
    (q m s : List Bytes) (a b : Bytes) (i opp : ℕ)
    → i ≡ length q
    → opp ≡ length q + suc (length m)
    → swapped i opp (q ++ a ∷ (m ++ b ∷ s)) ≡ done (q ++ b ∷ (m ++ a ∷ s))
unfolding swapped
swapped_lem q m s a b i opp hi ho =
    let at_b : (x : Bytes) → opp ≡ length (q ++ x ∷ m) =
      λ x. omega (arith, ho, length-append q (x ∷ m)) in
    let second : get_elem? (q ++ a ∷ (m ++ b ∷ s)) opp ≡ some b =
      rw (regrouped q m s a b, at_b a) (get_elem?-append (q ++ a ∷ m) s b) in
    let last : set (q ++ b ∷ (m ++ b ∷ s)) opp a ≡ q ++ b ∷ (m ++ a ∷ s) =
      rw (regrouped q m s b b, at_b b)
        (set-append (q ++ b ∷ m) s b a ∙ sym (regrouped q m s b a)) in
    rw (hi, get_elem?-append q (m ++ b ∷ s) a, second, set-append q (m ++ b ∷ s) a b, last) refl

length-front :
    (q m s : List Bytes) (a b : Bytes)
    → length (q ++ a ∷ (m ++ b ∷ s)) ≡ length q + suc (length m + suc (length s))
length-front q m s a b = omega (arith, length-append q (a ∷ (m ++ b ∷ s)), length-append m (b ∷ s))

-- The first and the last of the labels go to their places; those between are left to the rest of the
-- loop.
turned_from_lem :
    (k : ℕ) (p m s : List Bytes)
    → length p ≡ k
    → length s ≡ k
    → turned_from k (reversed p ++ (m ++ s)) ≡ done (reversed s ++ (m ++ p))
unfolding turned_from
turned_from_lem zero [] m [] hp hs = refl
turned_from_lem zero (a ∷ p) m s hp hs = absurd (omega (arith, hp))
turned_from_lem zero [] m (b ∷ s) hp hs = absurd (omega (arith, hs))
turned_from_lem (suc k) [] m s hp hs = absurd (omega (arith, hp))
turned_from_lem (suc k) (a ∷ p) m [] hp hs = absurd (omega (arith, hs))
turned_from_lem (suc k) (a ∷ p) m (b ∷ s) hp hs =
    let q = reversed p in
    let lq : length q ≡ length p = length-reversed p in
    let between = b ∷ (m ++ a ∷ []) in
    let first : swapped k (length (q ++ a ∷ (m ++ b ∷ s)) - 1 - k) (q ++ a ∷ (m ++ b ∷ s))
        ≡ done (q ++ b ∷ (m ++ a ∷ s)) =
      swapped_lem q m s a b k (length (q ++ a ∷ (m ++ b ∷ s)) - 1 - k) (omega (arith, lq, hp))
        (omega (arith, length-front q m s a b, lq, hp, hs)) in
    let inner : b ∷ (m ++ a ∷ s) ≡ between ++ s =
      ap (λ l. b ∷ l) (sym (append_assoc m (a ∷ []) s)) in
    let outer : reversed s ++ (between ++ p) ≡ (reversed s ++ b ∷ []) ++ (m ++ a ∷ p) =
      ap (λ l. reversed s ++ b ∷ l) (append_assoc m (a ∷ []) p)
      ∙ sym (append_assoc (reversed s) (b ∷ []) (m ++ a ∷ p)) in
    rw (append_assoc q (a ∷ []) (m ++ b ∷ s), first, inner)
      (turned_from_lem k p between s (omega (arith, hp)) (omega (arith, hs))
        ∙ ap (λ l. done l) outer)

reversed_short : (m : List Bytes) → length m ≤ 1 → reversed m ≡ m
reversed_short [] h = refl
reversed_short (x ∷ []) h = refl
reversed_short (x ∷ y ∷ m) h = absurd (omega (arith, h))

-- The loop never panics, and turns the list round.
pub turned_lem : (xs : List Bytes) → turned xs ≡ done (reversed xs)
unfolding turned
turned_lem xs =
    let half = length xs / 2 in
    let front = take half xs in
    let rest = drop half xs in
    let m = take (length xs - 2 * half) rest in
    let s = drop (length xs - 2 * half) rest in
    let lf : length front ≡ half = omega (arith, length-take half xs) in
    let lr : length rest ≡ length xs - half = length-drop half xs in
    let ls : length s ≡ half = omega (arith, length-drop (length xs - 2 * half) rest, lr) in
    let lm : length m ≤ 1 = omega (arith, length-take (length xs - 2 * half) rest, lr) in
    let parts : xs ≡ front ++ (m ++ s) =
      sym (take-append-drop half xs)
      ∙ ap (λ l. front ++ l) (sym (take-append-drop (length xs - 2 * half) rest)) in
    let given : reversed (reversed front) ++ (m ++ s) ≡ xs =
      ap (λ l. l ++ (m ++ s)) (reversed_twice front) ∙ sym parts in
    let result : reversed s ++ (m ++ reversed front) ≡ reversed xs =
      ap (λ l. reversed s ++ (l ++ reversed front)) (sym (reversed_short m lm))
      ∙ sym (append_assoc (reversed s) (reversed m) (reversed front))
      ∙ ap (λ l. l ++ reversed front) (sym (reversed-append m s))
      ∙ sym (reversed-append front (m ++ s))
      ∙ ap reversed (sym parts) in
    ap (turned_from half) (sym given)
    ∙ turned_from_lem half (reversed front) m s (omega (arith, lf, length-reversed front)) ls
    ∙ ap (λ l. done l) result
