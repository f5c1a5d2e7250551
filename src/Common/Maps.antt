-- ===== src/Common/Maps.antt =====
-- Maps with byte strings as keys, as association lists.
use mathlib.Core.Path.{◌≡◌, refl, sym, ap, subst, ◌∙◌}
use mathlib.Core.Logic.{inl, inr, ◌≢◌}
use mathlib.Core.Option.{Option, none, some}
use mathlib.Core.List.{List, [], ◌∷◌}
use Prim.Native.Nat.{ℕ}
use mathlib.Core.Bool.{true, false}
use wx.Common.Lists.{All}
use wx.Common.Tests.{if◌then◌else◌, same, same_refl, same→eq, Bool-cases}

-- The first value of the key.
unfoldable pub lookup {ℓ} : {V : Type ℓ} → List ℕ → List (List ℕ × V) → Option V
unfolding same
lookup k [] = none
lookup k ((j, v) ∷ m) = if same j k then some v else lookup k m

-- Assignment replaces the first value of the key, or adds one at the end.
unfoldable pub assign {ℓ} : {V : Type ℓ} → List ℕ → V → List (List ℕ × V) → List (List ℕ × V)
unfolding same
assign k v [] = (k, v) ∷ []
assign k v ((j, w) ∷ m) = if same j k then (j, v) ∷ m else (j, w) ∷ assign k v m

-- No entry of the key is left.
unfoldable pub erase {ℓ} : {V : Type ℓ} → List ℕ → List (List ℕ × V) → List (List ℕ × V)
unfolding same
erase k [] = []
erase k ((j, w) ∷ m) = let rest = erase k m in if same j k then rest else (j, w) ∷ rest

pub lookup-assign {ℓ} :
    {V : Type ℓ} (k : List ℕ) (v : V) (m : List (List ℕ × V)) → lookup k (assign k v m) ≡ some v
unfolding lookup assign
lookup-assign k v [] = rw (same_refl k) refl
lookup-assign k v ((j, w) ∷ m) = elim (Bool-cases (same j k)) [
  | inl e ↦ rw (e, lookup, e) refl
  | inr e ↦ rw (e, lookup, e) (lookup-assign k v m)
]

pub lookup-erase {ℓ} :
    {V : Type ℓ} (k : List ℕ) (m : List (List ℕ × V)) → lookup k (erase k m) ≡ none
unfolding lookup erase
lookup-erase k [] = refl
lookup-erase k ((j, w) ∷ m) = elim (Bool-cases (same j k)) [
  | inl e ↦ rw e (lookup-erase k m)
  | inr e ↦ rw (e, lookup, e) (lookup-erase k m)
]

same_other : (j k i : List ℕ) → j ≢ k → same i k ≡ true → same i j ≡ false
same_other j k i n e = elim (Bool-cases (same i j)) [
  | inl h ↦ elim (n (sym (same→eq i j h) ∙ same→eq i k e)) [ ]
  | inr h ↦ h
]

-- The other keys.
pub lookup-assign_other {ℓ} :
    {V : Type ℓ} (j k : List ℕ) (v : V) (m : List (List ℕ × V))
    → j ≢ k
    → lookup j (assign k v m) ≡ lookup j m
unfolding lookup assign
lookup-assign_other j k v [] n = rw (same_other j k k n (same_refl k)) refl
lookup-assign_other j k v ((i, w) ∷ m) n = elim (Bool-cases (same i k)) [
  | inl e ↦ rw (e, lookup, same_other j k i n e) refl
  | inr e ↦ rw (e, lookup, lookup-assign_other j k v m n) refl
]

pub lookup-erase_other {ℓ} :
    {V : Type ℓ} (j k : List ℕ) (m : List (List ℕ × V)) → j ≢ k → lookup j (erase k m) ≡ lookup j m
unfolding lookup erase
lookup-erase_other j k [] n = refl
lookup-erase_other j k ((i, w) ∷ m) n = elim (Bool-cases (same i k)) [
  | inl e ↦ rw (e, lookup, same_other j k i n e) (lookup-erase_other j k m n)
  | inr e ↦ rw (e, lookup, lookup-erase_other j k m n) refl
]

-- A property of all values holds of one that is found, and is kept by an assignment.
pub All-lookup {ℓ} :
    {V : Type ℓ} (P : V → Type 0) (k : List ℕ) (m : List (List ℕ × V)) (v : V)
    → All (λ e. P e.1) m
    → lookup k m ≡ some v
    → P v
unfolding lookup
All-lookup P k [] v h e = cc
All-lookup P k ((j, w) ∷ m) v (hw, h) e = elim (Bool-cases (same j k)) [
  | inl q ↦ subst P (ap (λ o. elim o [ none ↦ v | some z ↦ z ]) (rw (q, lookup) at e)) hw
  | inr q ↦ All-lookup P k m v h (rw (q, lookup) at e)
]

pub All-assign {ℓ} :
    {V : Type ℓ} (P : V → Type 0) (k : List ℕ) (v : V) (m : List (List ℕ × V))
    → P v
    → All (λ e. P e.1) m
    → All (λ e. P e.1) (assign k v m)
unfolding assign
All-assign P k v [] h hs = (h, tt)
All-assign P k v ((j, w) ∷ m) h (hw, hs) = elim (Bool-cases (same j k)) [
  | inl q ↦ rw q (h, hs)
  | inr q ↦ rw q (hw, All-assign P k v m h hs)
]
