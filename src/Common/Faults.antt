-- ===== src/Common/Faults.antt =====
-- A computation that may panic, as Go does on an index out of range.
use mathlib.Core.Path.{◌≡◌, refl, ap, subst}
use mathlib.Core.Bool.{Bool, true, false}
use wx.Common.Tests.{if◌then◌else◌}
use mathlib.Core.Option.{Option, none, some}

-- An index out of range, a nil dereference (or an assignment to a nil map), a pattern that
-- `regexp.MustCompile` refuses, a log entry at the level of a panic, an explicit panic, a read through
-- an unsafe pointer outside of the slice's array, and, in the model only, a recursion that has used
-- up its fuel.
pub data Fault : Type 0 where
  index_range nil_pointer bad_pattern log_panic explicit bad_address out_of_fuel : Fault

pub data Panics {ℓ} (A : Type ℓ) : Type ℓ where
  panic : Fault → Panics A
  done : A → Panics A

infixl 5 ◌>>=◌
abbrev pub ◌>>=◌ {ℓ κ} : {A : Type ℓ} {B : Type κ} → Panics A → (A → Panics B) → Panics B
panic e >>= f = panic e
done a >>= f = f a

-- An element read by its index: `none` is the panic of an index out of range.
abbrev pub checked {ℓ} : {A : Type ℓ} → Option A → Panics A
checked none = panic index_range
checked (some a) = done a

-- The computation does not panic, and its result satisfies `P`.
abbrev pub Returns {ℓ} : {A : Type ℓ} → (A → Type 0) → Panics A → Type 0
Returns P (panic e) = ⊥
Returns P (done a) = P a

pub Returns-bind {ℓ κ} :
    {A : Type ℓ} {B : Type κ} (P : A → Type 0) (Q : B → Type 0) (m : Panics A) (f : A → Panics B)
    → Returns P m
    → ((a : A) → P a → Returns Q (f a))
    → Returns Q (m >>= f)
Returns-bind P Q (panic e) f h k = absurd h
Returns-bind P Q (done a) f h k = k a h

pub Returns-elim {ℓ} :
    {A : Type ℓ} (P : A → Type 0) (m : Panics A) → Returns P m → (a : A) × (m ≡ done a) × P a
Returns-elim P (panic e) h = absurd h
Returns-elim P (done a) h = (a, refl, h)

pub Returns-mono {ℓ} :
    {A : Type ℓ} (P Q : A → Type 0) (m : Panics A)
    → Returns P m
    → ((a : A) → P a → Q a)
    → Returns Q m
Returns-mono P Q (panic e) h k = absurd h
Returns-mono P Q (done a) h k = k a h

-- The computation returns a result that satisfies `P`, or panics at a pattern that does not compile.
abbrev pub Safe {ℓ} : {A : Type ℓ} → (A → Type 0) → Panics A → Type 0
Safe P (panic bad_pattern) = Unit
Safe P (panic index_range) = ⊥
Safe P (panic nil_pointer) = ⊥
Safe P (panic log_panic) = ⊥
Safe P (panic explicit) = ⊥
Safe P (panic bad_address) = ⊥
Safe P (panic out_of_fuel) = ⊥
Safe P (done a) = P a

pub Safe-bind {ℓ κ} :
    {A : Type ℓ} {B : Type κ} (P : A → Type 0) (Q : B → Type 0) (m : Panics A) (f : A → Panics B)
    → Safe P m
    → ((a : A) → P a → Safe Q (f a))
    → Safe Q (m >>= f)
Safe-bind P Q (panic bad_pattern) f h k = tt
Safe-bind P Q (panic index_range) f h k = absurd h
Safe-bind P Q (panic nil_pointer) f h k = absurd h
Safe-bind P Q (panic log_panic) f h k = absurd h
Safe-bind P Q (panic explicit) f h k = absurd h
Safe-bind P Q (panic bad_address) f h k = absurd h
Safe-bind P Q (panic out_of_fuel) f h k = absurd h
Safe-bind P Q (done a) f h k = k a h

pub Safe-mono {ℓ} :
    {A : Type ℓ} (P Q : A → Type 0) (m : Panics A) → Safe P m → ((a : A) → P a → Q a) → Safe Q m
Safe-mono P Q (panic bad_pattern) h k = tt
Safe-mono P Q (panic index_range) h k = h
Safe-mono P Q (panic nil_pointer) h k = h
Safe-mono P Q (panic log_panic) h k = h
Safe-mono P Q (panic explicit) h k = h
Safe-mono P Q (panic bad_address) h k = h
Safe-mono P Q (panic out_of_fuel) h k = h
Safe-mono P Q (done a) h k = k a h

-- A test with a safe branch on both sides.
pub Safe-if {ℓ} :
    {A : Type ℓ} (P : A → Type 0) (b : Bool) (x y : Panics A)
    → (b ≡ true → Safe P x)
    → (b ≡ false → Safe P y)
    → Safe P (if b then x else y)
Safe-if P true x y h k = h refl
Safe-if P false x y h k = k refl

-- If the computation returns a result, that satisfies `P`.
abbrev pub Ensures {ℓ} : {A : Type ℓ} → (A → Type 0) → Panics A → Type 0
Ensures P (panic e) = Unit
Ensures P (done a) = P a

pub Ensures-bind {ℓ κ} :
    {A : Type ℓ} {B : Type κ} (P : A → Type 0) (Q : B → Type 0) (m : Panics A) (f : A → Panics B)
    → Ensures P m
    → ((a : A) → P a → Ensures Q (f a))
    → Ensures Q (m >>= f)
Ensures-bind P Q (panic e) f h k = tt
Ensures-bind P Q (done a) f h k = k a h

pub Safe-Ensures {ℓ} : {A : Type ℓ} (P : A → Type 0) (m : Panics A) → Safe P m → Ensures P m
Safe-Ensures P (panic e) h = tt
Safe-Ensures P (done a) h = h

pub Ensures-done {ℓ} :
    {A : Type ℓ} (P : A → Type 0) (m : Panics A) (a : A) → Ensures P m → m ≡ done a → P a
Ensures-done P (panic e) a h k = cc
Ensures-done {A} P (done b) a h k = subst P (done_injective k) h
  where
    of : A → Panics A → A
    of d (panic e) = d
    of d (done c) = c

    done_injective : done b ≡ done a → b ≡ a
    done_injective q = ap (of b) q

-- An element that is read is there.
pub checked-Ensures {ℓ} : {A : Type ℓ} (o : Option A) → Ensures (λ a. Unit) (checked o)
checked-Ensures none = tt
checked-Ensures (some a) = tt

-- The result of a checked read is what was read.
pub checked-some : {A : Type 0} (o : Option A) → Ensures (λ a. o ≡ some a) (checked o)
checked-some none = tt
checked-some (some a) = refl

-- What a computation returns satisfies what it ensures.
pub Returns-Ensures {ℓ} :
    {A : Type ℓ} (P Q : A → Type 0) (m : Panics A)
    → Returns P m
    → Ensures Q m
    → Returns (λ a. P a × Q a) m
Returns-Ensures P Q (panic e) h k = absurd h
Returns-Ensures P Q (done a) h k = (h, k)

-- A test whose two branches ensure `P`.
pub Ensures-if {ℓ} :
    {A : Type ℓ} (P : A → Type 0) (b : Bool) (x y : Panics A)
    → Ensures P x
    → Ensures P y
    → Ensures P (if b then x else y)
Ensures-if P true x y h k = h
Ensures-if P false x y h k = k

pub Ensures-both {ℓ} :
    {A : Type ℓ} (P Q : A → Type 0) (m : Panics A)
    → Ensures P m
    → Ensures Q m
    → Ensures (λ a. P a × Q a) m
Ensures-both P Q (panic e) h k = tt
Ensures-both P Q (done a) h k = (h, k)

pub Returns-both {ℓ} :
    {A : Type ℓ} (P Q : A → Type 0) (m : Panics A)
    → Returns P m
    → Returns Q m
    → Returns (λ a. P a × Q a) m
Returns-both P Q (panic e) h k = absurd h
Returns-both P Q (done a) h k = (h, k)
