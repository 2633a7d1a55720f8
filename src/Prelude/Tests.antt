-- ===== src/Prelude/Tests.antt =====
-- Boolean tests on the native numbers and on Booleans, and the conditional.
use Prim.Native.Nat.{ℕ, compare, Ordering}
use mathlib.Core.Path.{◌≡◌, refl}
use mathlib.Core.Logic.{◌≢◌, ◌↔◌, ◌⊎◌, inl, inr}
use mathlib.Core.Bool.{Bool, true, false, not}
use mathlib.Core.Option.{Option, none, some}
use native.Mathlib.Omega.{arith}

abbrev pub ltb : ℕ → ℕ → Bool
ltb a b = elim (compare a b) [ Ordering.lt ↦ true | _ ↦ false ]

abbrev pub leb : ℕ → ℕ → Bool
leb a b = elim (compare a b) [ Ordering.gt ↦ false | _ ↦ true ]

infix 50 ◌==◌ ◌!=◌
abbrev pub ◌==◌ : ℕ → ℕ → Bool
a == b = elim (compare a b) [ Ordering.eq ↦ true | _ ↦ false ]

-- `a != b` on numbers
abbrev pub ◌!=◌ : ℕ → ℕ → Bool
a != b = elim (compare a b) [ Ordering.eq ↦ false | _ ↦ true ]

-- `a != b` on Booleans
abbrev pub differs : Bool → Bool → Bool
differs true b = not b
differs false b = b

infix 1 if◌then◌else◌
abbrev pub if◌then◌else◌ {ℓ} : {A : Type ℓ} → Bool → A → A → A
if true then x else y = x
if false then x else y = y

pub ==_iff : (a b : ℕ) → ((a == b) ≡ true) ↔ (a ≡ b)
==_iff a b = ground arith

-- To split on a computed value and keep the equation.
pub Bool-cases : (b : Bool) → (b ≡ true) ⊎ (b ≡ false)
Bool-cases true = inl refl
Bool-cases false = inr refl

pub Option-cases {ℓ} : {A : Type ℓ} (o : Option A) → (o ≡ none) ⊎ ((a : A) × (o ≡ some a))
Option-cases none = inl refl
Option-cases (some a) = inr (a, refl)

pub !=_iff : (a b : ℕ) → ((a != b) ≡ false) ↔ (a ≡ b)
!=_iff a b = ground arith

abbrev pub is_some {ℓ} : {A : Type ℓ} → Option A → Bool
is_some none = false
is_some (some a) = true

pub true_ne_false : true ≢ false
true_ne_false e = ground arith

-- A predicate on what a call returns, when it does return.
abbrev pub Returns {ℓ} : {A : Type ℓ} → (A → Type 0) → Option A → Type 0
Returns P none = ⊥
Returns P (some a) = P a

pub if_true {ℓ} : {A : Type ℓ} {b : Bool} {x : A} (y : A) → b ≡ true → (if b then x else y) ≡ x
if_true y e = rw e refl

pub if_false {ℓ} : {A : Type ℓ} {b : Bool} (x : A) {y : A} → b ≡ false → (if b then x else y) ≡ y
if_false x e = rw e refl

module _ {ℓ} {A : Type ℓ} (P : A → Type 0) {b : Bool} (x y : Option A) where
  pub Returns-if_true : b ≡ true → Returns P x → Returns P (if b then x else y)
  Returns-if_true e h = rw e h

  pub Returns-if_false : b ≡ false → Returns P y → Returns P (if b then x else y)
  Returns-if_false e h = rw e h

pub none_ne_some {ℓ} : {A : Type ℓ} {a : A} → none ≢ some a
none_ne_some e = ground arith

pub some_injective {ℓ} : {A : Type ℓ} {a b : A} → some a ≡ some b → a ≡ b
some_injective e = cc

-- The next step of what may fail.
abbrev pub and_then {ℓ} : {A B : Type ℓ} → Option A → (A → Option B) → Option B
and_then none next = none
and_then (some a) next = next a

pub Returns-and_then {ℓ} :
    {A B : Type ℓ} {P : A → Type 0} (Q : B → Type 0) (o : Option A) (next : A → Option B)
    → Returns P o
    → ((a : A) → P a → Returns Q (next a))
    → Returns Q (and_then o next)
Returns-and_then Q none next h f = absurd h
Returns-and_then Q (some a) next h f = f a h

-- If the call returns, what it returns has the property.
abbrev pub After {ℓ} : {A : Type ℓ} → (A → Type 0) → Option A → Type 0
After P none = Unit
After P (some a) = P a

pub Returns-After {ℓ} :
    {A : Type ℓ} (P Q : A → Type 0) (o : Option A) → Returns P o → After Q o → Returns Q o
Returns-After P Q none p q = p
Returns-After P Q (some a) p q = q

pub Returns-map {ℓ} :
    {A : Type ℓ} (P Q : A → Type 0) (o : Option A)
    → ((a : A) → P a → Q a)
    → Returns P o
    → Returns Q o
Returns-map P Q none f p = p
Returns-map P Q (some a) f p = f a p
