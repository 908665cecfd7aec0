-- ===== src/Common/Tests.antt =====
-- Boolean tests on the native numbers, the conditional, and case splits that keep the equation.
use Prim.Native.Nat.{ℕ, ◌≤◌, ◌<◌, compare, Ordering}
use mathlib.Core.Path.{◌≡◌, refl}
use mathlib.Core.Logic.{◌⊎◌, inl, inr}
use mathlib.Core.Bool.{Bool, true, false}
use mathlib.Core.Option.{Option, none, some}
use mathlib.Core.List.{List, [], ◌∷◌}
use native.Mathlib.Omega.{arith}

abbrev pub ltb : ℕ → ℕ → Bool
ltb a b = elim (compare a b) [ Ordering.lt ↦ true | _ ↦ false ]

abbrev pub leb : ℕ → ℕ → Bool
leb a b = elim (compare a b) [ Ordering.gt ↦ false | _ ↦ true ]

infix 50 ◌==◌
abbrev pub ◌==◌ : ℕ → ℕ → Bool
a == b = elim (compare a b) [ Ordering.eq ↦ true | _ ↦ false ]

infix 1 if◌then◌else◌
abbrev pub if◌then◌else◌ {ℓ} : {A : Type ℓ} → Bool → A → A → A
if true then x else y = x
if false then x else y = y

-- A C++ `bool` in an arithmetic expression.
abbrev pub to_ℕ : Bool → ℕ
to_ℕ true = 1
to_ℕ false = 0

pub ltb→lt : (a b : ℕ) → ltb a b ≡ true → a < b
ltb→lt a b h = ground arith

pub leb→le : (a b : ℕ) → leb a b ≡ true → a ≤ b
leb→le a b h = ground arith

pub lt→ltb : (a b : ℕ) → a < b → ltb a b ≡ true
lt→ltb a b h = ground arith

pub le→leb : (a b : ℕ) → a ≤ b → leb a b ≡ true
le→leb a b h = ground arith

pub ltb→ge : (a b : ℕ) → ltb a b ≡ false → b ≤ a
ltb→ge a b h = ground arith

pub leb→gt : (a b : ℕ) → leb a b ≡ false → b < a
leb→gt a b h = ground arith

pub ruleset tests = (arith, ltb→lt, lt→ltb, leb→le, le→leb, ltb→ge, leb→gt)

pub Bool-cases : (b : Bool) → (b ≡ true) ⊎ (b ≡ false)
Bool-cases true = inl refl
Bool-cases false = inr refl

pub Option-cases {ℓ} : {A : Type ℓ} (o : Option A) → (o ≡ none) ⊎ ((a : A) × (o ≡ some a))
Option-cases none = inl refl
Option-cases (some a) = inr (a, refl)

abbrev pub is_some {ℓ} : {A : Type ℓ} → Option A → Bool
is_some none = false
is_some (some a) = true

-- The call throws, or the predicate holds of the new state.
abbrev pub OnSuccess {ℓ} : {A : Type ℓ} → (A → Type 0) → Option A → Type 0
OnSuccess P none = Unit {0}
OnSuccess P (some a) = P a

pub OnSuccess-if {ℓ} :
    {A : Type ℓ} (P : A → Type 0) (t : Bool) (a b : Option A)
    → OnSuccess P a
    → OnSuccess P b
    → OnSuccess P (if t then a else b)
OnSuccess-if P true a b p q = p
OnSuccess-if P false a b p q = q

-- A call, and then the rest.
pub OnSuccess-bind :
    {A B : Type 0} (P : A → Type 0) (Q : B → Type 0) (o : Option A) (f : A → Option B)
    → OnSuccess P o
    → ((t : A) → P t → OnSuccess Q (f t))
    → OnSuccess Q (elim o [ none ↦ none | some t ↦ f t ])
OnSuccess-bind P Q none f o h = tt
OnSuccess-bind P Q (some t) f o h = h t o

pub OnSuccess-list {ℓ} :
    {A : Type ℓ} {B : Type 0} (P : B → Type 0) (xs : List A) (f : A → List A → Option B)
    → ((x : A) (ys : List A) → OnSuccess P (f x ys))
    → OnSuccess P (elim xs [ [] ↦ none | x ∷ ys ↦ f x ys ])
OnSuccess-list P [] f h = tt
OnSuccess-list P (x ∷ ys) f h = h x ys

pub OnSuccess-any : {A : Type 0} (o : Option A) → OnSuccess (λ _. Unit {0}) o
OnSuccess-any none = tt
OnSuccess-any (some a) = tt

-- The result of a call, with the equation.
pub OnSuccess-found :
    {A B : Type 0} (P : B → Type 0) (o : Option A) (f : A → Option B)
    → ((a : A) → o ≡ some a → OnSuccess P (f a))
    → OnSuccess P (elim o [ none ↦ none | some a ↦ f a ])
OnSuccess-found P none f h = tt
OnSuccess-found P (some a) f h = h a refl

pub OnSuccess-cons {ℓ} :
    {A : Type ℓ} {B : Type 0} (P : B → Type 0) (xs : List A) (f : A → List A → Option B)
    → ((x : A) (ys : List A) → xs ≡ x ∷ ys → OnSuccess P (f x ys))
    → OnSuccess P (elim xs [ [] ↦ none | x ∷ ys ↦ f x ys ])
OnSuccess-cons P [] f h = tt
OnSuccess-cons P (x ∷ ys) f h = h x ys refl
