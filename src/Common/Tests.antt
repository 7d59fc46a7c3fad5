-- ===== src/Common/Tests.antt =====
-- Boolean tests on numbers and texts, the conditional, and case lemmas.
use Prim.Native.Nat.{ℕ, compare, Ordering}
use Prim.Native.String.{String}
use mathlib.Core.Path.{◌≡◌, refl}
use mathlib.Core.Logic.{◌≢◌, ◌⊎◌, inl, inr}
use mathlib.Core.Bool.{Bool, true, false, ◌&&◌, ◌||◌}
use mathlib.Core.Option.{Option, none, some}
use text.Mathlib.Text.{◌==◌ as same_text}
use text.Mathlib.TextEquality.{eq_iff}

abbrev pub ltb : ℕ → ℕ → Bool
ltb a b = elim (compare a b) [ Ordering.lt ↦ true | _ ↦ false ]

abbrev pub leb : ℕ → ℕ → Bool
leb a b = elim (compare a b) [ Ordering.gt ↦ false | _ ↦ true ]

abbrev pub eqb : ℕ → ℕ → Bool
eqb a b = elim (compare a b) [ Ordering.eq ↦ true | _ ↦ false ]

infix 1 if◌then◌else◌
abbrev pub if◌then◌else◌ {ℓ} : {A : Type ℓ} → Bool → A → A → A
if true then x else y = x
if false then x else y = y

-- Equality of texts, Go's `==` on strings.
infix 50 ◌==◌
abbrev pub ◌==◌ : String → String → Bool
a == b = same_text a b

pub eq_of_test : (a b : String) → (a == b) ≡ true → a ≡ b
eq_of_test a b h = (eq_iff a b).0 h

pub test_refl : (a : String) → (a == a) ≡ true
test_refl a = (eq_iff a a).1 refl

pub test_of_eq : (a b : String) → a ≡ b → (a == b) ≡ true
test_of_eq a b h = (eq_iff a b).1 h

pub test_of_ne : (a b : String) → a ≢ b → (a == b) ≡ false
test_of_ne a b h = go (a == b) refl
  where
    go : (t : Bool) → (a == b) ≡ t → t ≡ false
    go true e = absurd (h ((eq_iff a b).0 e))
    go false e = refl

pub ne_of_test : (a b : String) → (a == b) ≡ false → a ≢ b
ne_of_test a b h e = cc ((eq_iff a b).1 e)

-- To split on a computed value and keep the equation.
pub Bool-cases : (b : Bool) → (b ≡ true) ⊎ (b ≡ false)
Bool-cases true = inl refl
Bool-cases false = inr refl

pub and_cases : (a b : Bool) → (a && b) ≡ true → (a ≡ true) × (b ≡ true)
and_cases true b e = (refl, e)
and_cases false b e = absurd (cc e)

pub or_cases : (a b : Bool) → (a || b) ≡ true → (a ≡ true) ⊎ (b ≡ true)
or_cases true b e = inl refl
or_cases false b e = inr e

pub Option-cases {ℓ} : {A : Type ℓ} (o : Option A) → (o ≡ none) ⊎ ((a : A) × (o ≡ some a))
Option-cases none = inl refl
Option-cases (some a) = inr (a, refl)

-- Texts are equal or not, decided by the test.
pub String-cases : (a b : String) → (a ≡ b) ⊎ ((a == b) ≡ false)
String-cases a b = go (a == b) refl
  where
    go : (t : Bool) → (a == b) ≡ t → (a ≡ b) ⊎ ((a == b) ≡ false)
    go true e = inl (eq_of_test a b e)
    go false e = inr e

abbrev pub is_some {ℓ} : {A : Type ℓ} → Option A → Bool
is_some none = false
is_some (some a) = true

-- What holds of both branches holds of the conditional.
pub if_both {ℓ κ} :
    {A : Type ℓ} (P : A → Type κ) (b : Bool) {x y : A} → P x → P y → P (if b then x else y)
if_both P true p q = p
if_both P false p q = q

pub if_then {ℓ} : {A : Type ℓ} {b : Bool} (x y : A) → b ≡ true → (if b then x else y) ≡ x
if_then x y on = rw on

pub if_else {ℓ} : {A : Type ℓ} {b : Bool} (x y : A) → b ≡ false → (if b then x else y) ≡ y
if_else x y off = rw off
