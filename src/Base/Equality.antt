-- ===== src/Base/Equality.antt =====
-- Go's `==`, `<` and `if`, for every type whose equality can be decided.
use Prim.Native.Nat.{ℕ, compare, Ordering}
use mathlib.Core.Path.{◌≡◌, refl}
use mathlib.Core.Logic.{◌⊎◌, ◌↔◌, inl, inr}
use mathlib.Core.Bool.{Bool, true, false, not, ◌&&◌}
use mathlib.Core.List.{List, [], ◌∷◌}
use native.Mathlib.Omega.{arith}

infix 1 if◌then◌else◌
abbrev pub if◌then◌else◌ {ℓ} : {A : Type ℓ} → Bool → A → A → A
if true then x else y = x
if false then x else y = y

-- To split on a computed value and keep the equation.
pub Bool-cases : (b : Bool) → (b ≡ true) ⊎ (b ≡ false)
Bool-cases true = inl refl
Bool-cases false = inr refl

abbrev pub ltb : ℕ → ℕ → Bool
ltb a b = elim (compare a b) [ Ordering.lt ↦ true | _ ↦ false ]

abbrev pub leb : ℕ → ℕ → Bool
leb a b = elim (compare a b) [ Ordering.gt ↦ false | _ ↦ true ]

-- `eq_iff` at the values that are compared is what a tactic needs to know of `==`.
pub record Eq {ℓ} (X : Type ℓ) : Type ℓ where
  pub same : X → X → Bool
  pub same_iff : (x y : X) → (same x y ≡ true) ↔ (x ≡ y)

infix 50 ◌!=◌ ◌==◌
abbrev pub ◌!=◌ {ℓ} : {X : Type ℓ} ⦃eq : Eq X⦄ → X → X → Bool
◌!=◌ ⦃eq⦄ x y = not (eq.same x y)

abbrev pub ◌==◌ {ℓ} : {X : Type ℓ} ⦃eq : Eq X⦄ → X → X → Bool
◌==◌ ⦃eq⦄ x y = eq.same x y

module _ {ℓ} {A : Type ℓ} ⦃e : Eq A⦄ where
  pub eq_iff : (a b : A) → ((a == b) ≡ true) ↔ (a ≡ b)
  eq_iff = e.same_iff

  pub eq_refl : (a : A) → (a == a) ≡ true
  eq_refl a = (e.same_iff a a).1 refl

  pub eq_comm : (a b : A) → (a == b) ≡ (b == a)
  eq_comm a b = ground (arith, eq_iff a b, eq_iff b a)

abbrev pub nat_beq : ℕ → ℕ → Bool
nat_beq a b = elim (compare a b) [ Ordering.eq ↦ true | _ ↦ false ]

pub nat_beq_iff : (a b : ℕ) → (nat_beq a b ≡ true) ↔ (a ≡ b)
nat_beq_iff a b = (λ h. ground arith, λ h. ground arith)

-- Comparisons of numbers compute to `compare`, which the tactics read.
instance abbrev pub nat_eq : Eq ℕ
nat_eq = record { same = nat_beq; same_iff = nat_beq_iff }

module _ {A : Type 0} ⦃e : Eq A⦄ where
  pub same_items : List A → List A → Bool
  same_items [] [] = true
  same_items (x ∷ xs) (y ∷ ys) = x == y && same_items xs ys
  same_items _ _ = false

  pub same_items_iff : (xs ys : List A) → (same_items xs ys ≡ true) ↔ (xs ≡ ys)
  unfolding same_items
  same_items_iff [] [] = (λ h. refl, λ h. refl)
  same_items_iff [] (y ∷ ys) = (λ h. cc, λ h. cc)
  same_items_iff (x ∷ xs) [] = (λ h. cc, λ h. cc)
  same_items_iff (x ∷ xs) (y ∷ ys) = (
    λ h. ground (arith, eq_iff x y, same_items_iff xs ys),
    λ h. ground (arith, eq_iff x y, same_items_iff xs ys),
  )

  instance unfoldable pub list_eq : Eq (List A)
  unfolding same_items
  list_eq = record { same = same_items; same_iff = same_items_iff }

module _ {A B : Type 0} ⦃d : Eq A⦄ ⦃e : Eq B⦄ where
  pub same_pair : A × B → A × B → Bool
  same_pair (a, b) (a', b') = a == a' && b == b'

  pub same_pair_iff : (p q : A × B) → (same_pair p q ≡ true) ↔ (p ≡ q)
  unfolding same_pair
  same_pair_iff (a, b) (a', b') =
      (λ h. ground (arith, eq_iff a a', eq_iff b b'), λ h. ground (arith, eq_iff a a', eq_iff b b'))

  instance unfoldable pub pair_eq : Eq (A × B)
  unfolding same_pair
  pair_eq = record { same = same_pair; same_iff = same_pair_iff }
