-- ===== src/Base/Lists.antt =====
-- Sequences with native lengths, and the Boolean searches that the program's loops make.
use Prim.Native.Nat.{ℕ, zero, suc, ◌-◌, ◌+◌, ◌≤◌}
use mathlib.Core.Path.{◌≡◌, refl, ap}
use mathlib.Core.Logic.{inl, inr}
use mathlib.Core.Bool.{Bool, true, false, ◌||◌, ◌&&◌}
use mathlib.Core.List.{List, [], ◌∷◌, ◌++◌}
use native.Mathlib.Omega.{arith}
use imapsync.Base.Equality.{if◌then◌else◌, Eq, ◌==◌, eq_iff, eq_refl, eq_comm, Bool-cases}

module _ {ℓ} {A : Type ℓ} where
  abbrev pub length : List A → ℕ
  length [] = 0
  length (x ∷ xs) = suc (length xs)

  pub length-append : (xs ys : List A) → length (xs ++ ys) ≡ length xs + length ys
  length-append [] ys = omega arith
  length-append (x ∷ xs) ys = omega (arith, length-append xs ys)

  abbrev pub take : ℕ → List A → List A
  take zero xs = []
  take (suc n) [] = []
  take (suc n) (x ∷ xs) = x ∷ take n xs

  abbrev pub drop : ℕ → List A → List A
  drop zero xs = xs
  drop (suc n) [] = []
  drop (suc n) (x ∷ xs) = drop n xs

  pub take-drop : (n : ℕ) (xs : List A) → take n xs ++ drop n xs ≡ xs
  take-drop zero xs = refl
  take-drop (suc n) [] = refl
  take-drop (suc n) (x ∷ xs) = ap (◌∷◌ x) (take-drop n xs)

  pub length-drop : (n : ℕ) (xs : List A) → length (drop n xs) ≡ length xs - n
  length-drop zero xs = omega arith
  length-drop (suc n) [] = omega arith
  length-drop (suc n) (x ∷ xs) = omega (arith, length-drop n xs)

  abbrev pub any : (A → Bool) → List A → Bool
  any p [] = false
  any p (x ∷ xs) = p x || any p xs

  abbrev pub filter : (A → Bool) → List A → List A
  filter p [] = []
  filter p (x ∷ xs) = let rest = filter p xs in if p x then x ∷ rest else rest

  pub any-append : (p : A → Bool) (xs ys : List A) → any p (xs ++ ys) ≡ (any p xs || any p ys)
  any-append p [] ys = refl
  any-append p (x ∷ xs) ys = ground (arith, any-append p xs ys)

  pub length-filter : (p : A → Bool) (xs : List A) → length (filter p xs) ≤ length xs
  length-filter p [] = omega arith
  length-filter p (x ∷ xs) = ground (arith, length-filter p xs)

  -- Every item satisfies the predicate: a tuple, which the tactics read and build.
  abbrev pub All {κ} : (A → Type κ) → List A → Type κ
  All P [] = Unit
  All P (x ∷ xs) = P x × All P xs

  pub All-append {κ} :
      (Q : A → Type κ) (front back : List A) → All Q front → All Q back → All Q (front ++ back)
  All-append Q [] back left right = right
  All-append Q (a ∷ front) back (now, left) right = (now, All-append Q front back left right)

  pub All-map {κ κ'} :
      (P : A → Type κ) (Q : A → Type κ')
      → ((x : A) → P x → Q x)
      → (xs : List A) → All P xs
      → All Q xs
  All-map P Q f [] h = tt
  All-map P Q f (x ∷ xs) h = (f x h.0, All-map P Q f xs h.1)

module _ {ℓ} {A : Type ℓ} ⦃e : Eq A⦄ where
  abbrev pub contains : List A → A → Bool
  contains [] a = false
  contains (x ∷ xs) a = a == x || contains xs a

  -- No item stands twice.
  abbrev pub IsDistinct : List A → Type 0
  IsDistinct [] = Unit
  IsDistinct (x ∷ xs) = (contains xs x ≡ false) × IsDistinct xs

  pub contains-append :
      (xs ys : List A) (a : A) → contains (xs ++ ys) a ≡ (contains xs a || contains ys a)
  contains-append [] ys a = refl
  contains-append (x ∷ xs) ys a = ground (arith, contains-append xs ys a)

  pub contains-filter :
      (p : A → Bool) (xs : List A) (a : A) → contains (filter p xs) a ≡ (contains xs a && p a)
  contains-filter p [] a = refl
  contains-filter p (x ∷ xs) a = ground (arith, eq_iff a x, contains-filter p xs a)

  pub IsDistinct-append_one :
      (xs : List A) (a : A) → IsDistinct xs → contains xs a ≡ false → IsDistinct (xs ++ (a ∷ []))
  IsDistinct-append_one [] a d h = (refl, tt)
  IsDistinct-append_one (x ∷ xs) a (fresh, d) h = (
    ground (arith, contains-append xs (a ∷ []) x, eq_iff a x, eq_iff x a),
    IsDistinct-append_one xs a d (ground arith),
  )

  pub any_of_contains :
      (p : A → Bool) (xs : List A) (a : A) → contains xs a ≡ true → p a ≡ true → any p xs ≡ true
  any_of_contains p [] a m h = cc
  any_of_contains p (x ∷ xs) a m h = ground (arith, eq_iff a x, any_of_contains p xs a)

  pub contains_of_any :
      (p : A → Bool) (xs : List A)
      → any p xs ≡ true
      → (a : A) × (contains xs a ≡ true) × (p a ≡ true)
  contains_of_any p [] h = cc
  contains_of_any p (x ∷ xs) h = elim (Bool-cases (p x)) [
    | inl here ↦ (x, ground (arith, eq_refl x), here)
    | inr skip ↦ let (a, m, ha) = contains_of_any p xs (ground arith) in (a, ground arith, ha)
  ]

  -- Every item of the first list is in the second.
  abbrev pub Subset : List A → List A → Type ℓ
  Subset xs ys = (a : A) → contains xs a ≡ true → contains ys a ≡ true

  pub any-Subset :
      (p q : A → Bool) (xs ys : List A)
      → ((a : A) → p a ≡ true → q a ≡ true)
      → Subset xs ys
      → any p xs ≡ true
      → any q ys ≡ true
  any-Subset p q xs ys f sub h =
      let (a, m, ha) = contains_of_any p xs h in any_of_contains q ys a (sub a m) (f a ha)

  -- The first of the items that equals `a` is left out.
  abbrev remove : A → List A → List A
  remove a [] = []
  remove a (x ∷ xs) = let rest = remove a xs in if x == a then xs else x ∷ rest

  length-remove :
      (a : A) (xs : List A) → contains xs a ≡ true → length xs ≡ suc (length (remove a xs))
  length-remove a [] h = cc
  length-remove a (x ∷ xs) h = ground (arith, eq_comm x a, length-remove a xs)

  contains-remove :
      (a b : A) (xs : List A)
      → contains xs b ≡ true
      → (b == a) ≡ false
      → contains (remove a xs) b ≡ true
  contains-remove a b [] h other = h
  contains-remove a b (x ∷ xs) h other =
      ground (arith, eq_iff x a, eq_iff b a, eq_iff b x, contains-remove a b xs)

  -- Distinct items of a list are not more than its items.
  pub length-Subset : (xs ys : List A) → IsDistinct xs → Subset xs ys → length xs ≤ length ys
  length-Subset [] ys d sub = omega arith
  length-Subset (x ∷ xs) ys (fresh, d) sub =
      let here = sub x (ground (arith, eq_refl x)) in
      let rest =
        length-Subset xs (remove x ys) d
          (λ a m. contains-remove x a ys (sub a (ground arith)) (ground (arith, eq_iff a x))) in
      omega (arith, rest, length-remove x ys here)
