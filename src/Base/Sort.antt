-- ===== src/Base/Sort.antt =====
-- `ORDER BY`: insertion sort by a Boolean order.
use imapsync.Base.Equality.{Eq, eq_comm, if◌then◌else◌, nat_eq, ltb, ◌==◌}
use imapsync.Base.Lists.{length, contains, All, IsDistinct}
use Prim.Native.Nat.{ℕ, suc}
use mathlib.Core.Bool.{Bool, true, false, ◌&&◌, ◌||◌}
use mathlib.Core.Path.{◌≡◌, refl, ◌∙◌}
use mathlib.Core.List.{List, [], ◌∷◌, map}
use native.Mathlib.Omega.{arith}

module _ {A : Type 0} (before : A → A → Bool) where
  unfoldable pub insert_sorted : A → List A → List A
  insert_sorted a [] = a ∷ []
  insert_sorted a (x ∷ xs) = if before a x then a ∷ x ∷ xs else x ∷ insert_sorted a xs

  unfoldable pub sort : List A → List A
  unfolding insert_sorted
  sort [] = []
  sort (x ∷ xs) = insert_sorted x (sort xs)

  length-insert_sorted : (a : A) (xs : List A) → length (insert_sorted a xs) ≡ suc (length xs)
  unfolding insert_sorted
  length-insert_sorted a [] = refl
  length-insert_sorted a (x ∷ xs) = ground (arith, length-insert_sorted a xs)

  -- Nothing is lost or added.
  pub length-sort : (xs : List A) → length (sort xs) ≡ length xs
  unfolding sort
  length-sort [] = refl
  length-sort (x ∷ xs) = ground (arith, length-insert_sorted x (sort xs), length-sort xs)

module _ {A : Type 0} ⦃e : Eq A⦄ (before : A → A → Bool) where
  contains-insert_sorted :
      (b a : A) (xs : List A) → contains (insert_sorted before a xs) b ≡ (b == a || contains xs b)
  unfolding insert_sorted
  contains-insert_sorted b a [] = refl
  contains-insert_sorted b a (x ∷ xs) = ground (arith, contains-insert_sorted b a xs)

  -- Sorting keeps what a list contains.
  pub contains-sort : (b : A) (xs : List A) → contains (sort before xs) b ≡ contains xs b
  unfolding sort
  contains-sort b [] = refl
  contains-sort b (x ∷ xs) =
      ground (arith, contains-insert_sorted b x (sort before xs), contains-sort b xs)

module _ {κ} {A : Type 0} (before : A → A → Bool) where
  All-insert_sorted :
      (P : A → Type κ) (a : A) (xs : List A) → P a → All P xs → All P (insert_sorted before a xs)
  unfolding insert_sorted
  All-insert_sorted P a [] p h = (p, tt)
  All-insert_sorted P a (x ∷ xs) p (q, h) = go (before a x) (All-insert_sorted P a xs p h)
    where
      go :
          (b : Bool)
          → All P (insert_sorted before a xs)
          → All P (if b then a ∷ x ∷ xs else x ∷ insert_sorted before a xs)
      go true rest = (p, (q, h))
      go false rest = (q, rest)

  pub All-sort : (P : A → Type κ) (xs : List A) → All P xs → All P (sort before xs)
  unfolding sort
  All-sort P [] h = tt
  All-sort P (x ∷ xs) (p, h) = All-insert_sorted P x (sort before xs) p (All-sort P xs h)

module _ {A : Type 0} (before : A → A → Bool) where
  module _ {B : Type 0} ⦃e : Eq B⦄ (f : A → B) where
    contains-map-insert_sorted :
        (b : B) (a : A) (xs : List A)
        → contains (map f (insert_sorted before a xs)) b ≡ (b == f a || contains (map f xs) b)
    unfolding insert_sorted
    contains-map-insert_sorted b a [] = refl
    contains-map-insert_sorted b a (x ∷ xs) = ground (arith, contains-map-insert_sorted b a xs)

    contains-map-sort :
        (b : B) (xs : List A) → contains (map f (sort before xs)) b ≡ contains (map f xs) b
    unfolding sort
    contains-map-sort b [] = refl
    contains-map-sort b (x ∷ xs) =
        ground (arith, contains-map-insert_sorted b x (sort before xs), contains-map-sort b xs)

    IsDistinct-insert_sorted :
        (a : A) (xs : List A)
        → contains (map f xs) (f a) ≡ false
        → IsDistinct (map f xs)
        → IsDistinct (map f (insert_sorted before a xs))
    unfolding insert_sorted
    IsDistinct-insert_sorted a [] h d = (refl, tt)
    IsDistinct-insert_sorted a (x ∷ xs) h (fresh, d) =
        go (before a x) (IsDistinct-insert_sorted a xs (ground arith) d)
      where
        go :
            (b : Bool)
            → IsDistinct (map f (insert_sorted before a xs))
            → IsDistinct (map f (if b then a ∷ x ∷ xs else x ∷ insert_sorted before a xs))
        go true rest = (h, (fresh, d))
        go false rest =
            (ground (arith, contains-map-insert_sorted (f x) a xs, eq_comm (f x) (f a)), rest)

    -- Sorting keeps what is distinct in the items distinct.
    pub IsDistinct-sort :
        (xs : List A) → IsDistinct (map f xs) → IsDistinct (map f (sort before xs))
    unfolding sort
    IsDistinct-sort [] d = tt
    IsDistinct-sort (x ∷ xs) (fresh, d) =
        IsDistinct-insert_sorted x (sort before xs) (contains-map-sort (f x) xs ∙ fresh)
          (IsDistinct-sort xs d)

-- SQLite's order of texts
unfoldable pub text_leb : List ℕ → List ℕ → Bool
text_leb [] ys = true
text_leb (x ∷ xs) [] = false
text_leb (x ∷ xs) (y ∷ ys) = ltb x y || x == y && text_leb xs ys
