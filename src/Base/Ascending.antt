-- ===== src/Base/Ascending.antt =====
-- Lists of numbers in ascending order, their parts, and how many items of a list pass a test.
use Prim.Native.Nat.{ℕ, zero, suc, ◌+◌, ◌<◌}
use mathlib.Core.Path.{◌≡◌}
use mathlib.Core.Bool.{Bool, true}
use mathlib.Core.List.{List, [], ◌∷◌, ◌++◌}
use native.Mathlib.Omega.{arith}
use imapsync.Base.Equality.{nat_eq, if◌then◌else◌}
use imapsync.Base.Lists.{All, contains, take, drop}

unfoldable pub tally : (ℕ → Bool) → List ℕ → ℕ
tally p [] = 0
tally p (x ∷ xs) = let rest = tally p xs in if p x then rest + 1 else rest

pub tally-append : (p : ℕ → Bool) (xs ys : List ℕ) → tally p (xs ++ ys) ≡ tally p xs + tally p ys
unfolding tally
tally-append p [] ys = omega arith
tally-append p (x ∷ xs) ys = ground (arith, tally-append p xs ys)

abbrev pub IsAscending : List ℕ → Type 0
IsAscending [] = Unit
IsAscending (x ∷ xs) = All (λ y. x < y) xs × IsAscending xs

All-take : (P : ℕ → Type 0) (n : ℕ) (xs : List ℕ) → All P xs → All P (take n xs)
All-take P zero [] h = tt
All-take P zero (x ∷ xs) h = tt
All-take P (suc n) [] h = tt
All-take P (suc n) (x ∷ xs) (here, h) = (here, All-take P n xs h)

pub IsAscending-take : (n : ℕ) (xs : List ℕ) → IsAscending xs → IsAscending (take n xs)
IsAscending-take zero [] h = tt
IsAscending-take zero (x ∷ xs) h = tt
IsAscending-take (suc n) [] h = tt
IsAscending-take (suc n) (x ∷ xs) (first, h) = (All-take _ n xs first, IsAscending-take n xs h)

pub IsAscending-drop : (n : ℕ) (xs : List ℕ) → IsAscending xs → IsAscending (drop n xs)
IsAscending-drop zero [] h = tt
IsAscending-drop zero (x ∷ xs) h = h
IsAscending-drop (suc n) [] h = tt
IsAscending-drop (suc n) (x ∷ xs) (first, h) = IsAscending-drop n xs h

pub contains-take :
    (n : ℕ) (xs : List ℕ) (a : ℕ) → contains (take n xs) a ≡ true → contains xs a ≡ true
contains-take zero [] a h = h
contains-take zero (x ∷ xs) a h = cc
contains-take (suc n) [] a h = h
contains-take (suc n) (x ∷ xs) a h = ground (arith, h, contains-take n xs a)

pub contains-drop :
    (n : ℕ) (xs : List ℕ) (a : ℕ) → contains (drop n xs) a ≡ true → contains xs a ≡ true
contains-drop zero [] a h = h
contains-drop zero (x ∷ xs) a h = h
contains-drop (suc n) [] a h = h
contains-drop (suc n) (x ∷ xs) a h = ground (arith, contains-drop n xs a h)
