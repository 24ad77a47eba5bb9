-- ===== src/Base/Dict.antt =====
-- Go's maps, and the rows of a table under its key, as association lists.
pub mod Rows
use mathlib.Core.Path.{◌≡◌, refl}
use mathlib.Core.Bool.{Bool, true, false, ◌||◌}
use mathlib.Core.Option.{Option, none, some}
use mathlib.Core.List.{List, [], ◌∷◌, ◌++◌}
use native.Mathlib.Omega.{arith}
use imapsync.Base.Equality.{if◌then◌else◌, Eq, ◌==◌, eq_iff, eq_comm}
use imapsync.Base.Lists.{contains}

abbrev pub Dict {ℓ κ} : Type ℓ → Type κ → Type (ℓ ⊔ κ)
Dict K V = List (K × V)

module _ {ℓ κ} {K : Type ℓ} {V : Type κ} where
  unfoldable pub keys : Dict K V → List K
  keys [] = []
  keys ((k, v) ∷ d) = k ∷ keys d

  -- The entries whose key and value pass the test.
  unfoldable pub keep : (K → V → Bool) → Dict K V → Dict K V
  keep test [] = []
  keep test ((k, v) ∷ d) = let rest = keep test d in if test k v then (k, v) ∷ rest else rest

module _ {ℓ κ} {K : Type ℓ} {V : Type κ} ⦃e : Eq K⦄ where
  unfoldable pub lookup : K → Dict K V → Option V
  lookup k [] = none
  lookup k ((j, v) ∷ d) = if j == k then some v else lookup k d

  -- `_, ok := d[k]`
  unfoldable pub member : K → Dict K V → Bool
  unfolding lookup
  member k d = elim (lookup k d) [ none ↦ false | some v ↦ true ]

  -- `d[k] = v`
  unfoldable pub insert : K → V → Dict K V → Dict K V
  insert k v [] = (k, v) ∷ []
  insert k v ((j, w) ∷ d) = if j == k then (k, v) ∷ d else (j, w) ∷ insert k v d

  -- `delete(d, k)`
  unfoldable pub erase : K → Dict K V → Dict K V
  erase k [] = []
  erase k ((j, w) ∷ d) = let rest = erase k d in if j == k then rest else (j, w) ∷ rest

  pub lookup-insert :
      (k j : K) (v : V) (d : Dict K V)
      → lookup j (insert k v d) ≡ (if k == j then some v else lookup j d)
  unfolding lookup insert
  lookup-insert k j v [] = refl
  lookup-insert k j v ((i, w) ∷ d) =
      ground (arith, eq_iff k j, eq_iff i k, eq_iff i j, lookup-insert k j v d)

  pub lookup-erase :
      (k j : K) (d : Dict K V) → lookup j (erase k d) ≡ (if k == j then none else lookup j d)
  unfolding lookup erase
  lookup-erase k j [] = ground arith
  lookup-erase k j ((i, w) ∷ d) =
      ground (arith, eq_iff k j, eq_iff i k, eq_iff i j, lookup-erase k j d)

  pub member-insert :
      (k j : K) (v : V) (d : Dict K V) → member j (insert k v d) ≡ (k == j || member j d)
  unfolding member
  member-insert k j v d = ground (arith, lookup-insert k j v d)

  -- A test on the key alone keeps or drops all that a key has.
  pub lookup-keep :
      (test : K → Bool) (k : K) (d : Dict K V)
      → lookup k (keep (λ j v. test j) d) ≡ (if test k then lookup k d else none)
  unfolding lookup keep
  lookup-keep test k [] = ground arith
  lookup-keep test k ((j, v) ∷ d) = ground (arith, eq_iff j k, lookup-keep test k d)

  pub contains-keys : (k : K) (d : Dict K V) → contains (keys d) k ≡ member k d
  unfolding keys member lookup
  contains-keys k [] = refl
  contains-keys k ((j, v) ∷ d) = ground (arith, eq_comm k j, contains-keys k d)

  pub keys_insert_of_none :
      (k : K) (v : V) (d : Dict K V) → lookup k d ≡ none → keys (insert k v d) ≡ keys d ++ (k ∷ [])
  unfolding keys insert lookup
  keys_insert_of_none k v [] h = refl
  keys_insert_of_none k v ((j, w) ∷ d) h = ground (arith, keys_insert_of_none k v d)
