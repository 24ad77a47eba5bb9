-- ===== src/Base/Dict/Rows.antt =====
-- Properties that all rows of a table have, and its keys, when rows are inserted, erased and kept.
use imapsync.Base.Equality.{if◌then◌else◌, Eq, ◌==◌, eq_iff, Bool-cases}
use imapsync.Base.Lists.{contains, All, IsDistinct}
use mathlib.Core.Path.{◌≡◌, refl, subst}
use mathlib.Core.Option.{some}
use mathlib.Core.Logic.{inl, inr}
use mathlib.Core.Bool.{Bool, true, false, ◌||◌}
use mathlib.Core.List.{[], ◌∷◌}
use native.Mathlib.Omega.{arith}
use imapsync.Base.Dict
use imapsync.Base.Dict.{Dict, keys, keep, insert, erase}

module _ {ℓ κ} {K : Type 0} {V : Type ℓ} (P : K × V → Type κ) where
  pub All-keep : (test : K → V → Bool) (d : Dict K V) → All P d → All P (keep test d)
  unfolding keep
  All-keep test [] h = tt
  All-keep test ((k, v) ∷ d) (p, h) = go (test k v) (All-keep test d h)
    where
      go :
          (b : Bool) → All P (keep test d) → All P (if b then (k, v) ∷ keep test d else keep test d)
      go true rest = (p, rest)
      go false rest = rest

  module _ ⦃e : Eq K⦄ where
    pub All-insert : (k : K) (v : V) (d : Dict K V) → P (k, v) → All P d → All P (insert k v d)
    unfolding insert
    All-insert k v [] p h = (p, tt)
    All-insert k v ((j, w) ∷ d) p (q, h) = go (j == k) (All-insert k v d p h)
      where
        go :
            (b : Bool)
            → All P (insert k v d)
            → All P (if b then (k, v) ∷ d else (j, w) ∷ insert k v d)
        go true rest = (p, h)
        go false rest = (q, rest)

    pub All-erase : (k : K) (d : Dict K V) → All P d → All P (erase k d)
    unfolding erase
    All-erase k [] h = tt
    All-erase k ((j, w) ∷ d) (q, h) = go (j == k) (All-erase k d h)
      where
        go : (b : Bool) → All P (erase k d) → All P (if b then erase k d else (j, w) ∷ erase k d)
        go true rest = rest
        go false rest = (q, rest)

    -- A row that is found has the property.
    pub All-lookup : (k : K) (v : V) (d : Dict K V) → All P d → Dict.lookup k d ≡ some v → P (k, v)
    unfolding Dict.lookup
    All-lookup k v [] h e = cc
    All-lookup k v ((j, w) ∷ d) (q, h) found = elim (Bool-cases (j == k)) [
      | inl same ↦ subst P (ground (arith, eq_iff j k, found, same)) q
      | inr other ↦ All-lookup k v d h (ground arith)
    ]

module _ {ℓ} {K : Type 0} {V : Type ℓ} ⦃e : Eq K⦄ where
  contains-keys_insert :
      (i k : K) (v : V) (d : Dict K V)
      → contains (keys (insert k v d)) i ≡ (i == k || contains (keys d) i)
  unfolding keys insert
  contains-keys_insert i k v [] = refl
  contains-keys_insert i k v ((j, w) ∷ d) = ground (arith, eq_iff j k, contains-keys_insert i k v d)

  contains-keys_erase :
      (i k : K) (d : Dict K V) → contains (keys (erase k d)) i ≡ true → contains (keys d) i ≡ true
  unfolding keys erase
  contains-keys_erase i k [] h = h
  contains-keys_erase i k ((j, w) ∷ d) h = ground (arith, contains-keys_erase i k d)

  contains-keys_keep :
      (i : K) (test : K → V → Bool) (d : Dict K V)
      → contains (keys (keep test d)) i ≡ true
      → contains (keys d) i ≡ true
  unfolding keys keep
  contains-keys_keep i test [] h = h
  contains-keys_keep i test ((j, w) ∷ d) h = ground (arith, contains-keys_keep i test d)

  pub IsDistinct-insert :
      (k : K) (v : V) (d : Dict K V) → IsDistinct (keys d) → IsDistinct (keys (insert k v d))
  unfolding keys insert
  IsDistinct-insert k v [] h = (refl, tt)
  IsDistinct-insert k v ((j, w) ∷ d) (fresh, h) = elim (Bool-cases (j == k)) [
    | inl same ↦ ground (arith, eq_iff j k)
    | inr other ↦ rw other (ground (arith, contains-keys_insert j k v d), IsDistinct-insert k v d h)
  ]

  pub IsDistinct-erase :
      (k : K) (d : Dict K V) → IsDistinct (keys d) → IsDistinct (keys (erase k d))
  unfolding keys erase
  IsDistinct-erase k [] h = tt
  IsDistinct-erase k ((j, w) ∷ d) (fresh, h) =
      ground (arith, contains-keys_erase j k d, IsDistinct-erase k d h)

  pub IsDistinct-keep :
      (test : K → V → Bool) (d : Dict K V) → IsDistinct (keys d) → IsDistinct (keys (keep test d))
  unfolding keys keep
  IsDistinct-keep test [] h = tt
  IsDistinct-keep test ((j, w) ∷ d) (fresh, h) =
      ground (arith, contains-keys_keep j test d, IsDistinct-keep test d h)
