-- ===== src/Base/Batches.antt =====
-- `for start := 0; start < len(xs); start += n`: a list is worked off in slices of `n` items.
use Prim.Native.Nat.{ℕ, zero, suc, ◌≤◌}
use mathlib.Core.Path.{◌≡◌, refl, subst}
use mathlib.Core.List.{List, [], ◌∷◌, ◌++◌}
use native.Mathlib.Omega.{arith}
use imapsync.Base.Lists.{length, take, drop, take-drop, length-drop}
use imapsync.Base.Result.{Result, ok, err}

module _ {A B S : Type 0} (step : List A → S → Result (List B) × S) (n : ℕ) where
  -- The first slice that fails ends the loop. The length of the list is fuel enough.
  unfoldable pub batched : ℕ → List A → S → Result (List B) × S
  batched fuel [] s = (ok [], s)
  batched zero (x ∷ xs) s = (ok [], s)
  batched (suc fuel) (x ∷ xs) s =
      let (got, s') = step (take n (x ∷ xs)) s in
      let (more, s'') = batched fuel (drop n (x ∷ xs)) s' in
      elim got [
        | err why ↦ (err why, s')
        | ok ys ↦ elim more [ err why ↦ (err why, s'') | ok zs ↦ (ok (ys ++ zs), s'') ]
      ]

  unfoldable pub in_batches : List A → S → Result (List B) × S
  unfolding batched
  in_batches xs s = batched (length xs) xs s

  -- Where each list that is good has an answer, and answers to two lists make up one to both, the
  -- slices together give an answer to the whole list, whatever their size.
  module _ (s : S) (IsGood : List A → Type 0) (Answers : List A → List B → Type 0)
      (answers : (xs : List A)
        → IsGood xs
        → (ys : List B) × (step xs s ≡ (ok ys, s)) × Answers xs ys)
      (halves : (xs : List A) → IsGood xs → IsGood (take n xs) × IsGood (drop n xs))
      (joins : (xs xs' : List A) (ys ys' : List B)
        → Answers xs ys
        → Answers xs' ys'
        → Answers (xs ++ xs') (ys ++ ys'))
      (nothing : Answers [] []) (positive : 1 ≤ n) where
    batched_answer :
        (fuel : ℕ) (xs : List A)
        → length xs ≤ fuel
        → IsGood xs
        → (ys : List B) × (batched fuel xs s ≡ (ok ys, s)) × Answers xs ys
    unfolding batched
    batched_answer fuel [] h good = ([], refl, nothing)
    batched_answer zero (x ∷ xs) h good = absurd (omega arith)
    batched_answer (suc fuel) (x ∷ xs) h good =
        let (good_now, good_later) = halves (x ∷ xs) good in
        let (ys, now, first) = answers (take n (x ∷ xs)) good_now in
        let (zs, later, second) =
          batched_answer fuel (drop n (x ∷ xs)) (omega (arith, length-drop n (x ∷ xs)))
            good_later in
        (
          ys ++ zs,
          ground (arith, now, later),
          subst (λ whole. Answers whole (ys ++ zs)) (take-drop n (x ∷ xs))
              (joins (take n (x ∷ xs)) (drop n (x ∷ xs)) ys zs first second),
        )

    pub in_batches_answer :
        (xs : List A) → IsGood xs → (ys : List B) × (in_batches xs s ≡ (ok ys, s)) × Answers xs ys
    unfolding in_batches
    in_batches_answer xs good = batched_answer (length xs) xs (omega arith) good
