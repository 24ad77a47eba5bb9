-- ===== src/Syncer/Discover/Counts.antt =====
-- `matchFolders` puts every folder into one pair or leaves it over on its side.
use imapsync.Base.{
  ℕ, ◌+◌, ◌≡◌, refl, ap, Bool, true, false, Option, none, some, List, [], ◌∷◌, ◌++◌, arith, ◌==◌,
  list_eq, nat_eq,
}
use imapsync.Base.Text.{Text}
use imapsync.Config.{FolderPair}
use imapsync.Endpoint.{FolderInfo}
use imapsync.Syncer.Discover.{
  Slot, unused, left_over, pick, claim, pass, match_folders, same_name, same_special_use,
}

-- How often a name stands among the folders, or on one side of the pairs.
abbrev one_if : Bool → ℕ
one_if true = 1
one_if false = 0

unfoldable pub count_names : Text → List FolderInfo → ℕ
count_names k [] = 0
count_names k (f ∷ fs) = one_if (f.name == k) + count_names k fs

unfoldable pub count_a : Text → List FolderPair → ℕ
count_a k [] = 0
count_a k (p ∷ ps) = one_if (p.a == k) + count_a k ps

unfoldable pub count_b : Text → List FolderPair → ℕ
count_b k [] = 0
count_b k (p ∷ ps) = one_if (p.b == k) + count_b k ps

pub left_over-unused : (fs : List FolderInfo) → left_over (unused fs) ≡ fs
unfolding left_over
left_over-unused [] = refl
left_over-unused (f ∷ fs) = ap (◌∷◌ f) (left_over-unused fs)

module _ (k : Text) where
  abbrev taken : Option FolderInfo → ℕ
  taken none = 0
  taken (some f) = one_if (f.name == k)

  count-pick :
      (fits : FolderInfo → Bool) (bs : List Slot)
      → taken (pick fits bs).0 + count_names k (left_over (pick fits bs).1)
        ≡ count_names k (left_over bs)
  unfolding pick left_over count_names
  count-pick fits [] = refl
  count-pick fits (s ∷ bs) = ground (arith, count-pick fits bs)

  count-claim :
      (fits : FolderInfo → FolderInfo → Bool) (s : Slot) (bs : List Slot)
      → taken (claim fits s bs).0 + count_names k (left_over (claim fits s bs).1)
        ≡ count_names k (left_over bs)
  unfolding claim
  count-claim fits s bs = ground (arith, count-pick (fits s.folder) bs)

  count_b-pass :
      (fits : FolderInfo → FolderInfo → Bool) (xs bs : List Slot)
      → count_b k (pass fits xs bs).0 + count_names k (left_over (pass fits xs bs).2)
        ≡ count_names k (left_over bs)
  unfolding pass count_b
  count_b-pass fits [] bs = omega arith
  count_b-pass fits (s ∷ xs) bs =
      ground (arith, count-claim fits s bs, count_b-pass fits xs (claim fits s bs).1)

  -- A slot that is taken leaves the folders that are left over.
  claim_used :
      (fits : FolderInfo → FolderInfo → Bool) (s : Slot) (bs : List Slot)
      → s.used ≡ true
      → (claim fits s bs).0 ≡ none
  unfolding claim
  claim_used fits s bs h = rw h

  count_a-pass :
      (fits : FolderInfo → FolderInfo → Bool) (xs bs : List Slot)
      → count_a k (pass fits xs bs).0 + count_names k (left_over (pass fits xs bs).1)
        ≡ count_names k (left_over xs)
  unfolding pass count_a left_over count_names
  count_a-pass fits [] bs = refl
  count_a-pass fits (s ∷ xs) bs =
      ground (arith, claim_used fits s bs, count_a-pass fits xs (claim fits s bs).1)

  pub count_a-append :
      (ps qs : List FolderPair) → count_a k (ps ++ qs) ≡ count_a k ps + count_a k qs
  unfolding count_a
  count_a-append [] qs = omega arith
  count_a-append (p ∷ ps) qs = omega (arith, count_a-append ps qs)

  count_b-append : (ps qs : List FolderPair) → count_b k (ps ++ qs) ≡ count_b k ps + count_b k qs
  unfolding count_b
  count_b-append [] qs = omega arith
  count_b-append (p ∷ ps) qs = omega (arith, count_b-append ps qs)

-- Every name stands among the pairs and the folders left over exactly as often as it stood among
-- the folders of its side: no folder is lost, and none is in two pairs.
pub match_folders_counts :
    (fold : ℕ → ℕ) (a b : List FolderInfo) (k : Text)
    → let m = match_folders fold a b in
      (count_a k m.pairs + count_names k m.only_a ≡ count_names k a)
      × (count_b k m.pairs + count_names k m.only_b ≡ count_names k b)
unfolding match_folders
match_folders_counts fold a b k =
    let first = pass (same_special_use fold) (unused a) (unused b) in
    let second = pass (same_name fold) first.1 first.2 in
    (
      omega (
        arith,
        count_a-append k first.0 second.0,
        count_a-pass k (same_special_use fold) (unused a) (unused b),
        count_a-pass k (same_name fold) first.1 first.2,
        ap (count_names k) (left_over-unused a),
      ),
      omega (
        arith,
        count_b-append k first.0 second.0,
        count_b-pass k (same_special_use fold) (unused a) (unused b),
        count_b-pass k (same_name fold) first.1 first.2,
        ap (count_names k) (left_over-unused b),
      ),
    )
