-- ===== src/Syncer/Discover/Created.antt =====
-- What `pairFolders` creates on the two sides.
use imapsync.Base.{
  ℕ, ◌+◌, ◌≡◌, refl, ◌⊎◌, Bool, true, false, some, List, [], ◌∷◌, arith, list_eq, nat_eq,
}
use imapsync.Base.Result.{Result, ok}
use imapsync.Base.Text.{Text}
use imapsync.Endpoint.{FolderInfo}
use imapsync.Syncer.Discover.{
  match_folders, filter_folders, create_all, create_missing, Side, pair_folders,
}
use imapsync.Syncer.Discover.Counts.{count_a, count_names, count_a-append, match_folders_counts}

module _ (fold : ℕ → ℕ) {A B : Type 0} (side_a : Side A) (side_b : Side B) where
  -- A side is never changed by folder discovery where the direction towards it is switched off or
  -- where it is read-only.
  pub pair_folders_untouched :
      (to_b to_a : Bool) (exclude : List Text) (fa fb : List FolderInfo) (sa : A) (sb : B)
      → let r = pair_folders fold side_a side_b to_b to_a exclude fa fb sa sb in
        ((to_a ≡ false) ⊎ (side_a.read_only ≡ true) → r.1 ≡ sa)
        × ((to_b ≡ false) ⊎ (side_b.read_only ≡ true) → r.2 ≡ sb)
  unfolding pair_folders create_missing
  pair_folders_untouched to_b to_a exclude fa fb sa sb = (λ h. ground arith, λ h. ground arith)

module _ {S : Type 0} (create : Text → S → Result (Unit {0}) × S) (k : Text) where
  count-create_all :
      ((name : Text) (s : S) → (create name s).0 ≡ ok tt)
      → (fs : List FolderInfo) (s : S) → count_a k (create_all create fs s).0 ≡ count_names k fs
  unfolding create_all count_a count_names
  count-create_all works [] s = refl
  count-create_all works (f ∷ fs) s =
      ground (arith, works f.name s, count-create_all works fs (create f.name s).1)

-- Where both directions are allowed and every folder can be created, the pairs name every folder
-- that passes the filter: on side A those of side A and those that side B alone had.
pub pair_folders_complete :
    (fold : ℕ → ℕ) {A B : Type 0} (side_a : Side A) (side_b : Side B)
    (create_a : Text → A → Result (Unit {0}) × A) (create_b : Text → B → Result (Unit {0}) × B)
    → side_a.creator ≡ some create_a
    → side_b.creator ≡ some create_b
    → side_a.read_only ≡ false
    → side_b.read_only ≡ false
    → ((name : Text) (s : A) → (create_a name s).0 ≡ ok tt)
    → ((name : Text) (s : B) → (create_b name s).0 ≡ ok tt)
    → (exclude : List Text) (fa fb : List FolderInfo) (sa : A) (sb : B) (k : Text)
    → let kept_a = filter_folders fold fa exclude in
      let kept_b = filter_folders fold fb exclude in
      count_a k (pair_folders fold side_a side_b true true exclude fa fb sa sb).0
      ≡ count_names k kept_a + count_names k (match_folders fold kept_a kept_b).only_b
unfolding pair_folders create_missing
pair_folders_complete fold side_a side_b create_a create_b ha hb ra rb wa wb exclude fa fb sa sb k =
    let kept_a = filter_folders fold fa exclude in
    let kept_b = filter_folders fold fb exclude in
    let m = match_folders fold kept_a kept_b in
    rw (ha, hb, ra, rb, count_a-append k m.pairs, count_a-append k)
      (omega (
        arith,
        count-create_all create_b k wb m.only_a sb,
        count-create_all create_a k wa m.only_b sa,
        match_folders_counts fold kept_a kept_b k,
      ))
