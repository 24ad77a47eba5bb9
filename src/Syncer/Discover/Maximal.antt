-- ===== src/Syncer/Discover/Maximal.antt =====
-- `matchFolders` leaves no two folders over that belong together, and pairs only those that do.
use imapsync.Base.{ℕ, ◌≡◌, refl, Bool, false, none, List, [], ◌∷◌, arith, list_eq, nat_eq, any}
use imapsync.Endpoint.{FolderInfo}
use imapsync.Syncer.Discover.Fits.{fits_by_use, fits_by_name}
use imapsync.Base.Text.{equal_fold}
use imapsync.Syncer.Discover.{
  Slot, unused, left_over, pick, claim, pass, match_folders, same_name, same_special_use,
}

-- No folder that fits is left over.
abbrev pub Rejects : (FolderInfo → Bool) → List FolderInfo → Type 0
Rejects fits fs = any fits fs ≡ false

pub pick-Rejects :
    (fits : FolderInfo → Bool) (bs : List Slot)
    → (pick fits bs).0 ≡ none
    → Rejects fits (left_over (pick fits bs).1)
unfolding pick left_over
pick-Rejects fits [] h = refl
pick-Rejects fits (s ∷ bs) h = ground (arith, pick-Rejects fits bs)

-- Taking folders away keeps the others rejected.
pick-keeps :
    (test fits : FolderInfo → Bool) (bs : List Slot)
    → Rejects test (left_over bs)
    → Rejects test (left_over (pick fits bs).1)
unfolding pick left_over
pick-keeps test fits [] h = refl
pick-keeps test fits (s ∷ bs) h = ground (arith, pick-keeps test fits bs)

module _ (fits : FolderInfo → FolderInfo → Bool) where
  pub claim-keeps :
      (test : FolderInfo → Bool) (s : Slot) (bs : List Slot)
      → Rejects test (left_over bs)
      → Rejects test (left_over (claim fits s bs).1)
  unfolding claim
  claim-keeps test s bs h = ground (arith, pick-keeps test (fits s.folder) bs)

  pub pass-keeps :
      (test : FolderInfo → Bool) (xs bs : List Slot)
      → Rejects test (left_over bs)
      → Rejects test (left_over (pass fits xs bs).2)
  unfolding pass
  pass-keeps test [] bs h = h
  pass-keeps test (s ∷ xs) bs h = pass-keeps test xs (claim fits s bs).1 (claim-keeps test s bs h)

  claim-Rejects :
      (s : Slot) (bs : List Slot)
      → s.used ≡ false
      → (claim fits s bs).0 ≡ none
      → Rejects (fits s.folder) (left_over (claim fits s bs).1)
  unfolding claim
  claim-Rejects s bs h = rw h (pick-Rejects (fits s.folder) bs)

  -- After the pass, what is left over on the one side fits nothing left over on the other.
  pass-Rejects :
      (xs bs : List Slot)
      → Rejects (λ f. any (fits f) (left_over (pass fits xs bs).2)) (left_over (pass fits xs bs).1)
  unfolding pass left_over
  pass-Rejects [] bs = refl
  pass-Rejects (s ∷ xs) bs = ground (
    arith,
    claim-Rejects s bs,
    pass-keeps (fits s.folder) xs (claim fits s bs).1,
    pass-Rejects xs (claim fits s bs).1,
  )

  pub pass_keeps_a :
      (test : FolderInfo → Bool) (xs bs : List Slot)
      → Rejects test (left_over xs)
      → Rejects test (left_over (pass fits xs bs).1)
  unfolding pass left_over
  pass_keeps_a test [] bs h = refl
  pass_keeps_a test (s ∷ xs) bs h = ground (arith, pass_keeps_a test xs (claim fits s bs).1)

  pub shrink_b :
      (fs gs gs' : List FolderInfo)
      → ((test : FolderInfo → Bool) → Rejects test gs → Rejects test gs')
      → Rejects (λ f. any (fits f) gs) fs
      → Rejects (λ f. any (fits f) gs') fs
  shrink_b [] gs gs' keep h = refl
  shrink_b (f ∷ fs) gs gs' keep h = ground (arith, keep (fits f), shrink_b fs gs gs' keep)

-- No folder left over on side A has the SPECIAL-USE attribute or the name of one left over on
-- side B.
pub match_folders_maximal :
    (fold : ℕ → ℕ) (a b : List FolderInfo)
    → let m = match_folders fold a b in
      (any (λ fa. any (fits_by_use fold fa) m.only_b) m.only_a ≡ false)
      × (any (λ fa. any (fits_by_name fold fa) m.only_b) m.only_a ≡ false)
unfolding match_folders equal_fold
match_folders_maximal fold a b =
    let special = same_special_use fold in
    let name = same_name fold in
    let first = pass special (unused a) (unused b) in
    let second = pass name first.1 first.2 in
    (
      pass_keeps_a name (λ f. any (special f) (left_over second.2)) first.1 first.2
          (shrink_b special (left_over first.1) (left_over first.2) (left_over second.2)
            (λ test. pass-keeps name test first.1 first.2)
            (pass-Rejects special (unused a) (unused b))),
      pass-Rejects name first.1 first.2,
    )
