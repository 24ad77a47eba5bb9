-- ===== src/Syncer/Discover/Paired.antt =====
-- Whatever `matchFolders` pairs belongs together.
use imapsync.Base.{
  ℕ, ◌≡◌, refl, Bool, true, ◌&&◌, Option, none, some, List, [], ◌∷◌, arith, ◌==◌, list_eq, nat_eq,
  All, All-map, eq_refl, All-append, ◌⊎◌, inl, inr, any,
}
use imapsync.Config.{FolderPair}
use imapsync.Endpoint.{FolderInfo}
use imapsync.Syncer.Discover.Fits.{fits_by_use, fits_by_name}
use imapsync.Base.Text.{equal_fold}
use imapsync.Syncer.Discover.{
  Slot, unused, left_over, pick, claim, add_pair, pass, match_folders, same_name, same_special_use,
}
use imapsync.Syncer.Discover.Maximal.{Rejects, claim-keeps, pass-keeps, pass_keeps_a}
use imapsync.Syncer.Discover.Counts.{left_over-unused}

-- The pair `p` names a folder of each side, and the two fit.
abbrev pub is_pair_of :
    (FolderInfo → FolderInfo → Bool) → List FolderInfo → List FolderInfo → FolderPair → Bool
is_pair_of fits fs gs p =
    any (λ fa. any (λ fb. fits fa fb && (fa.name == p.a && fb.name == p.b)) gs) fs

pick_sound :
    (fits test : FolderInfo → Bool) (bs : List Slot) (fb : FolderInfo)
    → (pick fits bs).0 ≡ some fb
    → (fits fb ≡ true) × (test fb ≡ true → any test (left_over bs) ≡ true)
unfolding pick left_over
pick_sound fits test [] fb h = cc
pick_sound fits test (s ∷ bs) fb h = ground (arith, pick_sound fits test bs fb)

-- Folders that can only be rejected more often are found less often.
found_before :
    (test : FolderInfo → Bool) (gs gs' : List FolderInfo)
    → (Rejects test gs → Rejects test gs')
    → any test gs' ≡ true
    → any test gs ≡ true
found_before test gs gs' keep h = ground (arith, keep)

All-add_pair :
    (P : FolderPair → Type 0) (fa : FolderInfo) (found : Option FolderInfo) (ps : List FolderPair)
    → ((fb : FolderInfo) → found ≡ some fb → P (record { a = fa.name; b = fb.name }))
    → All P ps
    → All P (add_pair fa found ps)
All-add_pair P fa none ps h rest = rest
All-add_pair P fa (some fb) ps h rest = (h fb refl, rest)

module _ (fits : FolderInfo → FolderInfo → Bool) where
  grow_b :
      (fs gs gs' : List FolderInfo) (p : FolderPair)
      → ((test : FolderInfo → Bool) → Rejects test gs → Rejects test gs')
      → is_pair_of fits fs gs' p ≡ true
      → is_pair_of fits fs gs p ≡ true
  grow_b [] gs gs' p keep h = h
  grow_b (f ∷ fs) gs gs' p keep h =
      ground (
        arith,
        keep (λ fb. fits f fb && (f.name == p.a && fb.name == p.b)),
        grow_b fs gs gs' p keep,
      )

  claim_sound :
      (s : Slot) (bs : List Slot) (fb : FolderInfo)
      → (claim fits s bs).0 ≡ some fb
      → is_pair_of fits
          (left_over (s ∷ []))
          (left_over bs)
          (record { a = s.folder.name; b = fb.name })
        ≡ true
  unfolding claim left_over
  claim_sound s bs fb h =
      let found =
        pick_sound (fits s.folder)
          (λ fb'. fits s.folder fb' && (s.folder.name == s.folder.name && fb'.name == fb.name)) bs
          fb in
      ground (arith, found, eq_refl s.folder.name, eq_refl fb.name)

  tail_pair :
      (s : Slot) (xs : List Slot) (gs : List FolderInfo) (p : FolderPair)
      → is_pair_of fits (left_over xs) gs p ≡ true
      → is_pair_of fits (left_over (s ∷ xs)) gs p ≡ true
  unfolding left_over
  tail_pair s xs gs p h = ground arith

  head_pair :
      (s : Slot) (xs : List Slot) (gs : List FolderInfo) (p : FolderPair)
      → is_pair_of fits (left_over (s ∷ [])) gs p ≡ true
      → is_pair_of fits (left_over (s ∷ xs)) gs p ≡ true
  unfolding left_over
  head_pair s xs gs p h = ground arith

  pass_sound :
      (xs bs : List Slot)
      → All (λ p. is_pair_of fits (left_over xs) (left_over bs) p ≡ true) (pass fits xs bs).0
  unfolding pass
  pass_sound [] bs = tt
  pass_sound (s ∷ xs) bs =
      let bs' = (claim fits s bs).1 in
      let later =
        All-map _ (λ p. is_pair_of fits (left_over (s ∷ xs)) (left_over bs) p ≡ true)
          (λ p h. tail_pair s xs (left_over bs) p (
            grow_b (left_over xs) (left_over bs) (left_over bs') p
              (λ test. claim-keeps fits test s bs) h))
          (pass fits xs bs').0 (pass_sound xs bs') in
      All-add_pair (λ p. is_pair_of fits (left_over (s ∷ xs)) (left_over bs) p ≡ true) s.folder
        (claim fits s bs).0 (pass fits xs bs').0
        (λ fb h. head_pair s xs (left_over bs) _ (claim_sound s bs fb h)) later

from_unused :
    (fits : FolderInfo → FolderInfo → Bool) (a b : List FolderInfo) (p : FolderPair)
    → is_pair_of fits (left_over (unused a)) (left_over (unused b)) p ≡ true
    → is_pair_of fits a b p ≡ true
from_unused fits a b p h = rw (← left_over-unused a, ← left_over-unused b) h

-- A pair of folders that the first pass left over is a pair of folders that were there before it.
before_pass :
    (first fits : FolderInfo → FolderInfo → Bool) (xs bs : List Slot) (p : FolderPair)
    → is_pair_of fits (left_over (pass first xs bs).1) (left_over (pass first xs bs).2) p ≡ true
    → is_pair_of fits (left_over xs) (left_over bs) p ≡ true
before_pass first fits xs bs p h =
    grow_b fits (left_over xs) (left_over bs) (left_over (pass first xs bs).2) p
      (λ test. pass-keeps first test xs bs)
      (found_before _ (left_over xs) (left_over (pass first xs bs).1) (pass_keeps_a first _ xs bs)
        h)

-- Every pair that `matchFolders` makes names a folder of each side, and the two have one
-- SPECIAL-USE attribute or one name.
pub match_folders_sound :
    (fold : ℕ → ℕ) (a b : List FolderInfo)
    → All
        (λ p.
          (is_pair_of (fits_by_use fold) a b p ≡ true)
          ⊎ (is_pair_of (fits_by_name fold) a b p ≡ true))
        (match_folders fold a b).pairs
unfolding match_folders equal_fold
match_folders_sound fold a b =
    let special = same_special_use fold in
    let name = same_name fold in
    let first = pass special (unused a) (unused b) in
    let second = pass name first.1 first.2 in
    All-append _ first.0 second.0
      (All-map (λ p. is_pair_of special (left_over (unused a)) (left_over (unused b)) p ≡ true) _
        (λ p h. inl (from_unused special a b p h)) first.0
        (pass_sound special (unused a) (unused b)))
      (All-map (λ p. is_pair_of name (left_over first.1) (left_over first.2) p ≡ true) _
        (λ p h. inr (from_unused name a b p (before_pass special name (unused a) (unused b) p h)))
        second.0 (pass_sound name first.1 first.2))
