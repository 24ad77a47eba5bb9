-- ===== src/Syncer/Discover.antt =====
-- internal/syncer/discover.go: filtering and pairing the folders of both sides. `fold` is the
-- case folding of one character, as `strings.EqualFold` uses it.
pub mod Counts
pub mod Maximal
pub mod Paired
pub mod Created
pub mod Fits
use imapsync.Base.{
  ℕ, Bool, true, false, ◌&&◌, ◌||◌, not, Option, none, some, List, [], ◌∷◌, ◌++◌, map,
  if◌then◌else◌, any, filter,
}
use imapsync.Base.Result.{Result, ok, err}
use imapsync.Base.Text.{Text, is_empty, trim_space, equal_fold}
use imapsync.Config.{FolderPair}
use imapsync.Endpoint.{FolderInfo}

-- A folder with its place in `matchedA` or `usedB`.
pub record Slot : Type 0 where
  pub folder : FolderInfo
  pub used : Bool

pub record Matched : Type 0 where
  pub pairs : List FolderPair
  pub only_a : List FolderInfo
  pub only_b : List FolderInfo

abbrev pub unused : List FolderInfo → List Slot
unused = map (λ f. record { folder = f; used = false })

-- The folders whose flag is not set.
unfoldable pub left_over : List Slot → List FolderInfo
left_over [] = []
left_over (s ∷ ss) = let rest = left_over ss in if not s.used then s.folder ∷ rest else rest

-- The inner loop: the first unused folder that fits is taken.
unfoldable pub pick : (FolderInfo → Bool) → List Slot → Option FolderInfo × List Slot
pick fits [] = (none, [])
pick fits (s ∷ ss) =
    let (found, ss') = pick fits ss in
    if not s.used && fits s.folder
    then (some s.folder, record s { used = true } ∷ ss)
    else (found, s ∷ ss')

-- One round of the outer loop.
unfoldable pub claim :
    (FolderInfo → FolderInfo → Bool) → Slot → List Slot → Option FolderInfo × List Slot
claim fits s bs = if s.used then (none, bs) else pick (fits s.folder) bs

abbrev pub mark : Option FolderInfo → Slot → Slot
mark none s = s
mark (some f) s = record s { used = true }

abbrev pub add_pair : FolderInfo → Option FolderInfo → List FolderPair → List FolderPair
add_pair fa none ps = ps
add_pair fa (some fb) ps = record { a = fa.name; b = fb.name } ∷ ps

-- One of the two outer loops: the pairs it makes, and the flags after it.
unfoldable pub pass :
    (FolderInfo → FolderInfo → Bool)
    → List Slot
    → List Slot
    → List FolderPair × List Slot × List Slot
pass fits [] bs = ([], [], bs)
pass fits (s ∷ xs) bs =
    let (found, bs') = claim fits s bs in
    let (ps, xs', bs'') = pass fits xs bs' in (add_pair s.folder found ps, mark found s ∷ xs', bs'')

module _ (fold : ℕ → ℕ) where
  abbrev pub same_special_use : FolderInfo → FolderInfo → Bool
  same_special_use fa fb =
      not (is_empty fa.special_use)
      && not (is_empty fb.special_use)
      && equal_fold fold fa.special_use fb.special_use

  abbrev pub same_name : FolderInfo → FolderInfo → Bool
  same_name fa fb = equal_fold fold fa.name fb.name

  unfoldable pub match_folders : List FolderInfo → List FolderInfo → Matched
  match_folders a b =
      let (by_use, xs, bs) = pass same_special_use (unused a) (unused b) in
      let (by_name, xs', bs') = pass same_name xs bs in
      record { pairs = by_use ++ by_name; only_a = left_over xs'; only_b = left_over bs' }

  unfoldable pub is_excluded : FolderInfo → List Text → Bool
  is_excluded f exclude =
      any
        (λ raw.
          let ex = trim_space raw in
          not (is_empty ex)
          && (equal_fold fold ex f.name
              || not (is_empty f.special_use) && equal_fold fold ex f.special_use))
        exclude

  unfoldable pub filter_folders : List FolderInfo → List Text → List FolderInfo
  filter_folders folders exclude = filter (λ f. f.selectable && not (is_excluded f exclude)) folders

-- `endpoint.FolderCreator`, where the session implements it.
abbrev pub Creator : Type 0 → Type 0
Creator S = Option (Text → S → Result (Unit {0}) × S)

-- The loop that creates the folders that one side lacks: a failure skips the folder.
unfoldable pub create_all :
    {S : Type 0} → (Text → S → Result (Unit {0}) × S) → List FolderInfo → S → List FolderPair × S
create_all create [] s = ([], s)
create_all create (f ∷ fs) s =
    let (outcome, s') = create f.name s in
    let (ps, s'') = create_all create fs s' in
    elim outcome [ ok _ ↦ (record { a = f.name; b = f.name } ∷ ps, s'') | err _ ↦ (ps, s'') ]

-- Without a creator, or where the direction is not allowed, nothing is created.
unfoldable pub create_missing :
    {S : Type 0} → Creator S → Bool → List FolderInfo → S → List FolderPair × S
create_missing none allowed fs s = ([], s)
create_missing (some create) allowed fs s = if allowed then create_all create fs s else ([], s)

-- A session as far as `pairFolders` and `resolveFolders` use it.
pub record Side (S : Type 0) : Type 0 where
  pub read_only : Bool
  pub creator : Creator S
  pub lister : Option (S → Result (List FolderInfo) × S)

module _ (fold : ℕ → ℕ) {A B : Type 0} (side_a : Side A) (side_b : Side B) where
  -- `dirAToB` and `dirBToA` come from the configuration.
  unfoldable pub pair_folders :
      Bool → Bool → List Text → List FolderInfo → List FolderInfo → A → B → List FolderPair × A × B
  pair_folders dir_a_to_b dir_b_to_a exclude folders_a folders_b sa sb =
      let m =
        match_folders fold (filter_folders fold folders_a exclude)
          (filter_folders fold folders_b exclude) in
      let (on_b, sb') =
        create_missing side_b.creator (dir_a_to_b && not side_b.read_only) m.only_a sb in
      let (on_a, sa') =
        create_missing side_a.creator (dir_b_to_a && not side_a.read_only) m.only_b sa in
      (m.pairs ++ (on_b ++ on_a), sa', sb')
