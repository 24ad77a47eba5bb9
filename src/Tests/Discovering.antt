-- ===== src/Tests/Discovering.antt =====
-- The theorems on folder discovery at concrete folders.
use imapsync.Base.{ℕ, ◌+◌, ◌≡◌, refl, ◌⊎◌, Bool, true, false, none, some, List, [], ◌∷◌, any, All}
use imapsync.Base.Text.{Text, text}
use imapsync.Base.Result.{Result, ok}
use imapsync.Endpoint.{FolderInfo}
use imapsync.Syncer.Discover.Fits.{fits_by_use, fits_by_name}
use imapsync.Syncer.Discover.{match_folders, filter_folders, Side, pair_folders}
use imapsync.Syncer.Discover.Counts.{count_a, count_b, count_names, match_folders_counts}
use imapsync.Syncer.Discover.Maximal.{match_folders_maximal}
use imapsync.Syncer.Discover.Paired.{is_pair_of, match_folders_sound}
use imapsync.Syncer.Discover.Created.{pair_folders_complete}

abbrev folder_info : Text → Text → FolderInfo
folder_info name special_use = record { name = name; special_use = special_use; selectable = true }

abbrev folders_a : List FolderInfo
folders_a = folder_info (text "INBOX") [] ∷ folder_info (text "Sent") (text "\\Sent") ∷ []

abbrev folders_b : List FolderInfo
folders_b =
    folder_info (text "Gesendet") (text "\\Sent")
    ∷ folder_info (text "INBOX") []
    ∷ folder_info (text "Old") []
    ∷ []

abbrev same_case : ℕ → ℕ
same_case c = c

match_folders_counts_example :
    let m = match_folders same_case folders_a folders_b in
    (count_a (text "INBOX") m.pairs + count_names (text "INBOX") m.only_a
      ≡ count_names (text "INBOX") folders_a)
    × (count_b (text "INBOX") m.pairs + count_names (text "INBOX") m.only_b
        ≡ count_names (text "INBOX") folders_b)
match_folders_counts_example = match_folders_counts same_case folders_a folders_b (text "INBOX")

match_folders_maximal_example :
    let m = match_folders same_case folders_a folders_b in
    (any (λ fa. any (fits_by_use same_case fa) m.only_b) m.only_a ≡ false)
    × (any (λ fa. any (fits_by_name same_case fa) m.only_b) m.only_a ≡ false)
match_folders_maximal_example = match_folders_maximal same_case folders_a folders_b

match_folders_sound_example :
    All
      (λ p.
        (is_pair_of (fits_by_use same_case) folders_a folders_b p ≡ true)
        ⊎ (is_pair_of (fits_by_name same_case) folders_a folders_b p ≡ true))
      (match_folders same_case folders_a folders_b).pairs
match_folders_sound_example = match_folders_sound same_case folders_a folders_b

-- A side whose state is the names of the folders that were created.
abbrev create : Text → List Text → Result (Unit {0}) × List Text
create name s = (ok tt, name ∷ s)

abbrev side : Bool → Side (List Text)
side is_read_only = record { read_only = is_read_only; creator = some create; lister = none }

pair_folders_complete_example :
    let kept_a = filter_folders same_case folders_a [] in
    let kept_b = filter_folders same_case folders_b [] in
    count_a
      (text "Old")
      (pair_folders same_case (side false) (side false) true true [] folders_a folders_b [] []).0
    ≡ count_names (text "Old") kept_a
      + count_names (text "Old") (match_folders same_case kept_a kept_b).only_b
pair_folders_complete_example =
    pair_folders_complete same_case (side false) (side false) create create refl refl refl refl
      (λ name s. refl) (λ name s. refl) [] folders_a folders_b [] [] (text "Old")
